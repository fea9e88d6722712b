-- ===== src/Mp/Start.antt =====
-- mp_init.c: the start of the other processors. The assembly that they run is in a file of another
-- repository: its bytes and its symbols are a parameter, as are the page tables and the counter of
-- the processors that woke up.
pub mod Patch
pub mod Wakes
use trusty_platform_sand.Base.{
  minus64, ℕ, zero, suc, ◌+◌, ◌-◌, ◌*◌, ◌/◌, ◌%◌, ◌^◌, Bool, true, false, not, Option, none, some,
  List, [], ◌∷◌, ltb, ◌==◌, if◌then◌else◌,
}

-- A page of memory by its offsets
abbrev pub Page : Type 0
Page = ℕ → ℕ

abbrev pub store : ℕ → ℕ → Page → Page
store a b m i = if i == a then b else m i

-- A store of `n` bytes, the lowest first, and the read of them.
unfoldable pub put : ℕ → ℕ → ℕ → Page → Page
put zero a v m = m
put (suc n) a v m = put n (a + 1) (v / 256) (store a (v % 256) m)

unfoldable pub get : ℕ → ℕ → Page → ℕ
get zero a m = 0
get (suc n) a m = m a + 256 * get n (a + 1) m

-- The symbols of start16.S, and its bytes from `ap_entry_16` on.
pub record Symbols : Type 0 where
  pub ap_entry_16 : ℕ
  pub ap_entry_32 : ℕ
  pub ap_gdtr : ℕ
  pub ap_gdt_table : ℕ
  pub ap_gdt_table_end : ℕ
  pub bytes : Page
  pub real_run_addr : ℕ
  pub kernel_load_offset : ℕ

module _ (sym : Symbols) where
  abbrev pub gdtr_offset_in_page : ℕ
  gdtr_offset_in_page = minus64 sym.ap_gdtr sym.ap_entry_16

  abbrev pub gdtr_limit : ℕ
  gdtr_limit = minus64 (minus64 sym.ap_gdt_table_end sym.ap_gdt_table) 1

  abbrev pub gdt_offset_in_page : ℕ
  gdt_offset_in_page = minus64 sym.ap_gdt_table sym.ap_entry_16

  abbrev pub ap_entry_32_offset : ℕ
  ap_entry_32_offset = minus64 sym.ap_entry_32 sym.ap_entry_16

  unfoldable pub startup_hotpatch : ℕ → Page → Page
  startup_hotpatch pa m =
      let m1 = put 2 1 (pa / 16) m in
      let m2 = put 2 7 gdtr_offset_in_page m1 in
      let m3 = put 2 gdtr_offset_in_page gdtr_limit m2 in
      let m4 = put 4 (gdtr_offset_in_page + 2) (pa + gdt_offset_in_page) m3 in
      let m5 = put 4 0x17 (pa + ap_entry_32_offset) m4 in
      let m6 = put 2 (0x17 + 4) 8 m5 in
      put 4 0x1E (minus64 sym.real_run_addr sym.kernel_load_offset) m6

abbrev pub is_ap_wkup_addrr_available : ℕ → Bool
is_ap_wkup_addrr_available addr = ltb addr 0x100000

-- The page tables and the processors, as calls on them
pub data Call : Type 0 where
  map_range : ℕ → ℕ → Call
  broadcast_startup : ℕ → Page → Call
  unmap : ℕ → Call

pub data End : Type 0 where
  panicked map_failed too_large unmap_failed all_up : End

-- Whether a page can be mapped and unmapped, what the page of the other processors held before, and
-- what the reads of `cpu_waken_up` find.
pub record Env : Type 0 where
  pub page : Page
  pub maps : Bool
  pub unmaps : Bool
  pub page_size : ℕ
  pub smp_max_cpus : ℕ
  pub cpu_waken_up : ℕ → ℕ

module _ (env : Env) where
  -- The wait from the given read on, on fuel.
  unfoldable pub wait_for_cpus : ℕ → ℕ → Bool
  wait_for_cpus zero read = false
  wait_for_cpus (suc fuel) read =
      let rest = wait_for_cpus fuel (read + 1) in
      if env.smp_max_cpus == env.cpu_waken_up read then true else rest

module _ (env : Env) (sym : Symbols) where
  abbrev pub code_size : ℕ
  code_size = minus64 sym.ap_gdt_table_end sym.ap_entry_16 % 2 ^ 32

  -- The page after the copy of the code: what is behind the code stays.
  abbrev pub copied : Page
  copied i = if ltb i code_size then sym.bytes i else env.page i

  -- The result and the calls, or `none` without fuel
  unfoldable pub x86_mp_init : ℕ → ℕ → Option (End × List Call)
  unfolding wait_for_cpus startup_hotpatch
  x86_mp_init fuel ap_startup_addr =
      let vaddr = (0xFFFFFFFF00000000 + ap_startup_addr) % 2 ^ 64 in
      let mapped = map_range ap_startup_addr vaddr in
      let page = startup_hotpatch sym ap_startup_addr copied in
      let started = broadcast_startup (ap_startup_addr / 2 ^ 12) page in
      if not (is_ap_wkup_addrr_available ap_startup_addr)
      then some (panicked, [])
      else if not env.maps
      then some (map_failed, [])
      else if ltb env.page_size code_size
      then some (too_large, mapped ∷ [])
      else if not (wait_for_cpus env fuel 0)
      then none
      else some (if env.unmaps then all_up else unmap_failed, mapped ∷ started ∷ unmap vaddr ∷ [])
