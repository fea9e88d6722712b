-- ===== src/Boot.antt =====
-- platform.c: the start of the platform. The processor's identification, the kernel's allocator
-- and its page-rounding macro are a parameter.
pub mod Mappings
pub mod Arena
pub mod Ready
pub mod Early
pub mod Started
pub mod TimerRound
mod Tests
use Prim.Native.Nat.{bit_and}
use trusty_platform_sand.Base.{
  same, minus64, ℕ, zero, suc, ◌+◌, ◌-◌, ◌*◌, ◌/◌, ◌%◌, ◌^◌, Bool, true, false, not, ◌&&◌, Option,
  none, some, List, [], ◌∷◌, ◌++◌, ltb, ◌==◌, if◌then◌else◌, leb, length, drop, zeros,
}

-- `struct mmu_initial_mapping`, the fields that change
pub record InitialMapping : Type 0 where
  pub phys : ℕ
  pub virt : ℕ
  pub size : ℕ

-- The symbols of the linker's script and the functions of the memory manager.
pub record Image : Type 0 where
  pub start : ℕ
  pub end_ : ℕ
  pub code_start : ℕ
  pub code_end : ℕ
  pub rodata_start : ℕ
  pub rodata_end : ℕ
  pub data_start : ℕ
  pub data_end : ℕ
  pub bss_start : ℕ
  pub bss_end : ℕ
  pub kernel_load_offset : ℕ
  pub vaddr_to_paddr : ℕ → ℕ
  pub paddr_to_kvaddr : ℕ → ℕ
  pub page_align : ℕ → ℕ

-- ARCH_MMU_FLAG_PERM_RO, ARCH_MMU_FLAG_PERM_NO_EXECUTE, ARCH_MMU_FLAG_NS
pub record Access : Type 0 where
  pub read_only : Bool
  pub no_execute : Bool
  pub non_secure : Bool

pub record MapRange : Type 0 where
  pub start_vaddr : ℕ
  pub start_paddr : ℕ
  pub size : ℕ

module _ (image : Image) where
  -- The range of a section
  abbrev pub section : ℕ → ℕ → MapRange
  section from to = record {
    start_vaddr = from;
    start_paddr = image.vaddr_to_paddr from;
    size = minus64 to from;
  }

  -- The calls of `x86_mmu_map_range`, for ARCH_X86_64
  unfoldable pub platform_update_pagetable : InitialMapping → List (MapRange × Access)
  platform_update_pagetable m =
      let top = image.page_align image.end_ in
      (
        section image.code_start image.code_end,
        record { read_only = true; no_execute = false; non_secure = false },
      )
      ∷ (
        section image.data_start image.data_end,
        record { read_only = false; no_execute = true; non_secure = false },
      )
      ∷ (
        section image.rodata_start image.rodata_end,
        record { read_only = true; no_execute = true; non_secure = false },
      )
      ∷ (
        section image.bss_start image.bss_end,
        record { read_only = false; no_execute = true; non_secure = false },
      )
      ∷ (
        record {
          start_vaddr = image.paddr_to_kvaddr m.phys;
          start_paddr = m.phys;
          size = minus64 (image.vaddr_to_paddr image.start) m.phys;
        },
        record { read_only = false; no_execute = true; non_secure = true },
      )
      ∷ (
        record {
          start_vaddr = top;
          start_paddr = image.vaddr_to_paddr top;
          size = minus64 ((m.phys + m.size) % 2 ^ 64) (image.vaddr_to_paddr top);
        },
        record { read_only = false; no_execute = true; non_secure = true },
      )
      ∷ []

  -- The two mappings at the entry's address
  unfoldable pub platform_heap_init :
      ℕ → InitialMapping → InitialMapping → InitialMapping × InitialMapping
  platform_heap_init entry_phys kernel all = (
    record kernel { phys = entry_phys; virt = minus64 image.start image.kernel_load_offset },
    record all { phys = (all.phys + entry_phys) % 2 ^ 64; virt = (all.virt + entry_phys) % 2 ^ 64 },
  )

  -- The base and the size of the arena
  unfoldable pub heap_arena_init : InitialMapping → ℕ × ℕ
  heap_arena_init m =
      let rsvd = (minus64 image.bss_end m.virt + image.kernel_load_offset) % 2 ^ 64 in
      (image.page_align ((m.phys + rsvd) % 2 ^ 64), image.page_align (minus64 m.size rsvd))

-- The block at `g_sec_info` begins with its size in four bytes. `none` is a write outside it; a
-- block that is freed comes with its bytes.
abbrev pub size_of_this_struct : List ℕ → ℕ
size_of_this_struct (a ∷ b ∷ c ∷ d ∷ rest) = a + 256 * (b + 256 * (c + 256 * d))
size_of_this_struct _ = 0

unfoldable pub clear_sensitive_data : List ℕ → Option (List ℕ × Bool)
clear_sensitive_data block =
    let n = size_of_this_struct block in
    if n == 0
    then some (block, false)
    else if leb n (length block)
    then some (zeros n ++ drop n block, true)
    else none

-- The hypervisor calls that `make_smc_vmcall` can be, in the order of their signatures.
pub data Vmm : Type 0 where
  evmm acrn : Vmm

-- "EVMMEVMMEVMM" and "ACRNACRNACRN"
abbrev pub vmm_signature : Vmm → List ℕ
vmm_signature evmm = 69 ∷ 86 ∷ 77 ∷ 77 ∷ 69 ∷ 86 ∷ 77 ∷ 77 ∷ 69 ∷ 86 ∷ 77 ∷ 77 ∷ []
vmm_signature acrn = 65 ∷ 67 ∷ 82 ∷ 78 ∷ 65 ∷ 67 ∷ 82 ∷ 78 ∷ 65 ∷ 67 ∷ 82 ∷ 78 ∷ []

unfoldable pub detect_vmm : List ℕ → Option Vmm
detect_vmm signature =
    if same (vmm_signature evmm) signature
    then some evmm
    else if same (vmm_signature acrn) signature
    then some acrn
    else none

unfoldable pub is_sep_support : ℕ → Bool
is_sep_support val = not (bit_and val 11 == 0)

unfoldable pub is_family_6_support : ℕ → Bool
is_family_6_support val =
    not ((val / 2 ^ 8 % 16 == 6) && (ltb (val / 2 ^ 4 % 16) 3 && ltb (val % 16) 3))

-- EAX and EDX of the leaf 1
unfoldable pub is_sysenter_support : ℕ → ℕ → Bool
unfolding is_sep_support is_family_6_support
is_sysenter_support eax edx =
    if not (is_sep_support edx)
    then false
    else if not (is_family_6_support eax)
    then false
    else true

-- What the processor and the allocator answer: the signature, the leaf 1, and the address of the
-- block for the secrets.
pub record Machine : Type 0 where
  pub signature : List ℕ
  pub eax : ℕ
  pub edx : ℕ
  pub vmm_alloc : Option ℕ

-- The end of the start: a panic, the assertion on the hypervisor, or the address of the secrets,
-- the hypervisor and the calls that map the sections.
pub data Init : Type 0 where
  panicked asserted : Init
  ready : ℕ → Vmm → List (MapRange × Access) → Init

-- What `make_smc_vmcall` is set to; `none` is the assertion.
abbrev pub smc_init : Machine → Option Vmm
smc_init machine = detect_vmm machine.signature

-- The address in `g_sec_info`; `none` is the panic. The hypervisor fills the block.
abbrev pub prepare_secinfo_region : Machine → Option ℕ
prepare_secinfo_region machine = machine.vmm_alloc

module _ (image : Image) where
  unfoldable pub platform_init : Machine → InitialMapping → Init
  unfolding platform_update_pagetable detect_vmm is_sysenter_support
  platform_init machine m = elim (prepare_secinfo_region machine) [
    | none ↦ panicked
    | some g_sec_info ↦ elim (smc_init machine) [
      | none ↦ asserted
      | some vmm ↦
          if not (is_sysenter_support machine.eax machine.edx)
          then panicked
          else ready g_sec_info vmm (platform_update_pagetable image m)
    ]
  ]
