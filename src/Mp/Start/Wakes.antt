-- ===== src/Mp/Start/Wakes.antt =====
-- How the start of the processors ends, and what it leaves.
use trusty_platform_sand.Base.{
  minus64, ℕ, zero, suc, ◌+◌, ◌*◌, ◌/◌, ◌%◌, ◌^◌, ◌<◌, ◌≤◌, ◌≡◌, ◌≢◌, ◌⊎◌, inl, inr, refl, ◌∙◌,
  Bool, true, false, not, Option, none, some, List, [], ◌∷◌, arith, ltb, ◌==◌, Bool-cases,
}
use trusty_platform_sand.Mp.Start.{
  Page, Symbols, Env, Call, map_range, broadcast_startup, unmap, End, panicked, map_failed,
  too_large, unmap_failed, all_up, gdtr_offset_in_page, gdtr_limit, gdt_offset_in_page,
  ap_entry_32_offset, startup_hotpatch, wait_for_cpus, code_size, copied, x86_mp_init,
}
use trusty_platform_sand.Mp.Start.Patch.{IsPatched, startup_hotpatch_lem, startup_hotpatch-outside}
use mathlib.Core.Path.{subst}

-- The code can be patched for a page at an address: the register's image is behind the code that is
-- patched, and the values fit the fields.
abbrev pub IsFitting : Symbols → ℕ → Type 0
IsFitting sym addr =
    (0x22 ≤ gdtr_offset_in_page sym)
    × (gdtr_offset_in_page sym < 2 ^ 16)
    × (gdtr_limit sym < 2 ^ 16)
    × (addr + gdt_offset_in_page sym < 2 ^ 32)
    × (addr + ap_entry_32_offset sym < 2 ^ 32)
    × (minus64 sym.real_run_addr sym.kernel_load_offset < 2 ^ 32)

-- The number of startups that were sent
pub startups : List Call → ℕ
startups [] = 0
startups (map_range pa va ∷ calls) = startups calls
startups (broadcast_startup vector page ∷ calls) = startups calls + 1
startups (unmap va ∷ calls) = startups calls

module _ (env : Env) (sym : Symbols) (addr : ℕ) where
  -- A page that a processor can start with: its fields are patched, and behind them it is the code.
  abbrev pub IsStartup : Page → Type 0
  IsStartup page =
      IsPatched sym addr page
      × ((i : ℕ)
          → 0x22 ≤ i
          → i < code_size env sym
          → (i < gdtr_offset_in_page sym) ⊎ (gdtr_offset_in_page sym + 6 ≤ i)
          → page i ≡ sym.bytes i)

  -- From a state in which the page is mapped or not, the calls lead to another: a startup is sent
  -- only while the page is mapped and ready, its vector is the page's address in pages, and only
  -- the mapped page is unmapped.
  pub data Leaves : Bool → List Call → Bool → Type 0 where
    nothing : {mapped : Bool} → Leaves mapped [] mapped
    maps :
        {calls : List Call} {mapped : Bool}
        → Leaves true calls mapped
        → Leaves false (map_range addr (0xFFFFFFFF00000000 + addr) ∷ calls) mapped
    starts :
        {vector : ℕ} {page : Page} {calls : List Call} {mapped : Bool}
        → vector * 4096 ≡ addr
        → IsStartup page
        → Leaves true calls mapped
        → Leaves true (broadcast_startup vector page ∷ calls) mapped
    unmaps :
        {calls : List Call} {mapped : Bool}
        → Leaves (not env.unmaps) calls mapped
        → Leaves true (unmap (0xFFFFFFFF00000000 + addr) ∷ calls) mapped

  -- One of the first `n + 1` reads of the counter finds all processors awake.
  abbrev pub IsAwake : ℕ → Type 0
  IsAwake n = (i : ℕ) × (i ≤ n) × (env.cpu_waken_up i ≡ env.smp_max_cpus)

  -- What an end says of the page, with whether it is still mapped and how many startups were sent.
  pub data Ended (n : ℕ) : End → Bool → ℕ → Type 0 where
    out_of_reach : 2 ^ 20 ≤ addr → Ended n panicked false 0
    not_mapped : env.maps ≡ false → Ended n map_failed false 0
    no_room : env.page_size < code_size env sym → Ended n too_large true 0
    stays : env.unmaps ≡ false → IsAwake n → Ended n unmap_failed true 1
    released : env.unmaps ≡ true → IsAwake n → Ended n all_up false 1

  -- The start ends in one of these ways, or the page is mapped and has the code, and it waits because
  -- no read found all processors awake.
  pub data Outcome (n : ℕ) : Option (End × List Call) → Type 0 where
    ends :
        {end : End} {calls : List Call} {mapped : Bool}
        → Leaves false calls mapped
        → Ended n end mapped (startups calls)
        → Outcome n (some (end, calls))
    waits :
        addr < 2 ^ 20
        → env.maps ≡ true
        → code_size env sym ≤ env.page_size
        → ((i : ℕ) → i ≤ n → env.cpu_waken_up i ≢ env.smp_max_cpus)
        → Outcome n none

  here_awake :
      (n read : ℕ)
      → (env.smp_max_cpus == env.cpu_waken_up read) ≡ true
      → (i : ℕ) × (i ≤ n) × (env.cpu_waken_up (read + i) ≡ env.smp_max_cpus)
  here_awake n read all =
      let here : read + 0 ≡ read = omega arith in
      let now : env.cpu_waken_up read ≡ env.smp_max_cpus = ground (arith, all) in
      (0, omega arith, rw here now)

  -- The wait from a read on ends at a read that finds all processors awake.
  wait_for_cpus-true :
      (n read : ℕ)
      → wait_for_cpus env (suc n) read ≡ true
      → (i : ℕ) × (i ≤ n) × (env.cpu_waken_up (read + i) ≡ env.smp_max_cpus)
  unfolding wait_for_cpus
  wait_for_cpus-true zero read e = elim (Bool-cases (env.smp_max_cpus == env.cpu_waken_up read)) [
    | inl all ↦ here_awake zero read all
    | inr some_left ↦ let no : false ≡ true = rw some_left at e in absurd (ground (arith, no))
  ]
  wait_for_cpus-true (suc n) read e =
      elim (Bool-cases (env.smp_max_cpus == env.cpu_waken_up read)) [
        | inl all ↦ here_awake (suc n) read all
        | inr some_left ↦
            let (i, le, awake) = wait_for_cpus-true n (read + 1) (rw some_left at e) in
            let same : read + suc i ≡ read + 1 + i = omega arith in
            (suc i, omega arith, rw same awake)
      ]

  -- One that does not end found none.
  wait_for_cpus-false :
      (n read : ℕ)
      → wait_for_cpus env (suc n) read ≡ false
      → (i : ℕ) → i ≤ n
      → env.cpu_waken_up (read + i) ≢ env.smp_max_cpus
  unfolding wait_for_cpus
  wait_for_cpus-false n read e zero le awake =
      let here : read + 0 ≡ read = omega arith in
      let now : env.cpu_waken_up read ≡ env.smp_max_cpus = rw here at awake in
      let all : (env.smp_max_cpus == env.cpu_waken_up read) ≡ true = ground arith in
      let no : true ≡ false = rw all at e in absurd (ground (arith, no))
  wait_for_cpus-false zero read e (suc i) le awake = absurd (omega arith)
  wait_for_cpus-false (suc n) read e (suc i) le awake =
      let same : read + suc i ≡ read + 1 + i = omega arith in
      let later = wait_for_cpus-false n (read + 1) in
      elim (Bool-cases (env.smp_max_cpus == env.cpu_waken_up read)) [
        | inl all ↦ let no : true ≡ false = rw all at e in absurd (ground (arith, no))
        | inr some_left ↦ later (rw some_left at e) i (omega arith) (rw same at awake)
      ]

  wait_for_cpus-IsAwake : (n : ℕ) → wait_for_cpus env (suc n) 0 ≡ true → IsAwake n
  wait_for_cpus-IsAwake n e =
      let (i, le, awake) = wait_for_cpus-true n 0 e in
      let same : 0 + i ≡ i = omega arith in (i, le, rw same at awake)

  wait_for_cpus-waits :
      (n : ℕ)
      → wait_for_cpus env (suc n) 0 ≡ false
      → (i : ℕ) → i ≤ n
      → env.cpu_waken_up i ≢ env.smp_max_cpus
  wait_for_cpus-waits n e i le awake =
      let same : 0 + i ≡ i = omega arith in wait_for_cpus-false n 0 e i le (rw same awake)

  startup_hotpatch-IsStartup :
      addr < 2 ^ 20
      → addr % 4096 ≡ 0
      → IsFitting sym addr
      → IsStartup (startup_hotpatch sym addr (copied env sym))
  startup_hotpatch-IsStartup low aligned
        (behind, g_fits, limit_fits, gdt_fits, entry_fits, run_fits) =
      (
        startup_hotpatch_lem sym addr behind (copied env sym) low (omega arith) g_fits limit_fits
            gdt_fits entry_fits run_fits,
        λ i past inside apart.
            let within : ltb i (code_size env sym) ≡ true = ground arith in
            startup_hotpatch-outside sym addr behind (copied env sym) i past apart ∙ rw within refl,
      )

  becomes : {n : ℕ} {r s : Option (End × List Call)} → Outcome n s → r ≡ s → Outcome n r
  becomes {n = n} o e = rw e o

  keeps : {mapped : Bool} → not env.unmaps ≡ mapped → Leaves (not env.unmaps) [] mapped
  keeps e = subst (Leaves (not env.unmaps) []) e nothing

  -- The calls of a start that all processors answered
  whole :
      {mapped : Bool}
      → addr < 2 ^ 20
      → addr % 4096 ≡ 0
      → IsFitting sym addr
      → not env.unmaps ≡ mapped
      → Leaves false
          (map_range addr (0xFFFFFFFF00000000 + addr)
            ∷ broadcast_startup (addr / 2 ^ 12) (startup_hotpatch sym addr (copied env sym))
            ∷ unmap (0xFFFFFFFF00000000 + addr)
            ∷ [])
          mapped
  whole low aligned fits e =
      maps (starts (omega arith) (startup_hotpatch-IsStartup low aligned fits) (unmaps (keeps e)))

  -- For the address of a page, and code that can be patched for it, with fuel for `n + 1` reads of
  -- the counter, whatever they find and whether the page can be mapped and unmapped: either the
  -- start waits, for an address below 1 MB, a mapped page and code that is not larger, because no
  -- read finds all processors awake, or it ends. It then has sent startups only
  -- while the page was mapped and ready, with the page's address as vector. It panicked for an
  -- address from 1 MB on, and failed for a page that cannot be mapped, in both cases without a
  -- mapping; it left the page mapped without a startup when the code is larger than a page, and with
  -- one when the page cannot be unmapped; else it removed the mapping after one startup, and some
  -- read found all processors awake.
  pub x86_mp_init-Outcome :
      (n : ℕ)
      → addr < 2 ^ 32
      → addr % 4096 ≡ 0
      → IsFitting sym addr
      → Outcome n (x86_mp_init env sym (suc n) addr)
  unfolding x86_mp_init startups
  x86_mp_init-Outcome n word aligned fits =
      let vaddr : (0xFFFFFFFF00000000 + addr) % 2 ^ 64 ≡ 0xFFFFFFFF00000000 + addr = omega arith in
      elim (Bool-cases (ltb addr 0x100000)) [
        | inr out ↦ becomes (ends nothing (out_of_reach (ground arith))) (rw out refl)
        | inl low ↦
            let near : addr < 2 ^ 20 = ground arith in
            elim (Bool-cases env.maps) [
              | inr no_map ↦ becomes (ends nothing (not_mapped no_map)) (rw (low, no_map) refl)
              | inl map ↦ elim (Bool-cases (ltb env.page_size (code_size env sym))) [
                | inl large ↦
                    becomes (ends (maps nothing) (no_room (ground arith)))
                      (rw (low, map, large, vaddr) refl)
                | inr small ↦ elim (Bool-cases (wait_for_cpus env (suc n) 0)) [
                  | inr waiting ↦
                      becomes (waits near map (ground arith) (wait_for_cpus-waits n waiting))
                        (rw (low, map, small, waiting) refl)
                  | inl awake ↦ elim (Bool-cases env.unmaps) [
                    | inl unmap_ok ↦
                        becomes
                          (ends (whole near aligned fits (rw unmap_ok refl))
                            (released unmap_ok (wait_for_cpus-IsAwake n awake)))
                          (rw (low, map, small, awake, unmap_ok, vaddr) refl)
                    | inr no_unmap ↦
                        becomes
                          (ends (whole near aligned fits (rw no_unmap refl))
                            (stays no_unmap (wait_for_cpus-IsAwake n awake)))
                          (rw (low, map, small, awake, no_unmap, vaddr) refl)
                  ]
                ]
              ]
            ]
      ]
