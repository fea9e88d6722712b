-- ===== src/Boot/Ready.antt =====
-- When the platform starts.
use Prim.Native.Nat.{bit_and}
use trusty_platform_sand.Base.{
  ℕ, ◌/◌, ◌%◌, ◌^◌, ◌<◌, ◌≡◌, ◌≢◌, ◌↔◌, inl, inr, refl, sym, ap, ◌∙◌, true, Option, none, some,
  List, arith, Bool-cases, Option-cases, same, same-true,
}
use mathlib.Core.Option.{some-injective}
use trusty_platform_sand.Boot.{
  Vmm, evmm, acrn, vmm_signature, detect_vmm, is_sep_support, is_family_6_support,
  is_sysenter_support, Machine, Init, panicked, asserted, ready, Image, InitialMapping,
  platform_update_pagetable, platform_init,
}

-- A processor of the family 6 that is too old
abbrev pub IsOld : ℕ → Type 0
IsOld eax = (eax / 2 ^ 8 % 16 ≡ 6) × (eax / 2 ^ 4 % 16 < 3) × (eax % 16 < 3)

detect_vmm_sound : (s : List ℕ) (vmm : Vmm) → detect_vmm s ≡ some vmm → vmm_signature vmm ≡ s
unfolding detect_vmm
detect_vmm_sound s vmm e = elim (Bool-cases (same (vmm_signature evmm) s)) [
  | inl a ↦
      let found : some evmm ≡ some vmm = rw a at e in
      ap vmm_signature (sym (some-injective _ _ found)) ∙ same-true (vmm_signature evmm) s a
  | inr a ↦ elim (Bool-cases (same (vmm_signature acrn) s)) [
    | inl b ↦
        let found : some acrn ≡ some vmm = rw (a, b) at e in
        ap vmm_signature (sym (some-injective _ _ found)) ∙ same-true (vmm_signature acrn) s b
    | inr b ↦ absurd (ground (arith, a, b, e))
  ]
]

detect_vmm-signature : (vmm : Vmm) → detect_vmm (vmm_signature vmm) ≡ some vmm
unfolding detect_vmm
detect_vmm-signature evmm = refl
detect_vmm-signature acrn = refl

is_sysenter_support-IsOld :
    (eax edx : ℕ) → (is_sysenter_support eax edx ≡ true) ↔ ((bit_and edx 11 ≢ 0) × (IsOld eax → ⊥))
unfolding is_sysenter_support is_sep_support is_family_6_support
is_sysenter_support-IsOld eax edx = ground arith

-- The address and the hypervisor of a start that is ready
abbrev started : Init → Option (ℕ × Vmm)
started panicked = none
started asserted = none
started (ready a vmm maps) = some (a, vmm)

-- A start that is ready passed all its checks.
platform_init-checks :
    (image : Image) (machine : Machine) (m : InitialMapping) (g_sec_info : ℕ) (vmm : Vmm)
    → started (platform_init image machine m) ≡ some (g_sec_info, vmm)
    → (machine.vmm_alloc ≡ some g_sec_info)
      × (detect_vmm machine.signature ≡ some vmm)
      × (is_sysenter_support machine.eax machine.edx ≡ true)
unfolding platform_init
platform_init-checks image machine m g_sec_info vmm e = elim (Option-cases machine.vmm_alloc) [
  | inl a ↦
      let no_start : started panicked ≡ some (g_sec_info, vmm) = rw (platform_init, a) at e in
      absurd cc
  | inr (addr, a) ↦ elim (Option-cases (detect_vmm machine.signature)) [
    | inl b ↦
        let no_start : started panicked ≡ some (g_sec_info, vmm) = rw (platform_init, a, b) at e in
        absurd cc
    | inr (v, b) ↦ elim (Bool-cases (is_sysenter_support machine.eax machine.edx)) [
      | inr c ↦
          let no_start : started panicked ≡ some (g_sec_info, vmm) =
            rw (platform_init, a, b, c) at e in
          absurd cc
      | inl c ↦
          let both : some (addr, v) ≡ some (g_sec_info, vmm) = rw (platform_init, a, b, c) at e in
          let pair : (addr, v) ≡ (g_sec_info, vmm) = some-injective _ _ both in
          (a ∙ ap some (ap (λ p. p.0) pair), b ∙ ap some (ap (λ p. p.1) pair), c)
    ]
  ]
]

-- The start ends with the address of the secrets and the hypervisor given exactly if the block for
-- the secrets was allocated there, the signature is that hypervisor's, EDX has one of the bits of
-- the number 11, and the processor is not one of the family 6 with a model and a stepping below 3.
pub platform_init-ready :
    (image : Image) (machine : Machine) (m : InitialMapping) (g_sec_info : ℕ) (vmm : Vmm)
    → (platform_init image machine m ≡ ready g_sec_info vmm (platform_update_pagetable image m)) ↔ (
        (machine.vmm_alloc ≡ some g_sec_info)
        × (vmm_signature vmm ≡ machine.signature)
        × (bit_and machine.edx 11 ≢ 0)
        × (IsOld machine.eax → ⊥))
unfolding platform_init
platform_init-ready image machine m g_sec_info vmm =
    let (support, supported) = is_sysenter_support-IsOld machine.eax machine.edx in
    (
      λ e.
          let (a, b, c) = platform_init-checks image machine m g_sec_info vmm (ap started e) in
          (a, detect_vmm_sound machine.signature vmm b, (support c).0, (support c).1),
      λ (a, b, c, d).
          let found : detect_vmm machine.signature ≡ some vmm =
            ap detect_vmm (sym b) ∙ detect_vmm-signature vmm in
          rw (platform_init, a, found, supported (c, d)) refl,
    )
