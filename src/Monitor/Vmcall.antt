-- ===== src/Monitor/Vmcall.antt =====
-- vmcall.c: the hypervisor calls, as the registers that go into the instruction and come back from
-- it. The hypervisor and the normal world behind it answer for the switches so far and the
-- registers; what a field of `smc32_args_t` keeps of a register, and the rounding to pages, are a
-- parameter.
use mathlib.Core.Path.{fun_ext}
use trusty_platform_sand.Base.{
  ℕ, ◌+◌, ◌-◌, ◌*◌, ◌/◌, ◌%◌, ◌^◌, ◌<◌, ◌≡◌, ap, sym, ltb, if◌then◌else◌, some, none, drop, ℤ, pos,
  negsuc, Option, List, ◌∷◌, arith, get_or, minus64,
}
use trusty_platform_sand.Boot.{Vmm, evmm, acrn}
use trusty_platform_sand.Monitor.{Args, Switch, Sm, sm_sched_nonsecure}

-- The registers that a call names; the others are not the call's.
pub record Registers : Type 0 where
  pub rax : Option ℕ
  pub r8 : Option ℕ
  pub rdi : ℕ
  pub rsi : ℕ
  pub rdx : ℕ
  pub rbx : ℕ

-- What the call leaves in RDI, RSI, RDX and RBX.
pub record Returned : Type 0 where
  pub rdi : ℕ
  pub rsi : ℕ
  pub rdx : ℕ
  pub rbx : ℕ

abbrev pub Hypervisor : Type 0
Hypervisor = List Switch → Registers → Returned

-- EVMM_SMC_HC_ID, ACRN_SMC_HC_ID, EVMM_HC_SECINFO, EVMM_EPT_UPDATE_HC_ID
abbrev pub evmm_smc_hc_id : ℕ
evmm_smc_hc_id = 0x74727500

abbrev pub acrn_smc_hc_id : ℕ
acrn_smc_hc_id = 0x80000071

abbrev pub evmm_hc_secinfo : ℕ
evmm_hc_secinfo = 0x74727509

abbrev pub evmm_ept_update_hc_id : ℕ
evmm_ept_update_hc_id = 0x65707501

-- A `long` in a register
abbrev pub word64 : ℤ → ℕ
word64 (pos n) = n % 2 ^ 64
word64 (negsuc n) = (2 ^ 64 - 1 - n) % 2 ^ 64

module _ (field : ℕ → ℕ) where
  -- The registers of the call, but for the one with its number
  abbrev pub passed : ℤ → Args → Returned
  passed ret args = record {
    rdi = word64 ret;
    rsi = get_or args.params 0 0;
    rdx = get_or args.params 1 0;
    rbx = get_or args.params 2 0;
  }

  -- The arguments after the call; a structure has four parameters, and the last stays.
  abbrev pub taken_back : Returned → Args → Args
  taken_back r args = record {
    smc_nr = field r.rdi;
    params = field r.rsi ∷ field r.rdx ∷ field r.rbx ∷ drop 3 args.params;
  }

  unfoldable pub make_smc_vmcall_evmm : Hypervisor → List Switch → ℤ → Args → Args
  make_smc_vmcall_evmm vmcall h ret args =
      let p = passed ret args in
      taken_back
        (vmcall h (record {
          rax = some evmm_smc_hc_id;
          r8 = none;
          rdi = p.rdi;
          rsi = p.rsi;
          rdx = p.rdx;
          rbx = p.rbx;
        }))
        args

  unfoldable pub make_smc_vmcall_acrn : Hypervisor → List Switch → ℤ → Args → Args
  make_smc_vmcall_acrn vmcall h ret args =
      let p = passed ret args in
      taken_back
        (vmcall h (record {
          rax = none;
          r8 = some acrn_smc_hc_id;
          rdi = p.rdi;
          rsi = p.rsi;
          rdx = p.rdx;
          rbx = p.rbx;
        }))
        args

  -- `make_smc_vmcall`, as `smc_init` sets it
  unfoldable pub make_smc_vmcall : Vmm → Hypervisor → List Switch → ℤ → Args → Args
  unfolding make_smc_vmcall_evmm make_smc_vmcall_acrn
  make_smc_vmcall evmm vmcall h ret args = make_smc_vmcall_evmm vmcall h ret args
  make_smc_vmcall acrn vmcall h ret args = make_smc_vmcall_acrn vmcall h ret args

-- RAX and RDI of the call that fills the block of the secrets
unfoldable pub make_get_secinfo_vmcall : ℕ → ℕ × ℕ
make_get_secinfo_vmcall dst = (evmm_hc_secinfo, dst)

-- `ept_update_t`
pub data EptUpdate : Type 0 where
  add remove : EptUpdate

-- RAX, RDI, RSI, RDX and RCX of a change of the normal world's memory
pub record EptCall : Type 0 where
  pub rax : ℕ
  pub rdi : ℕ
  pub rsi : ℕ
  pub action : EptUpdate
  pub rcx : ℕ

-- The first three arguments are ROUNDDOWN and ROUNDUP to PAGE_SIZE, and SMP_MAX_CPUS. The address
-- that is passed is the one that was given, not `start_align`.
unfoldable pub make_ept_update_vmcall : (ℕ → ℕ) → (ℕ → ℕ) → ℕ → EptUpdate → ℕ → ℕ → EptCall
make_ept_update_vmcall rounddown roundup smp_max_cpus action start size =
    let start_align = rounddown start in
    let end_align = roundup ((start + size) % 2 ^ 64) in
    record {
      rax = evmm_ept_update_hc_id;
      rdi = start;
      rsi = minus64 end_align start_align;
      action = action;
      rcx = if ltb 1 smp_max_cpus then 1 else 0;
    }

-- With a rounding to pages of 4096 bytes and no wrap, the range of the call ends past the last page
-- of the range given by as many bytes as the range begins behind the start of its first page.
pub make_ept_update_vmcall-end :
    (smp_max_cpus start size : ℕ) (action : EptUpdate) (c : EptCall)
    → start + size + 4096 < 2 ^ 64
    → make_ept_update_vmcall
        (λ x. x / 4096 * 4096)
        (λ x. (x + 4095) / 4096 * 4096)
        smp_max_cpus
        action
        start
        size
      ≡ c
    → c.rdi + c.rsi ≡ (start + size + 4095) / 4096 * 4096 + start % 4096
unfolding make_ept_update_vmcall
make_ept_update_vmcall-end smp_max_cpus start size action c small e =
    let first : c.rdi ≡ start = sym (ap (λ (x : EptCall). x.rdi) e) in
    let n : c.rsi ≡ minus64 (((start + size) % 2 ^ 64 + 4095) / 4096 * 4096) (start / 4096 * 4096) =
      sym (ap (λ (x : EptCall). x.rsi) e) in
    omega (arith, first, n)

-- The two hypervisors answer alike: only the number of the call and its register differ.
abbrev pub IsAlike : Hypervisor → Hypervisor → Type 0
IsAlike on_evmm on_acrn =
    (h : List Switch) (p : Returned)
    → on_evmm h (record {
      rax = some evmm_smc_hc_id;
      r8 = none;
      rdi = p.rdi;
      rsi = p.rsi;
      rdx = p.rdx;
      rbx = p.rbx;
    })
      ≡ on_acrn h (record {
        rax = none;
        r8 = some acrn_smc_hc_id;
        rdi = p.rdi;
        rsi = p.rsi;
        rdx = p.rdx;
        rbx = p.rbx;
      })

-- On hypervisors that answer alike, the loop that serves the normal world does the same over the
-- call of the one as over the call of the other.
pub sm_sched_nonsecure-make_smc_vmcall :
    (sm : Sm) (field : ℕ → ℕ) (on_evmm on_acrn : Hypervisor) (fuel : ℕ) (retval : ℤ) (args : Args)
    (h : List Switch)
    → IsAlike on_evmm on_acrn
    → sm_sched_nonsecure
        (record sm { world = make_smc_vmcall field evmm on_evmm })
        fuel
        retval
        args
        h
      ≡ sm_sched_nonsecure
          (record sm { world = make_smc_vmcall field acrn on_acrn })
          fuel
          retval
          args
          h
unfolding make_smc_vmcall
sm_sched_nonsecure-make_smc_vmcall sm field on_evmm on_acrn fuel retval args h alike =
    ap
      (λ (w : List Switch → ℤ → Args → Args).
        sm_sched_nonsecure (record sm { world = w }) fuel retval args h)
      (fun_ext λ k.
        fun_ext λ ret. fun_ext λ a. ap (λ r. taken_back field r a) (alike k (passed field ret a)))
