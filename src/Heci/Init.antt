-- ===== src/Heci/Init.antt =====
-- heci.c: `cse_init`, which maps the configuration space of the security engine and the timer. What
-- `vmm_alloc_physical` answers is a parameter.
use Prim.Native.Nat.{bit_or}
use trusty_platform_sand.Base.{ℕ, ◌*◌, ◌^◌, ◌≡◌, refl, Option, none, some}
use trusty_platform_sand.Base.Io.{Device, Trace}
use trusty_platform_sand.Heci.Receive.{Machine}

-- EC_BASE, HPET_BASE_ADDRESS
abbrev pub ec_base : ℕ
ec_base = 0xE0000000

abbrev pub hpet_base_address : ℕ
hpet_base_address = 0xFED00000

-- PCI_BDF
abbrev pub pci_bdf : ℕ → ℕ → ℕ → ℕ
pci_bdf b d f = bit_or (bit_or (bit_or ec_base (b * 2 ^ 20)) (d * 2 ^ 15)) (f * 2 ^ 12)

-- HECI_PCI_DEV: HECI_BUS, HECI_DEVICE_NUMBER and HECI_FUNCTION_NUMBER
abbrev pub heci_pci_dev : ℕ
heci_pci_dev = pci_bdf 0 15 0

-- `cse_mmio_base_va` and `hpet_mmio_base_va`
pub record Bases : Type 0 where
  pub cse_mmio_base_va : ℕ
  pub hpet_mmio_base_va : ℕ

-- A failing call leaves the address as it was; after the first the second is not made.
unfoldable pub cse_init : (ℕ → Option ℕ) → Bases → Bases
cse_init vmm_alloc_physical s = elim (vmm_alloc_physical heci_pci_dev) [
  | none ↦ s
  | some cse ↦ elim (vmm_alloc_physical hpet_base_address) [
    | none ↦ record s { cse_mmio_base_va = cse }
    | some hpet ↦ record { cse_mmio_base_va = cse; hpet_mmio_base_va = hpet }
  ]
]

-- The transport over the addresses
abbrev pub machine_at : Device → (Trace → ℕ → Option ℕ) → Bases → Machine
machine_at dev vmm_alloc_physical s = record {
  dev = dev;
  vmm_alloc_physical = vmm_alloc_physical;
  cse_mmio_base_va = s.cse_mmio_base_va;
  hpet_mmio_base_va = s.hpet_mmio_base_va;
}

-- The engine is device 15 of bus 0.
engine_is_device_15 : heci_pci_dev ≡ 0xE0078000
engine_is_device_15 = refl
