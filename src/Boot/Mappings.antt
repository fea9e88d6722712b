-- ===== src/Boot/Mappings.antt =====
-- What the sections are mapped as.
use trusty_platform_sand.Base.{
  minus64, ℕ, ◌+◌, ◌%◌, ◌^◌, ◌<◌, ◌≤◌, ◌≡◌, ◌↔◌, ◌⊎◌, refl, Bool, true, false, ◌&&◌, ◌||◌, List, [],
  ◌∷◌, ltb, leb, arith,
}
use trusty_platform_sand.Boot.{Image, InitialMapping, MapRange, Access, platform_update_pagetable}

-- No range can be both written and executed.
pub is_protected : List (MapRange × Access) → Bool
is_protected [] = true
is_protected ((r, a) ∷ rest) = (a.read_only || a.no_execute) && is_protected rest

-- A range that the normal world can use has the physical address.
pub is_non_secure : ℕ → List (MapRange × Access) → Bool
is_non_secure p [] = false
is_non_secure p ((r, a) ∷ rest) =
    (a.non_secure && (leb r.start_paddr p && ltb p (r.start_paddr + r.size)))
    || is_non_secure p rest

-- The image lies inside the mapping, below 2 ^ 64.
pub record IsInside (image : Image) (m : InitialMapping) : Type 0 where
  pub below : m.phys ≤ image.vaddr_to_paddr image.start
  pub ordered :
      image.vaddr_to_paddr image.start ≤ image.vaddr_to_paddr (image.page_align image.end_)
  pub above : image.vaddr_to_paddr (image.page_align image.end_) ≤ m.phys + m.size
  pub small : m.phys + m.size < 2 ^ 64

-- With an image inside the mapping, no section is mapped so that it can be both written and
-- executed, and the normal world can use exactly the physical addresses of the mapping that are
-- outside the image's pages.
pub platform_update_pagetable-protects :
    (image : Image) (m : InitialMapping) (p : ℕ)
    → IsInside image m
    → (is_protected (platform_update_pagetable image m) ≡ true)
      × ((is_non_secure p (platform_update_pagetable image m) ≡ true) ↔ (
          ((m.phys ≤ p) × (p < image.vaddr_to_paddr image.start))
          ⊎ ((image.vaddr_to_paddr (image.page_align image.end_) ≤ p) × (p < m.phys + m.size))))
unfolding platform_update_pagetable is_protected is_non_secure
platform_update_pagetable-protects image m p inside =
    let low : m.phys + minus64 (image.vaddr_to_paddr image.start) m.phys
        ≡ image.vaddr_to_paddr image.start =
      omega (arith, inside.below, inside.ordered, inside.above, inside.small) in
    let top : ℕ = image.vaddr_to_paddr (image.page_align image.end_) in
    let high : top + minus64 ((m.phys + m.size) % 2 ^ 64) top ≡ m.phys + m.size =
      omega (arith, inside.above, inside.small) in
    (refl, rw (low, high) (ground arith))
