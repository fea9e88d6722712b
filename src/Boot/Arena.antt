-- ===== src/Boot/Arena.antt =====
-- Where the heap's arena ends.
use trusty_platform_sand.Base.{minus64, ℕ, ◌+◌, ◌%◌, ◌^◌, ◌<◌, ◌≤◌, ◌≡◌, ◌≢◌, arith}
use trusty_platform_sand.Boot.{Image, InitialMapping, heap_arena_init}

-- `page_align` rounds up to a page of 4096 bytes.
pub record RoundsUp (page_align : ℕ → ℕ) : Type 0 where
  pub aligned : (x : ℕ) → page_align x % 4096 ≡ 0
  pub least : (x : ℕ) → x ≤ page_align x
  pub close : (x : ℕ) → page_align x < x + 4096

-- What the image takes from the start of the mapping
abbrev pub reserved : Image → InitialMapping → ℕ
reserved image m = (minus64 image.bss_end m.virt + image.kernel_load_offset) % 2 ^ 64

-- With a mapping of whole pages below 2 ^ 64 that is larger than what the image takes, the arena
-- ends where the mapping ends if the image takes whole pages, and otherwise one page past it.
pub heap_arena_init-end :
    (image : Image) (m : InitialMapping)
    → RoundsUp image.page_align
    → m.phys % 4096 ≡ 0
    → m.size % 4096 ≡ 0
    → reserved image m < m.size
    → m.phys + m.size < 2 ^ 64
    → (reserved image m % 4096 ≡ 0
        → (heap_arena_init image m).0 + (heap_arena_init image m).1 ≡ m.phys + m.size)
      × (reserved image m % 4096 ≢ 0
          → (heap_arena_init image m).0 + (heap_arena_init image m).1 ≡ m.phys + m.size + 4096)
unfolding heap_arena_init
heap_arena_init-end image m up pages whole room small =
    let rsvd : ℕ = reserved image m in
    let base : ℕ = (m.phys + rsvd) % 2 ^ 64 in
    let size : ℕ = minus64 m.size rsvd in
    (
      λ e. omega (
        arith,
        up.aligned base,
        up.least base,
        up.close base,
        up.aligned size,
        up.least size,
        up.close size,
      ),
      λ ne. omega (
        arith,
        up.aligned base,
        up.least base,
        up.close base,
        up.aligned size,
        up.least size,
        up.close size,
      ),
    )
