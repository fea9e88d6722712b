-- ===== src/Mp/Start/Patch.antt =====
-- What the other processors read from the patched page.
use native.Mathlib.Numerals.{unary_clauses}
use trusty_platform_sand.Base.{
  minus64, ℕ, zero, suc, ◌+◌, ◌*◌, ◌/◌, ◌%◌, ◌^◌, ◌<◌, ◌≤◌, ◌≡◌, ◌⊎◌, inl, inr, refl, ◌∙◌, false,
  arith, ◌==◌,
}
use trusty_platform_sand.Mp.Start.{
  Page, store, put, get, Symbols, gdtr_offset_in_page, gdtr_limit, gdt_offset_in_page,
  ap_entry_32_offset, startup_hotpatch,
}

-- A byte that a store does not reach
put-outside : (n a v : ℕ) (m : Page) (i : ℕ) → (i < a) ⊎ (a + n ≤ i) → put n a v m i ≡ m i
unfolding put
put-outside zero a v m i h = refl
put-outside (suc n) a v m i h =
    let other : (i == a) ≡ false = ground arith in
    put-outside n (a + 1) (v / 256) (store a (v % 256) m) i (far h) ∙ rw other refl
  where
    far : (i < a) ⊎ (a + suc n ≤ i) → (i < a + 1) ⊎ (a + 1 + n ≤ i)
    far (inl l) = inl (omega arith)
    far (inr l) = inr (omega arith)

-- A read that a store does not reach
pub get-put_apart :
    (k b n a v : ℕ) (m : Page) → (b + k ≤ a) ⊎ (a + n ≤ b) → get k b (put n a v m) ≡ get k b m
unfolding get
get-put_apart zero b n a v m h = refl
get-put_apart (suc k) b n a v m h =
    rw (put-outside n a v m b (byte h), get-put_apart k (b + 1) n a v m (later h)) refl
  where
    byte : (b + suc k ≤ a) ⊎ (a + n ≤ b) → (b < a) ⊎ (a + n ≤ b)
    byte (inl l) = inl (omega arith)
    byte (inr l) = inr (omega arith)

    later : (b + suc k ≤ a) ⊎ (a + n ≤ b) → (b + 1 + k ≤ a) ⊎ (a + n ≤ b + 1)
    later (inl l) = inl (omega arith)
    later (inr l) = inr (omega arith)

-- A read of what was stored
pub get-put : (n a v : ℕ) (m : Page) → v < 256 ^ n → get n a (put n a v m) ≡ v
unfolding get put
get-put zero a v m h = omega arith
get-put (suc n) a v m h =
    let digit : put n (a + 1) (v / 256) (store a (v % 256) m) a ≡ v % 256 =
      put-outside n (a + 1) (v / 256) (store a (v % 256) m) a (inl (omega arith)) ∙ ground arith in
    let bound : v < 256 ^ n * 256 = simp unary_clauses at h in
    let rest = get-put n (a + 1) (v / 256) (store a (v % 256) m) (omega (arith, bound)) in
    rw (digit, rest) (omega arith)

-- The fields of a patched page as they are read: a segment whose base is the page, the offset of the
-- register's image, the limit and the address of the descriptor table in it, the far jump to the
-- 32-bit entry with the code segment 8, and the address that the processor runs from.
abbrev pub IsPatched : Symbols → ℕ → Page → Type 0
IsPatched sym pa page =
    (16 * get 2 1 page ≡ pa)
    × (get 2 7 page ≡ gdtr_offset_in_page sym)
    × (get 2 (gdtr_offset_in_page sym) page ≡ gdtr_limit sym)
    × (get 4 (gdtr_offset_in_page sym + 2) page ≡ pa + gdt_offset_in_page sym)
    × (get 4 0x17 page ≡ pa + ap_entry_32_offset sym)
    × (get 2 0x1B page ≡ 8)
    × (get 4 0x1E page ≡ minus64 sym.real_run_addr sym.kernel_load_offset)

module _ (sym : Symbols) (pa : ℕ) (behind : 0x22 ≤ gdtr_offset_in_page sym) (m : Page) where
  abbrev g : ℕ
  g = gdtr_offset_in_page sym

  abbrev m1 : Page
  m1 = put 2 1 (pa / 16) m

  abbrev m2 : Page
  m2 = put 2 7 g m1

  abbrev m3 : Page
  m3 = put 2 g (gdtr_limit sym) m2

  abbrev m4 : Page
  m4 = put 4 (g + 2) (pa + gdt_offset_in_page sym) m3

  abbrev m5 : Page
  m5 = put 4 0x17 (pa + ap_entry_32_offset sym) m4

  abbrev m6 : Page
  m6 = put 2 0x1B 8 m5

  abbrev m7 : Page
  m7 = put 4 0x1E (minus64 sym.real_run_addr sym.kernel_load_offset) m6

  -- A read past the code that is patched last
  past_code : (k b : ℕ) → 0x22 ≤ b → get k b m7 ≡ get k b m4
  past_code k b h =
      get-put_apart k b 4 0x1E _ m6 (inr (omega arith))
      ∙ get-put_apart k b 2 0x1B _ m5 (inr (omega arith))
      ∙ get-put_apart k b 4 0x17 _ m4 (inr (omega arith))

  -- A read before it
  before_code : (k b : ℕ) → b + k ≤ 0x17 → get k b m7 ≡ get k b m2
  before_code k b h =
      get-put_apart k b 4 0x1E _ m6 (inl (omega arith))
      ∙ get-put_apart k b 2 0x1B _ m5 (inl (omega arith))
      ∙ get-put_apart k b 4 0x17 _ m4 (inl (omega arith))
      ∙ get-put_apart k b 4 (g + 2) _ m3 (inl (omega arith))
      ∙ get-put_apart k b 2 g _ m2 (inl (omega arith))

  -- For a page below 1 MB whose address is a multiple of 16, with the table register's image behind
  -- the code that is patched and all values in their widths, the patched page holds, whatever it
  -- held before: a segment whose base is the page, the offset of the register's image, the limit and
  -- the address of the descriptor table in it, the far jump to the 32-bit entry with the code
  -- segment 8, and the address that the processor runs from.
  pub startup_hotpatch_lem :
      pa < 2 ^ 20
      → pa % 16 ≡ 0
      → gdtr_offset_in_page sym < 2 ^ 16
      → gdtr_limit sym < 2 ^ 16
      → pa + gdt_offset_in_page sym < 2 ^ 32
      → pa + ap_entry_32_offset sym < 2 ^ 32
      → minus64 sym.real_run_addr sym.kernel_load_offset < 2 ^ 32
      → IsPatched sym pa (startup_hotpatch sym pa m)
  unfolding startup_hotpatch
  startup_hotpatch_lem low aligned g_fits limit_fits gdt_fits entry_fits run_fits =
      let segment : get 2 1 m7 ≡ pa / 16 =
        before_code 2 1 (omega arith)
        ∙ get-put_apart 2 1 2 7 _ m1 (inl (omega arith))
        ∙ get-put 2 1 (pa / 16) m (omega arith) in
      (
        rw segment (omega arith),
        before_code 2 7 (omega arith) ∙ get-put 2 7 g m1 g_fits,
        past_code 2 g behind
            ∙ get-put_apart 2 g 4 (g + 2) _ m3 (inl (omega arith))
            ∙ get-put 2 g (gdtr_limit sym) m2 limit_fits,
        past_code 4 (g + 2) (omega arith) ∙ get-put 4 (g + 2) _ m3 gdt_fits,
        get-put_apart 4 0x17 4 0x1E _ m6 (inl (omega arith))
            ∙ get-put_apart 4 0x17 2 0x1B _ m5 (inl (omega arith))
            ∙ get-put 4 0x17 _ m4 entry_fits,
        get-put_apart 2 0x1B 4 0x1E _ m6 (inl (omega arith)) ∙ get-put 2 0x1B 8 m5 (omega arith),
        get-put 4 0x1E _ m6 run_fits,
      )

  -- A byte behind the code that is patched and outside the register's image
  pub startup_hotpatch-outside :
      (i : ℕ) → 0x22 ≤ i → (i < g) ⊎ (g + 6 ≤ i) → startup_hotpatch sym pa m i ≡ m i
  unfolding startup_hotpatch
  startup_hotpatch-outside i past apart =
      put-outside 4 0x1E _ m6 i (inr (omega arith))
      ∙ put-outside 2 0x1B _ m5 i (inr (omega arith))
      ∙ put-outside 4 0x17 _ m4 i (inr (omega arith))
      ∙ put-outside 4 (g + 2) _ m3 i (base apart)
      ∙ put-outside 2 g _ m2 i (limit apart)
      ∙ put-outside 2 7 _ m1 i (inr (omega arith))
      ∙ put-outside 2 1 _ m i (inr (omega arith))
    where
      base : (i < g) ⊎ (g + 6 ≤ i) → (i < g + 2) ⊎ (g + 2 + 4 ≤ i)
      base (inl l) = inl (omega arith)
      base (inr l) = inr (omega arith)

      limit : (i < g) ⊎ (g + 6 ≤ i) → (i < g) ⊎ (g + 2 ≤ i)
      limit (inl l) = inl l
      limit (inr l) = inr (omega arith)
