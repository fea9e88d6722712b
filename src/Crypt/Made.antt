-- ===== src/Crypt/Made.antt =====
-- What each step of an encryption or a decryption does to the calls on the context and to the
-- objects, whatever the crypto library answers.
use trusty_platform_sand.Base.{
  ℕ, ◌+◌, ◌≤◌, ◌≡◌, ◌≢◌, ◌∙◌, ap, Bool, true, false, Option, none, some, List, ◌∷◌, ◌++◌, arith,
  leb, if◌then◌else◌, length, take, drop, slice, length-append, length-take, length-drop,
  Bool-cases, inl, inr,
}
use trusty_platform_sand.Crypt.{
  Rc, no_error, err_generic, Call, Evp, Work, Step, next, exit, fault, Op, ◌>>=◌, splice, call,
  call_storing, copy_out, create_ctx, add_aad, set_aad, to_int,
}

-- `P` holds when a step goes on, and `E` when it jumps to the end.
abbrev pub Spec : {A : Type 0} → (A → Work → Type 0) → (Rc → Work → Type 0) → Step A → Type 0
Spec P E (next a w) = P a w
Spec P E (exit rc w) = E rc w
Spec P E fault = Unit {0}

pub Spec-bind :
    {A B : Type 0} (Q : A → Work → Type 0) (P : B → Work → Type 0) (E : Rc → Work → Type 0)
    (m : Op A) (f : A → Op B) (w : Work)
    → Spec Q E (m w)
    → ((a : A) (w' : Work) → Q a w' → Spec P E (f a w'))
    → Spec P E ((m >>= f) w)
Spec-bind {A} Q P E m f w first then_ = go (m w) first
  where
    go :
        (s : Step A)
        → Spec Q E s
        → Spec P E (elim s [ next a w' ↦ f a w' | exit rc w' ↦ exit rc w' | fault ↦ fault ])
    go (next a w') q = then_ a w' q
    go (exit rc w') q = q
    go fault q = tt

pub Spec-weaken :
    {A : Type 0} (Q P : A → Work → Type 0) (E : Rc → Work → Type 0) (s : Step A)
    → Spec Q E s
    → ((a : A) (w : Work) → Q a w → P a w)
    → Spec P E s
Spec-weaken Q P E (next a w) q k = k a w q
Spec-weaken Q P E (exit rc w) q k = q
Spec-weaken Q P E fault q k = tt

-- The size of the output is not yet set, and the buffer has `n` bytes.
pub record Keeps (out_size n : ℕ) (w : Work) : Type 0 where
  pub size_kept : w.out_size ≡ out_size
  pub room_kept : length w.out_buf ≡ n

-- The end was reached with an error.
pub record Failed (out_size n : ℕ) (rc : Rc) (w : Work) : Type 0 where
  pub failure : rc ≢ no_error
  pub kept : Keeps out_size n w

pub length-splice :
    (offset : ℕ) (bytes mem : List ℕ)
    → offset + length bytes ≤ length mem
    → length (splice offset bytes mem) ≡ length mem
length-splice offset bytes mem h =
    length-append (take offset mem ++ bytes) (drop (offset + length bytes) mem)
    ∙ omega (
      arith,
      length-append (take offset mem) bytes,
      length-take offset mem,
      length-drop (offset + length bytes) mem,
    )

-- The calls after the additional data was given.
abbrev pub after_aad : Option (List ℕ) → ℕ → List Call → List Call
after_aad none aad_size h = h
after_aad (some aad) aad_size h = add_aad aad (to_int aad_size) ∷ h

module _ (evp : Evp) (out_size n : ℕ) where
  -- The calls are `h`, and the latest of them succeeded.
  pub record Made (h : List Call) (w : Work) : Type 0 where
    pub calls_are : w.calls ≡ h
    pub good : evp.succeeds h ≡ true
    pub keeps : Keeps out_size n w

  -- The calls are `h`.
  pub record Went (h : List Call) (w : Work) : Type 0 where
    pub calls_are : w.calls ≡ h
    pub keeps : Keeps out_size n w

  abbrev pub WentOf : {A : Type 0} → List Call → A → Work → Type 0
  WentOf h a w = Went h w

  abbrev pub MadeOf : {A : Type 0} → List Call → A → Work → Type 0
  MadeOf h a w = Made h w

  pub call-Made :
      (c : Call) (rc : Rc) (h : List Call) (w : Work)
      → rc ≢ no_error
      → Went h w
      → Spec (MadeOf (c ∷ h)) (Failed out_size n) (call evp c rc w)
  unfolding call
  call-Made c rc h w bad g =
      let e : c ∷ w.calls ≡ c ∷ h = ap (λ (l : List Call). c ∷ l) g.calls_are in
      let same : Keeps out_size n (record w { calls = c ∷ w.calls }) = record {
        size_kept = g.keeps.size_kept;
        room_kept = g.keeps.room_kept;
      } in
      elim (Bool-cases (evp.succeeds (c ∷ w.calls))) [
        | inl good ↦ rw good (record { calls_are = e; good = rw e at good; keeps = same })
        | inr failed ↦ rw failed (record { failure = bad; kept = same })
      ]

  pub call_storing-Made :
      (offset : ℕ) (c : Call) (rc : Rc) (h : List Call) (w : Work)
      → rc ≢ no_error
      → Went h w
      → Spec (MadeOf (c ∷ h)) (Failed out_size n) (call_storing evp offset c rc w)
  unfolding call_storing
  call_storing-Made offset c rc h w bad g =
      let bytes : List ℕ = evp.stores (c ∷ w.calls) in
      let stored : Work = record w { out_buf = splice offset bytes w.out_buf } in
      elim (Bool-cases (leb (offset + length bytes) (length w.out_buf))) [
        | inr out_of ↦ rw out_of tt
        | inl inside ↦
            let fits : offset + length bytes ≤ length w.out_buf = ground arith in
            let same : Keeps out_size n stored = record {
              size_kept = g.keeps.size_kept;
              room_kept = length-splice offset bytes w.out_buf fits ∙ g.keeps.room_kept;
            } in
            let gone : Went h stored = record { calls_are = g.calls_are; keeps = same } in
            rw inside (
              Spec-bind (MadeOf (c ∷ h)) (MadeOf (c ∷ h)) (Failed out_size n) (call evp c rc) _
                stored (call-Made c rc h stored bad gone) (λ _ w' m. m))
      ]

  pub copy_out-Went :
      (offset m : ℕ) (h : List Call) (w : Work)
      → Went h w
      → Spec (WentOf h) (Failed out_size n) (copy_out evp offset m w)
  unfolding copy_out
  copy_out-Went offset m h w g = copied
    where
      r : Bool × List ℕ
      r = evp.memcpy_s (slice offset m w.out) (take m w.out_buf)

      after : Work
      after = record w { out = splice offset r.1 w.out }

      same : Keeps out_size n after
      same = record { size_kept = g.keeps.size_kept; room_kept = g.keeps.room_kept }

      copied : Spec (WentOf h) (Failed out_size n) (copy_out evp offset m w)
      copied = elim (Bool-cases (leb (offset + m) (length w.out))) [
        | inr a ↦ rw a tt
        | inl a ↦ elim (Bool-cases (leb m (length w.out_buf))) [
          | inr b ↦ rw (a, b) tt
          | inl b ↦ elim (Bool-cases r.0) [
            | inl c ↦ rw (a, b, c) (record { calls_are = g.calls_are; keeps = same })
            | inr c ↦ rw (a, b, c) (record { failure = λ e. absurd cc; kept = same })
          ]
        ]
      ]

  pub create_ctx-Went :
      (h : List Call) (w : Work) → Went h w → Spec (WentOf h) (Failed out_size n) (create_ctx evp w)
  create_ctx-Went h w g = go evp.ctx_new
    where
      go :
          (b : Bool)
          → Spec (WentOf h) (Failed out_size n) (if b then next tt w else exit err_generic w)
      go true = g
      go false = record { failure = λ e. absurd cc; kept = g.keeps }

  pub set_aad-Went :
      (aad : Option (List ℕ)) (aad_size : ℕ) (h : List Call) (w : Work)
      → Went h w
      → Spec (WentOf (after_aad aad aad_size h)) (Failed out_size n) (set_aad evp aad aad_size w)
  unfolding set_aad
  set_aad-Went none aad_size h w g = g
  set_aad-Went (some aad) aad_size h w g =
      Spec-weaken (MadeOf (add_aad aad (to_int aad_size) ∷ h))
        (WentOf (add_aad aad (to_int aad_size) ∷ h)) (Failed out_size n) _
        (call-Made (add_aad aad (to_int aad_size)) err_generic h w (λ e. absurd cc) g)
        (λ _ w' m. record { calls_are = m.calls_are; keeps = m.keeps })
