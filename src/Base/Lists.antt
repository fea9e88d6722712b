-- ===== src/Base/Lists.antt =====
-- C arrays as lists with native indices, under the library's names.
use Prim.Native.Nat.{ℕ, zero, suc, ◌+◌, ◌-◌, ◌≤◌, ◌<◌, min}
use mathlib.Core.Path.{◌≡◌, refl, ap, sym, ◌∙◌}
use mathlib.Core.Bool.{Bool, true, false, ◌&&◌}
use mathlib.Core.Logic.{◌≢◌}
use mathlib.Core.List.{List, [], ◌∷◌, ◌++◌}
use mathlib.Core.Option.{Option, none, some}
use native.Mathlib.Omega.{arith}
use trusty_platform_sand.Base.Tests.{◌==◌, if◌then◌else◌}

module _ {ℓ} {A : Type ℓ} where
  abbrev pub length : List A → ℕ
  length [] = 0
  length (x ∷ xs) = suc (length xs)

  abbrev pub get_elem? : List A → ℕ → Option A
  get_elem? [] i = none
  get_elem? (x ∷ xs) zero = some x
  get_elem? (x ∷ xs) (suc i) = get_elem? xs i

  abbrev pub get_or : List A → ℕ → A → A
  get_or [] i d = d
  get_or (x ∷ xs) zero d = x
  get_or (x ∷ xs) (suc i) d = get_or xs i d

  abbrev pub set : List A → ℕ → A → List A
  set [] i v = []
  set (x ∷ xs) zero v = v ∷ xs
  set (x ∷ xs) (suc i) v = x ∷ set xs i v

  abbrev pub take : ℕ → List A → List A
  take zero xs = []
  take (suc n) [] = []
  take (suc n) (x ∷ xs) = x ∷ take n xs

  abbrev pub drop : ℕ → List A → List A
  drop zero xs = xs
  drop (suc n) [] = []
  drop (suc n) (x ∷ xs) = drop n xs

  abbrev pub replicate : ℕ → A → List A
  replicate zero a = []
  replicate (suc n) a = a ∷ replicate n a

module _ {ℓ} {A : Type ℓ} where
  pub length-append : (xs ys : List A) → length (xs ++ ys) ≡ length xs + length ys
  length-append [] ys = omega arith
  length-append (x ∷ xs) ys = omega (arith, length-append xs ys)

  pub length-set : (xs : List A) (i : ℕ) (v : A) → length (set xs i v) ≡ length xs
  length-set [] i v = refl
  length-set (x ∷ xs) zero v = refl
  length-set (x ∷ xs) (suc i) v = ap suc (length-set xs i v)

  pub length-take : (n : ℕ) (xs : List A) → length (take n xs) ≡ min n (length xs)
  length-take zero xs = omega arith
  length-take (suc n) [] = omega arith
  length-take (suc n) (x ∷ xs) = omega (arith, length-take n xs)

  pub length-replicate : (n : ℕ) (a : A) → length (replicate n a) ≡ n
  length-replicate zero a = refl
  length-replicate (suc n) a = ap suc (length-replicate n a)

  pub get_or-set_self :
      (xs : List A) (i : ℕ) (v d : A) → i < length xs → get_or (set xs i v) i d ≡ v
  get_or-set_self [] i v d h = absurd (omega arith)
  get_or-set_self (x ∷ xs) zero v d h = refl
  get_or-set_self (x ∷ xs) (suc i) v d h = get_or-set_self xs i v d (omega arith)

  pub get_or-set_ne :
      (xs : List A) (i j : ℕ) (v d : A) → i ≢ j → get_or (set xs i v) j d ≡ get_or xs j d
  get_or-set_ne [] i j v d h = refl
  get_or-set_ne (x ∷ xs) zero zero v d h = absurd (h refl)
  get_or-set_ne (x ∷ xs) zero (suc j) v d h = refl
  get_or-set_ne (x ∷ xs) (suc i) zero v d h = refl
  get_or-set_ne (x ∷ xs) (suc i) (suc j) v d h = get_or-set_ne xs i j v d (λ e. h (ap suc e))

  -- Lookups after a write, and at the bounds.
  pub get_elem?-set :
      (t : List A) (i j : ℕ) (e : A)
      → i < length t
      → get_elem? (set t i e) j ≡ (if i == j then some e else get_elem? t j)
  get_elem?-set [] i j e h = absurd (omega arith)
  get_elem?-set (x ∷ t) zero zero e h = refl
  get_elem?-set (x ∷ t) zero (suc j) e h = ground arith
  get_elem?-set (x ∷ t) (suc i) zero e h = ground arith
  get_elem?-set (x ∷ t) (suc i) (suc j) e h = ground (arith, get_elem?-set t i j e (omega arith))

  pub get_elem?-eq-none : (t : List A) (i : ℕ) → length t ≤ i → get_elem? t i ≡ none
  get_elem?-eq-none [] i h = refl
  get_elem?-eq-none (x ∷ t) zero h = absurd (omega arith)
  get_elem?-eq-none (x ∷ t) (suc i) h = get_elem?-eq-none t i (omega arith)

  pub get_elem?-ne-none : (t : List A) (i : ℕ) → i < length t → get_elem? t i ≢ none
  get_elem?-ne-none [] i h e = absurd (omega arith)
  get_elem?-ne-none (x ∷ t) zero h e = ground arith
  get_elem?-ne-none (x ∷ t) (suc i) h e = get_elem?-ne-none t i (omega arith) e

  -- The elements `i .. i + n - 1`.
  abbrev pub slice : ℕ → ℕ → List A → List A
  slice i n xs = take n (drop i xs)

  pub drop-get_elem? :
      (xs : List A) (i : ℕ) (x : A) → get_elem? xs i ≡ some x → drop i xs ≡ x ∷ drop (i + 1) xs
  drop-get_elem? [] i x h = ground arith
  drop-get_elem? (y ∷ xs) zero x h = ground arith
  drop-get_elem? (y ∷ xs) (suc i) x h = ground (arith, drop-get_elem? xs i x h)

add_suc_left : (m n : ℕ) → suc m + n ≡ suc (m + n)
add_suc_left m n = omega arith

module _ {ℓ} {A : Type ℓ} where
  take-nil : (n : ℕ) → take {A = A} n [] ≡ []
  take-nil zero = refl
  take-nil (suc n) = refl

  drop-nil : (n : ℕ) → drop {A = A} n [] ≡ []
  drop-nil zero = refl
  drop-nil (suc n) = refl

module _ {ℓ} {A : Type ℓ} where
  pub take_add : (m n : ℕ) (xs : List A) → take (m + n) xs ≡ take m xs ++ take n (drop m xs)
  take_add zero n xs = ap (λ k. take k xs) (omega arith)
  take_add (suc m) n [] = rw (take-nil n, add_suc_left m n)
  take_add (suc m) n (x ∷ xs) = rw (add_suc_left m n) (ap (λ l. x ∷ l) (take_add m n xs))

  pub drop-drop : (m n : ℕ) (xs : List A) → drop n (drop m xs) ≡ drop (m + n) xs
  drop-drop zero n xs = ap (λ k. drop k xs) (omega arith)
  drop-drop (suc m) n [] = rw (drop-nil n, add_suc_left m n)
  drop-drop (suc m) n (x ∷ xs) = rw (add_suc_left m n) (drop-drop m n xs)

  pub take-append-length : (xs ys : List A) → take (length xs) (xs ++ ys) ≡ xs
  take-append-length [] ys = refl
  take-append-length (x ∷ xs) ys = ap (λ l. x ∷ l) (take-append-length xs ys)

  pub take_all : (xs : List A) (n : ℕ) → length xs ≡ n → take n xs ≡ xs
  take_all [] zero e = refl
  take_all [] (suc n) e = refl
  take_all (x ∷ xs) zero e = absurd (omega arith)
  take_all (x ∷ xs) (suc n) e = ap (λ l. x ∷ l) (take_all xs n (omega arith))

  pub take-append_all : (xs ys : List A) (n : ℕ) → length xs ≡ n → take n (xs ++ ys) ≡ xs
  take-append_all xs ys n e = ap (λ k. take k (xs ++ ys)) (sym e) ∙ take-append-length xs ys

  pub take-append_within : (n : ℕ) (xs ys : List A) → n ≤ length xs → take n (xs ++ ys) ≡ take n xs
  take-append_within zero xs ys h = refl
  take-append_within (suc n) [] ys h = absurd (omega arith)
  take-append_within (suc n) (x ∷ xs) ys h =
      ap (λ l. x ∷ l) (take-append_within n xs ys (omega arith))

  pub drop-append_add : (xs ys : List A) (n : ℕ) → drop (length xs + n) (xs ++ ys) ≡ drop n ys
  drop-append_add [] ys n = ap (λ k. drop k ys) (omega arith)
  drop-append_add (x ∷ xs) ys n = rw (add_suc_left (length xs) n) (drop-append_add xs ys n)

  pub length-drop : (n : ℕ) (xs : List A) → length (drop n xs) ≡ length xs - n
  length-drop zero xs = omega arith
  length-drop (suc n) [] = omega arith
  length-drop (suc n) (x ∷ xs) = omega (arith, length-drop n xs)

pub drop-cons :
    (xs : List ℕ) (i w d : ℕ) (rest : List ℕ)
    → drop i xs ≡ w ∷ rest
    → (i < length xs) × (get_or xs i d ≡ w) × (drop (suc i) xs ≡ rest)
drop-cons [] zero w d rest e = absurd cc
drop-cons [] (suc i) w d rest e = absurd cc
drop-cons (x ∷ xs) zero w d rest e = ground (arith, e)
drop-cons (x ∷ xs) (suc i) w d rest e =
    let (a, b, c) = drop-cons xs i w d rest e in (omega arith, b, c)

-- Cleared memory.
abbrev pub zeros : ℕ → List ℕ
zeros n = replicate n 0

pub length-zeros : (n : ℕ) → length (zeros n) ≡ n
length-zeros n = length-replicate {A = ℕ} n 0

-- `memcmp` of two arrays is 0.
abbrev pub same : List ℕ → List ℕ → Bool
same [] [] = true
same [] (y ∷ ys) = false
same (x ∷ xs) [] = false
same (x ∷ xs) (y ∷ ys) = (x == y) && same xs ys

pub same_self : (xs : List ℕ) → same xs xs ≡ true
same_self [] = refl
same_self (x ∷ xs) = ground (arith, same_self xs)

pub same-true : (xs ys : List ℕ) → same xs ys ≡ true → xs ≡ ys
same-true [] [] e = refl
same-true [] (y ∷ ys) e = absurd cc
same-true (x ∷ xs) [] e = absurd cc
same-true (x ∷ xs) (y ∷ ys) e =
    let head : x ≡ y = ground arith in
    let tail : same xs ys ≡ true = ground arith in rw (head, same-true xs ys tail) refl

module _ {ℓ} {A : Type ℓ} where
  pub take-drop : (n : ℕ) (xs : List A) → take n xs ++ drop n xs ≡ xs
  take-drop zero xs = refl
  take-drop (suc n) [] = refl
  take-drop (suc n) (x ∷ xs) = ap (λ (l : List A). x ∷ l) (take-drop n xs)

  pub take-set :
      (i : ℕ) (w : A) (msg : List A)
      → i < length msg
      → take (suc i) (set msg i w) ≡ take i msg ++ (w ∷ [])
  take-set i w [] h = absurd (omega arith)
  take-set zero w (x ∷ msg) h = refl
  take-set (suc i) w (x ∷ msg) h = ap (λ (l : List A). x ∷ l) (take-set i w msg (omega arith))

  pub drop-set : (i k : ℕ) (w : A) (msg : List A) → i < k → drop k (set msg i w) ≡ drop k msg
  drop-set i k w [] h = refl
  drop-set i zero w (x ∷ msg) h = absurd (omega arith)
  drop-set zero (suc k) w (x ∷ msg) h = refl
  drop-set (suc i) (suc k) w (x ∷ msg) h = drop-set i k w msg (omega arith)
