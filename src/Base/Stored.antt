-- ===== src/Base/Stored.antt =====
-- Values that are stored in a buffer one after the other.
use mathlib.Core.Path.{◌≡◌, ap, sym, ◌∙◌}
use mathlib.Core.List.{List, [], ◌∷◌, ◌++◌, append_assoc, append-nil}
use native.Mathlib.Omega.{arith}
use Prim.Native.Nat.{ℕ, suc, ◌+◌, ◌≤◌}
use trusty_platform_sand.Base.Lists.{
  length, set, take, drop, length-set, take-set, drop-set, take-drop,
}

-- The buffer after the values are stored from an index on.
unfoldable pub stored : List ℕ → ℕ → List ℕ → List ℕ
stored [] i msg = msg
stored (w ∷ ws) i msg = stored ws (i + 1) (set msg i w)

-- They lie from the index on, and the rest of the buffer is as it was.
pub stored-append :
    (ws : List ℕ) (i : ℕ) (msg : List ℕ)
    → i + length ws ≤ length msg
    → stored ws i msg ≡ take i msg ++ ws ++ drop (i + length ws) msg
unfolding stored
stored-append [] i msg h =
    let same : i + 0 ≡ i = omega arith in
    rw same (sym (ap (λ (l : List ℕ). l ++ drop i msg) (append-nil (take i msg)) ∙ take-drop i msg))
stored-append (w ∷ ws) i msg h =
    let next : i + 1 ≡ suc i = omega arith in
    let total : i + 1 + length ws ≡ i + suc (length ws) = omega arith in
    let first : take (i + 1) (set msg i w) ≡ take i msg ++ (w ∷ []) =
      rw next (take-set i w msg (omega arith)) in
    let last : drop (i + 1 + length ws) (set msg i w) ≡ drop (i + suc (length ws)) msg =
      drop-set i (i + 1 + length ws) w msg (omega arith) ∙ ap (λ k. drop k msg) total in
    let behind : List ℕ = drop (i + suc (length ws)) msg in
    let whole : take (i + 1) (set msg i w) ++ ws ++ drop (i + 1 + length ws) (set msg i w)
        ≡ take i msg ++ (w ∷ ws) ++ behind =
      rw (first, last) (ap (λ (l : List ℕ). l ++ behind) (append_assoc (take i msg) (w ∷ []) ws)) in
    stored-append ws (i + 1) (set msg i w) (omega (arith, length-set msg i w)) ∙ whole
