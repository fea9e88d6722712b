-- ===== src/Heci/Tests/Keybox.antt =====
-- The retrieval of a keybox from an engine that serves three bytes, one at a time, and from one
-- that answers the size only.
use trusty_platform_sand.Base.{
  ℕ, zero, suc, ◌%◌, ◌^◌, ◌<◌, ◌≡◌, refl, ap, pos, some, List, [], ◌∷◌, arith, ◌==◌, if◌then◌else◌,
  get_or,
}
use trusty_platform_sand.Base.Io.{Trace, done, fault}
use trusty_platform_sand.Base.Io.Spec.{Ends}
use trusty_platform_sand.Heci.Attkb.{
  Exchange, request, read_size, result, total_file_size, file_data, word_bytes, get_attkb,
}
use trusty_platform_sand.Heci.Attkb.Serves.{Answered, Piece, Serves}
use trusty_platform_sand.Heci.Attkb.Retrieve.{get_attkb-Serves}
use trusty_platform_sand.Heci.Attkb.Faults.{get_attkb_overflow, Fails, get_attkb_silent_failure}

abbrev pub file : List ℕ
file = 7 ∷ 8 ∷ 9 ∷ []

-- The answer to a request for the bytes from an offset on: one of them.
abbrev answer : ℕ → List ℕ
answer offset = 0 ∷ 3 ∷ 1 ∷ get_or file offset 0 ∷ []

abbrev pub engine : Exchange
engine buf t = done (pos 0, answer (get_or buf 1 0 % 2 ^ 16)) t

engine-Answered : (offset n : ℕ) (t : Trace) → offset < 3 → Answered engine offset n t
unfolding request result
engine-Answered offset n t h = record {
  status = 0;
  buf = answer offset;
  after = t;
  answers = ap (λ o. done (pos 0, answer o) t) (omega arith);
  accepted = refl;
}

engine-Piece : (offset n : ℕ) (t : Trace) → 0 < n → offset < 3 → Piece engine file offset n t
unfolding read_size file_data word_bytes engine-Answered
engine-Piece zero n t p h = record {
  answer = engine-Answered 0 n t h;
  not_empty = omega arith;
  fits = omega arith;
  holds = refl;
}
engine-Piece (suc zero) n t p h = record {
  answer = engine-Answered 1 n t h;
  not_empty = omega arith;
  fits = omega arith;
  holds = refl;
}
engine-Piece (suc (suc zero)) n t p h = record {
  answer = engine-Answered 2 n t h;
  not_empty = omega arith;
  fits = omega arith;
  holds = refl;
}
engine-Piece (suc (suc (suc offset))) n t p h = absurd (omega arith)

pub engine-Serves : Serves engine file
unfolding total_file_size engine-Answered
engine-Serves = record {
  size = λ t. engine-Answered 0 0 t (omega arith);
  size_is = λ t. refl;
  piece = λ offset n t p small inside. engine-Piece offset n t p (omega arith);
}

get_attkb-Serves_example :
    (u : Trace) × (get_attkb engine 4 (some (1 ∷ 2 ∷ 3 ∷ 4 ∷ [])) []
      ≡ done (3, some (7 ∷ 8 ∷ 9 ∷ 4 ∷ [])) u)
get_attkb-Serves_example =
    get_attkb-Serves engine file (1 ∷ 2 ∷ 3 ∷ 4 ∷ []) engine-Serves 4 [] (omega arith) (omega arith)
      (omega arith)

get_attkb_overflow_example : get_attkb engine 4 (some (1 ∷ 2 ∷ [])) [] ≡ fault
get_attkb_overflow_example =
    get_attkb_overflow engine file (1 ∷ 2 ∷ []) engine-Serves 4 [] (omega arith) (omega arith)

-- A request with the size 0 is answered; the others fail.
abbrev dying_engine : Exchange
dying_engine buf t = if get_or buf 1 0 == 0 then done (pos 0, answer 0) t else done (pos 1, buf) t

dying_engine-Fails : Fails dying_engine 3
unfolding request result total_file_size
dying_engine-Fails = record {
  size = λ t. record { status = 0; buf = answer 0; after = t; answers = refl; accepted = refl };
  size_is = λ t. refl;
  piece = λ offset m t p small. (t, ground arith);
}

get_attkb_silent_failure_example :
    Ends (3, some (0 ∷ 0 ∷ 0 ∷ 4 ∷ [])) (get_attkb dying_engine 4 (some (1 ∷ 2 ∷ 3 ∷ 4 ∷ [])) [])
get_attkb_silent_failure_example =
    get_attkb_silent_failure dying_engine 3 dying_engine-Fails (1 ∷ 2 ∷ 3 ∷ 4 ∷ []) 4 []
      (omega arith) (omega arith) (omega arith)
