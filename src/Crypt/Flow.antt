-- ===== src/Crypt/Flow.antt =====
-- lib/hwkey_crypt/hwkey_crypt.c: the state of a call, its steps with the jumps to `exit`, and the
-- crypto library.
use trusty_platform_sand.Base.{ℕ, ℤ, Bool, Option, List}

-- AES_GCM_NO_ERROR, AES_GCM_ERR_GENERIC, AES_GCM_ERR_AUTH_FAILED
pub data Rc : Type 0 where
  no_error err_generic err_auth_failed : Rc

-- The calls on a context: the initialisation with key and vector, EVP_CTRL_GCM_SET_IVLEN, the
-- update without a destination, the update, the final call, and the controls of the tag.
pub data Call : Type 0 where
  encrypt_init decrypt_init : List ℕ → List ℕ → Call
  set_ivlen : ℤ → Call
  add_aad crypt : List ℕ → ℤ → Call
  finish : Call
  get_tag : ℕ → Call
  set_tag : List ℕ → Call

-- Whether the latest call succeeds, and what it stores. `memcpy_s` takes the bytes of the
-- destination and of the source, and answers whether it succeeded, with the bytes that are then in
-- the destination.
pub record Evp : Type 0 where
  pub ctx_new : Bool
  pub succeeds : List Call → Bool
  pub stores : List Call → List ℕ
  pub malloc : ℕ → Option (List ℕ)
  pub memcpy_s : List ℕ → List ℕ → Bool × List ℕ

-- The local variables and the caller's objects.
pub record Work : Type 0 where
  pub calls : List Call
  pub out_buf : List ℕ
  pub out : List ℕ
  pub out_size : ℕ

-- A step goes on, jumps to `exit`, or leaves an object's memory.
pub data Step (A : Type 0) : Type 0 where
  next : A → Work → Step A
  exit : Rc → Work → Step A
  fault : Step A

abbrev pub Op : Type 0 → Type 0
Op A = Work → Step A

abbrev pub ret : {A : Type 0} → A → Op A
ret a w = next a w

infixl 5 ◌>>=◌ ◌>>◌
abbrev pub ◌>>=◌ : {A B : Type 0} → Op A → (A → Op B) → Op B
◌>>=◌ m f w = elim (m w) [ next a w' ↦ f a w' | exit rc w' ↦ exit rc w' | fault ↦ fault ]

abbrev pub ◌>>◌ : {B : Type 0} → Op (Unit {0}) → Op B → Op B
m >> k = m >>= λ _. k

-- What a call leaves: its result, the caller's objects, the blocks that were freed with what they
-- held.
pub record Result : Type 0 where
  pub rc : Rc
  pub out : Option (List ℕ)
  pub out_size : Option ℕ
  pub freed : List (List ℕ)
