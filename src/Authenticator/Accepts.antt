-- ===== src/Authenticator/Accepts.antt =====
-- src/auth/authenticator.cpp: who is let in.
use Prim.Native.Nat.{bit_xor}
use tiny_sql.Prelude.{
  ℕ, zero, suc, ◌<◌, Bool, true, false, ◌&&◌, ◌||◌, [], ◌∷◌, ◌++◌, ◌^◌, Option, none, some, ◌≡◌,
  refl, sym, ap, ap₂, ◌∙◌, arith, ◌==◌, ==_iff, if◌then◌else◌, length, Bytes, codes, str_eq,
}
use tiny_sql.Maps.{str_eq_refl}
use tiny_sql.Authenticator.{
  xor_each, get_password_hash, check_response, is_empty, authenticate, compute_auth_response,
}

-- Over a small range, every number passes a test.
all_below : ℕ → (ℕ → Bool) → Bool
all_below zero p = true
all_below (suc n) p = p n && all_below n p

all_below-lt : (n : ℕ) (p : ℕ → Bool) (x : ℕ) → all_below n p ≡ true → x < n → p x ≡ true
unfolding all_below
all_below-lt zero p x h lt = absurd (omega arith)
all_below-lt (suc n) p x h lt = ground (arith, all_below-lt n p x)

-- `x ^ y ^ y` is `x`, for all bytes.
xor_table : all_below 256 (λ x. all_below 256 (λ y. bit_xor (bit_xor x y) y == x)) ≡ true
unfolding all_below
xor_table = refl

xor_twice : (x y : ℕ) → x < 2 ^ 8 → y < 2 ^ 8 → bit_xor (bit_xor x y) y ≡ x
xor_twice x y h k = (==_iff _ x).0 (all_below-lt 256 _ y (all_below-lt 256 _ x xor_table h) k)

abbrev pub AreBytes : Bytes → Type 0
AreBytes [] = Unit
AreBytes (c ∷ s) = (c < 2 ^ 8) × AreBytes s

xor_each-twice :
    (s t : Bytes) → AreBytes s → AreBytes t → length s ≡ length t → xor_each (xor_each s t) t ≡ s
unfolding xor_each
xor_each-twice [] t hs ht e = refl
xor_each-twice (c ∷ s) [] hs ht e = absurd (omega (arith, e))
xor_each-twice (c ∷ s) (d ∷ t) (hc, hs) (hd, ht) e =
    ap₂ (λ x (l : Bytes). x ∷ l) (xor_twice c d hc hd) (xor_each-twice s t hs ht (omega (arith, e)))

length-xor_each : (s t : Bytes) → length s ≡ length t → length (xor_each s t) ≡ length s
unfolding xor_each
length-xor_each [] t e = refl
length-xor_each (c ∷ s) [] e = absurd (omega (arith, e))
length-xor_each (c ∷ s) (d ∷ t) e = ap suc (length-xor_each s t (omega (arith, e)))

-- What is relied on of `SHA1`: it fills twenty bytes.
pub record IsSha1 (sha1 : Bytes → Bytes) : Type 0 where
  pub size : (s : Bytes) → length (sha1 s) ≡ 20
  pub bytes : (s : Bytes) → AreBytes (sha1 s)

-- The users and their passwords.
unfoldable pub password_of : Bytes → Option Bytes
password_of username =
    if str_eq username (codes "root") || str_eq username (codes "tiny")
    then some []
    else if str_eq username (codes "test")
    then some (codes "test")
    else if str_eq username (codes "admin")
    then some (codes "admin123")
    else none

not_empty : (s : Bytes) → length s ≡ 20 → is_empty s ≡ false
unfolding is_empty
not_empty [] h = absurd (omega (arith, h))
not_empty (c ∷ s) h = refl

module _ (sha1 : Bytes → Bytes) (f : IsSha1 sha1) where
  abbrev stored : Option Bytes → Bytes
  stored none = []
  stored (some password) = sha1 (sha1 password)

  get_password_hash-stored :
      (username : Bytes) → get_password_hash sha1 username ≡ stored (password_of username)
  unfolding get_password_hash password_of
  get_password_hash-stored username = ground arith

  check_response-compute :
      (c : ℕ) (s challenge : Bytes)
      → check_response sha1
          (sha1 (sha1 (c ∷ s)))
          (compute_auth_response sha1 (c ∷ s) challenge)
          challenge
        ≡ true
  unfolding check_response compute_auth_response
  check_response-compute c s challenge =
      let pass = sha1 (c ∷ s) in
      let mask = sha1 (challenge ++ sha1 pass) in
      let back : xor_each (xor_each pass mask) mask ≡ pass =
        xor_each-twice pass mask (f.bytes _) (f.bytes _) (f.size _ ∙ sym (f.size _)) in
      rw back (str_eq_refl (sha1 pass))

  length-response :
      (c : ℕ) (s challenge : Bytes) → length (compute_auth_response sha1 (c ∷ s) challenge) ≡ 20
  unfolding compute_auth_response
  length-response c s challenge =
      length-xor_each (sha1 (c ∷ s)) _ (f.size _ ∙ sym (f.size _)) ∙ f.size _

  accepts :
      (username password challenge : Bytes)
      → get_password_hash sha1 username ≡ sha1 (sha1 password)
      → authenticate sha1 username (compute_auth_response sha1 password challenge) challenge ≡ true
  unfolding authenticate is_empty compute_auth_response
  accepts username [] challenge h =
      rw (h, not_empty (sha1 (sha1 [])) (f.size (sha1 []))) (str_eq_refl (sha1 (sha1 [])))
  accepts username (c ∷ s) challenge h =
      let size = length-response c s challenge in
      rw (h, not_empty (sha1 (sha1 (c ∷ s))) (f.size (sha1 (c ∷ s))), not_empty _ size, size)
        (check_response-compute c s challenge)

  -- For a digest of twenty bytes: what `computeAuthResponse` answers to a challenge with the user's
  -- password is accepted by `authenticate`, for every user in the table and every challenge.
  pub authenticate-compute :
      (username password challenge : Bytes)
      → password_of username ≡ some password
      → authenticate sha1 username (compute_auth_response sha1 password challenge) challenge ≡ true
  authenticate-compute username password challenge e =
      accepts username password challenge (get_password_hash-stored username ∙ ap stored e)

  -- A user that is not in the table is refused, whatever the answer.
  pub authenticate-unknown :
      (username response challenge : Bytes)
      → password_of username ≡ none
      → authenticate sha1 username response challenge ≡ false
  unfolding authenticate is_empty
  authenticate-unknown username response challenge e =
      rw (get_password_hash-stored username ∙ ap stored e) refl
