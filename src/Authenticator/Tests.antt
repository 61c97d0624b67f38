-- ===== src/Authenticator/Tests.antt =====
-- The theorems on authentication at concrete inputs.
use tiny_sql.Prelude.{
  ℕ, ◌%◌, ◌^◌, true, false, some, none, [], ◌∷◌, ◌≡◌, refl, arith, length, Bytes, codes,
}
use tiny_sql.Authenticator.{authenticate, compute_auth_response}
use tiny_sql.Authenticator.Accepts.{IsSha1, password_of, authenticate-compute}

-- A digest that tells texts apart by their length.
abbrev pub length_digest : Bytes → Bytes
length_digest s = length s % 2 ^ 8 ∷ codes "0123456789012345678"

pub length_digest-IsSha1 : IsSha1 length_digest
length_digest-IsSha1 = record { size = λ s. refl; bytes = λ s. omega arith }

abbrev challenge : Bytes
challenge = codes "abcdefghijklmnopqrst"

authenticate-compute_example :
    authenticate length_digest
      (codes "admin")
      (compute_auth_response length_digest (codes "admin123") challenge)
      challenge
    ≡ true
unfolding password_of tiny_sql.Prelude.str_eq
authenticate-compute_example =
    authenticate-compute length_digest length_digest-IsSha1 (codes "admin") (codes "admin123")
      challenge refl
