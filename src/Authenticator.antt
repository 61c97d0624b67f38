-- ===== src/Authenticator.antt =====
-- src/auth/authenticator.cpp: the check of a client's answer to the challenge.
--
-- OpenSSL's `SHA1` is a parameter. The loops over twenty indices run along two lists of twenty.
pub mod Accepts
pub mod Tests
use Prim.Native.Nat.{bit_xor}
use tiny_sql.Prelude.{
  ℕ, Bool, true, false, ◌||◌, [], ◌∷◌, ◌++◌, ◌==◌, if◌then◌else◌, length, Bytes, codes, str_eq,
}

pub xor_each : Bytes → Bytes → Bytes
xor_each [] t = []
xor_each (c ∷ s) [] = []
xor_each (c ∷ s) (d ∷ t) = bit_xor c d ∷ xor_each s t

is_empty : Bytes → Bool
is_empty [] = true
is_empty (c ∷ s) = false

module _ (sha1 : Bytes → Bytes) where
  -- The users are written in the code.
  pub get_password_hash : Bytes → Bytes
  get_password_hash username =
      if str_eq username (codes "root") || str_eq username (codes "tiny")
      then sha1 (sha1 [])
      else if str_eq username (codes "test")
      then sha1 (sha1 (codes "test"))
      else if str_eq username (codes "admin")
      then sha1 (sha1 (codes "admin123"))
      else []

  -- The part of `authenticate` behind the tests of the size.
  check_response : Bytes → Bytes → Bytes → Bool
  check_response password_hash auth_response auth_plugin_data =
      let hash1 = sha1 (auth_plugin_data ++ password_hash) in
      let sha1_password = xor_each auth_response hash1 in str_eq (sha1 sha1_password) password_hash

  pub authenticate : Bytes → Bytes → Bytes → Bool
  authenticate username auth_response auth_plugin_data =
      let password_hash = get_password_hash username in
      if is_empty password_hash
      then false
      else if is_empty auth_response
      then str_eq password_hash (sha1 (sha1 []))
      else if length auth_response == 20
      then check_response password_hash auth_response auth_plugin_data
      else false

  unfoldable pub compute_auth_response : Bytes → Bytes → Bytes
  compute_auth_response [] auth_plugin_data = []
  compute_auth_response (c ∷ s) auth_plugin_data =
      let sha1_pass = sha1 (c ∷ s) in
      let hash = sha1 (auth_plugin_data ++ sha1 sha1_pass) in xor_each sha1_pass hash
