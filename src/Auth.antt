-- ===== src/Auth.antt =====
-- src/auth.rs: the `mysql_native_password` scramble. SHA-1 (the crate `sha1`) is a parameter, a function
-- from bytes to bytes.
pub mod Laws
mod Tests
use Prim.Native.Nat.{bit_xor}
use run_alex_db.Common.{
  ℕ, ◌+◌, List, [], ◌∷◌, ◌++◌, map, Bool, true, false, ◌==◌, if◌then◌else◌, length,
}
use run_alex_db.Common.{◌&&◌, not}
use run_alex_db.Common.Dict.{Str, str_eq}

-- `for b in s.iter_mut() { if *b == 0 { *b = 1; } }` on the random bytes.
unfoldable pub generate_scramble : List ℕ → List ℕ
generate_scramble random = map (λ b. if b == 0 then 1 else b) random

-- `a.iter().zip(b).map(|(x, y)| x ^ y)`: as long as the shorter of the two.
unfoldable pub xor_zip : List ℕ → List ℕ → List ℕ
xor_zip [] ys = []
xor_zip (x ∷ xs) [] = []
xor_zip (x ∷ xs) (y ∷ ys) = bit_xor x y ∷ xor_zip xs ys

-- `iter().all(|&b| b == 0)`.
unfoldable pub all_zero : List ℕ → Bool
all_zero [] = true
all_zero (b ∷ bs) = b == 0 && all_zero bs

abbrev is_empty : List ℕ → Bool
is_empty [] = true
is_empty (b ∷ bs) = false

module _ (sha1 : List ℕ → List ℕ) where
  unfoldable pub verify_native_password : Str → List ℕ → List ℕ → Bool
  verify_native_password password scramble response =
      let hash1 = sha1 password in
      let hash2 = sha1 hash1 in
      let expected_xor = sha1 (scramble ++ hash2) in
      if is_empty response
      then is_empty password
      else if not (length response == 20)
      then false
      else str_eq (xor_zip response expected_xor) hash1

  unfoldable pub verify_native_password_hash : List ℕ → List ℕ → List ℕ → Bool
  verify_native_password_hash hash2 scramble response =
      let expected_xor = sha1 (scramble ++ hash2) in
      let hash1_from_client = xor_zip response expected_xor in
      if is_empty response
      then all_zero hash2
      else if not (length response == 20)
      then false
      else str_eq (sha1 hash1_from_client) hash2

  -- src/engine.rs, `double_sha1`: what the user table stores.
  unfoldable pub double_sha1 : List ℕ → List ℕ
  double_sha1 bytes = sha1 (sha1 bytes)
