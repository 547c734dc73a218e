-- ===== src/Auth/Tests.antt =====
-- The laws of src/auth.rs at a concrete digest function, which is 20 bytes for every input.
use run_alex_db.Common.{
  ℕ, ◌+◌, ◌%◌, ◌≡◌, ◌≢◌, refl, arith, ◌↔◌, ◌⊎◌, inr, List, [], ◌∷◌, true, replicate, All,
}
use run_alex_db.Common.Bytes.{IsByte}
use run_alex_db.Common.Dict.{str}
use run_alex_db.Auth.{
  xor_zip, all_zero, verify_native_password, verify_native_password_hash, double_sha1,
}
use run_alex_db.Auth.Laws.{
  verify_native_password_iff, verify_native_password_hash-double_sha1, client_response, IsDigest,
}

-- The sum of the bytes, and 19 bytes more.
abbrev sum : List ℕ → ℕ
sum [] = 0
sum (b ∷ bs) = b + sum bs

abbrev digest : List ℕ → List ℕ
digest bytes = (sum bytes % 256) ∷ replicate 19 7

digest-IsDigest : IsDigest digest
digest-IsDigest = record { size = λ data'. refl; octets = λ data'. ground arith }

abbrev scramble : List ℕ
scramble = replicate 20 3

verify_native_password_example :
    (verify_native_password digest (str "secret") scramble (replicate 20 9) ≡ true) ↔ (
      ((replicate {A = ℕ} 20 9 ≡ []) × (str "secret" ≡ []))
      ⊎ (replicate {A = ℕ} 20 9 ≡ client_response digest digest-IsDigest (str "secret") scramble))
verify_native_password_example =
    verify_native_password_iff digest digest-IsDigest (str "secret") scramble (replicate 20 9)
      (ground arith)

abbrev response : List ℕ
response = client_response digest digest-IsDigest (str "secret") scramble

response-bytes : All IsByte response
unfolding xor_zip
response-bytes = ground arith

response-ne-nil : response ≢ []
unfolding xor_zip
response-ne-nil = λ q. cc

verify_native_password_hash_example :
    (verify_native_password_hash digest (double_sha1 digest (str "secret")) scramble response
      ≡ true)
    × (verify_native_password digest [] scramble [] ≡ true)
    × (verify_native_password_hash digest (double_sha1 digest (str "secret")) scramble []
        ≡ all_zero (double_sha1 digest (str "secret")))
verify_native_password_hash_example =
    verify_native_password_hash-double_sha1 digest digest-IsDigest (str "secret") scramble response
      response-bytes
      ((verify_native_password_iff digest digest-IsDigest (str "secret") scramble response
          response-bytes).1
        (inr refl))
      response-ne-nil
