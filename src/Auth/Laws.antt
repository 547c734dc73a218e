-- ===== src/Auth/Laws.antt =====
-- Which responses the two checks accept.
use run_alex_db.Common.{ℕ, suc, ◌≡◌, ◌≢◌, ◌↔◌, ◌⊎◌, inl, inr, refl, arith, ap, ap₂, ◌∙◌, sym}
use run_alex_db.Common.{
  List, [], ◌∷◌, ◌++◌, map, true, ◌==◌, if◌then◌else◌, length, All, length-map,
}
use run_alex_db.Common.Bytes.{IsByte, bit_xor_cancel}
use run_alex_db.Common.Dict.{Str, str_eq_iff}
use run_alex_db.Auth.{
  generate_scramble, xor_zip, all_zero, verify_native_password, verify_native_password_hash,
  double_sha1,
}

-- A scramble has as many bytes as were drawn, none of them zero.
pub generate_scramble_lem :
    (random : List ℕ)
    → (length (generate_scramble random) ≡ length random)
      × All (λ b. b ≢ 0) (generate_scramble random)
unfolding generate_scramble
generate_scramble_lem random = (length-map random _, nonzero random)
  where
    nonzero : (r : List ℕ) → All (λ b. b ≢ 0) (map (λ b. if b == 0 then 1 else b) r)
    nonzero [] = tt
    nonzero (b ∷ r) = (ground arith, nonzero r)

length-xor_zip : (xs ys : List ℕ) → length xs ≡ length ys → length (xor_zip xs ys) ≡ length xs
unfolding xor_zip
length-xor_zip [] ys h = refl
length-xor_zip (x ∷ xs) [] h = absurd (omega arith)
length-xor_zip (x ∷ xs) (y ∷ ys) h = ap suc (length-xor_zip xs ys (omega arith))

xor_zip_cancel :
    (xs ys : List ℕ)
    → All IsByte xs
    → All IsByte ys
    → length xs ≡ length ys
    → xor_zip (xor_zip xs ys) ys ≡ xs
unfolding xor_zip
xor_zip_cancel [] ys hx hy h = refl
xor_zip_cancel (x ∷ xs) [] hx hy h = absurd (omega arith)
xor_zip_cancel (x ∷ xs) (y ∷ ys) (hx, hxs) (hy, hys) h =
    ap₂ ◌∷◌ (bit_xor_cancel x y hx hy) (xor_zip_cancel xs ys hxs hys (omega arith))

-- What the program uses of SHA-1: a digest is 20 bytes.
pub record IsDigest (sha1 : List ℕ → List ℕ) : Type 0 where
  pub size : (data' : List ℕ) → length (sha1 data') ≡ 20
  pub octets : (data' : List ℕ) → All IsByte (sha1 data')

module _ (sha1 : List ℕ → List ℕ) (digest : IsDigest sha1) where
  -- The response of a client that knows the password, by the protocol.
  abbrev pub client_response : Str → List ℕ → List ℕ
  client_response password scramble =
      xor_zip (sha1 password) (sha1 (scramble ++ sha1 (sha1 password)))

  length-client_response :
      (password scramble : List ℕ) → length (client_response password scramble) ≡ 20
  length-client_response password scramble =
      length-xor_zip (sha1 password) _ (digest.size password ∙ sym (digest.size _))
      ∙ digest.size password

  accept :
      (password scramble response : List ℕ)
      → length response ≡ 20
      → xor_zip response (sha1 (scramble ++ sha1 (sha1 password))) ≡ sha1 password
      → verify_native_password sha1 password scramble response ≡ true
  unfolding verify_native_password
  accept password scramble [] h e = absurd (omega arith)
  accept password scramble (b ∷ bs) h e = ground (
    arith,
    str_eq_iff (xor_zip (b ∷ bs) (sha1 (scramble ++ sha1 (sha1 password)))) (sha1 password),
  )

  accepted :
      (password scramble : List ℕ) (b : ℕ) (bs : List ℕ)
      → verify_native_password sha1 password scramble (b ∷ bs) ≡ true
      → (suc (length bs) ≡ 20)
        × (xor_zip (b ∷ bs) (sha1 (scramble ++ sha1 (sha1 password))) ≡ sha1 password)
  unfolding verify_native_password
  accepted password scramble b bs h = ground (
    arith,
    str_eq_iff (xor_zip (b ∷ bs) (sha1 (scramble ++ sha1 (sha1 password)))) (sha1 password),
  )

  client_response_cancel :
      (password scramble : List ℕ)
      → xor_zip (client_response password scramble) (sha1 (scramble ++ sha1 (sha1 password)))
        ≡ sha1 password
  client_response_cancel password scramble =
      xor_zip_cancel (sha1 password) _ (digest.octets password) (digest.octets _)
        (digest.size password ∙ sym (digest.size _))

  accepted-response :
      (password scramble response : List ℕ)
      → All IsByte response
      → verify_native_password sha1 password scramble response ≡ true
      → ((response ≡ []) × (password ≡ [])) ⊎ (response ≡ client_response password scramble)
  accepted-response [] scramble [] hb h = inl (refl, refl)
  accepted-response (c ∷ cs) scramble [] hb h = unfold verify_native_password in cc
  accepted-response password scramble (b ∷ bs) hb h =
      let (size, e) = accepted password scramble b bs h in
      let key = sha1 (scramble ++ sha1 (sha1 password)) in
      inr (
        sym (xor_zip_cancel (b ∷ bs) key hb (digest.octets _) (size ∙ sym (digest.size _)))
        ∙ ap (λ x. xor_zip x key) e)

  response-accepted :
      (password scramble response : List ℕ)
      → ((response ≡ []) × (password ≡ [])) ⊎ (response ≡ client_response password scramble)
      → verify_native_password sha1 password scramble response ≡ true
  response-accepted password scramble response (inl (e, f)) =
      rw (e, f) (unfold verify_native_password in refl)
  response-accepted password scramble response (inr e) = rw e (
      accept password scramble (client_response password scramble)
        (length-client_response password scramble) (client_response_cancel password scramble))

  -- A response of bytes is accepted exactly when it is the one that a client with the password
  -- computes, or it is empty and so is the password: for every 20-byte digest function.
  pub verify_native_password_iff :
      (password scramble response : List ℕ)
      → All IsByte response
      → (verify_native_password sha1 password scramble response ≡ true)
        ↔ (((response ≡ []) × (password ≡ [])) ⊎ (response ≡ client_response password scramble))
  verify_native_password_iff password scramble response hb = (
    accepted-response password scramble response hb,
    response-accepted password scramble response,
  )

  accept_hash :
      (hash2 scramble response : List ℕ)
      → length response ≡ 20
      → sha1 (xor_zip response (sha1 (scramble ++ hash2))) ≡ hash2
      → verify_native_password_hash sha1 hash2 scramble response ≡ true
  unfolding verify_native_password_hash
  accept_hash hash2 scramble [] h e = absurd (omega arith)
  accept_hash hash2 scramble (b ∷ bs) h e =
      ground (arith, str_eq_iff (sha1 (xor_zip (b ∷ bs) (sha1 (scramble ++ hash2)))) hash2)

  -- The check against the stored double hash accepts every non-empty response of bytes that the check
  -- against the password accepts. On the empty response they part: for the empty password the check
  -- against the password accepts it, and the check against the stored hash refuses it unless that hash
  -- is all zeros.
  pub verify_native_password_hash-double_sha1 :
      (password scramble response : List ℕ)
      → All IsByte response
      → verify_native_password sha1 password scramble response ≡ true
      → response ≢ []
      → (verify_native_password_hash sha1 (double_sha1 sha1 password) scramble response ≡ true)
        × (verify_native_password sha1 [] scramble [] ≡ true)
        × (verify_native_password_hash sha1 (double_sha1 sha1 password) scramble []
            ≡ all_zero (double_sha1 sha1 password))
  verify_native_password_hash-double_sha1 password scramble response hb h ne = (
    elim (accepted-response password scramble response hb h) [
      | inl (e, f) ↦ absurd (ne e)
      | inr e ↦
          unfold double_sha1 in
          rw e (
            accept_hash (sha1 (sha1 password)) scramble (client_response password scramble)
              (length-client_response password scramble)
              (ap sha1 (client_response_cancel password scramble)))
    ],
    unfold verify_native_password in refl,
    unfold verify_native_password_hash in refl,
  )
