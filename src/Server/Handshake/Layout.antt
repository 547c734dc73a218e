-- ===== src/Server/Handshake/Layout.antt =====
-- How the handshake response of a client is laid out: a header of 32 bytes, the name with a zero byte behind
-- it, and the response with its length in front.
use run_alex_db.Common.{
  ℕ, zero, suc, ◌+◌, ◌≡◌, ◌≢◌, ◌<◌, ◌≤◌, ◌⊎◌, inl, inr, refl, ap, ◌∙◌, arith, none, some,
}
use run_alex_db.Common.{List, [], ◌∷◌, ◌++◌, All, length, take, drop, position_from, ◌==◌}
use run_alex_db.Common.{take-length-append}
use run_alex_db.Common.{Bool-cases}
use run_alex_db.Server.Handshake.{auth_response}

-- The response that follows the name: there is none, it is there in full and more may follow, or the packet
-- ends before it does.
pub data Response : List ℕ → List ℕ → Type 0 where
  missing : Response [] []
  whole : (response more : List ℕ) → Response (length response ∷ (response ++ more)) response
  cut : (len : ℕ) (response : List ℕ) → length response < len → Response (len ∷ response) response

-- The packet carries this name and this response.
pub record Sent (payload name response : List ℕ) : Type 0 where
  pub head : List ℕ
  pub after : List ℕ
  pub parts : payload ≡ head ++ (name ++ (0 ∷ after))
  pub head_size : length head ≡ 32
  pub no_zero : All (λ b. b ≢ 0) name
  pub response_in : Response after response

take-long {ℓ} : {A : Type ℓ} (n : ℕ) (xs : List A) → length xs ≤ n → take n xs ≡ xs
take-long zero [] h = refl
take-long zero (x ∷ xs) h = absurd (omega arith)
take-long (suc n) [] h = refl
take-long (suc n) (x ∷ xs) h = ap (λ l. x ∷ l) (take-long n xs (omega arith))

-- Where the response ends, the source cuts it off.
pub Response-auth_response :
    (after response : List ℕ) → Response after response → auth_response after ≡ response
unfolding auth_response
Response-auth_response _ _ missing = refl
Response-auth_response _ _ (whole response more) = take-length-append response more
Response-auth_response _ _ (cut len response h) = take-long len response (omega arith)

taken_response :
    (len : ℕ) (bytes : List ℕ)
    → (length bytes < len)
      ⊎ ((response : List ℕ) × (more : List ℕ) × (bytes ≡ response ++ more)
          × (len ≡ length response))
taken_response zero bytes = inr ([], bytes, refl, refl)
taken_response (suc len) [] = inl (omega arith)
taken_response (suc len) (b ∷ bytes) = elim (taken_response len bytes) [
  | inl h ↦ inl (omega arith)
  | inr (response, more, e, l) ↦ inr (b ∷ response, more, ap (λ x. b ∷ x) e, ap suc l)
]

pub has-Response : (after : List ℕ) → (response : List ℕ) × Response after response
has-Response [] = ([], missing)
has-Response (len ∷ bytes) = elim (taken_response len bytes) [
  | inl h ↦ (bytes, cut len bytes h)
  | inr (response, more, e, l) ↦ (response, rw (e, l) (whole response more))
]

position_zero :
    (i : ℕ) (name after : List ℕ)
    → All (λ b. b ≢ 0) name
    → position_from i (λ b. b == 0) (name ++ (0 ∷ after)) ≡ some (i + length name)
position_zero i [] after h = ap some (omega arith)
position_zero i (b ∷ name) after (hb, h) = elim (Bool-cases (b == 0)) [
  | inl same ↦ absurd (hb (ground (arith, same)))
  | inr other ↦ rw other (position_zero (suc i) name after h ∙ ap some (omega arith))
]

-- A name ends at the first zero byte.
pub position_name :
    (name after : List ℕ)
    → All (λ b. b ≢ 0) name
    → position_from 0 (λ b. b == 0) (name ++ (0 ∷ after)) ≡ some (length name)
position_name name after h = position_zero 0 name after h ∙ ap some (omega arith)

pub take_name : (name after : List ℕ) → take (length name) (name ++ (0 ∷ after)) ≡ name
take_name name after = take-length-append name (0 ∷ after)

drop_behind : (name after : List ℕ) → drop (suc (length name)) (name ++ (0 ∷ after)) ≡ after
drop_behind [] after = refl
drop_behind (b ∷ name) after = drop_behind name after

pub drop_name : (name after : List ℕ) → drop (length name + 1) (name ++ (0 ∷ after)) ≡ after
drop_name name after =
    let next : length name + 1 ≡ suc (length name) = omega arith in
    ap (λ n. drop n (name ++ (0 ∷ after))) next ∙ drop_behind name after

-- Either there is no zero byte, or a name ends at the first.
pub split_name_off :
    (i : ℕ) (rest : List ℕ)
    → (position_from i (λ b. b == 0) rest ≡ none)
      ⊎ ((name : List ℕ) × (after : List ℕ) × (rest ≡ name ++ (0 ∷ after)) × All (λ b. b ≢ 0) name)
split_name_off i [] = inl refl
split_name_off i (b ∷ rest) = elim (Bool-cases (b == 0)) [
  | inl same ↦ inr ([], rest, ap (λ x. x ∷ rest) (ground (arith, same)), tt)
  | inr other ↦ elim (split_name_off (suc i) rest) [
    | inl absent ↦ inl (rw other absent)
    | inr (name, after, e, h) ↦
        inr (b ∷ name, after, ap (λ x. b ∷ x) e, ((λ z. ground (arith, other, z)), h))
  ]
]

-- What is behind the header of a packet that is long enough.
pub split_head :
    (n : ℕ) (payload : List ℕ)
    → n ≤ length payload
    → (head : List ℕ) × (payload ≡ head ++ drop n payload) × (length head ≡ n)
split_head zero payload h = ([], refl, refl)
split_head (suc n) [] h = absurd (omega arith)
split_head (suc n) (b ∷ payload) h =
    let (head, e, l) = split_head n payload (omega arith) in (b ∷ head, ap (λ x. b ∷ x) e, ap suc l)
