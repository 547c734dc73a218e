-- ===== src/Protocol/Params/Total.antt =====
-- Reading the parameters of a statement never leaves the payload.
use run_alex_db.Common.{ℕ, zero, suc, ◌+◌, ◌*◌, ◌/◌, ◌%◌, ◌^◌, ◌≤◌, ◌<◌, ◌≡◌, refl, arith}
use run_alex_db.Common.{
  Option, none, some, List, [], ◌∷◌, inl, inr, ◌≢◌, Bool-cases, Option-cases, ◌||◌, >>=-eq-some,
  false,
}
use run_alex_db.Common.{
  ltb, leb, ◌==◌, length, get_elem?, take, drop, length-take, length-drop, length-replicate,
}
use run_alex_db.Common.{◌>>=◌}
use run_alex_db.Common.Dict.{Str}
use run_alex_db.Engine.Value.{Platform}
use run_alex_db.Protocol.Params.{
  slice, read_int, read_float, read_length, read_body, read_lenenc_bytes_as_str, date_at,
  read_binary_date, time_at, read_binary_datetime, read_binary_param, read_types, read_params,
  parse_execute_params, param_types, values_start, new_bound_at,
}

get_elem?-ne-none {ℓ} : {A : Type ℓ} (xs : List A) (i : ℕ) → i < length xs → get_elem? xs i ≢ none
get_elem?-ne-none [] i h = absurd (omega arith)
get_elem?-ne-none (x ∷ xs) zero h = λ e. cc
get_elem?-ne-none (x ∷ xs) (suc i) h = get_elem?-ne-none xs i (omega arith)

bind-ne-none {ℓ κ} :
    {A : Type ℓ} {B : Type κ} (m : Option A) (f : A → Option B)
    → m ≢ none
    → ((a : A) → m ≡ some a → f a ≢ none)
    → (m >>= f) ≢ none
bind-ne-none none f h k = absurd (h refl)
bind-ne-none (some a) f h k = k a refl

pub slice_lem :
    (payload : List ℕ) (start n : ℕ)
    → start + n ≤ length payload
    → slice payload start n ≡ some (take n (drop start payload))
unfolding slice
slice_lem payload start n h = ground arith

read_int-ne-none : (n : ℕ) (payload : List ℕ) (p : ℕ) → read_int n payload p ≢ none
unfolding read_int
read_int-ne-none n payload p = ground arith

read_float-ne-none :
    (show : List ℕ → Str) (n : ℕ) (payload : List ℕ) (p : ℕ) → read_float show n payload p ≢ none
unfolding read_float
read_float-ne-none show n payload p = ground arith

read_length-ne-none : (payload : List ℕ) (p b : ℕ) → read_length payload p b ≢ none
unfolding read_length
read_length-ne-none payload p b = ground arith

read_body-ne-none :
    (payload : List ℕ) (p : ℕ) (n : (ℕ × ℕ) × Option ℕ) → read_body payload p n ≢ none
unfolding read_body
read_body-ne-none payload p (n, some p') = λ e. cc
read_body-ne-none payload p ((len, inc), none) = ground arith

leb-false : (a b : ℕ) → leb a b ≡ false → b < a
leb-false a b h = ground arith

read_lenenc-ne-none : (payload : List ℕ) (p : ℕ) → read_lenenc_bytes_as_str payload p ≢ none
unfolding read_lenenc_bytes_as_str
read_lenenc-ne-none payload p = elim (Bool-cases (leb (length payload) p)) [
  | inl past ↦ rw past (λ e. cc)
  | inr inside ↦ rw inside (
      bind-ne-none (get_elem? payload p) _ (get_elem?-ne-none payload p (leb-false _ _ inside))
        (λ b e.
          bind-ne-none (read_length payload p b) (λ n. read_body payload p n)
            (read_length-ne-none payload p b) (λ n e. read_body-ne-none payload p n)))
]

date_at-ne-none : (payload : List ℕ) (p : ℕ) → p + 4 ≤ length payload → date_at payload p ≢ none
unfolding date_at
date_at-ne-none payload p h = ground (
  arith,
  get_elem?-ne-none payload (p + 2) (omega arith),
  get_elem?-ne-none payload (p + 3) (omega arith),
)

time_at-ne-none :
    (len : ℕ) (payload : List ℕ) (p : ℕ) → p + len ≤ length payload → time_at len payload p ≢ none
unfolding time_at
time_at-ne-none len payload p h = ground (
  arith,
  get_elem?-ne-none payload (p + 4),
  get_elem?-ne-none payload (p + 5),
  get_elem?-ne-none payload (p + 6),
)

read_binary_date-ne-none : (payload : List ℕ) (p : ℕ) → read_binary_date payload p ≢ none
unfolding read_binary_date
read_binary_date-ne-none payload p =
    ground (arith, get_elem?-ne-none payload p, date_at-ne-none payload (p + 1))

read_binary_datetime-ne-none : (payload : List ℕ) (p : ℕ) → read_binary_datetime payload p ≢ none
unfolding read_binary_datetime
read_binary_datetime-ne-none payload p = elim (Option-cases (get_elem? payload p)) [
  | inl gone ↦ ground (arith, get_elem?-ne-none payload p)
  | inr (len, found) ↦
      ground (arith, date_at-ne-none payload (p + 1), time_at-ne-none len payload (p + 1))
]

module _ (pf : Platform) where
  open pf use {f32_text, f64_text}

  read_binary_param-ne-none :
      (payload : List ℕ) (p type_byte : ℕ) → read_binary_param pf payload p type_byte ≢ none
  unfolding read_binary_param
  read_binary_param-ne-none payload p type_byte = ground (
    arith,
    read_int-ne-none 1 payload p,
    read_int-ne-none 2 payload p,
    read_int-ne-none 4 payload p,
    read_int-ne-none 8 payload p,
    read_float-ne-none f32_text 4 payload p,
    read_float-ne-none f64_text 8 payload p,
    read_binary_date-ne-none payload p,
    read_binary_datetime-ne-none payload p,
    read_lenenc-ne-none payload p,
  )

  read_types-ne-none :
      (n : ℕ) (payload : List ℕ) (p : ℕ)
      → p + n * 2 ≤ length payload
      → read_types pf n payload p ≢ none
  unfolding read_types
  read_types-ne-none zero payload p h = λ e. cc
  read_types-ne-none (suc n) payload p h = ground (
    arith,
    get_elem?-ne-none payload p,
    get_elem?-ne-none payload (p + 1),
    read_types-ne-none n payload (p + 2),
  )

  length-read_types :
      (n : ℕ) (payload : List ℕ) (p : ℕ) (ts : List ℕ)
      → read_types pf n payload p ≡ some ts
      → length ts ≡ n
  unfolding read_types
  length-read_types zero payload p ts h = ground arith
  length-read_types (suc n) payload p ts h =
      let (t, et, h1) = >>=-eq-some (get_elem? payload p) _ h in
      let (u, eu, h2) = >>=-eq-some (get_elem? payload (p + 1)) _ h1 in
      let (rest, er, h3) = >>=-eq-some (read_types pf n payload (p + 2)) _ h2 in
      ground (arith, length-read_types n payload (p + 2) rest er)

  read_params-ne-none :
      (payload null_bitmap ts : List ℕ) (i p : ℕ)
      → i + length ts ≤ 8 * length null_bitmap
      → read_params pf payload null_bitmap ts i p ≢ none
  unfolding read_params
  read_params-ne-none payload null_bitmap [] i p h = λ e. cc
  read_params-ne-none payload null_bitmap (t ∷ ts) i p h =
      bind-ne-none (get_elem? null_bitmap (i / 8)) _
        (get_elem?-ne-none null_bitmap (i / 8) (omega arith))
        (λ byte e. elim (Bool-cases (byte / 2 ^ (i % 8) % 2 == 1)) [
          | inl marked ↦ rw marked (
              bind-ne-none (read_params pf payload null_bitmap ts (suc i) p) _
                (read_params-ne-none payload null_bitmap ts (suc i) p (omega arith))
                (λ vs e. λ q. cc))
          | inr clear ↦ rw clear (
              bind-ne-none (read_binary_param pf payload p t) _
                (read_binary_param-ne-none payload p t)
                (λ x e.
                  bind-ne-none (read_params pf payload null_bitmap ts (suc i) x.1) _
                    (read_params-ne-none payload null_bitmap ts (suc i) x.1 (omega arith))
                    (λ vs e. λ q. cc)))
        ])

  param_types-ne-none :
      (payload : List ℕ) (n new_bound : ℕ) → param_types pf payload n new_bound ≢ none
  unfolding param_types
  param_types-ne-none payload n new_bound =
      ground (arith, read_types-ne-none n payload (10 + (n + 7) / 8 + 1))

  pub length-param_types :
      (payload : List ℕ) (n new_bound : ℕ) (ts : List ℕ)
      → param_types pf payload n new_bound ≡ some ts
      → length ts ≡ n
  unfolding param_types
  length-param_types payload n new_bound ts h = ground (
    arith,
    length-read_types n payload (10 + (n + 7) / 8 + 1) ts,
    length-replicate {A = ℕ} n 0xfd,
  )

  new_bound_at-ne-none : (payload : List ℕ) (p : ℕ) → new_bound_at pf payload p ≢ none
  unfolding new_bound_at
  new_bound_at-ne-none payload p = ground (arith, get_elem?-ne-none payload p)

  -- Parsing the parameters of a statement never reads outside the payload: whatever bytes a client sends
  -- and however many parameters the statement has, there is a result and no panic.
  pub parse_execute_params-ne-none :
      (payload : List ℕ) (n : ℕ) → parse_execute_params pf payload n ≢ none
  unfolding parse_execute_params
  parse_execute_params-ne-none payload n = elim (Bool-cases (n == 0 || ltb (length payload) 10)) [
    | inl early ↦ rw early (λ q. cc)
    | inr long ↦ rw long (elim (Bool-cases (ltb (length payload) (10 + (n + 7) / 8))) [
      | inl short ↦ rw short (λ q. cc)
      | inr whole ↦
          let fits : 10 + (n + 7) / 8 ≤ length payload = ground arith in
          rw (whole, slice_lem payload 10 ((n + 7) / 8) fits)
            (bind-ne-none (new_bound_at pf payload (10 + (n + 7) / 8)) _
              (new_bound_at-ne-none payload (10 + (n + 7) / 8))
              (λ b eb.
                bind-ne-none (param_types pf payload n b) _ (param_types-ne-none payload n b)
                  (λ ts et. read_params-ne-none payload _ ts 0 (values_start pf payload n b) (
                    omega (
                      arith,
                      length-param_types payload n b ts et,
                      length-take ((n + 7) / 8) (drop 10 payload),
                      length-drop 10 payload,
                    )))))
    ])
  ]
