-- ===== src/Engine/Compare/Like.antt =====
-- What LIKE matches.
use run_alex_db.Common.{ℕ, ◌≡◌, ◌≢◌, ◌↔◌, inl, inr, refl, arith, ap, List, [], ◌∷◌, ◌++◌}
use run_alex_db.Common.{Bool, true, false, ◌==◌, Bool-cases}
use run_alex_db.Common.Dict.{Str, str_eq, str_eq_iff, str_eq_refl}
use run_alex_db.Engine.Compare.{Chars, like_rec, like_match, any_suffix, head_and}

module _ (cs : Chars) where
  open cs use {chars, to_lowercase}

  -- A pattern and a text that it matches: `%` stands for any characters, `_` for one, and any other
  -- character for itself up to case.
  pub data Like : List ℕ → List ℕ → Type 0 where
    ended : Like [] []
    any : (front back ps : List ℕ) → Like ps back → Like (b'%' ∷ ps) (front ++ back)
    one : (c : ℕ) (v ps : List ℕ) → Like ps v → Like (b'_' ∷ ps) (c ∷ v)
    same :
        (p c : ℕ) (v ps : List ℕ)
        → p ≢ b'%'
        → p ≢ b'_'
        → to_lowercase p ≡ to_lowercase c
        → Like ps v
        → Like (p ∷ ps) (c ∷ v)

  any_suffix_intro :
      (f : List ℕ → Bool) (front back : List ℕ)
      → f back ≡ true
      → any_suffix cs f (front ++ back) ≡ true
  unfolding any_suffix
  any_suffix_intro f [] [] h = h
  any_suffix_intro f [] (c ∷ v) h = rw h
  any_suffix_intro f (c ∷ front) back h = ground (arith, any_suffix_intro f front back h)

  any_suffix_elim :
      (f : List ℕ → Bool) (v : List ℕ)
      → any_suffix cs f v ≡ true
      → (front : List ℕ) × (back : List ℕ) × (v ≡ front ++ back) × (f back ≡ true)
  unfolding any_suffix
  any_suffix_elim f [] h = ([], [], refl, h)
  any_suffix_elim f (c ∷ v) h = elim (Bool-cases (f (c ∷ v))) [
    | inl now ↦ ([], c ∷ v, refl, now)
    | inr later ↦
        let (front, back, e, hb) = any_suffix_elim f v (rw later at h) in
        (c ∷ front, back, ap (λ w. c ∷ w) e, hb)
  ]

  Like-like_rec : (ps v : List ℕ) → Like ps v → like_rec cs ps v ≡ true
  unfolding like_rec head_and
  Like-like_rec ps v ended = refl
  Like-like_rec ps v (any front back qs h) =
      any_suffix_intro (like_rec cs qs) front back (Like-like_rec qs back h)
  Like-like_rec ps v (one c w qs h) = Like-like_rec qs w h
  Like-like_rec ps v (same p c w qs np nu e h) =
      let percent : (p == b'%') ≡ false = ground arith in
      let underscore : (p == b'_') ≡ false = ground arith in
      rw (percent, underscore, e, str_eq_refl (to_lowercase c)) (Like-like_rec qs w h)

  head_and_elim :
      (f : ℕ → Bool) (g : List ℕ → Bool) (v : List ℕ)
      → head_and cs f g v ≡ true
      → (c : ℕ) × (w : List ℕ) × (v ≡ c ∷ w) × (f c ≡ true) × (g w ≡ true)
  unfolding head_and
  head_and_elim f g [] h = absurd cc
  head_and_elim f g (c ∷ w) h = (c, w, refl, ground arith, ground arith)

  like_rec-Like : (ps v : List ℕ) → like_rec cs ps v ≡ true → Like ps v
  unfolding like_rec
  like_rec-Like [] [] h = ended
  like_rec-Like [] (c ∷ v) h = cc
  like_rec-Like (p ∷ ps) v h = elim (Bool-cases (p == b'%')) [
    | inl percent ↦
        let (front, back, e, hb) = any_suffix_elim (like_rec cs ps) v (rw percent at h) in
        let is : p ≡ b'%' = ground arith in
        rw (is, e) (any front back ps (like_rec-Like ps back hb))
    | inr not_percent ↦ elim (Bool-cases (p == b'_')) [
      | inl underscore ↦
          let is : p ≡ b'_' = ground arith in
          let (c, w, e, _, hw) =
            head_and_elim (λ c. true) (like_rec cs ps) v (rw (not_percent, underscore) at h) in
          rw (is, e) (one c w ps (like_rec-Like ps w hw))
      | inr plain ↦
          let (c, w, e, hc, hw) =
            head_and_elim (λ c. str_eq (to_lowercase p) (to_lowercase c)) (like_rec cs ps) v
              (rw (not_percent, plain) at h) in
          rw e (
            same p c w ps (λ q. cc (q, not_percent)) (λ q. cc (q, plain))
              ((str_eq_iff (to_lowercase p) (to_lowercase c)).0 hc) (like_rec-Like ps w hw))
    ]
  ]

  -- LIKE passes exactly the texts that the pattern stands for: `%` for any characters, none included,
  -- `_` for exactly one, and every other character for itself up to case, for all texts and patterns.
  pub like_match_iff :
      (v pattern : Str) → (like_match cs v pattern ≡ true) ↔ Like (chars pattern) (chars v)
  unfolding like_match
  like_match_iff v pattern =
      (like_rec-Like (chars pattern) (chars v), Like-like_rec (chars pattern) (chars v))
