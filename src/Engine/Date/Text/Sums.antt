-- ===== src/Engine/Date/Text/Sums.antt =====
-- Dates written out are read back, and days can be added one sum after another.
use run_alex_db.Common.{
  ℕ, suc, ◌^◌, ◌<◌, ◌≡◌, ◌≢◌, refl, sym, ap, ◌∙◌, arith, Option, none, some, List, [], ◌∷◌, ◌++◌,
}
use run_alex_db.Common.{append-nil, length, length-append, ◌>>=◌}
use run_alex_db.Common.Int.{ℤ, pos, add_ℤ, wrap_i64, wrap_i64_id}
use run_alex_db.Common.Dict.{Str}
use run_alex_db.Common.Decimal.{padded, padded_ℤ}
use run_alex_db.Common.Text.{split_at_first}
use run_alex_db.Common.Ascii.{trim, first_word, NoSpace, first_word-trim}
use run_alex_db.Common.Digits.{
  padded-IsDigit, parse_i64-padded, split_at_first-digits, digits-NoSpace,
}
use run_alex_db.Engine.Date.{days_to_ymd}
use run_alex_db.Engine.Date.Calendar.{ymd_to_days-days_to_ymd, date_small}
use run_alex_db.Engine.Date.Text.{
  splitn, three_numbers, parse_ymd, parse_date_str, format_date_ymd, date_of_day, date_add_days,
}

-- The text of a date is one word.
first_word-NoSpace : (s : Str) → NoSpace s → s ≢ [] → first_word (trim s) ≡ some s
first_word-NoSpace [] h ne = absurd (ne refl)
first_word-NoSpace (b ∷ s) h ne = first_word-trim b s h

date_text : ℕ → ℕ → ℕ → Str
date_text y m d = padded 4 y ++ (b'-' ∷ (padded 2 m ++ (b'-' ∷ padded 2 d)))

date_text-NoSpace : (y m d : ℕ) → NoSpace (date_text y m d)
unfolding date_text
date_text-NoSpace y m d = digits-NoSpace (padded 4 y) _ (padded-IsDigit 4 y) (
  refl,
  digits-NoSpace (padded 2 m) _ (padded-IsDigit 2 m) (
    refl,
    rw (← append-nil (padded 2 d)) (digits-NoSpace (padded 2 d) [] (padded-IsDigit 2 d) tt),
  ),
)

date_text-ne-nil : (y m d : ℕ) → date_text y m d ≢ []
unfolding date_text
date_text-ne-nil y m d q =
    omega
      (arith, ap length q, length-append (padded 4 y) (b'-' ∷ (padded 2 m ++ (b'-' ∷ padded 2 d))))

splitn-more :
    (n c : ℕ) (s l r : Str)
    → split_at_first c s ≡ some (l, r)
    → splitn (suc (suc n)) c s ≡ l ∷ splitn (suc n) c r
unfolding splitn
splitn-more n c s l r h =
    ap
      (λ (o : Option (Str × Str)). elim o as (λ _. List Str) [
        | none ↦ s ∷ []
        | some (a, b) ↦ a ∷ splitn (suc n) c b
      ])
      h

splitn-date_text :
    (y m d : ℕ) → splitn 3 b'-' (date_text y m d) ≡ padded 4 y ∷ padded 2 m ∷ padded 2 d ∷ []
unfolding date_text
splitn-date_text y m d =
    splitn-more 1 b'-' _ _ _ (split_at_first-digits (padded 4 y) _ (padded-IsDigit 4 y))
    ∙ ap (λ l. padded 4 y ∷ l)
        (splitn-more 0 b'-' _ _ _ (split_at_first-digits (padded 2 m) _ (padded-IsDigit 2 m))
          ∙ unfold splitn in refl)

three_numbers-padded :
    (y m d : ℕ)
    → y < 2 ^ 63
    → m < 2 ^ 63
    → d < 2 ^ 63
    → three_numbers (padded 4 y ∷ padded 2 m ∷ padded 2 d ∷ []) ≡ some (pos y, pos m, pos d)
unfolding three_numbers
three_numbers-padded y m d hy hm hd =
    rw (parse_i64-padded 4 y hy) (rw (parse_i64-padded 2 m hm) (rw (parse_i64-padded 2 d hd) refl))

-- Reading the text of a date gives its numbers.
parse_ymd-date_text :
    (y m d : ℕ)
    → y < 2 ^ 63
    → m < 2 ^ 63
    → d < 2 ^ 63
    → parse_ymd (date_text y m d) ≡ some (pos y, pos m, pos d)
unfolding parse_ymd
parse_ymd-date_text y m d hy hm hd =
    rw (first_word-NoSpace (date_text y m d) (date_text-NoSpace y m d) (date_text-ne-nil y m d))
      (rw (splitn-date_text y m d) (three_numbers-padded y m d hy hm hd))

format-date_text : (y m d : ℕ) → format_date_ymd (pos y) (pos m) (pos d) ≡ date_text y m d
unfolding format_date_ymd date_text padded_ℤ
format-date_text y m d = refl

parse_date_str-date_of_day :
    (n : ℕ) → n < 2 ^ 63 → parse_date_str (date_of_day (pos n)) ≡ some (pos n)
unfolding parse_date_str date_of_day
parse_date_str-date_of_day n h =
    let (hy, hm, hd) = date_small n h in
    let y = (days_to_ymd n).0 in
    let m = (days_to_ymd n).1 in
    let d = (days_to_ymd n).2 in
    rw (format-date_text y m d)
      (rw (parse_ymd-date_text y m d hy hm hd) (ap some (ymd_to_days-days_to_ymd n h)))

-- What adding days gives for a date from 1970 on.
date_add_days-date_of_day :
    (n : ℕ) (delta : ℤ)
    → n < 2 ^ 63
    → date_add_days (date_of_day (pos n)) delta
      ≡ some (date_of_day (wrap_i64 (add_ℤ (pos n) delta)))
unfolding date_add_days
date_add_days-date_of_day n delta h = rw (parse_date_str-date_of_day n h) refl

add_ℤ_assoc : (a b c : ℤ) → add_ℤ (add_ℤ a b) c ≡ add_ℤ a (add_ℤ b c)
add_ℤ_assoc a b c = ground arith

-- Adding `a` days to a date and then `b` days is adding `a + b` days, for every date from 1970 on that an
-- `i64` of days reaches, if the date in between is one of these as well. Every step writes the date as a
-- text and the next one reads it.
pub date_add_days-date_add_days :
    (n m : ℕ) (a b : ℤ)
    → n < 2 ^ 63
    → m < 2 ^ 63
    → add_ℤ (pos n) a ≡ pos m
    → (date_add_days (date_of_day (pos n)) a >>= (λ date. date_add_days date b))
      ≡ date_add_days (date_of_day (pos n)) (add_ℤ a b)
date_add_days-date_add_days n m a b hn hm e =
    let total : add_ℤ (pos m) b ≡ add_ℤ (pos n) (add_ℤ a b) =
      ap (λ z. add_ℤ z b) (sym e) ∙ add_ℤ_assoc (pos n) a b in
    ap (λ o. o >>= (λ date. date_add_days date b)) (date_add_days-date_of_day n a hn)
    ∙ ap (λ z. date_add_days (date_of_day (wrap_i64 z)) b) e
    ∙ ap (λ z. date_add_days (date_of_day z) b) (wrap_i64_id (pos m) (omega arith, omega arith))
    ∙ date_add_days-date_of_day m b hm
    ∙ ap (λ z. some (date_of_day (wrap_i64 z))) total
    ∙ sym (date_add_days-date_of_day n (add_ℤ a b) hn)
