-- ===== src/Protocol/Batch/Frames.antt =====
-- The batched writers against the packet builders: one buffer, the same packets.
use run_alex_db.Common.{ℕ, ◌+◌, ◌%◌, ◌≡◌, refl, sym, ap, ◌∙◌}
use run_alex_db.Common.{List, [], ◌∷◌, ◌++◌, append_assoc, append-nil, map}
use run_alex_db.Common.{length}
use run_alex_db.Common.Dict.{Str}
use run_alex_db.Protocol.Packet.{encode_packet, encode_packets}
use run_alex_db.Protocol.Response.{eof_packet, column_def}
use run_alex_db.Protocol.Batch.{write_col_def_into, write_each, write_result_set}
use run_alex_db.Protocol.Batch.Rows.{
  write_packet_into_lem, write_eof_into_lem, write_col_def_into_lem,
}

-- Payloads with the sequence numbers that they go out under: counted from `seq` on, modulo 256.
abbrev pub number : ℕ → List (List ℕ) → List (List ℕ × ℕ)
number seq [] = []
number seq (p ∷ ps) = (p, seq) ∷ number ((seq + 1) % 256) ps

-- The number after so many packets.
abbrev pub advance {ℓ} : {A : Type ℓ} → ℕ → List A → ℕ
advance seq [] = seq
advance seq (p ∷ ps) = advance ((seq + 1) % 256) ps

-- The payloads of a result set, each built on its own: the specification of the batched writers.
abbrev pub result_set_payloads : List Str → List (List ℕ) → List (List ℕ)
result_set_payloads columns row_payloads =
    ((length columns % 256) ∷ [])
    ∷ (map (λ name. column_def [] [] name 0xfd 0) columns
        ++ (eof_packet ∷ (row_payloads ++ (eof_packet ∷ []))))

encode_packets-append :
    (ps qs : List (List ℕ × ℕ)) → encode_packets (ps ++ qs) ≡ encode_packets ps ++ encode_packets qs
encode_packets-append [] qs = refl
encode_packets-append ((p, s) ∷ ps) qs =
    rw (encode_packets-append ps qs) (sym (append_assoc (encode_packet p s) _ _))

number-append :
    (seq : ℕ) (ps qs : List (List ℕ))
    → number seq (ps ++ qs) ≡ number seq ps ++ number (advance seq ps) qs
number-append seq [] qs = refl
number-append seq (p ∷ ps) qs = ap (λ l. (p, seq) ∷ l) (number-append ((seq + 1) % 256) ps qs)

advance-map {ℓ κ} :
    {A : Type ℓ} {B : Type κ} (f : A → B) (seq : ℕ) (xs : List A)
    → advance seq (map f xs) ≡ advance seq xs
advance-map f seq [] = refl
advance-map f seq (x ∷ xs) = advance-map f ((seq + 1) % 256) xs

module _ {ℓ} {A : Type ℓ} (write : List ℕ → A → ℕ → List ℕ) (payload : A → List ℕ) where
  abbrev pub Frames : Type ℓ
  Frames = (out : List ℕ) (x : A) (seq : ℕ) → write out x seq ≡ out ++ encode_packet (payload x) seq

  write_each_lem :
      Frames
      → (buf : List ℕ) (xs : List A) (seq : ℕ)
      → write_each write buf xs seq
        ≡ (buf ++ encode_packets (number seq (map payload xs)), advance seq xs)
  unfolding write_each
  write_each_lem h buf [] seq = rw append-nil
  write_each_lem h buf (x ∷ xs) seq =
      write_each_lem h (write buf x seq) xs ((seq + 1) % 256) ∙ rw (h buf x seq) (rw append_assoc)

module _ {ℓ} {A : Type ℓ} (write_row : List ℕ → A → ℕ → List ℕ) (payload : A → List ℕ) where
  pub write_result_set_lem :
      Frames write_row payload
      → (buf : List ℕ) (columns : List Str) (rs : List A) (seq : ℕ)
      → write_result_set write_row buf columns rs seq
        ≡ buf ++ encode_packets (number seq (result_set_payloads columns (map payload rs)))
  unfolding write_result_set
  write_result_set_lem h buf columns rs seq =
      let col = λ (out : List ℕ) (c : Str) (n : ℕ). write_col_def_into out c 0xfd n in
      let def = λ (c : Str). column_def [] [] c 0xfd 0 in
      simp (
        write_packet_into_lem,
        write_eof_into_lem,
        write_each_lem col def (λ out c n. write_col_def_into_lem out c 0xfd n),
        write_each_lem write_row payload h,
        number-append,
        encode_packets-append,
        advance-map,
        append_assoc,
        append-nil,
      )
