-- ===== src/Server/Handshake/Access.antt =====
-- Who gets through the handshake.
use run_alex_db.Common.{
  ℕ, suc, ◌+◌, ◌≡◌, ◌<◌, ◌≤◌, ◌⊎◌, inl, inr, refl, sym, ap, ap₂, ◌∙◌, arith, Option, none, some,
  List, ◌∷◌, ◌++◌,
}
use run_alex_db.Common.{true, Bool-cases, ltb→lt, lt→ltb, ltb, length, take, drop}
use run_alex_db.Common.{position_from, ◌==◌, length-append, drop-length-append}
use run_alex_db.Common.Bytes.{of_le_bytes}
use run_alex_db.Common.Dict.{Str, str, str_eq, str_eq_iff, lookup}
use run_alex_db.Auth.{verify_native_password, verify_native_password_hash}
use run_alex_db.Engine.Store.{DbUser, Engine}
use run_alex_db.Protocol.Packet.{encode_packet}
use run_alex_db.Protocol.Response.{ok_packet, err_packet}
use run_alex_db.Server.Handshake.{
  accepted, denied, skipped, panicked, auth_ok, auth_response, check_access, split_user,
  effective_user, handshake, with_database, handshake_db,
}
use run_alex_db.Server.Handshake.Layout.{
  Sent, Response-auth_response, has-Response, position_name, take_name, drop_name, split_name_off,
  split_head,
}

abbrev pub access_denied_bytes : List ℕ
access_denied_bytes = encode_packet (err_packet 1045 (str "Access denied")) 2

module _ (sha1 : List ℕ → List ℕ) (root_password : Str) where
  -- A response that the stored hash of an account accepts, or, for `root` without an account, one that
  -- the password of the configuration accepts.
  abbrev pub Authorised : Option DbUser → Str → List ℕ → List ℕ → Type 0
  Authorised (some user) name scramble response =
      verify_native_password_hash sha1 user.password_sha1_sha1 scramble response ≡ true
  Authorised none name scramble response =
      (name ≡ str "root") × (verify_native_password sha1 root_password scramble response ≡ true)

  auth_ok-Authorised :
      (o : Option DbUser) (name : Str) (scramble response : List ℕ)
      → auth_ok sha1 root_password o name scramble response ≡ true
      → Authorised o name scramble response
  unfolding auth_ok
  auth_ok-Authorised (some user) name scramble response h = h
  auth_ok-Authorised none name scramble response h = elim (Bool-cases (str_eq name (str "root"))) [
    | inl root ↦ ((str_eq_iff name (str "root")).0 root, rw root at h)
    | inr other ↦ absurd (cc (rw other at h))
  ]

  Authorised-auth_ok :
      (o : Option DbUser) (name : Str) (scramble response : List ℕ)
      → Authorised o name scramble response
      → auth_ok sha1 root_password o name scramble response ≡ true
  unfolding auth_ok
  Authorised-auth_ok (some user) name scramble response h = h
  Authorised-auth_ok none name scramble response (root, h) =
      rw ((str_eq_iff name (str "root")).1 root) h

  module _ {F : Type 0} (trim : Str → Str) where
    -- The packet carries a name that stands for the user, and a response that the user's account accepts.
    abbrev pub Granted : List ℕ → Str → List ℕ → Engine F → Type 0
    Granted payload user scramble e =
        (name : List ℕ) × (response : List ℕ) × Sent payload name response
        × (user ≡ effective_user name)
        × Authorised (lookup user e.users) user scramble response

    split_laid_out :
        (caps : ℕ) (name after scramble : List ℕ) (e : Engine F) (rest : List ℕ) (o : Option ℕ)
        → rest ≡ name ++ (0 ∷ after)
        → o ≡ some (length name)
        → split_user sha1 root_password trim caps o rest scramble e
          ≡ check_access sha1 root_password trim caps (effective_user name) after scramble e
    unfolding split_user
    split_laid_out caps name after scramble e rest o h found =
        rw (found, h)
          (ap₂ (λ n r. check_access sha1 root_password trim caps (effective_user n) r scramble e)
            (take_name name after) (drop_name name after))

    -- What is left to be checked of a packet that is laid out as it should be.
    pub handshake-Sent :
        (payload name response scramble : List ℕ) (e : Engine F) (s : Sent payload name response)
        → handshake sha1 root_password trim payload scramble e
          ≡ check_access sha1 root_password trim
              (of_le_bytes (take 4 payload))
              (effective_user name)
              s.after
              scramble
              e
    unfolding handshake
    handshake-Sent payload name response scramble e s =
        let rest : drop 32 payload ≡ name ++ (0 ∷ s.after) =
          rw s.parts (rw (sym s.head_size) (drop-length-append s.head _)) in
        let size : length payload ≡ 32 + (length name + suc (length s.after)) =
          ap length s.parts
          ∙ omega (
            arith,
            length-append s.head (name ++ (0 ∷ s.after)),
            length-append name (0 ∷ s.after),
            s.head_size,
          ) in
        elim (Bool-cases (ltb (length payload) 33)) [
          | inl short ↦ absurd (omega (arith, ltb→lt _ _ short, size))
          | inr long ↦ rw long (
              split_laid_out _ name s.after scramble e (drop 32 payload) _ rest
                (ap (position_from 0 (λ b. b == 0)) rest ∙ position_name name s.after s.no_zero))
        ]

    -- The account accepts the response, and the handshake ends with its user and the OK packet.
    abbrev pub GetsIn : List ℕ → List ℕ → List ℕ → List ℕ → Engine F → Type 0
    GetsIn payload name response scramble e =
        Authorised (lookup (effective_user name) e.users) (effective_user name) scramble response
        × (db : Option Str) × (handshake sha1 root_password trim payload scramble e
            ≡ accepted (effective_user name) db (with_database sha1 root_password trim db e)
                (encode_packet (ok_packet 0 0) 2))

    -- The account does not accept the response, and the handshake ends with error 1045.
    abbrev pub IsTurnedAway : List ℕ → List ℕ → List ℕ → List ℕ → Engine F → Type 0
    IsTurnedAway payload name response scramble e =
        (¬ Authorised (lookup (effective_user name) e.users) (effective_user name) scramble
          response)
        × (handshake sha1 root_password trim payload scramble e ≡ denied access_denied_bytes)

    -- A client whose packet has a header of 32 bytes, a name that ends in a zero byte and a response, in full
    -- or cut off, gets in exactly when the account of that name accepts that response, or, for `root` without
    -- an account, the configured password does: then the handshake ends with that user and the OK packet, and
    -- otherwise with error 1045. An empty name stands for `root`.
    pub handshake_access :
        (payload name response scramble : List ℕ) (e : Engine F)
        → Sent payload name response
        → GetsIn payload name response scramble e ⊎ IsTurnedAway payload name response scramble e
    unfolding check_access
    handshake_access payload name response scramble e s =
        let user = effective_user name in
        let steps = handshake-Sent payload name response scramble e s in
        let same = Response-auth_response s.after response s.response_in in
        elim (Bool-cases (
          auth_ok sha1 root_password (lookup user e.users) user scramble (auth_response s.after))) [
            | inl granted ↦ inl (
              auth_ok-Authorised _ user scramble response (rw same at granted),
              handshake_db trim (of_le_bytes (take 4 payload)) s.after,
              steps ∙ rw granted refl,
            )
            | inr refused ↦ inr (
              λ h.
                  absurd (
                    cc (refused, rw (sym same) at (Authorised-auth_ok _ user scramble response h))),
              steps ∙ rw refused refl,
            )
          ]

    split_nameless :
        (caps : ℕ) (rest scramble : List ℕ) (e : Engine F) (o : Option ℕ)
        → o ≡ none
        → split_user sha1 root_password trim caps o rest scramble e ≡ panicked
    unfolding split_user
    split_nameless caps rest scramble e o h = rw h refl

    pub handshake-short :
        (payload scramble : List ℕ) (e : Engine F)
        → length payload < 33
        → handshake sha1 root_password trim payload scramble e ≡ skipped
    unfolding handshake
    handshake-short payload scramble e short = rw (lt→ltb _ _ short) refl

    -- A packet is too short, or has no name that ends, or is laid out as it should be.
    pub handshake_cases :
        (payload scramble : List ℕ) (e : Engine F)
        → ((length payload < 33) × (handshake sha1 root_password trim payload scramble e ≡ skipped))
          ⊎ ((handshake sha1 root_password trim payload scramble e ≡ panicked)
              ⊎ ((name : List ℕ) × (response : List ℕ) × Sent payload name response))
    unfolding handshake
    handshake_cases payload scramble e = elim (Bool-cases (ltb (length payload) 33)) [
      | inl short ↦ inl (ltb→lt _ _ short, rw short refl)
      | inr long ↦ elim (split_name_off 0 (drop 32 payload)) [
        | inl absent ↦ inr (inl (rw long (split_nameless _ (drop 32 payload) scramble e _ absent)))
        | inr (name, after, rest, no_zero) ↦
            let big : 32 ≤ length payload = ground (arith, long) in
            let (head, parts, size) = split_head 32 payload big in
            let (response, found) = has-Response after in
            inr (
              inr (
                name,
                response,
                record {
                  head = head;
                  after = after;
                  parts = parts ∙ ap (λ r. head ++ r) rest;
                  head_size = size;
                  no_zero = no_zero;
                  response_in = found;
                },
              ))
      ]
    ]

    -- A handshake that ends with a user has granted that user access.
    pub accepted-Granted :
        (payload scramble : List ℕ) (e : Engine F) (user : Str) (db : Option Str) (e' : Engine F)
        (out : List ℕ)
        → handshake sha1 root_password trim payload scramble e ≡ accepted user db e' out
        → Granted payload user scramble e
    accepted-Granted payload scramble e user db e' out h =
        elim (handshake_cases payload scramble e) [
          | inl (short, skips) ↦ absurd (cc (h, skips))
          | inr (inl panics) ↦ absurd (cc (h, panics))
          | inr (inr (name, response, s)) ↦
              elim (handshake_access payload name response scramble e s) [
                | inl (granted, db', same) ↦
                    let who : user ≡ effective_user name = cc (h, same) in
                    (name, response, s, who, rw who granted)
                | inr (refused, denies) ↦ absurd (cc (h, denies))
              ]
        ]
