-- ===== src/Server/Start.antt =====
-- src/server.rs: the state with which a connection enters the command loop, if it does.
use run_alex_db.Common.{
  ℕ, ◌-◌, ◌^◌, ◌<◌, ◌≡◌, ◌↔◌, ◌⊎◌, inl, inr, refl, sym, Option, none, some, List, [], length,
}
use run_alex_db.Common.Dict.{Str, str}
use run_alex_db.Engine.Store.{Engine}
use run_alex_db.Server.{Session}
use run_alex_db.Server.Handshake.{Handshake, denied, panicked, skipped, accepted, handshake}
use run_alex_db.Server.Handshake.Access.{
  Granted, handshake-short, handshake_cases, handshake_access, accepted-Granted,
}

module _ {F : Type 0} where
  -- The variables at the head of the command loop; until a handshake sets it, the user is `root`.
  unfoldable pub new_session : Str → Option Str → Session F
  new_session user db = record {
    current_db = db;
    effective_user = user;
    txn_snapshot = none;
    stmt_cache = [];
    next_stmt_id = 1;
    l0_hash = 0;
    l0_gen = 2 ^ 64 - 1;
    l0_bytes = none;
  }

  unfoldable pub start_session : Engine F → Handshake F → Option (Engine F × Session F)
  unfolding new_session
  start_session e (denied out) = none
  start_session e panicked = none
  start_session e skipped = some (e, new_session (str "root") none)
  start_session e (accepted user db e' out) = some (e', new_session user db)

  -- The user as whom the statements of the connection run.
  abbrev pub runs_as : Option (Engine F × Session F) → Option Str
  runs_as none = none
  runs_as (some (e, s)) = some s.effective_user

  module _ (sha1 : List ℕ → List ℕ) (root_password : Str) (trim : Str → Str) where
    started-Granted :
        (payload scramble : List ℕ) (e : Engine F) (user : Str) (h : Handshake F)
        → handshake sha1 root_password trim payload scramble e ≡ h
        → runs_as (start_session e h) ≡ some user
        → ((length payload < 33) × (user ≡ str "root"))
          ⊎ Granted sha1 root_password trim payload user scramble e
    unfolding start_session new_session
    started-Granted payload scramble e user (denied out) same h = absurd cc
    started-Granted payload scramble e user panicked same h = absurd cc
    started-Granted payload scramble e user skipped same h =
        elim (handshake_cases sha1 root_password trim payload scramble e) [
          | inl (short, skips) ↦ inl (short, cc h)
          | inr (inl panics) ↦ absurd (cc (same, panics))
          | inr (inr (name, response, s)) ↦
              elim (handshake_access sha1 root_password trim payload name response scramble e s) [
                | inl (granted, db', accepts) ↦ absurd (cc (same, accepts))
                | inr (refused, denies) ↦ absurd (cc (same, denies))
              ]
        ]
    started-Granted payload scramble e user (accepted name db e' out) same h =
        let who : name ≡ user = cc h in
        inr (
          accepted-Granted sha1 root_password trim payload scramble e user db e' out
            (rw who at same))

    -- The command loop starts for a user exactly when the packet has fewer than 33 bytes and the user is
    -- `root`, or when the packet carries a name that stands for the user and a response that the user's
    -- account accepts (for `root` without an account, the configured password). After a short packet it
    -- therefore starts for `root`, whatever the passwords are.
    pub start_session_iff :
        (payload scramble : List ℕ) (e : Engine F) (user : Str)
        → (runs_as (start_session e (handshake sha1 root_password trim payload scramble e))
            ≡ some user)
          ↔ (((length payload < 33) × (user ≡ str "root"))
              ⊎ Granted sha1 root_password trim payload user scramble e)
    unfolding start_session new_session
    start_session_iff payload scramble e user = (
      started-Granted payload scramble e user _ refl,
      λ w. elim w [
        | inl (short, root) ↦
            rw (handshake-short sha1 root_password trim payload scramble e short, root) refl
        | inr (name, response, s, who, granted) ↦
            elim (handshake_access sha1 root_password trim payload name response scramble e s) [
              | inl (granted', db', accepts) ↦ rw (accepts, who) refl
              | inr (refused, denies) ↦ absurd (refused (rw (sym who) granted))
            ]
      ],
    )
