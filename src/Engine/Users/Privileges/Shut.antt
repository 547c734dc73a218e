-- ===== src/Engine/Users/Privileges/Shut.antt =====
-- What the accounts other than root's may do, and what an account that was dropped may.
use run_alex_db.Common.{
  ℕ, Option, none, some, List, Bool, true, false, ◌≡◌, ◌≢◌, refl, sym, ap, ◌∙◌, if◌then◌else◌,
}
use run_alex_db.Common.Dict.{Str, str, str_eq_refl, lookup, lookup-remove}
use run_alex_db.Engine.Value.{QueryResult, ok, err}
use run_alex_db.Engine.Store.{DbUser, Engine}
use run_alex_db.Engine.Users.{remove_user}
use run_alex_db.Engine.Users.Grants.{has_name}
use run_alex_db.Engine.Users.Privileges.{
  StatementKind, needs_write, refuse, refuse_user, verdict, shut_out, access_to, access_denied,
  write_denied, user_can_access_db,
}
use run_alex_db.Engine.Users.Privileges.Reach.{Reached, IsLocked, Reached-AllLocked}

locked_user :
    (name db : Str) (stmts : List StatementKind) (u : DbUser) (found : Option DbUser)
    → found ≡ some u
    → IsLocked u
    → (refuse_user name stmts (some db) found ≡ some (access_denied name db))
      × (refuse_user name stmts none found
          ≡ (if needs_write stmts then some write_denied else none))
      × (access_to db found ≡ false)
unfolding refuse_user verdict shut_out access_to has_name
locked_user name db stmts u found h (hd, hw, hr) =
    (rw h (rw hd refl), rw h (rw (hd, hw) refl), rw h (rw (hr, hd) refl))

err-ne-ok : {F : Type 0} {c n id : ℕ} {m : Str} → Path (QueryResult F) (err c m) (ok n id) → ⊥
err-ne-ok h = cc

module _ {F : Type 0} (sha1 : List ℕ → List ℕ) where
  -- In every engine that any sequence of CREATE USER, DROP USER, GRANT and REVOKE has led to, the privilege
  -- check refuses an account other than root's: with a current database whatever the statements are, with
  -- error 1044, and without one the statements that write, with error 1142. No database is open to it.
  pub users_shut_out :
      (e : Engine F) (name db : Str) (stmts : List StatementKind) (u : DbUser)
      → Reached sha1 e
      → name ≢ str "root"
      → lookup name e.users ≡ some u
      → (refuse name stmts (some db) e ≡ some (access_denied name db))
        × (refuse name stmts none e ≡ (if needs_write stmts then some write_denied else none))
        × (user_can_access_db name db e ≡ false)
  unfolding refuse user_can_access_db
  users_shut_out e name db stmts u reached ne found =
      locked_user name db stmts u _ found (Reached-AllLocked sha1 e reached name u ne found)

module _ {F : Type 0} where
  removed_users :
      (root there : Bool) (m m' : Str) (users : List (Str × DbUser)) (e e' : Engine F)
      → Path
          (Engine F × QueryResult F)
          (if root
            then (e, err 1396 m)
            else if there
            then (record e { users = users }, ok 0 0)
            else (e, err 1396 m'))
          (e', ok 0 0)
      → users ≡ e'.users
  removed_users true there m m' users e e' h =
      absurd (err-ne-ok {c = 1396} {m = m} (ap (λ p. p.1) h))
  removed_users false true m m' users e e' h = ap (λ p. p.0.users) h
  removed_users false false m m' users e e' h =
      absurd (err-ne-ok {c = 1396} {m = m'} (ap (λ p. p.1) h))

  -- What a removal that succeeded has left.
  remove_user_ok :
      (e e' : Engine F) (name : Str)
      → remove_user name e ≡ (e', ok 0 0)
      → lookup name e'.users ≡ none
  unfolding remove_user
  remove_user_ok e e' name h =
      ap (lookup name) (sym (removed_users _ _ _ _ _ e e' h))
      ∙ lookup-remove name name e.users
      ∙ rw (str_eq_refl name) refl

  -- A name that DROP USER has just removed is refused nothing: the privilege check lets every statement of a
  -- session through that still runs under it.
  pub refuse-remove_user :
      (e e' : Engine F) (name : Str) (stmts : List StatementKind) (current_db : Option Str)
      → remove_user name e ≡ (e', ok 0 0)
      → refuse name stmts current_db e' ≡ none
  unfolding refuse refuse_user
  refuse-remove_user e e' name stmts current_db h = rw (remove_user_ok e e' name h) refl
