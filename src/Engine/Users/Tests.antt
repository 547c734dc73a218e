-- ===== src/Engine/Users/Tests.antt =====
-- The laws of the accounts at a concrete engine.
use run_alex_db.Common.{ℕ, ◌≡◌, ◌⊎◌, refl, none, some, List, [], ◌∷◌, true}
use run_alex_db.Common.Dict.{str, Str, str_eq, lookup, insert, remove}
use run_alex_db.Common.Ascii.{
  starts_with, trim, trim_end, trim_start, to_upper, drop_while, slice, find, slice_from,
  find_where,
}
use run_alex_db.Auth.{double_sha1}
use run_alex_db.Engine.Value.{ok, err}
use run_alex_db.Engine.Store.{Engine, DbUser}
use run_alex_db.Engine.Users.{
  remove_user, exec_create_user, no_access, parse_user_ident_with_password, add_user,
}
use run_alex_db.Engine.Users.Grants.{exec_grant, syntax_error}
use run_alex_db.Engine.Users.Privileges.{refuse, insert_stmt}
use run_alex_db.Engine.Users.Privileges.Reach.{Reached, started, created, exec_grant_fails}
use run_alex_db.Engine.Users.Privileges.Shut.{refuse-remove_user}

abbrev pub root_user : DbUser
root_user = record {
  password_sha1_sha1 = 1 ∷ [];
  allowed_dbs = none;
  can_write = true;
  is_root = true;
}

abbrev pub with_users : List (Str × DbUser) → Engine ℕ
with_users users = record { databases = []; users = users; write_gen = 0; last_insert_id = 0 }

abbrev pub at_start : Engine ℕ
at_start = with_users ((str "root", root_user) ∷ [])

-- A function from bytes to bytes in the place of SHA-1.
abbrev pub same_bytes : List ℕ → List ℕ
same_bytes bytes = bytes

abbrev pub bob_user : DbUser
bob_user = no_access (str "pw")

abbrev pub with_bob : Engine ℕ
with_bob = with_users ((str "root", root_user) ∷ (str "bob", bob_user) ∷ [])

bob_created :
    exec_create_user same_bytes (str "CREATE USER 'bob'@'%' IDENTIFIED BY 'pw'") at_start
    ≡ some (with_bob, ok 0 0)
unfolding exec_create_user parse_user_ident_with_password starts_with trim trim_end trim_start
    to_upper drop_while slice find slice_from find_where add_user str_eq lookup insert double_sha1
bob_created = refl

exec_grant_fails_example :
    (exec_grant same_bytes (str "GRANT ALL ON shop.* TO 'bob'") with_bob ≡ none)
    ⊎ (exec_grant same_bytes (str "GRANT ALL ON shop.* TO 'bob'") with_bob
        ≡ some (with_bob, err 1064 (syntax_error (str "GRANT") (str "TO"))))
exec_grant_fails_example = exec_grant_fails same_bytes (str "GRANT ALL ON shop.* TO 'bob'") with_bob

pub bob_there : lookup (str "bob") with_bob.users ≡ some bob_user
unfolding lookup str_eq
bob_there = refl

pub bob_within : Reached same_bytes with_bob
bob_within = created _ at_start with_bob _ (started at_start root_user refl) bob_created

bob_removed : remove_user (str "bob") with_bob ≡ (at_start, ok 0 0)
unfolding remove_user remove str_eq lookup
bob_removed = refl

refuse-remove_user_example :
    refuse (str "bob") (insert_stmt ∷ []) (some (str "shop")) at_start ≡ none
refuse-remove_user_example =
    refuse-remove_user with_bob at_start (str "bob") (insert_stmt ∷ []) (some (str "shop"))
      bob_removed
