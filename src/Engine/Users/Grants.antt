-- ===== src/Engine/Users/Grants.antt =====
-- src/engine.rs: GRANT, REVOKE and SHOW GRANTS.
use run_alex_db.Common.{
  ℕ, ◌+◌, Option, none, some, List, [], ◌∷◌, ◌++◌, map, Bool, true, false, ◌>>=◌, ◌||◌,
}
use run_alex_db.Common.{if◌then◌else◌, drop}
use run_alex_db.Common.Dict.{Str, str, str_eq, lookup}
use run_alex_db.Common.Text.{trim_matches}
use run_alex_db.Common.Ascii.{trim, to_upper, find, slice, before_char, contains_text}
use run_alex_db.Auth.{double_sha1}
use run_alex_db.Engine.Value.{QueryResult, ok, err, rows}
use run_alex_db.Engine.Store.{DbUser, Engine, bump_write_gen}
use run_alex_db.Engine.Users.{put_user, no_access, parse_user_ident_with_password, unquoted}

-- `HashSet<String>`: `contains`, `insert` and `remove`.
unfoldable pub has_name : Str → List Str → Bool
has_name name [] = false
has_name name (x ∷ xs) = str_eq x name || has_name name xs

unfoldable pub add_name : Str → List Str → List Str
add_name name names = if has_name name names then names else name ∷ names

unfoldable pub drop_name : Str → List Str → List Str
drop_name name [] = []
drop_name name (x ∷ xs) = let rest = drop_name name xs in if str_eq x name then rest else x ∷ rest

-- The database of `… ON db.*`; `none` for all of them.
unfoldable pub granted_db : Str → Option Str
granted_db privs_on = elim (find (str " ON ") (to_upper privs_on)) [
  | none ↦ none
  | some on_pos ↦
      let db =
        trim_matches b'\''
          (trim_matches b'`' (trim (before_char b'.' (trim (drop (on_pos + 4) privs_on))))) in
      if str_eq db (str "*") then none else some db
]

abbrev is_all : Str → Bool
is_all privs_on = contains_text (str "ALL") (to_upper privs_on)

unfoldable pub grants_write : Str → Bool
grants_write privs_on =
    let upper = to_upper privs_on in
    is_all privs_on
    || (contains_text (str "INSERT") upper
        || (contains_text (str "UPDATE") upper
            || (contains_text (str "DELETE") upper
                || (contains_text (str "CREATE") upper || contains_text (str "DROP") upper))))

-- With an em dash, as UTF-8.
abbrev pub syntax_error : Str → Str → Str
syntax_error what missing =
    what ++ (str ": syntax error " ++ (226 ∷ 128 ∷ 148 ∷ (str " missing " ++ missing)))

-- `o.ok_or(()).unwrap_err()`: a panic where there is a value.
unfoldable pub unwrap_err : Option ℕ → Option (Unit {0})
unwrap_err none = some tt
unwrap_err (some i) = none

-- Both the access and the right to write of the account.
unfoldable pub grant_access : Bool → Option Str → Bool → DbUser → DbUser
grant_access all_privs none can_write user =
    if all_privs then record user { allowed_dbs = none; can_write = true } else user
grant_access all_privs (some db) can_write user = record user {
  allowed_dbs = elim user.allowed_dbs [ none ↦ none | some set ↦ some (add_name db set) ];
  can_write = can_write || user.can_write;
}

unfoldable pub set_password : List ℕ → Str → DbUser → DbUser
set_password hash password user =
    if str_eq password [] then user else record user { password_sha1_sha1 = hash }

module _ {F : Type 0} (sha1 : List ℕ → List ℕ) where
  unfoldable pub grant_to : Str → Str → Str → Engine F → Engine F × QueryResult F
  unfolding set_password grant_access
  grant_to username new_password privs_on e =
      if str_eq username []
      then (e, err 1064 (str "GRANT: cannot parse username"))
      else (let user : DbUser = elim (lookup username e.users) [
        | none ↦ no_access (double_sha1 sha1 [])
        | some u ↦ u
      ] in
          let user' = set_password (double_sha1 sha1 new_password) new_password user in
          let user'' =
            grant_access (is_all privs_on) (granted_db privs_on) (grants_write privs_on) user' in
          (bump_write_gen (put_user username user'' e), ok 0 0))

  unfoldable pub exec_grant : Str → Engine F → Option (Engine F × QueryResult F)
  unfolding unwrap_err grant_to
  exec_grant sql e = do
    let upper = to_upper sql
    _ ← unwrap_err (find (str " TO ") upper)
    elim (find (str " TO ") upper) [
      | none ↦ some (e, err 1064 (syntax_error (str "GRANT") (str "TO")))
      | some to_pos ↦ (do
        privs_on ← slice 6 to_pos sql
        (username, new_password) ← parse_user_ident_with_password (trim (drop (to_pos + 4) sql))
        some (grant_to username new_password (trim privs_on) e))
    ]

-- SHOW GRANTS: one row for each database, or one that says all or none.
abbrev grant_row : Str → Str → Str → List (Option Str)
grant_row privs object user =
    some (
      str "GRANT " ++ (privs ++ (str " ON " ++ (object ++ (str " TO '" ++ (user ++ str "'@'%'"))))))
    ∷ []

abbrev privilege_name : DbUser → Str
privilege_name user = if user.can_write then str "ALL PRIVILEGES" else str "SELECT"

unfoldable pub grant_rows : Str → DbUser → Option (List Str) → List (List (Option Str))
grant_rows name user none = grant_row (privilege_name user) (str "*.*") name ∷ []
grant_rows name user (some []) = grant_row (str "USAGE") (str "*.*") name ∷ []
grant_rows name user (some (db ∷ dbs)) =
    map (λ d. grant_row (privilege_name user) (str "`" ++ (d ++ str "`.*")) name) (db ∷ dbs)

-- What REVOKE leaves of the account's access.
unfoldable pub revoke_access : Option Str → DbUser → DbUser
revoke_access none user = record user { allowed_dbs = some []; can_write = false }
revoke_access (some db) user = record user {
  allowed_dbs = elim user.allowed_dbs [ none ↦ none | some set ↦ some (drop_name db set) ];
}

module _ {F : Type 0} where
  unfoldable pub revoke_in : Str → Option Str → Option DbUser → Engine F → Engine F × QueryResult F
  unfolding revoke_access
  revoke_in username db_name none e = (e, err 1396 (str "No such user '" ++ (username ++ str "'")))
  revoke_in username db_name (some user) e =
      (bump_write_gen (put_user username (revoke_access db_name user) e), ok 0 0)

  unfoldable pub revoke_from : Str → Option Str → Engine F → Engine F × QueryResult F
  unfolding revoke_in
  revoke_from username db_name e = revoke_in username db_name (lookup username e.users) e

  unfoldable pub exec_revoke : Str → Engine F → Option (Engine F × QueryResult F)
  unfolding revoke_from
  exec_revoke sql e = elim (find (str " FROM ") (to_upper sql)) [
    | none ↦ some (e, err 1064 (syntax_error (str "REVOKE") (str "FROM")))
    | some from_pos ↦ (do
      privs_on ← slice 7 from_pos sql
      some (revoke_from (unquoted (trim (drop (from_pos + 6) sql))) (granted_db (trim privs_on)) e))
  ]

  unfoldable pub exec_show_grants : Str → Engine F → QueryResult F
  unfolding grant_rows
  exec_show_grants sql e =
      let for_user : Str = elim (find (str " FOR ") (to_upper sql)) [
        | none ↦ []
        | some pos ↦ unquoted (trim (drop (pos + 5) sql))
      ] in
      elim (lookup for_user e.users) [
        | none ↦ err 1141 (str "No such user '" ++ (for_user ++ str "'"))
        | some user ↦
            rows ((str "Grants for " ++ (for_user ++ str "@%")) ∷ [])
              (grant_rows for_user user user.allowed_dbs)
      ]
