-- ===== src/Engine/Users.antt =====
-- src/engine.rs: the accounts of the engine. Texts are ASCII, so that a place in the upper-case text is one
-- in the text itself; `none` is a panic. A `HashSet` of database names is a list, and `tracing` is left out.
pub mod Grants
pub mod Privileges
pub mod Tests
use run_alex_db.Common.{
  ℕ, ◌+◌, ◌-◌, Option, none, some, List, [], ◌∷◌, ◌++◌, Bool, true, false, ◌>>=◌, ◌||◌, not,
}
use run_alex_db.Common.{if◌then◌else◌, ◌==◌, length, drop}
use run_alex_db.Common.Dict.{Str, str, str_eq, lookup, insert, remove}
use run_alex_db.Common.Text.{split_at_first, trim_matches}
use run_alex_db.Common.Ascii.{
  is_space, trim_start, trim, first_word, to_upper, starts_with, find, drop_while, find_where,
  slice, slice_from, before_char,
}
use run_alex_db.Auth.{double_sha1}
use run_alex_db.Engine.Value.{QueryResult, ok, err}
use run_alex_db.Engine.Store.{DbUser, Engine, is_there}

-- `s[1..].find(q).map(|p| p + 1).unwrap_or(s.len() - 1)`: where the quoted name ends; its last character is
-- taken for the quote where there is none.
unfoldable pub quote_end : ℕ → Str → ℕ
quote_end q s = elim (find (q ∷ []) (drop 1 s)) [ none ↦ length s - 1 | some p ↦ p + 1 ]

abbrev at_or_space : ℕ → Bool
at_or_space c = (c == b'@') || is_space c

abbrev or_length : Str → Option ℕ → ℕ
or_length s none = length s
or_length s (some i) = i

unfoldable pub quoted_user : ℕ → Str → Option (Str × Str)
unfolding quote_end
quoted_user q s = do
  name ← slice 1 (quote_end q s) s
  rest ← slice_from (quote_end q s + 1) s
  some (name, rest)

unfoldable pub bare_user : Str → Option (Str × Str)
bare_user s = do
  let end = or_length s (find_where at_or_space s)
  name ← slice 0 end s
  rest ← slice_from end s
  some (name, rest)

-- The name, and what stands behind it.
unfoldable pub user_name_of : Str → Option (Str × Str)
unfolding quoted_user bare_user
user_name_of s =
    if starts_with s (str "'")
    then quoted_user b'\'' s
    else if starts_with s (str "`")
    then quoted_user b'`' s
    else bare_user s

-- What stands behind `@'host'`. No quote is left in front when the second test is made.
unfoldable pub skip_host : Str → Option Str
skip_host rest = do
  let rest = drop_while (λ c. (c == b'@') || (c == b'\'')) rest
  if starts_with rest (str "'")
      then slice_from (elim (find (str "'") (drop 1 rest)) [ none ↦ length rest | some p ↦ p + 2 ])
          rest
      else slice_from (or_length rest (find_where is_space rest)) rest

unfoldable pub password_of : Str → Option Str
password_of pw_rest =
    if starts_with pw_rest (str "'")
    then (do
      let end : ℕ = elim (find (str "'") (drop 1 pw_rest)) [
        | none ↦ length pw_rest - 1
        | some p ↦ p
      ]
      slice 1 (end + 1) pw_rest)
    else some (elim (first_word pw_rest) [ none ↦ [] | some w ↦ w ])

unfoldable pub identified_by : Str → Option Str
unfolding password_of
identified_by rest = elim (find (str "IDENTIFIED BY") (to_upper rest)) [
  | none ↦ some []
  | some pos ↦ password_of (trim (drop (pos + 13) rest))
]

unfoldable pub parse_user_ident_with_password : Str → Option (Str × Str)
unfolding user_name_of skip_host identified_by
parse_user_ident_with_password s = do
  (username, rest) ← user_name_of (trim s)
  rest ← skip_host rest
  password ← identified_by rest
  some (username, password)

-- `split('@').next()` and the quotes taken off, as DROP USER, REVOKE and SHOW GRANTS read a name.
unfoldable pub unquoted : Str → Str
unquoted s = trim (trim_matches b'`' (trim_matches b'\'' (before_char b'@' s)))

abbrev pub failed_for : Str → Str → Str
failed_for what user = str "Operation " ++ (what ++ (str " failed for '" ++ (user ++ str "'@'%'")))

-- What CREATE USER and GRANT enter for a new name.
abbrev pub no_access : List ℕ → DbUser
no_access hash = record {
  password_sha1_sha1 = hash;
  allowed_dbs = some [];
  can_write = false;
  is_root = false;
}

-- What stands behind CREATE, and behind USER if that is there.
unfoldable pub behind_user : Str → Str
behind_user sql =
    let rest = trim_start (trim (drop_while (λ c. not (is_space c)) sql)) in
    if starts_with (to_upper rest) (str "USER") then trim_start (drop 4 rest) else rest

module _ {F : Type 0} where
  unfoldable pub put_user : Str → DbUser → Engine F → Engine F
  put_user name user e = record e { users = insert name user e.users }

  unfoldable pub add_user : Str → List ℕ → Engine F → Engine F × QueryResult F
  unfolding put_user
  add_user username hash e =
      if str_eq username []
      then (e, err 1064 (str "CREATE USER: cannot parse username"))
      else if str_eq username (str "root")
      then (e, err 1396 (failed_for (str "CREATE USER") username))
      else if is_there (lookup username e.users)
      then (e, err 1396 (failed_for (str "CREATE USER") username))
      else (put_user username (no_access hash) e, ok 0 0)

  unfoldable pub exec_create_user :
      (List ℕ → List ℕ) → Str → Engine F → Option (Engine F × QueryResult F)
  unfolding behind_user
  exec_create_user sha1 sql e = do
    (username, password) ← parse_user_ident_with_password (behind_user sql)
    some (add_user username (double_sha1 sha1 password) e)

  unfoldable pub remove_user : Str → Engine F → Engine F × QueryResult F
  remove_user username e =
      if str_eq username (str "root")
      then (e, err 1396 (str "Cannot drop root user"))
      else if is_there (lookup username e.users)
      then (record e { users = remove username e.users }, ok 0 0)
      else (e, err 1396 (failed_for (str "DROP USER") username))

  unfoldable pub exec_drop_user : Str → Engine F → Option (Engine F × QueryResult F)
  unfolding remove_user
  exec_drop_user sql e = do
    rest ← slice_from 9 sql
    some (remove_user (unquoted (trim_matches b'`' (trim_matches b'\'' (trim rest)))) e)
