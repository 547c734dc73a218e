-- ===== src/Server/Handshake.antt =====
-- src/server.rs: the first packet of a client, the handshake response, and what the server makes of it.
-- SHA-1 is a parameter, and so is `trim`.
pub mod Layout
pub mod Access
use run_alex_db.Common.{
  ℕ, ◌+◌, ◌-◌, ◌/◌, ◌%◌, ◌^◌, Option, none, some, List, [], ◌∷◌, Bool, true, false, not, ◌&&◌, ◌||◌,
}
use run_alex_db.Common.{if◌then◌else◌, ltb, leb, ◌==◌, length, take, drop, get_or, position}
use run_alex_db.Common.Bytes.{of_le_bytes}
use run_alex_db.Common.Dict.{Str, str, str_eq, lookup}
use run_alex_db.Common.Text.{trim_matches, eq_ignore_ascii_case}
use run_alex_db.Common.Utf8.{from_utf8_lossy}
use run_alex_db.Auth.{verify_native_password, verify_native_password_hash}
use run_alex_db.Engine.Store.{DbUser, Engine, ensure_database}
use run_alex_db.Protocol.Packet.{encode_packet}
use run_alex_db.Protocol.Response.{ok_packet, err_packet}

-- How the handshake ends: the connection is told that access is denied and ends; the slice behind the
-- user's name panics; the command loop starts without any check; or it starts for a user.
pub data Handshake (F : Type 0) : Type 0 where
  denied : List ℕ → Handshake F
  panicked : Handshake F
  skipped : Handshake F
  accepted : Str → Option Str → Engine F → List ℕ → Handshake F

-- The first byte of the rest is the length of the response, of which so much is taken as is there.
unfoldable pub auth_response : List ℕ → List ℕ
auth_response [] = []
auth_response (len ∷ bytes) = take len bytes

abbrev pub auth_plugins : List Str
auth_plugins =
    str "mysql_native_password"
    ∷ str "sha256_password"
    ∷ str "caching_sha2_password"
    ∷ str "mysql_clear_password"
    ∷ str "authentication_windows_client"
    ∷ []

unfoldable pub any_plugin : List Str → Str → Bool
any_plugin [] name = false
any_plugin (p ∷ ps) name = eq_ignore_ascii_case name p || any_plugin ps name

-- A name that is not empty and is not that of an authentication plugin.
unfoldable pub database_name : Str → Option Str
unfolding any_plugin
database_name name = if length name == 0 || any_plugin auth_plugins name then none else some name

module _ (trim : Str → Str) where
  unfoldable pub name_in : Option ℕ → List ℕ → Option Str
  unfolding database_name
  name_in (some end) rest2 = database_name (trim (from_utf8_lossy (take end rest2)))
  name_in none [] = none
  name_in none (b ∷ bs) = database_name (trim_matches 0 (trim (from_utf8_lossy (b ∷ bs))))

  -- The database that the client asks for, if the capability bit says that there is one.
  unfoldable pub handshake_db : ℕ → List ℕ → Option Str
  unfolding name_in
  handshake_db caps rest =
      let db_offset = 1 + get_or rest 0 0 in
      let rest2 = if leb db_offset (length rest) then drop db_offset rest else [] in
      if caps / 2 ^ 3 % 2 == 1 then name_in (position (λ b. b == 0) rest2) rest2 else none

-- An empty name stands for `root`.
unfoldable pub effective_user : List ℕ → Str
effective_user name =
    let user = trim_matches b'`' (from_utf8_lossy name) in
    if length user == 0 then str "root" else user

module _ (sha1 : List ℕ → List ℕ) (root_password : Str) where
  -- The user table first, and for `root` alone the password of the configuration.
  unfoldable pub auth_ok : Option DbUser → Str → List ℕ → List ℕ → Bool
  auth_ok (some user) name scramble response =
      verify_native_password_hash sha1 user.password_sha1_sha1 scramble response
  auth_ok none name scramble response =
      if str_eq name (str "root")
      then verify_native_password sha1 root_password scramble response
      else false

  module _ {F : Type 0} (trim : Str → Str) where
    unfoldable pub with_database : Option Str → Engine F → Engine F
    with_database none e = e
    with_database (some name) e = ensure_database name e

    -- What follows once the user's name is cut off.
    unfoldable pub check_access : ℕ → Str → List ℕ → List ℕ → Engine F → Handshake F
    unfolding with_database
    check_access caps user rest scramble e =
        let db = handshake_db trim caps rest in
        if auth_ok (lookup user e.users) user scramble (auth_response rest)
        then accepted user db (with_database db e) (encode_packet (ok_packet 0 0) 2)
        else denied (encode_packet (err_packet 1045 (str "Access denied")) 2)

    unfoldable pub split_user : ℕ → Option ℕ → List ℕ → List ℕ → Engine F → Handshake F
    split_user caps none rest scramble e = panicked
    split_user caps (some user_end) rest scramble e =
        check_access caps (effective_user (take user_end rest)) (drop (user_end + 1) rest) scramble
          e

    unfoldable pub handshake : List ℕ → List ℕ → Engine F → Handshake F
    handshake payload scramble e =
        let rest = drop 32 payload in
        if ltb (length payload) 33
        then skipped
        else split_user (of_le_bytes (take 4 payload)) (position (λ b. b == 0) rest) rest scramble e
