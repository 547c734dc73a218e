-- ===== src/Protocol/Handshake.antt =====
-- src/protocol.rs, the capability flags and the server's greeting.
use Prim.Native.Nat.{bit_or, bit_and}
use run_alex_db.Common.{ℕ, ◌/◌, ◌^◌, List, [], ◌∷◌, ◌++◌, take, drop, replicate}
use run_alex_db.Common.Bytes.{le_bytes}
use run_alex_db.Common.Dict.{Str, str}

abbrev pub capability_long_password : ℕ
capability_long_password = 1

abbrev pub capability_protocol_41 : ℕ
capability_protocol_41 = 512

abbrev pub capability_secure_connection : ℕ
capability_secure_connection = 32768

abbrev pub capability_plugin_auth : ℕ
capability_plugin_auth = 2 ^ 19

abbrev pub capability_connect_with_db : ℕ
capability_connect_with_db = 8

abbrev pub capability_ssl : ℕ
capability_ssl = 2 ^ 11

abbrev server_version : Str
server_version = str "8.0.32-RunAlexDB" ++ (0 ∷ [])

abbrev plugin_name : Str
plugin_name = str "mysql_native_password" ++ (0 ∷ [])

-- The body that both greetings share, for their capability flags; `put_u16_le` keeps 16 bits.
unfoldable pub greeting_with : ℕ → ℕ → List ℕ → List ℕ
greeting_with caps server_id auth_data =
    10
    ∷ (server_version
        ++ (le_bytes 4 server_id
            ++ (take 8 auth_data
                ++ (0
                    ∷ (le_bytes 2 (bit_and caps 0xffff)
                        ++ (0x21
                            ∷ (le_bytes 2 2
                                ++ (le_bytes 2 (caps / 2 ^ 16)
                                    ++ (21
                                        ∷ (replicate 10 0
                                            ++ (drop 8 auth_data ++ (0 ∷ plugin_name))))))))))))

unfoldable pub server_greeting : ℕ → List ℕ → List ℕ
unfolding greeting_with
server_greeting server_id auth_data =
    greeting_with
      (bit_or
        (bit_or (bit_or capability_long_password capability_protocol_41)
          capability_secure_connection)
        capability_plugin_auth)
      server_id auth_data

unfoldable pub server_greeting_tls : ℕ → List ℕ → List ℕ
unfolding greeting_with
server_greeting_tls server_id auth_data =
    greeting_with
      (bit_or
        (bit_or
          (bit_or (bit_or capability_long_password capability_protocol_41)
            capability_secure_connection)
          capability_plugin_auth)
        capability_ssl)
      server_id auth_data
