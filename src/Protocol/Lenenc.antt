-- ===== src/Protocol/Lenenc.antt =====
-- src/protocol.rs, length-encoded integers and strings.
use run_alex_db.Common.{ℕ, List, ◌∷◌, ◌++◌, ltb, if◌then◌else◌, length}
use run_alex_db.Common.Bytes.{le_bytes}

-- What `put_lenenc` writes.
unfoldable pub lenenc : ℕ → List ℕ
lenenc v =
    if ltb v 251
    then le_bytes 1 v
    else if ltb v 65536
    then 0xfc ∷ le_bytes 2 v
    else if ltb v 16_777_216
    then 0xfd ∷ le_bytes 3 v
    else 0xfe ∷ le_bytes 8 v

unfoldable pub put_lenenc : List ℕ → ℕ → List ℕ
unfolding lenenc
put_lenenc out v = out ++ lenenc v

unfoldable pub put_lenenc_str : List ℕ → List ℕ → List ℕ
unfolding put_lenenc
put_lenenc_str out s = put_lenenc out (length s) ++ s
