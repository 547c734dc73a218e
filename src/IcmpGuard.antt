-- ===== src/IcmpGuard.antt =====
-- src/icmp_guard/mod.rs: the rate limit on pings and the lock file that gives it one owner. The state is what
-- was run so far and the content of the lock file; `none` is a file that cannot be read. Messages to the log
-- are left out.
mod Rules
pub mod Laws
mod Tests
pub use Rules.*
use run_alex_db.Common.{take}
use run_alex_db.Common.{
  ℕ, ◌+◌, ◌^◌, Option, none, some, List, [], ◌∷◌, ◌++◌, map, Bool, true, false, not, if◌then◌else◌,
  ◌>>=◌, get_elem?,
}
use run_alex_db.Common.Dict.{Str, str}
use run_alex_db.Common.Decimal.{show_ℕ, parse_unsigned}
use run_alex_db.Common.Ascii.{trim, contains_text, lines, split, split_text}
use run_alex_db.Common.Process.{
  Cmd, Outcome, Programs, Result, not_started, exited, done, failed, succeeded, stdout, name_of,
}

pub data Backend : Type 0 where
  iptables : Backend
  nftables : Backend
  no_backend : Backend

pub record IcmpGuard : Type 0 where
  pub is_owner : Bool
  pub backend : Backend
  pub enabled : Bool

-- What the guard reads and changes outside the program.
pub record World : Type 0 where
  pub ran : List Cmd
  pub lock : Option Str

-- `split(':').nth(1)` and the rest of `lock_is_held`, of what the file holds.
unfoldable pub lock_pid : Str → Option ℕ
lock_pid content =
    parse_unsigned 32 (trim (elim (get_elem? (split b':' content) 1) [ none ↦ [] | some s ↦ s ]))

-- `alive` is whether `/proc/{pid}` exists.
unfoldable pub lock_is_held : (ℕ → Bool) → Option Str → Bool
unfolding lock_pid
lock_is_held alive none = false
lock_is_held alive (some content) = elim (lock_pid content) [ none ↦ false | some pid ↦ alive pid ]

unfoldable pub lock_content : ℕ → Str
lock_content pid = str "runnginx:" ++ (show_ℕ pid ++ (10 ∷ []))

-- How the writing of the lock file goes: it cannot be opened; it is emptied and then written in full; or the
-- writing fails after some bytes, which nobody is told.
pub data Writing : Type 0 where
  unopened : Writing
  written : Writing
  failed_after : ℕ → Writing

unfoldable pub write_lock : Writing → ℕ → World → World
unfolding lock_content
write_lock unopened pid w = w
write_lock written pid w = record w { lock = some (lock_content pid) }
write_lock (failed_after n) pid w = record w { lock = some (take n (lock_content pid)) }

-- The handle of a listed rule, if the line has the comment and a handle.
unfoldable pub handle_of : Str → Option Str
handle_of line =
    if contains_text icmp_comment line
    then (do h ← get_elem? (split_text (str "# handle ") line) 1; some (trim h))
    else none

-- `run_cmd`, of what the program did; the text of a failure has the exit status, which is left out.
unfoldable pub check_status : Str → Outcome → Result (Unit {0})
check_status name (not_started e) = failed (name ++ (str ": " ++ e))
check_status name (exited true out errors) = done tt
check_status name (exited false out errors) = failed (name ++ str " exited with ")

-- Whether the guard applies its rules, and what it owns then.
abbrev pub no_owner : Bool → IcmpGuard
no_owner enabled = record { is_owner = false; backend = no_backend; enabled = enabled }

module _ (programs : Programs) where
  unfoldable pub run_cmd : Cmd → World → World × Result (Unit {0})
  unfolding check_status
  run_cmd cmd w =
      (record w { ran = w.ran ++ (cmd ∷ []) }, check_status (name_of cmd) (programs w.ran cmd))

  unfoldable pub cmd_ok : Cmd → World → World × Bool
  cmd_ok cmd w = (record w { ran = w.ran ++ (cmd ∷ []) }, succeeded (programs w.ran cmd))

  unfoldable pub detect_backend : World → World × Backend
  unfolding cmd_ok
  detect_backend w =
      let (w', nft) = cmd_ok (str "which" ∷ str "nft" ∷ []) w in
      let (w'', ipt) = cmd_ok (str "which" ∷ str "iptables" ∷ []) w' in
      if nft then (w', nftables) else if ipt then (w'', iptables) else (w'', no_backend)

  -- `run_cmd(…)?` one after another: the first failure ends them.
  unfoldable pub run_each : List Cmd → World → World × Result (Unit {0})
  unfolding run_cmd
  run_each [] w = (w, done tt)
  run_each (cmd ∷ cmds) w =
      let later = run_each cmds (run_cmd cmd w).0 in
      elim (run_cmd cmd w).1 [ done u ↦ later | failed e ↦ ((run_cmd cmd w).0, failed e) ]

  -- `let _ = run_cmd(…)` one after another.
  unfoldable pub run_anyway : List Cmd → World → World
  unfolding run_cmd
  run_anyway [] w = w
  run_anyway (cmd ∷ cmds) w = run_anyway cmds (run_cmd cmd w).0

  -- IPv6 is tried where IPv4 has its rules.
  unfoldable pub then_anyway : List Cmd → World × Result (Unit {0}) → World × Result (Unit {0})
  unfolding run_anyway
  then_anyway cmds (w, done u) = (run_anyway cmds w, done tt)
  then_anyway cmds (w, failed e) = (w, failed e)

  unfoldable pub apply_rules : Backend → World → World × Result (Unit {0})
  unfolding run_each then_anyway
  apply_rules iptables w =
      then_anyway (ipv6_accept (str "-I") ∷ ipv6_drop (str "-I") ∷ [])
        (run_each (ipv4_accept (str "-I") ∷ ipv4_drop (str "-I") ∷ []) w)
  apply_rules nftables w = run_each (nft_accept ∷ nft_drop ∷ []) w
  apply_rules no_backend w = (w, done tt)

  -- The loop over the lines that `nft` lists.
  unfoldable pub delete_handles : List Str → World → World
  unfolding handle_of run_cmd
  delete_handles [] w = w
  delete_handles (line ∷ ls) w = elim (handle_of line) [
    | none ↦ delete_handles ls w
    | some handle ↦
        delete_handles ls
          (run_cmd
            (str "nft"
              ∷ str "delete"
              ∷ str "rule"
              ∷ str "inet"
              ∷ str "filter"
              ∷ str "input"
              ∷ str "handle"
              ∷ handle
              ∷ [])
            w).0
  ]

  abbrev list_chain : Cmd
  list_chain =
      str "nft" ∷ str "-a" ∷ str "list" ∷ str "chain" ∷ str "inet" ∷ str "filter" ∷ str "input" ∷ []

  -- What is listed, or the end of the removal where `nft` cannot be started.
  unfoldable pub delete_listed : Outcome → World → World
  unfolding delete_handles
  delete_listed (not_started e) w = w
  delete_listed (exited success out errors) w = delete_handles (lines out) w

  unfoldable pub remove_rules : Backend → World → World
  unfolding run_anyway delete_listed
  remove_rules iptables w =
      run_anyway
        (ipv4_accept (str "-D")
          ∷ ipv4_drop (str "-D")
          ∷ ipv6_accept (str "-D")
          ∷ ipv6_drop (str "-D")
          ∷ [])
        w
  remove_rules nftables w =
      delete_listed (programs w.ran list_chain) (record w { ran = w.ran ++ (list_chain ∷ []) })
  remove_rules no_backend w = w

  unfoldable pub become_owner :
      Writing → ℕ → Backend → World × Result (Unit {0}) → World × IcmpGuard
  unfolding write_lock
  become_owner writing pid b (w, done u) =
      (write_lock writing pid w, record { is_owner = true; backend = b; enabled = true })
  become_owner writing pid b (w, failed e) = (w, no_owner true)

  unfoldable pub setup_with : Writing → ℕ → World × Backend → World × IcmpGuard
  unfolding become_owner
  setup_with writing pid (w, no_backend) = (w, no_owner true)
  setup_with writing pid (w, iptables) = become_owner writing pid iptables (apply_rules iptables w)
  setup_with writing pid (w, nftables) = become_owner writing pid nftables (apply_rules nftables w)

  unfoldable pub setup : (ℕ → Bool) → Writing → ℕ → Bool → World → World × IcmpGuard
  unfolding detect_backend setup_with
  setup alive writing pid enabled w =
      if not enabled
      then (w, no_owner false)
      else if lock_is_held alive w.lock
      then (w, no_owner true)
      else setup_with writing pid (detect_backend w)

  -- `teardown`, which `drop` calls as well; `removable` is whether the lock file can be removed.
  unfoldable pub teardown : Bool → IcmpGuard → World → World
  unfolding remove_rules
  teardown removable g w =
      let w' = remove_rules g.backend w in
      if g.is_owner then (if removable then record w' { lock = none } else w') else w
