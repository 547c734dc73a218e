-- ===== src/Firewall.antt =====
-- src/firewall/backend.rs: opening and closing the listen ports in the firewall. The programs run so far are
-- passed along; messages to the log are left out. A process that cannot lock `opened` has no other thread
-- that holds it.
pub mod Laws
mod Tests
use run_alex_db.Common.{
  ℕ, ◌+◌, ◌^◌, Option, none, some, List, [], ◌∷◌, ◌++◌, map, Bool, true, false, ◌||◌, ◌&&◌, not,
  if◌then◌else◌, ltb, ◌>>=◌,
}
use run_alex_db.Common.Utf8.{from_utf8_lossy}
use run_alex_db.Common.Dict.{Str, str, str_eq}
use run_alex_db.Common.Decimal.{show_ℕ, parse_unsigned}
use run_alex_db.Common.Ascii.{trim, contains_text, strip_prefix, lines}
use run_alex_db.Common.Process.{
  Cmd, Outcome, Programs, Result, not_started, exited, done, failed, succeeded, stdout, name_of,
}

pub data Backend : Type 0 where
  ufw : Backend
  nftables : Backend
  iptables : Backend
  no_backend : Backend

unfoldable pub as_str : Backend → Str
as_str ufw = str "ufw"
as_str nftables = str "nftables"
as_str iptables = str "iptables"
as_str no_backend = str "none"

pub record Rule : Type 0 where
  pub port : ℕ
  pub proto : Str
  pub nft_handle : Option ℕ

pub record FirewallManager : Type 0 where
  pub backend : Backend
  pub tag : Str
  pub dry_run : Bool
  pub opened : List Rule

abbrev pub accept_args : Str → ℕ → Str → Str → Cmd
accept_args action port proto tag =
    str "iptables"
    ∷ action
    ∷ str "INPUT"
    ∷ str "-p"
    ∷ proto
    ∷ str "--dport"
    ∷ show_ℕ port
    ∷ str "-m"
    ∷ str "comment"
    ∷ str "--comment"
    ∷ tag
    ∷ str "-j"
    ∷ str "ACCEPT"
    ∷ []

abbrev pub ufw_rule : ℕ → Str → Str
ufw_rule port proto = show_ℕ port ++ (b'/' ∷ proto)

-- `out.lines().find_map(…)`.
unfoldable pub handle_of_line : Str → Option ℕ
handle_of_line l = do s ← strip_prefix (str "# handle ") l; parse_unsigned 64 (trim s)

unfoldable pub find_handle : List Str → Option ℕ
unfolding handle_of_line
find_handle [] = none
find_handle (l ∷ ls) =
    let later = find_handle ls in elim (handle_of_line l) [ none ↦ later | some h ↦ some h ]

-- `run`, of what the program did.
unfoldable pub run_result : Str → Outcome → Result Str
run_result name (not_started e) = failed (name ++ (str ": " ++ e))
run_result name (exited true out errors) = done (from_utf8_lossy out)
run_result name (exited false out errors) = failed (trim (from_utf8_lossy errors))

abbrev pub map_result {ℓ ℓ'} : {A : Type ℓ} {B : Type ℓ'} → (A → B) → Result A → Result B
map_result f (done a) = done (f a)
map_result f (failed e) = failed e

-- What opens a port, and what closes it again, if the backend has a program for it.
unfoldable pub open_cmd : Backend → Str → ℕ → Str → Option Cmd
open_cmd ufw tag port proto =
    some (str "ufw" ∷ str "allow" ∷ ufw_rule port proto ∷ str "comment" ∷ tag ∷ [])
open_cmd nftables tag port proto = some (
    str "nft"
    ∷ str "add"
    ∷ str "rule"
    ∷ str "inet"
    ∷ str "filter"
    ∷ str "input"
    ∷ (proto ++ (str " dport " ++ show_ℕ port))
    ∷ str "accept"
    ∷ str "comment"
    ∷ tag
    ∷ [])
open_cmd iptables tag port proto = some (accept_args (str "-A") port proto tag)
open_cmd no_backend tag port proto = none

unfoldable pub close_cmd : Backend → Str → Rule → Option Cmd
close_cmd ufw tag r = some (str "ufw" ∷ str "delete" ∷ str "allow" ∷ ufw_rule r.port r.proto ∷ [])
close_cmd nftables tag r = elim r.nft_handle [
  | none ↦ none
  | some h ↦ some (
      str "nft"
      ∷ str "delete"
      ∷ str "rule"
      ∷ str "inet"
      ∷ str "filter"
      ∷ str "input"
      ∷ str "handle"
      ∷ show_ℕ h
      ∷ [])
]
close_cmd iptables tag r = some (accept_args (str "-D") r.port r.proto tag)
close_cmd no_backend tag r = none

-- The handle that the output of the program that opened a port has.
unfoldable pub rule_handle : Backend → Str → Option ℕ
unfolding find_handle
rule_handle nftables out = find_handle (lines out)
rule_handle ufw out = none
rule_handle iptables out = none
rule_handle no_backend out = none

-- A rule is kept in mind if it was opened.
unfoldable pub push_opened : ℕ → Str → Result (Option ℕ) → List Rule → List Rule
push_opened port proto (done handle) rs =
    rs ++ (record { port = port; proto = proto; nft_handle = handle } ∷ [])
push_opened port proto (failed e) rs = rs

module _ (programs : Programs) where
  abbrev answers : (Outcome → Bool) → Cmd → List Cmd → List Cmd × Bool
  answers test cmd ran = (ran ++ (cmd ∷ []), test (programs ran cmd))

  unfoldable pub cmd_exists : Str → List Cmd → List Cmd × Bool
  cmd_exists name ran = answers succeeded (str "which" ∷ name ∷ []) ran

  unfoldable pub ufw_active : List Cmd → List Cmd × Bool
  ufw_active ran =
      answers (λ o. contains_text (str "Status: active") (stdout o)) (str "ufw" ∷ str "status" ∷ [])
        ran

  unfoldable pub detect_tables : List Cmd → List Cmd × Backend
  unfolding cmd_exists
  detect_tables ran =
      let (ran', nft) = cmd_exists (str "nft") ran in
      let (ran'', ipt) = cmd_exists (str "iptables") ran' in
      if nft then (ran', nftables) else if ipt then (ran'', iptables) else (ran'', no_backend)

  unfoldable pub detect : List Cmd → List Cmd × Backend
  unfolding cmd_exists ufw_active
  detect ran =
      let (ran', found) = cmd_exists (str "ufw") ran in
      let (ran'', active) = ufw_active ran' in
      if found then (if active then (ran'', ufw) else detect_tables ran'') else detect_tables ran'

  -- The override of the configuration, if it is one of the names.
  unfoldable pub choose : Option Str → List Cmd → List Cmd × Backend
  unfolding detect
  choose none ran = detect ran
  choose (some name) ran =
      if str_eq name (str "ufw")
      then (ran, ufw)
      else if str_eq name (str "nftables")
      then (ran, nftables)
      else if str_eq name (str "iptables")
      then (ran, iptables)
      else if str_eq name (str "none") || str_eq name (str "no")
      then (ran, no_backend)
      else detect ran

  -- `new`; `dry_run` is whether the environment has RUNALEXDB_FIREWALL_DRY_RUN=1.
  unfoldable pub new_manager :
      Bool → Bool → Option Str → Str → List Cmd → List Cmd × FirewallManager
  unfolding choose
  new_manager dry_run manage backend_override tag ran =
      let (ran', b) = if manage then choose backend_override ran else (ran, no_backend) in
      (ran', record { backend = b; tag = tag; dry_run = dry_run; opened = [] })

  -- `run`: a program that is not wanted, in a dry run or without a backend, is none.
  unfoldable pub run : Option Cmd → List Cmd → List Cmd × Result Str
  unfolding run_result
  run none ran = (ran, done [])
  run (some cmd) ran = (ran ++ (cmd ∷ []), run_result (name_of cmd) (programs ran cmd))

  abbrev pub unless : Bool → Option Cmd → Option Cmd
  unless true cmd = none
  unless false cmd = cmd

  unfoldable pub open_rule : FirewallManager → ℕ → Str → List Cmd → List Cmd × Result (Option ℕ)
  unfolding run rule_handle
  open_rule m port proto ran =
      let (ran', result) = run (unless m.dry_run (open_cmd m.backend m.tag port proto)) ran in
      (ran', map_result (λ out. if m.dry_run then none else rule_handle m.backend out) result)

  unfoldable pub close_rule : FirewallManager → Rule → List Cmd → List Cmd × Result Str
  unfolding run
  close_rule m r ran = run (unless m.dry_run (close_cmd m.backend m.tag r)) ran

  unfoldable pub open_all : FirewallManager → List (ℕ × Str) → List Cmd → List Cmd × FirewallManager
  unfolding open_rule push_opened
  open_all m [] ran = (ran, m)
  open_all m ((port, proto) ∷ ports) ran =
      let (ran', result) = open_rule m port proto ran in
      open_all (record m { opened = push_opened port proto result m.opened }) ports ran'

  unfoldable pub open_ports :
      FirewallManager → List (ℕ × Str) → List Cmd → List Cmd × FirewallManager
  unfolding open_all
  open_ports m ports ran = elim m.backend [ no_backend ↦ (ran, m) | other ↦ open_all m ports ran ]

  unfoldable pub close_all : FirewallManager → List Rule → List Cmd → List Cmd
  unfolding close_rule
  close_all m [] ran = ran
  close_all m (r ∷ rs) ran = close_all m rs (close_rule m r ran).0

  unfoldable pub close : FirewallManager → List Cmd → List Cmd × FirewallManager
  unfolding close_all
  close m ran = elim m.backend [
    | no_backend ↦ (ran, m)
    | other ↦ (close_all m m.opened ran, record m { opened = [] })
  ]

unfoldable pub status : FirewallManager → Str × List (ℕ × Str)
unfolding as_str
status m = (as_str m.backend, map (λ r. (r.port, r.proto)) m.opened)
