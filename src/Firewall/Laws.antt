-- ===== src/Firewall/Laws.antt =====
-- What the manager runs: nothing in a dry run or without a backend, and for every port that it opened the
-- program that closes it.
use run_alex_db.Common.{
  ℕ, none, some, List, [], ◌∷◌, ◌++◌, map, Bool, true, false, if◌then◌else◌, ◌≡◌, refl, sym, ap,
  ◌∙◌, append-nil, ap₂,
}
use run_alex_db.Common.Utf8.{from_utf8_lossy}
use run_alex_db.Common.Dict.{Str, str}
use run_alex_db.Common.Decimal.{show_ℕ}
use run_alex_db.Common.Ascii.{lines}
use run_alex_db.Common.Process.{
  Cmd, Outcome, Programs, not_started, exited, succeeded, stdout, name_of,
}
use run_alex_db.Firewall.{
  Backend, ufw, nftables, iptables, no_backend, Rule, FirewallManager, open_cmd, close_cmd, run,
  open_rule, close_rule, push_opened, open_all, open_ports, close_all, close, rule_handle,
  find_handle, accept_args, ufw_rule, run_result, map_result,
}

-- Of the ports, those whose program succeeds when they are opened one after another.
unfoldable pub accepted : Programs → (ℕ × Str → Cmd) → List (ℕ × Str) → List Cmd → List (ℕ × Str)
accepted programs cmd_of [] ran = []
accepted programs cmd_of (p ∷ ps) ran =
    let rest = accepted programs cmd_of ps (ran ++ (cmd_of p ∷ [])) in
    if succeeded (programs ran (cmd_of p)) then p ∷ rest else rest

abbrev plain_rule : ℕ × Str → Rule
plain_rule p = record { port = p.0; proto = p.1; nft_handle = none }

abbrev pub manager : Backend → Str → Bool → List Rule → FirewallManager
manager b tag dry_run rs = record { backend = b; tag = tag; dry_run = dry_run; opened = rs }

cons-append {ℓ} :
    {A : Type ℓ} (xs : List A) (x : A) (ys : List A) → (xs ++ (x ∷ [])) ++ ys ≡ xs ++ (x ∷ ys)
cons-append [] x ys = refl
cons-append (a ∷ xs) x ys = ap (λ l. a ∷ l) (cons-append xs x ys)

module _ (programs : Programs) where
  open_all_dry :
      (b : Backend) (tag : Str) (rs : List Rule) (ports : List (ℕ × Str)) (ran : List Cmd)
      → (open_all programs (manager b tag true rs) ports ran).0 ≡ ran
  unfolding open_all open_rule run
  open_all_dry b tag rs [] ran = refl
  open_all_dry b tag rs ((port, proto) ∷ ports) ran = open_all_dry b tag _ ports ran

  close_all_dry :
      (b : Backend) (tag : Str) (rs rs' : List Rule) (ran : List Cmd)
      → close_all programs (manager b tag true rs) rs' ran ≡ ran
  unfolding close_all close_rule run
  close_all_dry b tag rs [] ran = refl
  close_all_dry b tag rs (r ∷ rs') ran = close_all_dry b tag rs rs' ran

  -- In a dry run no program is run, neither when ports are opened nor when they are closed.
  pub dry_run_lem :
      (b : Backend) (tag : Str) (rs : List Rule) (ports : List (ℕ × Str)) (ran : List Cmd)
      → ((open_ports programs (manager b tag true rs) ports ran).0 ≡ ran)
        × ((close programs (manager b tag true rs) ran).0 ≡ ran)
  unfolding open_ports close
  dry_run_lem ufw tag rs ports ran =
      (open_all_dry ufw tag rs ports ran, close_all_dry ufw tag rs rs ran)
  dry_run_lem nftables tag rs ports ran =
      (open_all_dry nftables tag rs ports ran, close_all_dry nftables tag rs rs ran)
  dry_run_lem iptables tag rs ports ran =
      (open_all_dry iptables tag rs ports ran, close_all_dry iptables tag rs rs ran)
  dry_run_lem no_backend tag rs ports ran = (refl, refl)

  -- One step of `open_all`, where the port's program leaves no handle.
  push_result :
      (name : Str) (b : Backend) (port : ℕ) (proto : Str) (o : Outcome) (rs : List Rule)
      → rule_handle b (from_utf8_lossy (stdout o)) ≡ none
      → push_opened port proto
          (map_result (λ out. if false then none else rule_handle b out) (run_result name o))
          rs
        ≡ rs ++ map plain_rule (if succeeded o then (port, proto) ∷ [] else [])
  unfolding push_opened run_result
  push_result name b port proto (not_started e) rs plain = sym (append-nil rs)
  push_result name b port proto (exited false out errors) rs plain = sym (append-nil rs)
  push_result name b port proto (exited true out errors) rs plain =
      ap (λ h. rs ++ (record { port = port; proto = proto; nft_handle = h } ∷ [])) plain

  accepted_step :
      (x : Bool) (p : ℕ × Str) (ps : List (ℕ × Str)) (rs : List Rule)
      → (rs ++ map plain_rule (if x then p ∷ [] else [])) ++ map plain_rule ps
        ≡ rs ++ map plain_rule (if x then p ∷ ps else ps)
  accepted_step true p ps rs = cons-append rs (plain_rule p) (map plain_rule ps)
  accepted_step false p ps rs = ap (λ l. l ++ map plain_rule ps) (append-nil rs)

  -- One port, in a manager whose programs leave no handle.
  module _ (b : Backend) (tag : Str) (cmd_of : ℕ × Str → Cmd)
      (opens : (port : ℕ) (proto : Str) → open_cmd b tag port proto ≡ some (cmd_of (port, proto)))
      (plain : (before : List Cmd) (cmd : Cmd)
        → rule_handle b (from_utf8_lossy (stdout (programs before cmd))) ≡ none) where
    open_step :
        (rs : List Rule) (port : ℕ) (proto : Str) (ran : List Cmd)
        → open_rule programs (manager b tag false rs) port proto ran ≡ (
          ran ++ (cmd_of (port, proto) ∷ []),
          map_result
              (λ out. if false then none else rule_handle b out)
              (run_result (name_of (cmd_of (port, proto))) (programs ran (cmd_of (port, proto)))),
        )
    unfolding open_rule run
    open_step rs port proto ran =
        ap
          (λ c. (
            (run programs c ran).0,
            map_result (λ out. if false then none else rule_handle b out) (run programs c ran).1,
          ))
          (opens port proto)

    open_all_live :
        (rs : List Rule) (ports : List (ℕ × Str)) (ran : List Cmd)
        → open_all programs (manager b tag false rs) ports ran ≡ (
          ran ++ map cmd_of ports,
          manager b tag false (rs ++ map plain_rule (accepted programs cmd_of ports ran)),
        )
    unfolding open_all accepted
    open_all_live rs [] ran = rw (append-nil ran, append-nil rs) refl
    open_all_live rs ((port, proto) ∷ ports) ran =
        let cmd = cmd_of (port, proto) in
        let later = accepted programs cmd_of ports (ran ++ (cmd ∷ [])) in
        ap (λ q. open_all programs (manager b tag false (push_opened port proto q.1 rs)) ports q.0)
          (open_step rs port proto ran)
        ∙ ap (λ l. open_all programs (manager b tag false l) ports (ran ++ (cmd ∷ [])))
            (push_result (name_of cmd) b port proto (programs ran cmd) rs (plain ran cmd))
        ∙ open_all_live
            (rs ++ map plain_rule (if succeeded (programs ran cmd) then (port, proto) ∷ [] else []))
            ports (ran ++ (cmd ∷ []))
        ∙ ap₂ (λ l rules. (l, manager b tag false rules)) (cons-append ran cmd (map cmd_of ports))
            (accepted_step (succeeded (programs ran cmd)) (port, proto) later rs)

    close_all_live :
        (undo : ℕ × Str → Cmd)
        (closes : (p : ℕ × Str) → close_cmd b tag (plain_rule p) ≡ some (undo p)) (rs : List Rule)
        (ps : List (ℕ × Str)) (ran : List Cmd)
        → close_all programs (manager b tag false rs) (map plain_rule ps) ran ≡ ran ++ map undo ps
    unfolding close_all close_rule run
    close_all_live undo closes rs [] ran = sym (append-nil ran)
    close_all_live undo closes rs (p ∷ ps) ran =
        ap
          (λ c.
            close_all programs (manager b tag false rs) (map plain_rule ps) (run programs c ran).0)
          (closes p)
        ∙ close_all_live undo closes rs ps _
        ∙ cons-append ran (undo p) (map undo ps)

abbrev pub iptables_cmd : Str → Str → ℕ × Str → Cmd
iptables_cmd action tag p = accept_args action p.0 p.1 tag

abbrev pub ufw_allow : Str → ℕ × Str → Cmd
ufw_allow tag p = str "ufw" ∷ str "allow" ∷ ufw_rule p.0 p.1 ∷ str "comment" ∷ tag ∷ []

abbrev pub ufw_delete : ℕ × Str → Cmd
ufw_delete p = str "ufw" ∷ str "delete" ∷ str "allow" ∷ ufw_rule p.0 p.1 ∷ []

abbrev pub nft_add : Str → ℕ × Str → Cmd
nft_add tag p =
    str "nft"
    ∷ str "add"
    ∷ str "rule"
    ∷ str "inet"
    ∷ str "filter"
    ∷ str "input"
    ∷ (p.1 ++ (str " dport " ++ show_ℕ p.0))
    ∷ str "accept"
    ∷ str "comment"
    ∷ tag
    ∷ []

-- What a manager runs from its start to its end: the ports are opened and then closed.
unfoldable pub open_then_close :
    Programs → FirewallManager → List (ℕ × Str) → List Cmd → List Cmd × FirewallManager
open_then_close programs m ports ran =
    let (ran', m') = open_ports programs m ports ran in close programs m' ran'

-- What the manager runs where closing a rule is one program.
close_with :
    (programs : Programs) (b : Backend) (tag : Str) (cmd_of undo : ℕ × Str → Cmd)
    → ((port : ℕ) (proto : Str) → open_cmd b tag port proto ≡ some (cmd_of (port, proto)))
    → ((before : List Cmd) (cmd : Cmd)
        → rule_handle b (from_utf8_lossy (stdout (programs before cmd))) ≡ none)
    → ((p : ℕ × Str) → close_cmd b tag (plain_rule p) ≡ some (undo p))
    → (ports : List (ℕ × Str)) (ran : List Cmd)
    → (open_all programs (manager b tag false []) ports ran ≡ (
      ran ++ map cmd_of ports,
      manager b tag false (map plain_rule (accepted programs cmd_of ports ran)),
    ))
      × (close_all programs
            (manager b tag false (map plain_rule (accepted programs cmd_of ports ran)))
            (map plain_rule (accepted programs cmd_of ports ran))
            (ran ++ map cmd_of ports)
          ≡ (ran ++ map cmd_of ports) ++ map undo (accepted programs cmd_of ports ran))
close_with programs b tag cmd_of undo opens plain closes ports ran = (
  open_all_live programs b tag cmd_of opens plain [] ports ran,
  close_all_live programs b tag cmd_of opens plain undo closes _
      (accepted programs cmd_of ports ran) (ran ++ map cmd_of ports),
)

module _ (programs : Programs) where
  -- A new manager for iptables outside a dry run, whatever the programs answer: every port is asked to be opened, in order; then each of
  -- those whose program succeeded is closed by the same program with `-D` for `-A`, and no rule is left in
  -- mind, so that a second call of `close` runs nothing.
  pub close-open_iptables :
      (tag : Str) (ports : List (ℕ × Str)) (ran : List Cmd)
      → open_then_close programs (manager iptables tag false []) ports ran ≡ (
        (ran ++ map (iptables_cmd (str "-A") tag) ports)
            ++ map
                (iptables_cmd (str "-D") tag)
                (accepted programs (iptables_cmd (str "-A") tag) ports ran),
        manager iptables tag false [],
      )
  unfolding open_then_close open_ports close
  close-open_iptables tag ports ran =
      let (opened, closed) =
        close_with programs iptables tag (iptables_cmd (str "-A") tag) (iptables_cmd (str "-D") tag)
          (λ port proto. unfold open_cmd in refl) (λ before cmd. unfold rule_handle in refl)
          (λ p. unfold close_cmd in refl) ports ran in
      rw opened (ap (λ l. (l, manager iptables tag false [])) closed)

  -- A new manager for ufw outside a dry run, whatever the programs answer: every port is asked to be allowed, in order; then for each of
  -- those whose program succeeded the allowance is deleted, and no rule is left in mind.
  pub close-open_ufw :
      (tag : Str) (ports : List (ℕ × Str)) (ran : List Cmd)
      → open_then_close programs (manager ufw tag false []) ports ran ≡ (
        (ran ++ map (ufw_allow tag) ports)
            ++ map ufw_delete (accepted programs (ufw_allow tag) ports ran),
        manager ufw tag false [],
      )
  unfolding open_then_close open_ports close
  close-open_ufw tag ports ran =
      let (opened, closed) =
        close_with programs ufw tag (ufw_allow tag) ufw_delete
          (λ port proto. unfold open_cmd in refl) (λ before cmd. unfold rule_handle in refl)
          (λ p. unfold close_cmd in refl) ports ran in
      rw opened (ap (λ l. (l, manager ufw tag false [])) closed)

  close_all_without :
      (tag : Str) (rs : List Rule) (ps : List (ℕ × Str)) (ran : List Cmd)
      → close_all programs (manager nftables tag false rs) (map plain_rule ps) ran ≡ ran
  unfolding close_all close_rule run close_cmd
  close_all_without tag rs [] ran = refl
  close_all_without tag rs (p ∷ ps) ran = close_all_without tag rs ps ran

  -- A new manager for nftables outside a dry run, where no program prints a line with the handle of its rule,
  -- closes nothing: the programs that add the rules are all that is run.
  pub close-open_nftables :
      (tag : Str) (ports : List (ℕ × Str)) (ran : List Cmd)
      → ((before : List Cmd) (cmd : Cmd)
          → find_handle (lines (from_utf8_lossy (stdout (programs before cmd)))) ≡ none)
      → open_then_close programs (manager nftables tag false []) ports ran
        ≡ (ran ++ map (nft_add tag) ports, manager nftables tag false [])
  unfolding open_then_close open_ports close
  close-open_nftables tag ports ran silent =
      rw
        (open_all_live programs nftables tag (nft_add tag) (λ port proto. unfold open_cmd in refl)
          (λ before cmd. unfold rule_handle in silent before cmd) [] ports ran)
        (ap (λ l. (l, manager nftables tag false []))
          (close_all_without tag (map plain_rule (accepted programs (nft_add tag) ports ran))
            (accepted programs (nft_add tag) ports ran) _))
