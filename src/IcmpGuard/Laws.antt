-- ===== src/IcmpGuard/Laws.antt =====
-- The lock gives the rules one owner, who takes out what it put in.
use run_alex_db.Common.{
  ℕ, ◌^◌, ◌<◌, Option, none, some, List, [], ◌∷◌, ◌++◌, Bool, true, false, if◌then◌else◌, ◌≡◌, refl,
  sym, ap, ◌∙◌, Bool-cases, inl, inr, append_assoc, append-nil,
}
use run_alex_db.Common.Dict.{Str, str}
use run_alex_db.Common.Ascii.{split}
use run_alex_db.Common.Decimal.{show_ℕ, show_ℕ-StartsDigit}
use run_alex_db.Common.Digits.{show_ℕ-IsDigit, trim-digits, parse_unsigned-show_ℕ, split-digits}
use run_alex_db.Common.Process.{Cmd, Programs, Result, done, failed}
use run_alex_db.IcmpGuard.{
  Backend, iptables, nftables, no_backend, World, Writing, unopened, written, failed_after,
  lock_content, lock_pid, lock_is_held, write_lock, run_cmd, run_each, run_anyway, then_anyway,
  apply_rules, detect_backend, remove_rules, become_owner, setup_with, setup, teardown, no_owner,
  cmd_ok, ipv4_accept, ipv4_drop, ipv6_accept, ipv6_drop,
}

false-ne-true : false ≡ true → ⊥
false-ne-true h = cc

-- The lock names the process that wrote it.
lock_pid-lock_content : (pid : ℕ) → pid < 2 ^ 32 → lock_pid (lock_content pid) ≡ some pid
unfolding lock_pid lock_content split
lock_pid-lock_content pid h =
    let digits = split-digits (show_ℕ pid) (show_ℕ-IsDigit pid) in
    rw (digits, trim-digits (show_ℕ pid) (show_ℕ-StartsDigit pid) (show_ℕ-IsDigit pid))
      (parse_unsigned-show_ℕ 32 pid h)

lock_held :
    (alive : ℕ → Bool) (pid : ℕ)
    → pid < 2 ^ 32
    → lock_is_held alive (some (lock_content pid)) ≡ alive pid
unfolding lock_is_held
lock_held alive pid h =
    ap (λ (o : Option ℕ). elim o as (λ _. Bool) [ none ↦ false | some n ↦ alive n ])
      (lock_pid-lock_content pid h)

-- All that `-I` puts in, and all that `-D` takes out.
abbrev pub icmp_rules : Str → List Cmd
icmp_rules action =
    ipv4_accept action ∷ ipv4_drop action ∷ ipv6_accept action ∷ ipv6_drop action ∷ []

abbrev pub probes : List Cmd
probes = (str "which" ∷ str "nft" ∷ []) ∷ (str "which" ∷ str "iptables" ∷ []) ∷ []

nftables-ne-iptables : nftables ≡ iptables → ⊥
nftables-ne-iptables h = cc

failed-ne-done : {e : Str} → Path (Result (Unit {0})) (failed e) (done tt) → ⊥
failed-ne-done h = cc

cons-append {ℓ} :
    {A : Type ℓ} (xs : List A) (x : A) (ys : List A) → (xs ++ (x ∷ [])) ++ ys ≡ xs ++ (x ∷ ys)
cons-append xs x ys = append_assoc xs (x ∷ []) ys

abbrev picked : Bool → Bool → World → World → World × Backend
picked nft ipt w w' =
    if nft then (w, nftables) else if ipt then (w', iptables) else (w', no_backend)

detected_either :
    (nft ipt : Bool) (w w' : World)
    → (picked nft ipt w w').1 ≡ iptables
    → (picked nft ipt w w').0 ≡ w'
detected_either true ipt w w' h = absurd (nftables-ne-iptables h)
detected_either false true w w' h = refl
detected_either false false w w' h = refl

module _ (programs : Programs) where
  -- Whoever owns the guard has applied the rules of the backend that was found, and written the lock.
  owned_by :
      (writing : Writing) (pid : ℕ) (b : Backend) (p : World × Result (Unit {0}))
      → (become_owner programs writing pid b p).1.is_owner ≡ true
      → (w : World) × (p ≡ (w, done tt))
        × (become_owner programs writing pid b p
            ≡ (write_lock writing pid w, record { is_owner = true; backend = b; enabled = true }))
  unfolding become_owner
  owned_by writing pid b (w, done u) h = (w, refl, refl)
  owned_by writing pid b (w, failed e) h = absurd (false-ne-true h)

  owned :
      (writing : Writing) (pid : ℕ) (p : World × Backend)
      → (setup_with programs writing pid p).1.is_owner ≡ true
      → (w : World) × (apply_rules programs p.1 p.0 ≡ (w, done tt))
        × (setup_with programs writing pid p
            ≡ (write_lock writing pid w, record { is_owner = true; backend = p.1; enabled = true }))
  unfolding setup_with
  owned writing pid (w, no_backend) h = absurd (false-ne-true h)
  owned writing pid (w, iptables) h =
      owned_by writing pid iptables (apply_rules programs iptables w) h
  owned writing pid (w, nftables) h =
      owned_by writing pid nftables (apply_rules programs nftables w) h

  -- An owner went through all of `setup`.
  setup-owned :
      (alive : ℕ → Bool) (writing : Writing) (pid : ℕ) (w : World)
      → (setup programs alive writing pid true w).1.is_owner ≡ true
      → setup programs alive writing pid true w
        ≡ setup_with programs writing pid (detect_backend programs w)
  unfolding setup
  setup-owned alive writing pid w h = elim (Bool-cases (lock_is_held alive w.lock)) [
    | inl held ↦ absurd (false-ne-true (sym (rw held refl) ∙ h))
    | inr free ↦ rw free refl
  ]

  setup_held :
      (alive : ℕ → Bool) (writing : Writing) (pid : ℕ) (w : World)
      → lock_is_held alive w.lock ≡ true
      → setup programs alive writing pid true w ≡ (w, no_owner true)
  unfolding setup
  setup_held alive writing pid w h = rw h refl

  -- One process at a time: once a process owns the guard and its lock was written, a second one that starts
  -- while it lives runs nothing, leaves the lock alone and owns nothing.
  pub setup-setup :
      (alive : ℕ → Bool) (writing : Writing) (pid pid' : ℕ) (w : World)
      → pid < 2 ^ 32
      → alive pid ≡ true
      → (setup programs alive written pid true w).1.is_owner ≡ true
      → setup programs alive writing pid' true (setup programs alive written pid true w).0
        ≡ ((setup programs alive written pid true w).0, no_owner true)
  setup-setup alive writing pid pid' w small lives h =
      let through = setup-owned alive written pid w h in
      let (w1, applied, outcome) =
        owned written pid (detect_backend programs w) (sym (ap (λ p. p.1.is_owner) through) ∙ h) in
      rw (through, outcome)
        (unfold write_lock in setup_held alive writing pid' _ (lock_held alive pid small ∙ lives))

  -- What a list of programs leaves behind, whatever they answer.
  run_anyway_ran : (cmds : List Cmd) (w : World) → (run_anyway programs cmds w).ran ≡ w.ran ++ cmds
  unfolding run_anyway run_cmd
  run_anyway_ran [] w = sym (append-nil w.ran)
  run_anyway_ran (cmd ∷ cmds) w = run_anyway_ran cmds _ ∙ cons-append w.ran cmd cmds

  each_either :
      (r : Result (Unit {0})) (later : World × Result (Unit {0})) (w w' : World)
      → (elim r as (λ _. World × Result (Unit {0})) [ done u ↦ later | failed e ↦ (w, failed e) ])
        ≡ (w', done tt)
      → later ≡ (w', done tt)
  each_either (done u) later w w' h = h
  each_either (failed e) later w w' h = absurd (failed-ne-done (ap (λ p. p.1) h))

  run_each_ran :
      (cmds : List Cmd) (w w' : World)
      → run_each programs cmds w ≡ (w', done tt)
      → w'.ran ≡ w.ran ++ cmds
  unfolding run_each run_cmd
  run_each_ran [] w w' h = sym (ap (λ p. p.0.ran) h) ∙ sym (append-nil w.ran)
  run_each_ran (cmd ∷ cmds) w w' h =
      run_each_ran cmds (run_cmd programs cmd w).0 w'
        (each_either (run_cmd programs cmd w).1 _ (run_cmd programs cmd w).0 w' h)
      ∙ cons-append w.ran cmd cmds

  anyway_either :
      (cmds : List Cmd) (p : World × Result (Unit {0})) (w' : World)
      → then_anyway programs cmds p ≡ (w', done tt)
      → (p ≡ (p.0, done tt)) × (w'.ran ≡ p.0.ran ++ cmds)
  unfolding then_anyway
  anyway_either cmds (w, done u) w' h = (refl, sym (ap (λ p. p.0.ran) h) ∙ run_anyway_ran cmds w)
  anyway_either cmds (w, failed e) w' h = absurd (failed-ne-done (ap (λ p. p.1) h))

  apply_rules_ran :
      (w w' : World)
      → apply_rules programs iptables w ≡ (w', done tt)
      → w'.ran ≡ w.ran ++ icmp_rules (str "-I")
  unfolding apply_rules
  apply_rules_ran w w' h =
      let (first, second) =
        anyway_either (ipv6_accept (str "-I") ∷ ipv6_drop (str "-I") ∷ []) _ w' h in
      second
      ∙ ap (λ l. l ++ (ipv6_accept (str "-I") ∷ ipv6_drop (str "-I") ∷ []))
          (run_each_ran (ipv4_accept (str "-I") ∷ ipv4_drop (str "-I") ∷ []) w _ first)
      ∙ append_assoc w.ran _ _

  detected_iptables :
      (w : World)
      → (detect_backend programs w).1 ≡ iptables
      → (detect_backend programs w).0.ran ≡ w.ran ++ probes
  unfolding detect_backend cmd_ok
  detected_iptables w h = ap (λ v. v.ran) (detected_either _ _ _ _ h) ∙ append_assoc w.ran _ _

  write_lock-ran :
      (writing : Writing) (pid : ℕ) (w : World) → (write_lock writing pid w).ran ≡ w.ran
  unfolding write_lock
  write_lock-ran unopened pid w = refl
  write_lock-ran written pid w = refl
  write_lock-ran (failed_after n) pid w = refl

  teardown_ran :
      (removable : Bool) (w : World)
      → (teardown programs removable
          (record { is_owner = true; backend = iptables; enabled = true })
          w).ran
        ≡ w.ran ++ icmp_rules (str "-D")
  unfolding teardown remove_rules
  teardown_ran true w = run_anyway_ran _ w
  teardown_ran false w = run_anyway_ran _ w

  -- What an owner has run when it is done, if the rules are those of iptables: each of the four rules that it
  -- put in with `-I` it has taken out with `-D`, whatever the programs that take them out answer, and the
  -- lock file is gone if it can be removed.
  pub teardown-setup :
      (alive : ℕ → Bool) (writing : Writing) (removable : Bool) (pid : ℕ) (w : World)
      → (setup programs alive writing pid true w).1.is_owner ≡ true
      → (setup programs alive writing pid true w).1.backend ≡ iptables
      → ((teardown programs removable
            (setup programs alive writing pid true w).1
            (setup programs alive writing pid true w).0).ran
          ≡ w.ran ++ (probes ++ (icmp_rules (str "-I") ++ icmp_rules (str "-D"))))
        × ((teardown programs true
              (setup programs alive writing pid true w).1
              (setup programs alive writing pid true w).0).lock
            ≡ none)
  teardown-setup alive writing removable pid w h hb =
      let through = setup-owned alive writing pid w h in
      let (w1, applied, outcome) =
        owned writing pid (detect_backend programs w) (sym (ap (λ p. p.1.is_owner) through) ∙ h) in
      let found : (detect_backend programs w).1 ≡ iptables =
        sym (ap (λ p. p.1.backend) (through ∙ outcome)) ∙ hb in
      let into : apply_rules programs iptables (detect_backend programs w).0 ≡ (w1, done tt) =
        ap (λ b. apply_rules programs b (detect_backend programs w).0) (sym found) ∙ applied in
      let ran : w1.ran ≡ w.ran ++ (probes ++ icmp_rules (str "-I")) =
        apply_rules_ran _ w1 into
        ∙ ap (λ l. l ++ icmp_rules (str "-I")) (detected_iptables w found)
        ∙ append_assoc w.ran probes _ in
      rw (through, outcome, found)
        (
          teardown_ran removable (write_lock writing pid w1)
              ∙ ap (λ l. l ++ icmp_rules (str "-D")) (write_lock-ran writing pid w1 ∙ ran)
              ∙ append_assoc w.ran _ _,
          unfold teardown in refl,
        )
