-- ===== src/IcmpGuard/Tests.antt =====
-- The laws of the ICMP guard on a host that has iptables and not nft.
use run_alex_db.Common.{ℕ, ◌≡◌, refl, none, [], ◌∷◌, ◌++◌, true, false, not, Bool, arith}
use run_alex_db.Common.Dict.{str, str_eq}
use run_alex_db.Common.Process.{Programs, Cmd, exited}
use run_alex_db.IcmpGuard.{
  World, written, setup, teardown, no_owner, iptables, lock_is_held, apply_rules,
}
use run_alex_db.IcmpGuard.Laws.{setup-setup, teardown-setup, icmp_rules, probes}

abbrev is_nft : Cmd → Bool
is_nft (name ∷ arg ∷ args) = str_eq arg (str "nft")
is_nft cmd = false

abbrev host : Programs
host ran cmd = exited (not (is_nft cmd)) [] []

abbrev fresh : World
fresh = record { ran = []; lock = none }

abbrev alive : ℕ → Bool
alive pid = true

owner : (setup host alive written 77 true fresh).1.is_owner ≡ true
unfolding setup lock_is_held str_eq apply_rules
owner = refl

owner_backend : (setup host alive written 77 true fresh).1.backend ≡ iptables
unfolding setup lock_is_held str_eq apply_rules
owner_backend = refl

setup-setup_example :
    setup host alive written 78 true (setup host alive written 77 true fresh).0
    ≡ ((setup host alive written 77 true fresh).0, no_owner true)
setup-setup_example = setup-setup host alive written 77 78 fresh (omega arith) refl owner

teardown-setup_example :
    ((teardown host true
        (setup host alive written 77 true fresh).1
        (setup host alive written 77 true fresh).0).ran
      ≡ [] ++ (probes ++ (icmp_rules (str "-I") ++ icmp_rules (str "-D"))))
    × ((teardown host true
          (setup host alive written 77 true fresh).1
          (setup host alive written 77 true fresh).0).lock
        ≡ none)
teardown-setup_example = teardown-setup host alive written true 77 fresh owner owner_backend
