-- ===== src/Firewall/Tests.antt =====
-- The laws of the firewall at concrete ports and programs.
use run_alex_db.Common.{ℕ, ◌≡◌, refl, none, List, [], ◌∷◌, ◌++◌, true, false, map}
use run_alex_db.Common.Dict.{str, Str}
use run_alex_db.Common.Ascii.{lines}
use run_alex_db.Common.Process.{Programs, exited}
use run_alex_db.Common.Utf8.{from_utf8_lossy}
use run_alex_db.Firewall.{iptables, nftables, find_handle}
use run_alex_db.Firewall.Laws.{
  manager, open_then_close, close-open_iptables, close-open_nftables, iptables_cmd, nft_add,
  accepted,
}

-- Every program succeeds and prints nothing.
abbrev silent : Programs
silent ran cmd = exited true [] []

abbrev ports : List (ℕ × Str)
ports = (3306, str "tcp") ∷ (8080, str "tcp") ∷ []

close-open_iptables_example :
    open_then_close silent (manager iptables (str "db") false []) ports [] ≡ (
      ([] ++ map (iptables_cmd (str "-A") (str "db")) ports)
          ++ map
              (iptables_cmd (str "-D") (str "db"))
              (accepted silent (iptables_cmd (str "-A") (str "db")) ports []),
      manager iptables (str "db") false [],
    )
close-open_iptables_example = close-open_iptables silent (str "db") ports []

no_handle : find_handle (lines (from_utf8_lossy [])) ≡ none
unfolding find_handle lines from_utf8_lossy
no_handle = refl

close-open_nftables_example :
    open_then_close silent (manager nftables (str "db") false []) ports []
    ≡ ([] ++ map (nft_add (str "db")) ports, manager nftables (str "db") false [])
close-open_nftables_example =
    close-open_nftables silent (str "db") ports [] (λ before cmd. no_handle)
