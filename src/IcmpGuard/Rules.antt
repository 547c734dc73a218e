-- ===== src/IcmpGuard/Rules.antt =====
-- src/icmp_guard/mod.rs: the programs that put the rules in and take them out.
use run_alex_db.Common.{[], ◌∷◌, ◌++◌}
use run_alex_db.Common.Dict.{Str, str}
use run_alex_db.Common.Process.{Cmd}

abbrev pub icmp_rate : Str
icmp_rate = str "5/second"

abbrev pub icmp_burst : Str
icmp_burst = str "10"

abbrev pub icmp_comment : Str
icmp_comment = str "icmp_guard"

-- The arguments of one rule, as `-I` puts it in and `-D` takes it out.
abbrev pub accept_rule : Str → Str → Str → Str → Cmd
accept_rule program action proto type_flag =
    program
    ∷ action
    ∷ str "INPUT"
    ∷ str "-p"
    ∷ proto
    ∷ type_flag
    ∷ str "echo-request"
    ∷ str "-m"
    ∷ str "limit"
    ∷ str "--limit"
    ∷ icmp_rate
    ∷ str "--limit-burst"
    ∷ icmp_burst
    ∷ str "-m"
    ∷ str "comment"
    ∷ str "--comment"
    ∷ icmp_comment
    ∷ str "-j"
    ∷ str "ACCEPT"
    ∷ []

abbrev pub drop_rule : Str → Str → Str → Str → Cmd
drop_rule program action proto type_flag =
    program
    ∷ action
    ∷ str "INPUT"
    ∷ str "-p"
    ∷ proto
    ∷ type_flag
    ∷ str "echo-request"
    ∷ str "-m"
    ∷ str "comment"
    ∷ str "--comment"
    ∷ icmp_comment
    ∷ str "-j"
    ∷ str "DROP"
    ∷ []

abbrev pub ipv4_accept : Str → Cmd
ipv4_accept action = accept_rule (str "iptables") action (str "icmp") (str "--icmp-type")

abbrev pub ipv4_drop : Str → Cmd
ipv4_drop action = drop_rule (str "iptables") action (str "icmp") (str "--icmp-type")

abbrev pub ipv6_accept : Str → Cmd
ipv6_accept action = accept_rule (str "ip6tables") action (str "icmpv6") (str "--icmpv6-type")

abbrev pub ipv6_drop : Str → Cmd
ipv6_drop action = drop_rule (str "ip6tables") action (str "icmpv6") (str "--icmpv6-type")

abbrev echo_request : Str
echo_request = str "add rule inet filter input ip protocol icmp icmp type echo-request "

abbrev quoted_comment : Str
quoted_comment = str "comment \"" ++ (icmp_comment ++ str "\"")

abbrev pub nft_accept : Cmd
nft_accept =
    str "nft"
    ∷ (echo_request
        ++ (str "limit rate "
            ++ (icmp_rate
                ++ (str " burst " ++ (icmp_burst ++ (str " packets accept " ++ quoted_comment))))))
    ∷ []

abbrev pub nft_drop : Cmd
nft_drop = str "nft" ∷ (echo_request ++ (str "drop " ++ quoted_comment)) ∷ []
