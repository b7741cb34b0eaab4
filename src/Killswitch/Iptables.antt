-- ===== src/Killswitch/Iptables.antt =====
-- `IptablesRuleset` of image/agent/internal/killswitch/iptables.go: the same rules for kernels
-- without nf_tables, in the chain DETOUR_OUT.
use expressvpn_container.Base.{String, not, List, [], ◌∷◌, ◌++◌, str_eq, if◌then◌else◌}
use expressvpn_container.Killswitch.Rule.{
  Params, Match, marked, oif, daddr, Verdict, accept, drop, Line, text, rule, rule_line,
}
use Prim.Native.String.{◌++◌ as cat}

abbrev pub legacy_chain : String
legacy_chain = "DETOUR_OUT"

-- The lines of the file for `iptables-legacy-restore --noflush`.
unfoldable pub iptables_ruleset : Params → List Line
iptables_ruleset p =
    text "*filter"
    ∷ text (cat ":" (cat legacy_chain " - [0:0]"))
    ∷ text (cat "-F " legacy_chain)
    ∷ rule_line (oif "lo" ∷ []) accept
    ∷ ((if not (str_eq p.docker_subnet "")
          then rule_line (marked ∷ oif p.eth_iface ∷ daddr p.docker_subnet ∷ []) accept ∷ []
          else [])
        ++ (rule_line (marked ∷ oif p.tun_iface ∷ []) accept
            ∷ rule_line (marked ∷ []) drop
            ∷ ((if str_eq p.mode "socks5"
                  then (if not (str_eq p.proxy_ip "")
                      then rule_line (oif p.eth_iface ∷ daddr p.proxy_ip ∷ []) accept ∷ []
                      else [])
                    ++ ((if not (str_eq p.docker_subnet "")
                          then rule_line (oif p.eth_iface ∷ daddr p.docker_subnet ∷ []) accept ∷ []
                          else [])
                        ++ (rule_line (oif p.eth_iface ∷ []) drop ∷ []))
                  else [])
                ++ (text "COMMIT" ∷ []))))

print_match : Match → String
print_match marked = "-m mark --mark 0x5050 "
print_match (oif name) = cat "-o " (cat name " ")
print_match (daddr net) = cat "-d " (cat net " ")

print_matches : List Match → String
print_matches [] = ""
print_matches (m ∷ ms) = cat (print_match m) (print_matches ms)

print_verdict : Verdict → String
print_verdict accept = "-j ACCEPT"
print_verdict drop = "-j DROP"

print_line : Line → String
print_line (text t) = t
print_line (rule r) =
    cat "-A " (cat legacy_chain (cat " " (cat (print_matches r.matches) (print_verdict r.verdict))))

print_lines : List Line → String
print_lines [] = ""
print_lines (l ∷ ls) = cat (print_line l) (cat "\n" (print_lines ls))

-- The text of the file.
unfoldable pub iptables_text : Params → String
unfolding iptables_ruleset print_lines print_line print_matches print_match print_verdict
iptables_text p = print_lines (iptables_ruleset p)
