-- ===== src/Killswitch/Ruleset.antt =====
-- `Ruleset` of image/agent/internal/killswitch/ruleset.go: the nftables file.
use expressvpn_container.Base.{
  String, not, List, [], ◌∷◌, ◌++◌, Option, none, some, str_eq, if◌then◌else◌,
}
use expressvpn_container.Killswitch.Rule.{
  Params, Match, marked, oif, daddr, Verdict, accept, drop, Line, text, rule, rule_line, counted,
}
use Prim.Native.String.{◌++◌ as cat}

-- The lines of the file. An empty address or subnet leaves its rule out.
unfoldable pub nft_ruleset : Params → List Line
nft_ruleset p =
    text (cat "# generated by detour-agent; mode=" p.mode)
    ∷ text "add table inet detour"
    ∷ text "flush table inet detour"
    ∷ text ""
    ∷ text "table inet detour {"
    ∷ text "  counter dropped_marked {}"
    ∷ ((if str_eq p.mode "socks5" then text "  counter dropped_egress {}" ∷ [] else [])
        ++ (text ""
            ∷ text "  chain output {"
            ∷ text "    type filter hook output priority filter; policy accept;"
            ∷ rule_line (oif "lo" ∷ []) accept
            ∷ ((if not (str_eq p.docker_subnet "")
                  then rule_line (marked ∷ oif p.eth_iface ∷ daddr p.docker_subnet ∷ []) accept ∷ []
                  else [])
                ++ (rule_line (marked ∷ oif p.tun_iface ∷ []) accept
                    ∷ counted (marked ∷ []) "dropped_marked"
                    ∷ ((if str_eq p.mode "socks5"
                          then (if not (str_eq p.proxy_ip "")
                              then rule_line (oif p.eth_iface ∷ daddr p.proxy_ip ∷ []) accept ∷ []
                              else [])
                            ++ ((if not (str_eq p.docker_subnet "")
                                  then rule_line (oif p.eth_iface ∷ daddr p.docker_subnet ∷ [])
                                      accept
                                    ∷ []
                                  else [])
                                ++ (counted (oif p.eth_iface ∷ []) "dropped_egress" ∷ []))
                          else [])
                        ++ (text "  }" ∷ text "}" ∷ []))))))

print_match : Match → String
print_match marked = "meta mark 0x5050 "
print_match (oif name) = cat "oifname \"" (cat name "\" ")
print_match (daddr net) = cat "ip daddr " (cat net " ")

print_matches : List Match → String
print_matches [] = ""
print_matches (m ∷ ms) = cat (print_match m) (print_matches ms)

print_counter : Option String → String
print_counter none = ""
print_counter (some name) = cat "counter name " (cat name " ")

print_verdict : Verdict → String
print_verdict accept = "accept"
print_verdict drop = "drop"

print_line : Line → String
print_line (text t) = t
print_line (rule r) =
    cat "    "
      (cat (print_matches r.matches) (cat (print_counter r.counter) (print_verdict r.verdict)))

print_lines : List Line → String
print_lines [] = ""
print_lines (l ∷ ls) = cat (print_line l) (cat "\n" (print_lines ls))

-- The text of the file.
unfoldable pub nft_ruleset_text : Params → String
unfolding nft_ruleset print_lines print_line print_matches print_match print_counter print_verdict
nft_ruleset_text p = print_lines (nft_ruleset p)
