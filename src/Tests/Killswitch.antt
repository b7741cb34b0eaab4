-- ===== src/Tests/Killswitch.antt =====
-- The rule files of image/agent/internal/killswitch for one set of parameters.
use expressvpn_container.Base.Int.{pos}
use expressvpn_container.Base.{[], ℕ, String, Bool, false, ◌&&◌, ◌/◌, str_eq, ◌≡◌, refl, ◌==◌}
use expressvpn_container.Killswitch.Rule.{
  Params, defaults, mark, drop, rules, Packet, Filter, first_match,
}
use expressvpn_container.Killswitch.Ruleset.{nft_ruleset, nft_ruleset_text}
use expressvpn_container.Killswitch.Iptables.{iptables_ruleset, iptables_text}
use expressvpn_container.Base.{none, some, true}
use expressvpn_container.Config
use expressvpn_container.Killswitch.Manager.{
  Outside, new, apply, apply_nft, apply_iptables, load_nft, Action,
}
use expressvpn_container.Killswitch.Manager.Enforced.{
  Outcome, apply-Outcome, apply-Confines, Confines,
}
use expressvpn_container.Killswitch.Verdicts.{
  client_may, own_may, marked-nft_ruleset, unmarked-nft_ruleset, backends_agree,
}

-- The only net with a member is the Docker subnet, 172.17.0.0/16.
abbrev in_net : String → ℕ → Bool
in_net net a = str_eq net "172.17.0.0/16" && a / 65536 == 44049

by_first_match : Filter in_net
unfolding first_match
by_first_match = record {
  classify = first_match in_net;
  classify-nil = λ p. refl;
  classify_hit = λ r rs p h. rw h;
  classify_miss = λ r rs p h. rw h;
}

abbrev params : Params
params = record {
  mode = "socks5";
  tun_iface = "tun0";
  uplink_iface = "xup0";
  eth_iface = "eth0";
  docker_subnet = "172.17.0.0/16";
  proxy_ip = "10.0.0.5";
  proxy_port = pos 1080;
}

abbrev marked_packet : Packet
marked_packet = record { fwmark = mark; out_iface = "eth0"; dest = 134744072 }

abbrev own_packet : Packet
own_packet = record { fwmark = 0; out_iface = "eth0"; dest = 134744072 }

-- A client's packet for 8.8.8.8 does not leave by the container's interface.
marked_dropped : client_may in_net params marked_packet ≡ false
marked_dropped = refl

own_dropped : own_may in_net params own_packet ≡ false
own_dropped = refl

marked-nft_ruleset_example :
    by_first_match.classify (rules (nft_ruleset params)) marked_packet ≡ drop
marked-nft_ruleset_example = marked-nft_ruleset in_net by_first_match params marked_packet refl

unmarked-nft_ruleset_example :
    by_first_match.classify (rules (nft_ruleset params)) own_packet ≡ drop
unmarked-nft_ruleset_example = unmarked-nft_ruleset in_net by_first_match params own_packet refl

backends_agree_example :
    by_first_match.classify (rules (iptables_ruleset params)) marked_packet
    ≡ by_first_match.classify (rules (nft_ruleset params)) marked_packet
backends_agree_example = backends_agree in_net by_first_match by_first_match params marked_packet

nft_text_host :
    nft_ruleset_text (record defaults { mode = "host" })
    ≡ "# generated by detour-agent; mode=host\nadd table inet detour\nflush table inet detour\n\ntable inet detour {\n  counter dropped_marked {}\n\n  chain output {\n    type filter hook output priority filter; policy accept;\n    oifname \"lo\" accept\n    meta mark 0x5050 oifname \"tun0\" accept\n    meta mark 0x5050 counter name dropped_marked drop\n  }\n}\n"
unfolding nft_ruleset_text defaults
nft_text_host = refl

iptables_text_host :
    iptables_text (record defaults { mode = "host" })
    ≡ "*filter\n:DETOUR_OUT - [0:0]\n-F DETOUR_OUT\n-A DETOUR_OUT -o lo -j ACCEPT\n-A DETOUR_OUT -m mark --mark 0x5050 -o tun0 -j ACCEPT\n-A DETOUR_OUT -m mark --mark 0x5050 -j DROP\nCOMMIT\n"
unfolding iptables_text defaults
iptables_text_host = refl

-- A kernel without nf_tables.
abbrev is_legacy : Action → Bool
is_legacy (load_nft _) = false
is_legacy _ = true

abbrev old_kernel : Outside
old_kernel = record {
  subnet = λ log iface. some "172.17.0.0/16";
  resolve = λ log host. some "10.0.0.5";
  written = λ log ls. true;
  loaded = λ log a. is_legacy a;
  jump_exit = λ log. some 1;
  inserted = λ log. true;
  listed = λ log a. none;
  nft_counts = λ text. [];
  legacy_counts = λ text. [];
}

abbrev through_proxy : Config.Uplink
through_proxy = record {
  mode = "socks5";
  socks5 = record { host = "proxy"; port = pos 1080; username = ""; password = ""; udp = "auto" };
}

apply-Outcome_example : Outcome through_proxy new (apply old_kernel through_proxy new)
apply-Outcome_example = apply-Outcome old_kernel through_proxy new

apply-Confines_example :
    Confines in_net by_first_match marked_packet (apply old_kernel through_proxy new).1
unfolding apply apply_nft apply_iptables
apply-Confines_example =
    apply-Confines in_net by_first_match marked_packet old_kernel through_proxy new refl refl
