-- ===== src/Killswitch/Verdicts.antt =====
-- What the two rule files let through, for every packet and every set of parameters.
use expressvpn_container.Base.{
  ℕ, String, Bool, false, not, ◌&&◌, ◌||◌, ◌≡◌, sym, ◌∙◌, ◌==◌, str_eq, if◌then◌else◌, arith,
}
use expressvpn_container.Killswitch.Rule.{
  Params, mark, accept, drop, rules, Packet, Filter, first_match, classify-eq-first_match,
}
use expressvpn_container.Killswitch.Ruleset.{nft_ruleset}
use expressvpn_container.Killswitch.Iptables.{iptables_ruleset}

module _ (member : String → ℕ → Bool) where
  -- A destination named by a parameter that is set.
  abbrev pub reaches : String → ℕ → Bool
  reaches net a = not (str_eq net "") && member net a

  -- Where the traffic of proxy clients may go.
  abbrev pub client_may : Params → Packet → Bool
  client_may p k =
      str_eq k.out_iface "lo"
      || str_eq k.out_iface p.tun_iface
      || (str_eq k.out_iface p.eth_iface && reaches p.docker_subnet k.dest)

  -- Where the container's own traffic may go.
  abbrev pub own_may : Params → Packet → Bool
  own_may p k =
      not (str_eq p.mode "socks5")
      || str_eq k.out_iface "lo"
      || not (str_eq k.out_iface p.eth_iface)
      || reaches p.proxy_ip k.dest
      || reaches p.docker_subnet k.dest

  marked_first_match :
      (p : Params) (k : Packet)
      → k.fwmark ≡ mark
      → first_match member (rules (nft_ruleset p)) k ≡ (if client_may p k then accept else drop)
  unfolding first_match rules nft_ruleset
  marked_first_match p k h = ground arith

  unmarked_first_match :
      (p : Params) (k : Packet)
      → (k.fwmark == mark) ≡ false
      → first_match member (rules (nft_ruleset p)) k ≡ (if own_may p k then accept else drop)
  unfolding first_match rules nft_ruleset
  unmarked_first_match p k h = ground arith

  same_first_match :
      (p : Params) (k : Packet)
      → first_match member (rules (iptables_ruleset p)) k
        ≡ first_match member (rules (nft_ruleset p)) k
  unfolding first_match rules nft_ruleset iptables_ruleset
  same_first_match p k = ground arith

  module _ (nft : Filter member) where
    -- A packet of a proxy client, which bears the mark, is let through exactly if it goes to the
    -- loopback or the tunnel interface, or over the container's interface into the Docker subnet
    -- when one is known. This holds in every uplink mode.
    pub marked-nft_ruleset :
        (p : Params) (k : Packet)
        → k.fwmark ≡ mark
        → nft.classify (rules (nft_ruleset p)) k ≡ (if client_may p k then accept else drop)
    marked-nft_ruleset p k h = classify-eq-first_match member nft _ k ∙ marked_first_match p k h

    -- A packet without the mark is let through exactly if the mode is not "socks5", or it leaves
    -- by another interface than the container's, or by the loopback, or goes to the proxy's
    -- address or into the Docker subnet, each when it is known.
    pub unmarked-nft_ruleset :
        (p : Params) (k : Packet)
        → (k.fwmark == mark) ≡ false
        → nft.classify (rules (nft_ruleset p)) k ≡ (if own_may p k then accept else drop)
    unmarked-nft_ruleset p k h = classify-eq-first_match member nft _ k ∙ unmarked_first_match p k h

    -- The nftables file and the iptables file give every packet the same verdict.
    pub backends_agree :
        (ipt : Filter member) (p : Params) (k : Packet)
        → ipt.classify (rules (iptables_ruleset p)) k ≡ nft.classify (rules (nft_ruleset p)) k
    backends_agree ipt p k =
        classify-eq-first_match member ipt _ k
        ∙ same_first_match p k
        ∙ sym (classify-eq-first_match member nft _ k)
