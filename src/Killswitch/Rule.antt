-- ===== src/Killswitch/Rule.antt =====
-- Filter rules as image/agent/internal/killswitch/ruleset.go and iptables.go write them, a line at
-- a time, and the packet filter that reads them, which is not part of the repository.
use expressvpn_container.Base.Int.{ℤ, pos}
use expressvpn_container.Base.{
  ℕ, String, Bool, true, false, ◌&&◌, Option, none, some, List, [], ◌∷◌, ◌≡◌, ◌==◌, str_eq,
  if◌then◌else◌, Bool-cases, inl, inr, arith,
}

-- SO_MARK of the sockets that the proxy opens.
abbrev pub mark : ℕ
mark = 0x5050

-- What the generators take.
pub record Params : Type 0 where
  pub mode : String
  pub tun_iface : String
  pub uplink_iface : String
  pub eth_iface : String
  pub docker_subnet : String
  pub proxy_ip : String
  pub proxy_port : ℤ

unfoldable pub defaults : Params
defaults = record {
  mode = "";
  tun_iface = "tun0";
  uplink_iface = "xup0";
  eth_iface = "eth0";
  docker_subnet = "";
  proxy_ip = "";
  proxy_port = pos 0;
}

pub data Verdict : Type 0 where
  accept drop : Verdict

-- `marked` asks for the mark above, `oif` for an output interface, `daddr` for a destination.
pub data Match : Type 0 where
  marked : Match
  oif daddr : String → Match

pub record Rule : Type 0 where
  pub matches : List Match
  pub counter : Option String
  pub verdict : Verdict

-- A line of a rule file: a fixed text, or a rule of the output chain.
pub data Line : Type 0 where
  text : String → Line
  rule : Rule → Line

abbrev pub rule_line : List Match → Verdict → Line
rule_line ms v = rule (record { matches = ms; counter = none; verdict = v })

abbrev pub counted : List Match → String → Line
counted ms name = rule (record { matches = ms; counter = some name; verdict = drop })

-- The rules of a file, in order.
unfoldable pub rules : List Line → List Rule
rules [] = []
rules (text _ ∷ ls) = rules ls
rules (rule r ∷ ls) = r ∷ rules ls

pub record Packet : Type 0 where
  pub fwmark : ℕ
  pub out_iface : String
  pub dest : ℕ

-- `member net a`: the IPv4 address `a` lies in `net`, an address or a prefix in text form.
module _ (member : String → ℕ → Bool) where
  unfoldable pub satisfies : Match → Packet → Bool
  satisfies marked p = p.fwmark == mark
  satisfies (oif name) p = str_eq p.out_iface name
  satisfies (daddr net) p = member net p.dest

  unfoldable pub hits : List Match → Packet → Bool
  unfolding satisfies
  hits [] p = true
  hits (m ∷ ms) p = satisfies m p && hits ms p

  -- What the kernel documents of a chain whose policy is `accept`: the first rule all of whose
  -- matches hold decides.
  pub record Filter : Type 0 where
    pub classify : List Rule → Packet → Verdict
    pub classify-nil : (p : Packet) → classify [] p ≡ accept
    pub classify_hit :
        (r : Rule) (rs : List Rule) (p : Packet)
        → hits r.matches p ≡ true
        → classify (r ∷ rs) p ≡ r.verdict
    pub classify_miss :
        (r : Rule) (rs : List Rule) (p : Packet)
        → hits r.matches p ≡ false
        → classify (r ∷ rs) p ≡ classify rs p

  unfoldable pub first_match : List Rule → Packet → Verdict
  unfolding hits
  first_match [] p = accept
  first_match (r ∷ rs) p = if hits r.matches p then r.verdict else first_match rs p

  -- The laws of a filter determine it.
  pub classify-eq-first_match :
      (k : Filter) (rs : List Rule) (p : Packet) → k.classify rs p ≡ first_match rs p
  unfolding first_match
  classify-eq-first_match k [] p = k.classify-nil p
  classify-eq-first_match k (r ∷ rs) p = elim (Bool-cases (hits r.matches p)) [
    | inl h ↦ ground (arith, k.classify_hit r rs p h)
    | inr h ↦ ground (arith, k.classify_miss r rs p h, classify-eq-first_match k rs p)
  ]
