-- ===== src/Logs/Buffer.antt =====
-- `Buffer` of image/agent/internal/logs/logs.go: the ring of log entries and its subscribers.
pub mod Index
pub mod History
use expressvpn_container.Base.{
  ℕ, zero, suc, ◌+◌, ◌-◌, ◌*◌, ◌%◌, ◌≤◌, ◌<◌, String, Bool, true, false, not, ◌&&◌, ◌||◌, Option,
  none, some, List, [], ◌∷◌, ◌++◌, map, reverse, ◌≡◌, ◌≢◌, ◌↔◌, ◌⊎◌, inl, inr, refl, sym, ap, ◌∙◌,
  subst, ◌==◌, ltb, leb, str_eq, eq_iff, if◌then◌else◌, arith, Bool-cases, Option-cases, if_both,
  if_either, length, take, drop, get_or, set, replicate, filter,
}
use expressvpn_container.Logs.Redactor.{Redactor, redact}

-- The time is a number of nanoseconds, and 0 is Go's zero time.
pub record Entry : Type 0 where
  pub time : ℕ
  pub level : String
  pub component : String
  pub message : String

abbrev pub blank : Entry
blank = record { time = 0; level = ""; component = ""; message = "" }

-- A subscriber's channel holds at most 64 entries, the oldest first.
pub record Subscriber : Type 0 where
  pub id : ℕ
  pub pending : List Entry

pub record Buffer : Type 0 where
  pub entries : List Entry
  pub next : ℕ
  pub full : Bool
  pub subs : List Subscriber
  pub red : Redactor

-- `NewBuffer`
unfoldable pub new : ℕ → Redactor → Buffer
new capacity red = record {
  entries = replicate capacity blank;
  next = 0;
  full = false;
  subs = [];
  red = red;
}

-- The entry that `Append` makes at a moment.
unfoldable pub entry_of : Redactor → ℕ → String → String → String → Entry
entry_of red now component level message = record {
  time = now;
  level = level;
  component = component;
  message = redact red message;
}

-- The send in `Append`: a subscriber whose channel is full misses the entry.
abbrev pub offer : Entry → Subscriber → Subscriber
offer e s = if ltb (length s.pending) 64 then record s { pending = s.pending ++ (e ∷ []) } else s

-- `Append`
unfoldable pub append : ℕ → String → String → String → Buffer → Buffer
append now component level message b =
    let e = entry_of b.red now component level message in
    let next = (b.next + 1) % length b.entries in
    record b {
      entries = set b.entries b.next e;
      next = next;
      full = if next == 0 then true else b.full;
      subs = map (offer e) b.subs;
    }

-- The two filters of `Query`: an empty component and a zero time let every entry pass.
unfoldable pub wanted : String → ℕ → Entry → Bool
wanted component since e =
    if not (str_eq component "") && not (str_eq e.component component)
    then false
    else if not (since == 0) && ltb e.time since
    then false
    else true

-- The index that `Query` reads in its round `i`.
abbrev pub slot : Buffer → ℕ → ℕ
slot b i = (b.next + length b.entries - 1 - i) % length b.entries

-- The loop of `Query`, from round `i` with `rounds` to go and `left` entries still allowed.
unfoldable pub collect : (Entry → Bool) → Buffer → ℕ → ℕ → ℕ → List Entry
collect keep b zero i left = []
collect keep b (suc rounds) i left =
    let e = get_or b.entries (slot b i) blank in
    let rest = collect keep b rounds (suc i) (if keep e then left - 1 else left) in
    if left == 0 then [] else if keep e then e ∷ rest else rest

abbrev pub total : Buffer → ℕ
total b = if b.full then length b.entries else b.next

-- `Query`
unfoldable pub query : String → ℕ → ℕ → Buffer → List Entry
query component since limit b = reverse (collect (wanted component since) b (total b) 0 limit)

-- `Subscribe` with a channel that is not yet in use, and the function that ends it.
abbrev pub subscribe : ℕ → Buffer → Buffer
subscribe id b = record b { subs = record { id = id; pending = [] } ∷ b.subs }

others : ℕ → List Subscriber → List Subscriber
others id [] = []
others id (s ∷ ss) = let rest = others id ss in if s.id == id then rest else s ∷ rest

unfoldable pub unsubscribe : ℕ → Buffer → Buffer
unfolding others
unsubscribe id b = record b { subs = others id b.subs }
