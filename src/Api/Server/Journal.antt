-- ===== src/Api/Server/Journal.antt =====
-- How many log entries image/agent/internal/api/server.go hands out.
use expressvpn_container.Base.{
  ℕ, zero, suc, ◌+◌, ◌-◌, ◌≤◌, String, Bool, not, ◌&&◌, Option, none, some, List, [], ◌∷◌, ◌≡◌,
  refl, ap, str_eq, arith, if_both, length,
}
use expressvpn_container.Base.Int.{ℤ, pos, negsuc}
use expressvpn_container.Base.{any}
use mathlib.Core.List.{reverse_aux}
use expressvpn_container.Logs.Buffer.{wanted, total, Buffer, Entry, collect, query}
use expressvpn_container.Api.Server.{
  Server, reply, entries, LogsRequest, Parsed, bad, query_of, Texts, limit_in, with_limit,
  with_since, parse_logs_query, logs_by, handle_logs, components,
}

length-collect :
    (keep : Entry → Bool) (b : Buffer) (rounds i left : ℕ)
    → length (collect keep b rounds i left) ≤ left
unfolding collect
length-collect keep b zero i left = omega arith
length-collect keep b (suc rounds) i left =
    let a = length-collect keep b rounds (suc i) left in
    let c = length-collect keep b rounds (suc i) (left - 1) in ground arith

length-reverse_aux :
    {A : Type 0} (xs ys : List A) → length (reverse_aux xs ys) ≡ length xs + length ys
length-reverse_aux [] ys = omega arith
length-reverse_aux (x ∷ xs) ys = let ih = length-reverse_aux xs (x ∷ ys) in omega arith

length-query :
    (component : String) (since limit : ℕ) (b : Buffer)
    → length (query component since limit b) ≤ limit
unfolding query
length-query component since limit b =
    let kept = collect (wanted component since) b (total b) 0 limit in
    let same = length-reverse_aux kept [] in
    let bound = length-collect (wanted component since) b (total b) 0 limit in omega arith

-- The limit of a query that was understood.
abbrev Bounded : Parsed → Type 0
Bounded (bad e) = 0 ≤ 0
Bounded (query_of component since limit) = (1 ≤ limit) × (limit ≤ 5000)

with_limit-Bounded :
    (texts : Texts) (o : Option ℕ) (component : String) (since : ℕ)
    → ((n : ℕ) → o ≡ some n → (1 ≤ n) × (n ≤ 5000))
    → Bounded (with_limit texts o component since)
unfolding with_limit
with_limit-Bounded texts none component since v = omega arith
with_limit-Bounded texts (some n) component since v = v n refl

limit_in-bounds :
    (texts : Texts) (o : Option ℤ) (n : ℕ) → limit_in texts o ≡ some n → (1 ≤ n) × (n ≤ 5000)
unfolding limit_in
limit_in-bounds texts none n e = cc e
limit_in-bounds texts (some (pos m)) n e = ground arith
limit_in-bounds texts (some (negsuc m)) n e = cc e

with_since-Bounded :
    (texts : Texts) (o : Option ℕ) (q : LogsRequest) → Bounded (with_since texts o q)
unfolding with_since
with_since-Bounded texts none q = omega arith
with_since-Bounded texts (some t) q = with_limit-Bounded texts _ q.component t (
    if_both (λ (o : Option ℕ). (n : ℕ) → o ≡ some n → (1 ≤ n) × (n ≤ 5000))
      (not (str_eq q.limit "")) (limit_in-bounds texts (texts.int_of q.limit))
      (λ n e. let same : 500 ≡ n = cc e in omega (arith, same)))

parse_logs_query-Bounded : (texts : Texts) (q : LogsRequest) → Bounded (parse_logs_query texts q)
unfolding parse_logs_query
parse_logs_query-Bounded texts q =
    if_both Bounded (not (str_eq q.component "") && not (any (str_eq q.component) components))
      (omega arith) (with_since-Bounded texts _ q)

length-logs_by :
    (texts : Texts) (p : Parsed) (s : Server) (es : List Entry)
    → Bounded p
    → logs_by texts p s ≡ reply 200 (entries es)
    → length es ≤ 5000
unfolding logs_by
length-logs_by texts (bad x) s es v e = cc e
length-logs_by texts (query_of component since limit) s es v e =
    let same : query component since limit s.logs ≡ es = cc e in
    let bound = length-query component since limit s.logs in omega (arith, v.1, ap length same)

-- Whatever the parameters of a request for log entries are, the answer holds at most 5000 entries.
pub handle_logs_bounded :
    (texts : Texts) (q : LogsRequest) (s : Server) (es : List Entry)
    → handle_logs texts q s ≡ reply 200 (entries es)
    → length es ≤ 5000
unfolding handle_logs
handle_logs_bounded texts q s es e =
    length-logs_by texts (parse_logs_query texts q) s es (parse_logs_query-Bounded texts q) e
