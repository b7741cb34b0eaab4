-- ===== src/Logs/Buffer/History.antt =====
-- The ring of image/agent/internal/logs/logs.go against the whole history of what was logged.
use expressvpn_container.Base.{
  take_all, drop_at, get_or-set_ne, length-set, get_or-set_self, length-replicate, ℕ, zero, suc,
  ◌+◌, ◌-◌, ◌%◌, ◌≤◌, ◌<◌, String, Bool, true, false, List, [], ◌∷◌, reverse, ◌≡◌, ◌⊎◌, inl, inr,
  refl, sym, ap, ◌∙◌, ◌==◌, if◌then◌else◌, arith, Bool-cases, length, take, drop, get_or, set,
  filter,
}
use expressvpn_container.Logs.Redactor.{Redactor, add}
use expressvpn_container.Logs.Buffer.Index.{next_index, newest_slot, older_slot, older_slot_ne}
use expressvpn_container.Logs.Buffer.{
  Entry, blank, Buffer, new, entry_of, append, wanted, slot, collect, total, query,
}

-- What a program does with its journal: it logs, or registers a secret.
pub data Op : Type 0 where
  log : ℕ → String → String → String → Op
  hide : String → Op

module _ (len : String → ℕ) where
  unfoldable pub run : List Op → Buffer → Buffer
  run [] b = b
  run (log now component level message ∷ ops) b = run ops (append now component level message b)
  run (hide secret ∷ ops) b = run ops (record b { red = add len secret b.red })

  -- All entries ever made, the newest first.
  unfoldable pub history : List Op → Redactor → List Entry → List Entry
  history [] red h = h
  history (log now component level message ∷ ops) red h =
      history ops red (entry_of red now component level message ∷ h)
  history (hide secret ∷ ops) red h = history ops (add len secret red) h

-- The ring holds the newest entries of `h`, as many as fit.
record Holds (b : Buffer) (h : List Entry) : Type 0 where
  inside : b.next < length b.entries
  filled :
      ((b.full ≡ false) × (b.next ≡ length h)) ⊎ ((b.full ≡ true) × (length b.entries ≤ length h))
  newest : (i : ℕ) → i < total b → get_or b.entries (slot b i) blank ≡ get_or h i blank

new-Holds : (capacity : ℕ) (red : Redactor) → 0 < capacity → Holds (new capacity red) []
unfolding new
new-Holds capacity red h = record {
  inside = rw (length-replicate capacity blank) h;
  filled = inl (refl, refl);
  newest = λ i l. absurd (omega arith);
}

module _ (b : Buffer) (e : Entry) (h : List Entry) (v : Holds b h) where
  -- The ring after a write, at each round of a query.
  written :
      (i : ℕ)
      → i < length b.entries
      → (i ≡ 0) ⊎ (i - 1 < total b)
      → get_or
          (set b.entries b.next e)
          (((b.next + 1) % length b.entries + length b.entries - 1 - i) % length b.entries)
          blank
        ≡ get_or (e ∷ h) i blank
  written zero l w =
      rw (newest_slot b.next (length b.entries) v.inside)
        (get_or-set_self b.entries b.next e blank v.inside)
  written (suc j) l w = rw (older_slot b.next (length b.entries) j v.inside l) (
      get_or-set_ne b.entries b.next (slot b j) e blank
        (older_slot_ne b.next (length b.entries) j v.inside l)
      ∙ v.newest j (ground arith))

  total-write :
      (n' : ℕ) (full' : Bool)
      → n' ≡ (b.next + 1) % length b.entries
      → full' ≡ (if n' == 0 then true else b.full)
      → ((full' ≡ false) × (n' ≡ suc (length h)))
        ⊎ ((full' ≡ true) × (length b.entries ≤ suc (length h)))
  total-write n' full' k f =
      let i = next_index b.next (length b.entries) v.inside in ground (arith, v.filled)

  -- A round of a query after the write stays inside the ring, and all but the first were rounds
  -- before.
  round_bounds :
      (i n' : ℕ)
      → n' ≡ (b.next + 1) % length b.entries
      → i < (if (if n' == 0 then true else b.full) then length b.entries else n')
      → (i < length b.entries) × ((i ≡ 0) ⊎ (i - 1 < total b))
  round_bounds zero n' k l = (omega (arith, v.inside), inl refl)
  round_bounds (suc j) n' k l =
      let x = next_index b.next (length b.entries) v.inside in
      (ground (arith, v.inside), inr (ground (arith, v.inside)))

append-Holds :
    (now : ℕ) (component level message : String) (b : Buffer) (h : List Entry)
    → Holds b h
    → Holds (append now component level message b) (entry_of b.red now component level message ∷ h)
unfolding append
append-Holds now component level message b h v =
    let e = entry_of b.red now component level message in
    let n' = (b.next + 1) % length b.entries in
    let same = length-set b.entries b.next e in
    record {
      inside = rw same (omega (arith, v.inside));
      filled = rw same (total-write b e h v n' (if n' == 0 then true else b.full) refl refl);
      newest = λ i l.
          (let (near, old) = round_bounds b e h v i n' refl (rw same at l) in
            rw same (written b e h v i near old));
    }

run-Holds :
    (len : String → ℕ) (ops : List Op) (b : Buffer) (h : List Entry)
    → Holds b h
    → Holds (run len ops b) (history len ops b.red h)
unfolding run history append
run-Holds len [] b h v = v
run-Holds len (log now component level message ∷ ops) b h v =
    run-Holds len ops (append now component level message b) _
      (append-Holds now component level message b h v)
run-Holds len (hide secret ∷ ops) b h v =
    run-Holds len ops (record b { red = add len secret b.red }) h
      (record { inside = v.inside; filled = v.filled; newest = v.newest })

total-le : (b : Buffer) (h : List Entry) → Holds b h → total b ≤ length h
total-le b h v = let f = v.filled in ground (arith, v.inside)

collect_window :
    (keep : Entry → Bool) (b : Buffer) (h : List Entry) (rounds i left : ℕ)
    → Holds b h
    → rounds + i ≤ total b
    → collect keep b rounds i left ≡ take left (filter keep (take rounds (drop i h)))
unfolding collect
collect_window keep b h zero i zero v l = refl
collect_window keep b h zero i (suc left) v l = refl
collect_window keep b h (suc rounds) i zero v l = refl
collect_window keep b h (suc rounds) i (suc left) v l =
    let bound = total-le b h v in
    let ih = collect_window keep b h rounds (suc i) (suc left) v (omega arith) in
    let ih' = collect_window keep b h rounds (suc i) left v (omega arith) in
    let more : (suc left == 0) ≡ false = ground arith in
    let less : suc left - 1 ≡ left = omega arith in
    rw (drop_at h i blank (omega arith), v.newest i (omega arith))
      (elim (Bool-cases (keep (get_or h i blank))) [
        | inl e ↦ rw (more, e, less) (ap (◌∷◌ (get_or h i blank)) ih')
        | inr e ↦ rw (more, e) ih
      ])

take-total :
    (b : Buffer) (h : List Entry) → Holds b h → take (total b) h ≡ take (length b.entries) h
take-total b h v = elim v.filled [
  | inl (e, n) ↦
      rw (e, n)
        (take_all (length h) h (omega arith)
          ∙ sym (take_all (length b.entries) h (omega (arith, v.inside))))
  | inr (e, n) ↦ rw e
]

length-run :
    (len : String → ℕ) (ops : List Op) (b : Buffer)
    → length (run len ops b).entries ≡ length b.entries
unfolding run append
length-run len [] b = refl
length-run len (log now component level message ∷ ops) b =
    length-run len ops (append now component level message b) ∙ length-set b.entries b.next _
length-run len (hide secret ∷ ops) b = length-run len ops (record b { red = add len secret b.red })

-- After any run of log lines and registered secrets on a new journal of a capacity that is not 0,
-- a query gives the newest `limit` of the wanted entries among the newest `capacity` entries of the
-- whole history, the oldest first, each with the secrets hidden that were known when it was logged.
pub query_refines :
    (len : String → ℕ) (capacity : ℕ) (red : Redactor) (ops : List Op) (component : String)
    (since limit : ℕ)
    → 0 < capacity
    → query component since limit (run len ops (new capacity red))
      ≡ reverse
          (take limit (filter (wanted component since) (take capacity (history len ops red []))))
unfolding query new
query_refines len capacity red ops component since limit h =
    let b = run len ops (new capacity red) in
    let v = run-Holds len ops (new capacity red) [] (new-Holds capacity red h) in
    ap reverse (
      collect_window (wanted component since) b _ (total b) 0 limit v (omega arith)
      ∙ ap (λ l. take limit (filter (wanted component since) l))
          (take-total b _ v
            ∙ ap (λ n. take n (history len ops red []))
                (length-run len ops (new capacity red) ∙ length-replicate capacity blank)))
