-- ===== src/Logs/Buffer/Index.antt =====
-- The indices of the ring of image/agent/internal/logs/logs.go, around its wrap.
use native.Mathlib.Nat.{mod-eq_of_lt, mod-eq-sub-mod, mod_self}
use expressvpn_container.Base.{
  ℕ, suc, ◌+◌, ◌-◌, ◌%◌, ◌≤◌, ◌<◌, ◌≡◌, ◌≢◌, inl, inr, sym, ap, ◌∙◌, ◌==◌, ltb, if◌then◌else◌,
  arith, Bool-cases,
}

-- Where the index of a round lies, before and after the wrap.
slot_low : (n c i : ℕ) → n < c → i < n → (n + c - 1 - i) % c ≡ n - 1 - i
slot_low n c i hn hi =
    mod-eq-sub-mod {n = n + c - 1 - i} {m = c} (omega arith)
    ∙ (ap (λ k. k % c) (omega arith) ∙ mod-eq_of_lt {n = n - 1 - i} {m = c} (omega arith))

slot_high : (n c i : ℕ) → n < c → n ≤ i → i < c → (n + c - 1 - i) % c ≡ n + c - 1 - i
slot_high n c i hn low hi = mod-eq_of_lt {n = n + c - 1 - i} {m = c} (omega arith)

-- The index of the next write.
pub next_index : (n c : ℕ) → n < c → ((n + 1) % c) ≡ (if n + 1 == c then 0 else n + 1)
next_index n c h = elim (Bool-cases (n + 1 == c)) [
  | inl e ↦ let same : n + 1 ≡ c = ground arith in rw (e, same) (mod_self c)
  | inr e ↦ rw e (mod-eq_of_lt {n = n + 1} {m = c} (ground arith))
]

-- After a write the newest entry is the one just written,
pub newest_slot : (n c : ℕ) → n < c → ((n + 1) % c + c - 1 - 0) % c ≡ n
newest_slot n c h = elim (Bool-cases (n + 1 == c)) [
  | inl e ↦
      rw (next_index n c h, e)
        (slot_high 0 c 0 (omega arith) (omega arith) (omega arith) ∙ ground arith)
  | inr e ↦
      rw (next_index n c h, e) (slot_low (n + 1) c 0 (ground arith) (omega arith) ∙ omega arith)
]

-- and each older one is where it was.
pub older_slot :
    (n c j : ℕ) → n < c → suc j < c → ((n + 1) % c + c - 1 - suc j) % c ≡ (n + c - 1 - j) % c
older_slot n c j h l = elim (Bool-cases (n + 1 == c)) [
  | inl e ↦
      rw (next_index n c h, e)
        (slot_high 0 c (suc j) (omega arith) (omega arith) l
          ∙ (ground arith ∙ sym (slot_low n c j h (ground arith))))
  | inr e ↦
      rw (next_index n c h, e)
        (elim (Bool-cases (ltb j n)) [
          | inl low ↦
              slot_low (n + 1) c (suc j) (ground arith) (ground arith)
              ∙ (ground arith ∙ sym (slot_low n c j h (ground arith)))
          | inr high ↦
              slot_high (n + 1) c (suc j) (ground arith) (ground arith) l
              ∙ (ground arith ∙ sym (slot_high n c j h (ground arith) (omega arith)))
        ])
]

pub older_slot_ne : (n c j : ℕ) → n < c → suc j < c → n ≢ (n + c - 1 - j) % c
older_slot_ne n c j h l e = elim (Bool-cases (ltb j n)) [
  | inl low ↦ absurd (ground (arith, slot_low n c j h))
  | inr high ↦ absurd (ground (arith, slot_high n c j h))
]
