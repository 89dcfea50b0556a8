-- ===== src/Zkas/Plan/Cycles.antt =====
-- The cycle that a plan creates, and finds again after its totals are set.
use zkas_pool.Base.{
  ℕ, suc, ◌≡◌, refl, sym, ap, ◌∙◌, subst, Bool, true, false, List, [], ◌∷◌, ◌++◌, none, some, ◌==◌,
  if◌then◌else◌, Bool-cases, Option-cases, inl, inr, ==_refl,
}
use zkas_pool.Base.Int.{ℤ}
use zkas_pool.Base.Results.{ok, ok_inj}
use zkas_pool.Zkas.Db.{Store, PayoutCycle, CycleKey, range, zkas}
use zkas_pool.Zkas.Plan.{out_of_range, set_cycle_totals, same_key, find_cycle, create_cycle}

find_cycle-append :
    (key : CycleKey) (cs ds : List PayoutCycle)
    → find_cycle key cs ≡ none
    → find_cycle key (cs ++ ds) ≡ find_cycle key ds
unfolding find_cycle
find_cycle-append key [] ds h = refl
find_cycle-append key (c ∷ cs) ds h = elim (Bool-cases (same_key c.idempotency_key key)) [
  | inl e ↦ cc (rw (e, find_cycle) at h)
  | inr e ↦ rw (e, find_cycle) (find_cycle-append key cs ds (rw (e, find_cycle) at h))
]

-- Totals change no key and no id.
pub find_cycle-totals :
    (key : CycleKey) (k : ℕ) (total : ℤ) (n : ℕ) (cs : List PayoutCycle) {c : PayoutCycle}
    → find_cycle key cs ≡ some c
    → (c' : PayoutCycle) × (find_cycle key (set_cycle_totals k total n cs) ≡ some c')
      × (c'.id ≡ c.id)
unfolding find_cycle set_cycle_totals
find_cycle-totals key k total n [] h = cc
find_cycle-totals key k total n (d ∷ cs) {c} h =
    elim (Bool-cases (same_key d.idempotency_key key)) [
      | inl e ↦ first e (d.id == k) (some_inj (rw (e, find_cycle) at h))
      | inr e ↦
          later e (d.id == k) (find_cycle-totals key k total n cs {c = c} (rw (e, find_cycle) at h))
    ]
  where
    some_inj : some d ≡ some c → d ≡ c
    some_inj e = cc

    set : Bool → PayoutCycle
    set b = if b then record d { total_sompi = total; total_recipients = n } else d

    Found : Bool → Type 0
    Found b =
        (c' : PayoutCycle) × (find_cycle key (set b ∷ set_cycle_totals k total n cs) ≡ some c')
        × (c'.id ≡ c.id)

    first : same_key d.idempotency_key key ≡ true → (b : Bool) → d ≡ c → Found b
    first e true same = (set true, rw (e, find_cycle) refl, ap (λ x. x.id) same)
    first e false same = (d, rw (e, find_cycle) refl, ap (λ x. x.id) same)

    later :
        same_key d.idempotency_key key ≡ false
        → (b : Bool)
        → (c' : PayoutCycle) × (find_cycle key (set_cycle_totals k total n cs) ≡ some c')
          × (c'.id ≡ c.id)
        → Found b
    later e true (c', found, id) = (c', rw (e, find_cycle) found, id)
    later e false (c', found, id) = (c', rw (e, find_cycle) found, id)

found_last :
    (start end : ℕ) (c : PayoutCycle)
    → c.idempotency_key ≡ range zkas start end
    → find_cycle (range zkas start end) (c ∷ []) ≡ some c
unfolding find_cycle same_key
found_last start end c h = rw h (rw (==_refl start, ==_refl end) refl)

-- What a cycle's creation leaves.
pub record Created (start end : ℕ) (s : Store) (r : PayoutCycle × Store) : Type 0 where
  pub ordered : out_of_range start end ≡ false
  pub found : find_cycle (range zkas start end) r.1.cycles ≡ some r.0
  pub payouts : r.1.payouts ≡ s.payouts

pub create_cycle-Created :
    (start end : ℕ) (s : Store) {r : PayoutCycle × Store}
    → create_cycle start end s ≡ ok r
    → Created start end s r
unfolding create_cycle
create_cycle-Created start end s {r} h = elim (Bool-cases (out_of_range start end)) [
  | inl low ↦ cc (rw (low, create_cycle) at h)
  | inr high ↦ elim (Option-cases (find_cycle (range zkas start end) s.cycles)) [
    | inl new ↦ subst (Created start end s) (ok_inj (rw (high, new, create_cycle) at h)) (record {
      ordered = high;
      found = find_cycle-append (range zkas start end) s.cycles _ new ∙ found_last start end _ refl;
      payouts = refl;
    })
    | inr (c, old) ↦
        subst (Created start end s) (ok_inj (rw (high, old, create_cycle) at h))
          (record { ordered = high; found = old; payouts = refl })
  ]
]

pub create_cycle-found :
    (start end : ℕ) (s : Store) {c : PayoutCycle} {r : PayoutCycle × Store}
    → out_of_range start end ≡ false
    → find_cycle (range zkas start end) s.cycles ≡ some c
    → create_cycle start end s ≡ ok r
    → r ≡ (c, record s { next_cycle = suc s.next_cycle })
unfolding create_cycle
create_cycle-found start end s {c} {r} high old h = sym (ok_inj (rw (high, old, create_cycle) at h))
