-- ===== src/Accountant/Allocation/Grosses.antt =====
-- The split of a reward before fees: the grosses add up to the reward whatever the floats do.
use mathlib.Core.List.{map}
use zkas_pool.Base.{
  ℕ, zero, suc, ◌+◌, ◌-◌, ◌≤◌, ◌<◌, ◌≡◌, ◌≢◌, refl, sym, ap, ◌∙◌, Bool, true, false, List, [], ◌∷◌,
  Option, none, some, arith, leb, length, get_elem?, set, range_from, sum_by, All, min, Bool-cases,
  inl, inr, subst, get_elem?-lt, get_elem?-set_ne, range_from-length, range_from-lt, All-range_from,
  cons_of_length, length-map,
}
use zkas_pool.Base.Int.{ℤ, pos, negsuc, sub_ℕ, ◌+ℤ◌, pos_part, neg_part, +ℤ_parts, eq_of_parts}
use zkas_pool.Base.Results.{Result, ok, bind_ok, Panic, i64_max, sum_checked, sum_checked_sound}
use zkas_pool.Base.Float.{Float}
use zkas_pool.Base.Sort.{
  sort_by-length, sort_by-All, sort_by-All_inv, sort_by-LeastFirst, by_key, LeastFirst,
}
use zkas_pool.Accountant.Db.{ShareWindow}
use zkas_pool.Accountant.Allocation.{
  pro_rate, wallet_at, order, award, saturate, total_of, grosses_of,
}

abbrev pub sum_ℤ : List ℤ → ℤ
sum_ℤ [] = pos 0
sum_ℤ (x ∷ xs) = x +ℤ sum_ℤ xs

pub ruleset int_laws = (arith, +ℤ_parts, eq_of_parts)

abbrev pub value : ℕ → ℕ
value g = g

sum_ℤ-map_pos : (xs : List ℕ) → sum_ℤ (map pos xs) ≡ pos (sum_by value xs)
sum_ℤ-map_pos [] = refl
sum_ℤ-map_pos (x ∷ xs) = rw (sum_ℤ-map_pos xs) (omega int_laws)

-- A write exchanges one summand.
sum_ℤ-set :
    (xs : List ℤ) (i : ℕ) (v old : ℤ)
    → get_elem? xs i ≡ some old
    → sum_ℤ (set xs i v) +ℤ old ≡ sum_ℤ xs +ℤ v
sum_ℤ-set [] i v old h = cc
sum_ℤ-set (x ∷ xs) zero v old h = let e : x ≡ old = ground arith in rw e (omega int_laws)
sum_ℤ-set (x ∷ xs) (suc i) v old h =
    let ih = sum_ℤ-set xs i v old h in omega (int_laws, ap pos_part ih, ap neg_part ih)

get_elem?-map_pos :
    (xs : List ℕ) (i x : ℕ) → get_elem? xs i ≡ some x → get_elem? (map pos xs) i ≡ some (pos x)
get_elem?-map_pos [] i x h = cc
get_elem?-map_pos (y ∷ ys) zero x h = ground arith
get_elem?-map_pos (y ∷ ys) (suc i) x h = get_elem?-map_pos ys i x h

get_elem?-le-sum : (xs : List ℕ) (i x : ℕ) → get_elem? xs i ≡ some x → x ≤ sum_by value xs
get_elem?-le-sum [] i x h = cc
get_elem?-le-sum (y ∷ ys) zero x h = ground arith
get_elem?-le-sum (y ∷ ys) (suc i) x h = omega (arith, get_elem?-le-sum ys i x h)

sub_ℕ_parts : (a b : ℕ) → pos_part (sub_ℕ a b) + b ≡ neg_part (sub_ℕ a b) + a
sub_ℕ_parts a b = ground arith

-- Values this far from zero are not cut off.
saturate_id : (z : ℤ) → pos_part z ≤ i64_max → neg_part z ≤ i64_max → saturate z ≡ z
unfolding saturate
saturate_id (pos n) h k = ground arith
saturate_id (negsuc n) h k = ground arith

award_bounds :
    (old r s : ℕ)
    → old ≤ s
    → s ≤ i64_max
    → r ≤ i64_max
    → (pos_part (pos old +ℤ sub_ℕ r s) ≤ i64_max) × (neg_part (pos old +ℤ sub_ℕ r s) ≤ i64_max)
unfolding ◌+ℤ◌
award_bounds old r s a b c = ground arith

exact_sum :
    (z s d : ℤ) (old r total : ℕ)
    → s ≡ pos total
    → pos_part d + total ≡ neg_part d + r
    → z +ℤ pos old ≡ s +ℤ (pos old +ℤ d)
    → z ≡ pos r
exact_sum z s d old r total e p h =
    omega (int_laws, ap pos_part e, ap neg_part e, ap pos_part h, ap neg_part h)

module _ (fl : Float) where
  open fl use {F, le, of_int, to_int_below}

  -- Whatever the weights are, a wallet's share lies within the reward.
  pub pro_rate-le : (reward : ℕ) (weight total : F) → pro_rate fl reward weight total ≤ reward
  unfolding pro_rate
  pro_rate-le reward weight total =
      ground (arith, to_int_below reward (fl.floor (fl.mul (of_int reward) (fl.div weight total))))

  -- The first index in the order: it is in range, and no window has a smaller wallet id.
  order_head :
      (ws : List (ShareWindow F))
      → 0 < length ws
      → (first : ℕ) × (rest : List ℕ) × (order fl ws ≡ first ∷ rest)
        × (first < length ws)
        × ((i : ℕ) → i < length ws → wallet_at fl ws first ≤ wallet_at fl ws i)
  unfolding order
  order_head ws h =
      let key = wallet_at fl ws in
      let range = range_from 0 (length ws) in
      let (first, rest, e) =
        cons_of_length (order fl ws)
          (omega (arith, sort_by-length (by_key key) range, range_from-length 0 (length ws))) in
      let bounds : All (λ i. i < length ws) (first ∷ rest) = subst (All (λ i. i < length ws)) e (
        sort_by-All (by_key key) _ range (range_from-lt 0 (length ws) (length ws) (omega arith))) in
      let least : LeastFirst key (first ∷ rest) =
        subst (LeastFirst key) e (sort_by-LeastFirst key range) in
      let all : All (λ i. key first ≤ key i) range =
        sort_by-All_inv (by_key key) _ range
          (subst (All (λ i. key first ≤ key i)) (sym e) (omega arith, least)) in
      (
        first,
        rest,
        e,
        bounds.0,
        λ i k. All-range_from _ 0 (length ws) i all (omega arith) (omega arith),
      )

  -- What the award of a residue does: one write, at a window of least wallet id.
  record Awarded (ws : List (ShareWindow F)) (reward : ℕ) (xs : List ℕ) : Type 0 where
    first : ℕ
    old : ℕ
    slot : get_elem? xs first ≡ some old
    result :
        award fl ws (sub_ℕ reward (sum_by value xs)) (map pos xs)
        ≡ set (map pos xs) first (pos old +ℤ sub_ℕ reward (sum_by value xs))
    least : (i : ℕ) → i < length ws → wallet_at fl ws first ≤ wallet_at fl ws i

  award_at :
      (ws : List (ShareWindow F)) (reward first old : ℕ) (rest xs : List ℕ)
      → order fl ws ≡ first ∷ rest
      → get_elem? xs first ≡ some old
      → reward ≤ i64_max
      → sum_by value xs ≤ i64_max
      → award fl ws (sub_ℕ reward (sum_by value xs)) (map pos xs)
        ≡ set (map pos xs) first (pos old +ℤ sub_ℕ reward (sum_by value xs))
  unfolding award
  award_at ws reward first old rest xs e slot r s =
      let bounds =
        award_bounds old reward (sum_by value xs) (get_elem?-le-sum xs first old slot) s r in
      rw (e, award, get_elem?-map_pos xs first old slot)
        (ap (set (map pos xs) first) (saturate_id _ bounds.0 bounds.1))

  award_lem :
      (ws : List (ShareWindow F)) (reward : ℕ) (xs : List ℕ)
      → 0 < length ws
      → length xs ≡ length ws
      → reward ≤ i64_max
      → sum_by value xs ≤ i64_max
      → Awarded ws reward xs
  award_lem ws reward xs h len r s = go (order_head ws h)
    where
      go :
          ((first : ℕ) × (rest : List ℕ) × (order fl ws ≡ first ∷ rest)
            × (first < length ws)
            × ((i : ℕ) → i < length ws → wallet_at fl ws first ≤ wallet_at fl ws i))
          → Awarded ws reward xs
      go (first, rest, e, bound, least) = found (get_elem?-lt xs first (omega arith))
        where
          found : ((a : ℕ) × (get_elem? xs first ≡ some a)) → Awarded ws reward xs
          found (old, slot) = record {
            first = first;
            old = old;
            slot = slot;
            result = award_at ws reward first old rest xs e slot r s;
            least = least;
          }

  -- The shares before the residue.
  abbrev pub shares_of : ℕ → List (ShareWindow F) → List ℕ
  shares_of reward ws = map (λ w. pro_rate fl reward w.total_weight (total_of fl ws)) ws

  pub grosses_of_inv :
      (reward : ℕ) (ws : List (ShareWindow F)) {grosses : List ℤ} {residue : ℤ}
      → grosses_of fl reward ws ≡ ok (grosses, residue)
      → (sum_by value (shares_of reward ws) ≤ i64_max)
        × (award fl ws
              (sub_ℕ reward (sum_by value (shares_of reward ws)))
              (map pos (shares_of reward ws))
            ≡ grosses)
        × (residue ≡ sub_ℕ reward (sum_by value (shares_of reward ws)))
  unfolding grosses_of
  grosses_of_inv reward ws {grosses} {residue} e =
      go (bind_ok (sum_checked i64_max value 0 (shares_of reward ws)) _ {b = (grosses, residue)} e)
    where
      go :
          ((s : ℕ) × (sum_checked i64_max value 0 (shares_of reward ws) ≡ ok s)
            × (◌≡◌ {A = Result Panic (List ℤ × ℤ)}
                (ok (award fl ws (sub_ℕ reward s) (map pos (shares_of reward ws)), sub_ℕ reward s))
                (ok (grosses, residue))))
          → (sum_by value (shares_of reward ws) ≤ i64_max)
            × (award fl ws
                  (sub_ℕ reward (sum_by value (shares_of reward ws)))
                  (map pos (shares_of reward ws))
                ≡ grosses)
            × (residue ≡ sub_ℕ reward (sum_by value (shares_of reward ws)))
      go (s, h, k) =
          let (total, fits) =
            sum_checked_sound i64_max value 0 (shares_of reward ws) {s = s} h (omega arith) in
          let same : sum_by value (shares_of reward ws) ≡ s = omega arith in rw same (fits, cc, cc)

  -- For a window with shares, and whatever the floating-point weights are: if the split does not
  -- overflow, the grosses add up to the reward exactly; they are the pro-rated shares except at one
  -- window, whose wallet id is the least, and which receives the residue.
  pub grosses_of_exact :
      (reward : ℕ) (ws : List (ShareWindow F)) {grosses : List ℤ} {residue : ℤ}
      → 0 < length ws
      → reward ≤ i64_max
      → grosses_of fl reward ws ≡ ok (grosses, residue)
      → (first : ℕ) × (sum_ℤ grosses ≡ pos reward)
        × ((i : ℕ) → i < length ws → wallet_at fl ws first ≤ wallet_at fl ws i)
        × ((i : ℕ) → i ≢ first → get_elem? grosses i ≡ get_elem? (map pos (shares_of reward ws)) i)
  grosses_of_exact reward ws {grosses} {residue} h r e =
      let (fits, result, _) = grosses_of_inv reward ws {grosses = grosses} {residue = residue} e in
      let xs = shares_of reward ws in
      let a = award_lem ws reward xs h (length-map _ ws) r fits in
      let written : set (map pos xs) a.first (pos a.old +ℤ sub_ℕ reward (sum_by value xs))
          ≡ grosses =
        sym a.result ∙ result in
      let sums =
        sum_ℤ-set (map pos xs) a.first (pos a.old +ℤ sub_ℕ reward (sum_by value xs)) (pos a.old)
          (get_elem?-map_pos xs a.first a.old a.slot) in
      (
        a.first,
        subst (λ gs. sum_ℤ gs ≡ pos reward) written (exact xs a.old _ sums),
        a.least,
        λ i ne.
            subst (λ gs. get_elem? gs i ≡ get_elem? (map pos xs) i) written
              (get_elem?-set_ne (map pos xs) i a.first _ ne),
      )
    where
      exact :
          (xs : List ℕ) (old : ℕ) (z : ℤ)
          → z +ℤ pos old ≡ sum_ℤ (map pos xs) +ℤ (pos old +ℤ sub_ℕ reward (sum_by value xs))
          → z ≡ pos reward
      exact xs old z k =
          exact_sum z (sum_ℤ (map pos xs)) (sub_ℕ reward (sum_by value xs)) old reward
            (sum_by value xs) (sum_ℤ-map_pos xs) (sub_ℕ_parts reward (sum_by value xs)) k
