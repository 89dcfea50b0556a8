-- ===== src/Kas/Safety/Broadcasts.antt =====
-- payout-kas/src/execute.rs, `broadcast_cycle`: it keeps the invariant of payments, whatever fails.
use zkas_pool.Kas.Safety.{hits, paid, Safe, aim, rows_of-hits, mark_submitted-planned}
use zkas_pool.Base.{
  ℕ, suc, ◌+◌, ◌≤◌, ◌≡◌, refl, ap, ◌∙◌, sym, subst, Bool, true, false, List, [], ◌∷◌, Option, none,
  some, if◌then◌else◌, arith, sum_by, sum_by-append, inl, inr, Bool-cases,
}
use zkas_pool.Base.Results.{Result, ok, err}
use zkas_pool.Base.Table.{bytes_key, lookup, insert, remove, same_bytes, same_bytes_sound}
use zkas_pool.Base.Decimal.{to_decimal, to_decimal-inj}
use zkas_pool.Base.Float.{Float}
use zkas_pool.Zkas.Db.{Store}
use zkas_pool.Zkas.World.{Reply, ExecutionMode, dry_run, live}
use zkas_pool.Zkas.Safety.{mine, planned_rows}
use zkas_pool.StorageMass.Mass.{Script, PayoutRecipient, PlannedBatch, MassEvaluator, Transaction}
use zkas_pool.StorageMass.Fee.{FeeRate}
use zkas_pool.StorageMass.Planner.Partition.{paid_of}
use zkas_pool.Kas.World.{
  ExecuteError, ExecutionReport, Submission, World, and_then, known, write, After, After-and_then,
  After-write,
}
use zkas_pool.Kas.Sign.{Signer, SignedBatch, sign_batch_with_exact_fee}
use zkas_pool.Kas.Broadcast.{
  Ids, rows_of, mark_submitted, with_payouts, submit_signed, send_batch, send_batches,
}

-- Each id stands for the row whose number it writes.
pub Named : Ids → Type 0
Named [] = Unit
Named (e ∷ es) = (e.0 ≡ to_decimal e.1) × Named es

pub no_names : Named []
unfolding Named
no_names = tt

Named-remove : (k : List ℕ) (t : Ids) → Named t → Named (remove bytes_key k t)
unfolding Named remove
Named-remove k [] h = tt
Named-remove k ((j, n) ∷ t) h = split (same_bytes j k) (Named-remove k t h.1)
  where
    split :
        (b : Bool)
        → Named (remove bytes_key k t)
        → Named (if b then remove bytes_key k t else (j, n) ∷ remove bytes_key k t)
    split true ih = ih
    split false ih = (h.0, ih)

pub Named-insert : (n : ℕ) (t : Ids) → Named t → Named (insert bytes_key (to_decimal n) n t)
unfolding Named insert
Named-insert n t h = (refl, Named-remove (to_decimal n) t h)

lookup-Named :
    (k : List ℕ) (t : Ids) {n : ℕ} → Named t → lookup bytes_key k t ≡ some n → k ≡ to_decimal n
unfolding Named lookup
lookup-Named k [] h e = cc
lookup-Named k ((j, m) ∷ t) {n} h e = elim (Bool-cases (same_bytes j k)) [
  | inl same ↦
      let at : m ≡ n = cc (rw (same, lookup) at e) in
      sym (same_bytes_sound j k same) ∙ h.0 ∙ ap to_decimal at
  | inr other ↦ lookup-Named k t {n = n} h.1 (rw (other, lookup) at e)
]

module _ (i : ℕ) where
  pub aim-le :
      (t : Ids) (r : PayoutRecipient) (n : ℕ) → Named t → r.id ≡ to_decimal n → aim i t r ≤ mine i n
  aim-le t r n h e = split (lookup bytes_key r.id t) (λ k f. lookup-Named r.id t {n = k} h f)
    where
      split :
          (o : Option ℕ)
          → ((k : ℕ) → o ≡ some k → r.id ≡ to_decimal k)
          → (elim o [ none ↦ 0 | some k ↦ mine i k ]) ≤ mine i n
      split none f = omega arith
      split (some k) f =
          let same : k ≡ n = to_decimal-inj k n (sym (f k refl) ∙ e) in rw same (omega arith)

  -- Before the batches that are ahead, which aim `n` times at the payout
  pub record Ready (n : ℕ) (w : World) : Type 0 where
    pub closed : paid i w.log + planned_rows i w.store.payouts ≤ 1
    pub unsent : paid i w.log + n ≤ 1
    pub fresh : w.store.next_payout ≤ i → paid i w.log + planned_rows i w.store.payouts + n ≡ 0

  -- A batch that aims `m` times is recorded, and not submitted yet.
  record Recorded (m n : ℕ) (w : World) : Type 0 where
    pub closed : paid i w.log + m + planned_rows i w.store.payouts ≤ 1
    pub unsent : paid i w.log + m + n ≤ 1
    pub fresh : w.store.next_payout ≤ i → paid i w.log + m + planned_rows i w.store.payouts + n ≡ 0

  pub Ready-Safe : (n : ℕ) (w : World) → Ready n w → Safe i w
  Ready-Safe n w h = record { once = h.closed; fresh = λ le. omega (arith, h.fresh le) }

  pub Safe-calls : (n : ℕ) (w : World) → Safe i w → Safe i (record w { calls = n })
  Safe-calls n w h = record { once = h.once; fresh = h.fresh }

  module _ (n txid : ℕ) (ids : List ℕ) (w : World) (h : Ready (hits i ids + n) w) where
    marked : Store
    marked = with_payouts (mark_submitted txid ids) w.store

    recorded : (c : ℕ) → Recorded (hits i ids) n (record w { store = marked; calls = c })
    unfolding marked
    recorded c =
        let (le, gone) = mark_submitted-planned i txid ids w.store.payouts in
        record {
          closed = ground (arith, le, gone, h.closed, h.unsent);
          unsent = omega (arith, h.unsent);
          fresh = λ next. omega (arith, le, h.fresh next);
        }

    marked-Safe : (c : ℕ) → Safe i (record w { store = marked; calls = c })
    unfolding marked
    marked-Safe c =
        let (le, gone) = mark_submitted-planned i txid ids w.store.payouts in
        record {
          once = omega (arith, le, h.closed);
          fresh = λ next. omega (arith, le, h.fresh next);
        }

  module _ (reply : ℕ → Reply) (parse_address : List ℕ → Option Script) (fl : Float)
      (signer : Signer) (ev : MassEvaluator) (treasury_script : Script)
      (take_tx : List Submission → Transaction → Bool) (mode : ExecutionMode) where
    submit_signed-Ready :
        (m : ExecutionMode) (n : ℕ) (ids : List ℕ) (tx : Transaction) (report : ExecutionReport)
        (w : World)
        → Ready (hits i ids + n) w
        → After
            (λ _. Ready n)
            (Safe i)
            (submit_signed reply parse_address fl signer ev treasury_script take_tx mode m ids tx
              report w)
    unfolding submit_signed marked
    submit_signed-Ready dry_run n ids tx report w h = record {
      closed = h.closed;
      unsent = omega (arith, h.unsent);
      fresh = λ le. omega (arith, h.fresh le);
    }
    submit_signed-Ready live n ids tx report w h =
        After-and_then (λ _. Recorded (hits i ids) n) (λ _. Ready n) (Safe i)
          (write reply (with_payouts (mark_submitted (signer.tx_id tx) ids)) w) _
          (After-write (Recorded (hits i ids) n) (Safe i) reply _ w
            (recorded n (signer.tx_id tx) ids w h (suc w.calls))
            (Safe-calls (suc w.calls) w (Ready-Safe (hits i ids + n) w h))
            (marked-Safe n (signer.tx_id tx) ids w h (suc w.calls)))
          (λ _ w' r. record {
            closed = omega (arith, r.closed);
            unsent = omega (arith, r.unsent);
            fresh = λ le. omega (arith, r.fresh le);
          })

    module _ (rate : FeeRate fl) (by_id : Ids) where
      send_batch-Ready :
          (b : PlannedBatch) (n : ℕ) (report : ExecutionReport) (w : World)
          → Ready (sum_by (aim i by_id) b.payouts + n) w
          → After
              (λ _. Ready n)
              (Safe i)
              (send_batch reply parse_address fl signer ev treasury_script take_tx mode rate by_id b
                report w)
      unfolding send_batch
      send_batch-Ready b n report w h =
          split (rows_of by_id b.payouts)
            (sign_batch_with_exact_fee signer treasury_script fl ev rate b)
            (λ ids e. rows_of-hits i by_id b.payouts {ids = ids} e)
        where
          split :
              (m : Result ExecuteError (List ℕ)) (s : Result ExecuteError SignedBatch)
              → ((ids : List ℕ) → m ≡ ok ids → hits i ids ≡ sum_by (aim i by_id) b.payouts)
              → After
                  (λ _. Ready n)
                  (Safe i)
                  (and_then (known m w) λ ids w1. and_then (known s w1) λ signed w2.
                    submit_signed reply parse_address fl signer ev treasury_script take_tx mode mode
                      ids signed.tx report w2)
          split (err x) s e = Ready-Safe (sum_by (aim i by_id) b.payouts + n) w h
          split (ok ids) (err x) e = Ready-Safe (sum_by (aim i by_id) b.payouts + n) w h
          split (ok ids) (ok signed) e =
              submit_signed-Ready mode n ids signed.tx report w
                (subst (λ (k : ℕ). Ready (k + n) w) (sym (e ids refl)) h)

      pub send_batches-Safe :
          (bs : List PlannedBatch) (report : ExecutionReport) (w : World)
          → Ready (sum_by (aim i by_id) (paid_of bs)) w
          → After
              (λ _. Safe i)
              (Safe i)
              (send_batches reply parse_address fl signer ev treasury_script take_tx mode rate by_id
                bs report w)
      unfolding send_batches
      send_batches-Safe [] report w h = Ready-Safe 0 w h
      send_batches-Safe (b ∷ bs) report w h =
          After-and_then (λ _. Ready (sum_by (aim i by_id) (paid_of bs))) (λ _. Safe i) (Safe i)
            (send_batch reply parse_address fl signer ev treasury_script take_tx mode rate by_id b
              report w)
            _
            (send_batch-Ready b (sum_by (aim i by_id) (paid_of bs)) report w
              (subst (λ (k : ℕ). Ready k w) (sum_by-append (aim i by_id) b.payouts (paid_of bs)) h))
            (λ r w' h'. send_batches-Safe bs r w' h')
