-- ===== src/Accountant/Window.antt =====
-- accountant/src/window.rs: closing a half-open DAA range, one `share_window` row for each wallet
-- with a share in it, and the read of the rows (katpool-db `share_window::list_for_window`).
-- The groups of the query come in the order of their first share.
use zkas_pool.Base.{ℕ, suc, Bool, List, [], ◌∷◌, retain, leb, ltb, ◌==◌, ◌&&◌, if◌then◌else◌}
use zkas_pool.Base.Results.{Result, ok, err}
use zkas_pool.Base.Float.{Float}
use zkas_pool.Base.Sort.{sort_by}
use zkas_pool.Accountant.Db.{Share, ShareWindow, Db}

pub data WindowError : Type 0 where
  end_not_above_start : WindowError

module _ (fl : Float) where
  open fl use {F, add, le}

  -- `WHERE daa_score >= $1 AND daa_score < $2`
  unfoldable pub in_range : ℕ → ℕ → Share F → Bool
  in_range start end s = leb start s.daa_score && ltb s.daa_score end

  -- `GROUP BY wallet_id` with `sum(difficulty)` and `count(*)`
  unfoldable pub add_to_group : ℕ → ℕ → Share F → List (ShareWindow F) → List (ShareWindow F)
  add_to_group start end s [] =
      record {
        wallet_id = s.wallet_id;
        daa_start = start;
        daa_end = end;
        total_weight = s.difficulty;
        share_count = 1;
      }
      ∷ []
  add_to_group start end s (w ∷ ws) =
      if w.wallet_id == s.wallet_id
      then record w {
        total_weight = add w.total_weight s.difficulty;
        share_count = suc w.share_count;
      }
        ∷ ws
      else w ∷ add_to_group start end s ws

  unfoldable pub aggregate : ℕ → ℕ → List (Share F) → List (ShareWindow F) → List (ShareWindow F)
  unfolding add_to_group
  aggregate start end [] ws = ws
  aggregate start end (s ∷ ss) ws = aggregate start end ss (add_to_group start end s ws)

  unfoldable pub same_key : ShareWindow F → ShareWindow F → Bool
  same_key a b = a.wallet_id == b.wallet_id && a.daa_start == b.daa_start && a.daa_end == b.daa_end

  -- `INSERT ... ON CONFLICT (wallet_id, daa_start, daa_end) DO UPDATE`
  unfoldable pub upsert : ShareWindow F → List (ShareWindow F) → List (ShareWindow F)
  unfolding same_key
  upsert row [] = row ∷ []
  upsert row (w ∷ ws) =
      if same_key w row
      then record w { total_weight = row.total_weight; share_count = row.share_count } ∷ ws
      else w ∷ upsert row ws

  unfoldable pub upsert_all : List (ShareWindow F) → List (ShareWindow F) → List (ShareWindow F)
  unfolding upsert
  upsert_all [] table = table
  upsert_all (row ∷ rows) table = upsert_all rows (upsert row table)

  -- `WindowAggregator::close_window`, without its statistics
  unfoldable pub close_window : Db F → ℕ → ℕ → Result WindowError (Db F)
  unfolding aggregate upsert_all in_range
  close_window db start end =
      if leb end start
      then err end_not_above_start
      else ok (record db {
        share_windows =
            upsert_all (aggregate start end (retain (in_range start end) db.shares) [])
              db.share_windows;
      })

  unfoldable pub in_window : ℕ → ℕ → ShareWindow F → Bool
  in_window start end w = w.daa_start == start && w.daa_end == end

  -- `ORDER BY total_weight DESC`
  unfoldable pub list_for_window : Db F → ℕ → ℕ → List (ShareWindow F)
  unfolding in_window sort_by
  list_for_window db start end =
      sort_by (λ a b. le b.total_weight a.total_weight)
        (retain (in_window start end) db.share_windows)
