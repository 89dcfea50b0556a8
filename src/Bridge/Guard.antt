-- ===== src/Bridge/Guard.antt =====
-- bridge/src/anti_abuse.rs: the guard of the stratum listener, per source address. Addresses are
-- numbers; the map's lock makes each call one step. The arithmetic of the token bucket is that of
-- f64, a parameter, with the seconds of a span of time, the difference and the one of f64.
-- A count stays under its cap, so that its increment does not overflow.
pub mod Tickets
pub mod Reach
use zkas_pool.Base.{
  ℕ, suc, ◌+◌, ◌-◌, ◌≤◌, ◌≡◌, Bool, true, false, List, [], ◌∷◌, Option, none, some, leb, ◌==◌, ◌&&◌,
  not, if◌then◌else◌, length,
}
use zkas_pool.Base.Results.{Result, ok, err}
use zkas_pool.Base.Float.{Float}
use zkas_pool.Base.Table.{number_key, lookup, remove, insert}

pub data AntiAbuseRejection : Type 0 where
  -- The active connections and the cap
  conn_cap_per_ip : ℕ → ℕ → AntiAbuseRejection
  ip_cap_reached : AntiAbuseRejection

module _ (fl : Float) where
  open fl use {F, add, le}

  pub record AntiAbuseConfig : Type 0 where
    pub max_conn_per_ip : ℕ
    pub max_tracked_ips : ℕ
    pub frame_rate_per_sec : F
    pub frame_burst : F

  pub record IpEntry : Type 0 where
    pub conn_count : ℕ
    pub tokens : F
    pub last_refill : ℕ

  -- The map of the guard
  abbrev pub Guard : Type 0
  Guard = List (ℕ × IpEntry)

  -- `f64` beyond `Float`: the seconds of a span, the difference and one
  pub record Bucket : Type 0 where
    pub seconds : ℕ → F
    pub sub : F → F → F
    pub one : F

module _ (fl : Float) (cfg : AntiAbuseConfig fl) where
  abbrev pub new_entry : ℕ → IpEntry fl
  new_entry now = record { conn_count = 0; tokens = cfg.frame_burst; last_refill = now }

  -- `entry(ip).or_insert_with(...)`: the entry, and whether there was one
  abbrev pub or_insert : ℕ → Option (IpEntry fl) → IpEntry fl
  or_insert now none = new_entry now
  or_insert now (some e) = e

  abbrev pub is_known : Option (IpEntry fl) → Bool
  is_known none = false
  is_known (some e) = true

  unfoldable pub try_accept_connection :
      ℕ → ℕ → Guard fl → Result AntiAbuseRejection (Unit {0}) × Guard fl
  unfolding lookup insert
  try_accept_connection ip now state =
      let found = lookup number_key ip state in
      let entry = or_insert now found in
      if not (is_known found) && leb cfg.max_tracked_ips (length state)
      then (err ip_cap_reached, state)
      else if leb cfg.max_conn_per_ip entry.conn_count
      then (
        err (conn_cap_per_ip entry.conn_count cfg.max_conn_per_ip),
        insert number_key ip entry state,
      )
      else (ok tt, insert number_key ip (record entry { conn_count = suc entry.conn_count }) state)

  -- What `release` leaves of an entry
  abbrev pub released : ℕ → Option (IpEntry fl) → Guard fl → Guard fl
  released ip none state = state
  released ip (some e) state =
      if e.conn_count - 1 == 0
      then remove number_key ip state
      else insert number_key ip (record e { conn_count = e.conn_count - 1 }) state

  -- `release`, by the drop of a ticket
  unfoldable pub release : ℕ → Guard fl → Guard fl
  unfolding lookup insert remove
  release ip state = released ip (lookup number_key ip state) state

  module _ (bucket : Bucket fl) where
    -- `IpEntry::try_consume`
    unfoldable pub try_consume : ℕ → IpEntry fl → Bool × IpEntry fl
    try_consume now e =
        let elapsed = bucket.seconds (now - e.last_refill) in
        let refilled = fl.add e.tokens (fl.mul elapsed cfg.frame_rate_per_sec) in
        let tokens = if fl.le refilled cfg.frame_burst then refilled else cfg.frame_burst in
        if fl.le bucket.one tokens
        then (true, record e { tokens = bucket.sub tokens bucket.one; last_refill = now })
        else (false, record e { tokens = tokens; last_refill = now })

    abbrev pub consumed : ℕ → ℕ → Option (IpEntry fl) → Guard fl → Bool × Guard fl
    consumed ip now none state = (false, state)
    consumed ip now (some e) state =
        let r = try_consume now e in (r.0, insert number_key ip r.1 state)

    unfoldable pub try_consume_frame : ℕ → ℕ → Guard fl → Bool × Guard fl
    unfolding try_consume lookup insert
    try_consume_frame ip now state = consumed ip now (lookup number_key ip state) state
