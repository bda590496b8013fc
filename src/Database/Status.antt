-- ===== src/Database/Status.antt =====
use psychron.Accounts.{truthy}
use psychron.Base.{
  Bool, List, Option, String, is_none, length, ltb, map, none, not, select, some, take, true, ℕ,
  ◌+◌, ◌==◌,
}
use psychron.Database.{Database}
use psychron.Instant.{Instant}
use psychron.Queries.{fetchone, of_device}
use psychron.Queries.Health.{earliest_of, latest_of}
use psychron.Sorting.{descending, order_by}
use psychron.Telemetry.{ResolvedReading}

-- backend/src/psychron/adapters/postgres.py, `summary` and `recent`: what the status view reads.

pub record Summary (F : Type 0) : Type 0 where
  pub total : ℕ
  pub first : Option Instant
  pub last : Option Instant
  pub nulls : ℕ
  pub flagged : ℕ
  pub recent_5m : ℕ
  pub rejected : ℕ
  pub latest : Option (ResolvedReading F)

module _ {F : Type 0} where
  -- the WHERE clause, which a missing device leaves out
  abbrev pub of_any : Option String → ResolvedReading F → Bool
  of_any device_id r = elim (truthy device_id) [ none ↦ true | some d ↦ of_device d r ]

  unfoldable pub recent : ℕ → Option String → Database F → List (ResolvedReading F)
  recent limit device_id db =
      take limit (order_by (descending (λ r. r.time)) (select (of_any device_id) db.readings))

  unfoldable pub summary : Option String → Instant → Database F → Summary F
  unfolding earliest_of latest_of
  summary device_id now db =
      let rows = select (of_any device_id) db.readings in
      record {
        total = length rows;
        first = earliest_of (map (λ r. r.time) rows);
        last = latest_of (map (λ r. r.time) rows);
        nulls = length (select (λ r. is_none r.temperature_c) rows);
        flagged = length (select (λ r. not (r.quality == 0)) rows);
        recent_5m = length (select (λ r. ltb now (r.time + 300000000)) rows);
        rejected = length db.rejected_messages;
        latest = fetchone (order_by (descending (λ r. r.time)) rows);
      }
