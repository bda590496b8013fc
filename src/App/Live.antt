-- ===== src/App/Live.antt =====
use psychron.App.{describe_quality}
use psychron.Base.{
  Bool, List, Option, String, [], if◌then◌else◌, map, none, not, some, true, ℕ, ◌==◌, ◌∷◌,
}
use psychron.Instant.{Instant}
use psychron.Psychrometrics.{Arithmetic, Derivation, derive}
use psychron.Queries.Phone.{cell, sample_columns}
use psychron.Raise.{Result, ok, raise, ◌>>=◌}
use psychron.Samples.{ResolvedSample}
use psychron.Schema.{Value}
use psychron.Telemetry.{ResolvedReading}

-- backend/src/psychron/api/app.py, the two sockets: what each turn of the loop sends.

-- `row and row["time"] != last_seen`
abbrev pub is_new_row : Instant → Option Instant → Bool
is_new_row time none = true
is_new_row time (some last) = not (time == last)

module _ {A B : Type 0} (time : A → Instant) (payload : A → Result B) where
  unfoldable pub send : A → Result (Option B × Option Instant)
  send row = do sent ← payload row; ok (some sent, some (time row))

  -- One turn: what is sent, and `last_seen` after it. An exception of the payload ends the socket,
  -- as the disconnection of the client does.
  unfoldable pub live_turn : Option A → Option Instant → Result (Option B × Option Instant)
  unfolding send
  live_turn none last_seen = ok (none, last_seen)
  live_turn (some row) last_seen =
      if is_new_row (time row) last_seen then send row else ok (none, last_seen)

  abbrev pub with_sent : Option B → List B → List B
  with_sent none sent = sent
  with_sent (some b) sent = b ∷ sent

  -- the loop, over the rows that its queries find; what is sent, until an exception if one comes
  unfoldable pub live_loop : List (Option A) → Option Instant → List B
  unfolding live_turn
  live_loop [] last_seen = []
  live_loop (row ∷ polls) last_seen = elim (live_turn row last_seen) [
    | raise e ↦ []
    | ok (sent, seen) ↦ with_sent sent (live_loop polls seen)
  ]

-- a message of `live`
pub record LiveReading (F : Type 0) : Type 0 where
  pub time : Instant
  pub temperature_c : Option F
  pub humidity_pct : Option F
  pub flags : List String
  pub derived : Derivation F

-- a message of `live_phone`, and the first part of `phone_current`
pub record SamplePayload (F : Type 0) : Type 0 where
  pub time : Instant
  pub window_ms : ℕ
  pub firmware : String
  pub flags : List String
  pub columns : List (String × Option (Value F))

module _ {F : Type 0} where
  -- `_sample_payload`
  unfoldable pub sample_payload : ResolvedSample F → SamplePayload F
  unfolding describe_quality cell
  sample_payload row = record {
    time = row.time;
    window_ms = row.window_ms;
    firmware = row.firmware;
    flags = describe_quality row.quality;
    columns = map (λ column. (column, cell column row)) sample_columns;
  }

  unfoldable pub live_phone : List (Option (ResolvedSample F)) → List (SamplePayload F)
  unfolding live_loop sample_payload
  live_phone polls = live_loop (λ row. row.time) (λ row. ok (sample_payload row)) polls none

  unfoldable pub reading_payload : Arithmetic F → ResolvedReading F → Result (LiveReading F)
  unfolding derive describe_quality
  reading_payload num row = do
    derived ← derive num row.temperature_c row.humidity_pct
    ok (record {
      time = row.time;
      temperature_c = row.temperature_c;
      humidity_pct = row.humidity_pct;
      flags = describe_quality row.quality;
      derived = derived;
    })

  unfoldable pub live : Arithmetic F → List (Option (ResolvedReading F)) → List (LiveReading F)
  unfolding live_loop reading_payload
  live num polls = live_loop (λ row. row.time) (reading_payload num) polls none
