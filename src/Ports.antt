-- ===== src/Ports.antt =====
-- backend/src/psychron/ports.py: what the use cases ask of their adapters. A port is a record of
-- operations on the adapter's own state; an operation that raises returns the exception beside the
-- state that it leaves.
use psychron.Base.{Bool, List, Option, String, ℤ}
use psychron.Clock.{Anchor}
use psychron.Events.{ResolvedEvent}
use psychron.Json.{Bytes, Json}
use psychron.Raise.{Reason, Result}
use psychron.Samples.{ResolvedSample}
use psychron.Telemetry.{ResolvedReading}

abbrev pub Outcome : Type 0 → Type 0 → Type 0
Outcome A R = Result A × R

pub record ReadingRepository (F R : Type 0) : Type 0 where
  pub store : ResolvedReading F → R → Outcome Bool R
  pub store_sample : ResolvedSample F → R → Outcome Bool R
  pub store_event : ResolvedEvent F → R → Outcome Bool R
  pub store_rejected : String → Bytes → Reason → Option String → R → Outcome Unit R
  pub record_boot : Json F → ℤ → String → Option (Json F) → R → Outcome Unit R
  pub known_boot_anchors : R → Result (List Anchor)
