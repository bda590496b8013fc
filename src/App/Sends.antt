-- ===== src/App/Sends.antt =====
use psychron.App.Live.{is_new_row, live_loop, live_turn, send, live_phone, sample_payload}
use psychron.Base.{
  Bool-cases, List, Option, [], ap, arith, false, inl, inr, none, refl, some, sym, true, ◌∷◌, ◌≡◌,
  ◌∙◌,
}
use psychron.Instant.{Instant}
use psychron.Raise.{Result, ok}
use psychron.Samples.{ResolvedSample}

-- backend/src/psychron/api/app.py, the sockets. What a client of `live_phone` is sent.

-- `last_seen` at the end, and whether each message is of another instant than the one before it
abbrev pub last_sent : {A : Type 0} → (A → Instant) → Option Instant → List A → Option Instant
last_sent time last [] = last
last_sent time last (b ∷ sent) = last_sent time (some (time b)) sent

abbrev pub NoRepeat : {A : Type 0} → (A → Instant) → Option Instant → List A → Type 0
NoRepeat time last [] = Unit
NoRepeat time last (b ∷ sent) =
    (is_new_row (time b) last ≡ true) × NoRepeat time (some (time b)) sent

-- the instant of the last row that the polls have found
abbrev pub last_found :
    {A : Type 0} → (A → Instant) → Option Instant → List (Option A) → Option Instant
last_found time last [] = last
last_found time last (none ∷ polls) = last_found time last polls
last_found time last (some row ∷ polls) = last_found time (some (time row)) polls

module _ {A B : Type 0} (time : A → Instant) (stamp : B → Instant) (payload : A → Result B)
    (sound : (row : A) → (b : B) × (payload row ≡ ok b) × (stamp b ≡ time row)) where
  not_new : (t : Instant) (last : Option Instant) → is_new_row t last ≡ false → last ≡ some t
  not_new t none h = absurd (cc h)
  not_new t (some u) h = let same : t ≡ u = ground arith in ap (λ v. some v) (sym same)

  live_loop_lem :
      (polls : List (Option A)) (last : Option Instant)
      → NoRepeat stamp last (live_loop time payload polls last)
        × (last_sent stamp last (live_loop time payload polls last) ≡ last_found time last polls)
  unfolding live_loop live_turn send
  live_loop_lem [] last = (tt, refl)
  live_loop_lem (none ∷ polls) last = live_loop_lem polls last
  live_loop_lem (some row ∷ polls) last = elim (Bool-cases (is_new_row (time row) last)) [
    | inl fresh ↦
        let (b, made, at) = sound row in
        let (order, end_of) = live_loop_lem polls (some (time row)) in
        rw (live_loop, live_turn, fresh, send, made)
          (
            (rw at fresh, rw at order),
            ap (λ t. last_sent stamp (some t) (live_loop time payload polls (some (time row)))) at
                ∙ end_of,
          )
    | inr stale ↦
        let (order, end_of) = live_loop_lem polls last in
        rw (live_loop, live_turn, stale)
          (order, end_of ∙ ap (λ l. last_found time l polls) (not_new (time row) last stale))
  ]

-- Two messages running of `live_phone` are never of the same instant, and whatever the polls find,
-- what is sent ends with the instant that they found last.
pub live_phone_lem :
    {F : Type 0} (polls : List (Option (ResolvedSample F)))
    → NoRepeat (λ message. message.time) none (live_phone polls)
      × (last_sent (λ message. message.time) none (live_phone polls)
          ≡ last_found (λ row. row.time) none polls)
unfolding live_phone sample_payload
live_phone_lem polls =
    live_loop_lem (λ row. row.time) (λ message. message.time) (λ row. ok (sample_payload row))
      (λ row. (sample_payload row, refl, refl)) polls none
