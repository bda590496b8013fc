-- ===== src/App/Ranges.antt =====
use psychron.App.{
  Stamp, check_range_of, in_utc, parse_range, read_stamps, reply, ten_years, http_error,
}
use psychron.Base.{Bool-cases, Option, String, inl, inr, leb, ltb, ◌-◌, ◌<◌, ◌≡◌, ◌≤◌, ap, arith}
use psychron.Instant.{Instant}
use psychron.Raise.{Result, Result-cases, ok, ok-injective, is_value_error}

-- backend/src/psychron/api/app.py, `parse_range`. Which ranges are let through.

reply-injective : {A : Type 0} {a b : A} → reply a ≡ reply b → a ≡ b
reply-injective {a} h = ap (λ r. elim r [ reply x ↦ x | http_error status ↦ a ]) h

check_range_of-reply :
    (s e : Instant) {start stop : Instant}
    → check_range_of s e ≡ reply (start, stop)
    → (s ≡ start) × (e ≡ stop) × (start < stop) × (stop - start ≤ ten_years)
unfolding check_range_of
check_range_of-reply s e {start} {stop} h = elim (Bool-cases (leb e s)) [
  | inl empty ↦ absurd (cc (rw (empty, check_range_of) at h))
  | inr filled ↦ elim (Bool-cases (ltb ten_years (e - s))) [
    | inl long ↦ absurd (cc (rw (filled, long, check_range_of) at h))
    | inr short ↦
        let same = reply-injective (rw (filled, short, check_range_of) at h) in
        let left : s ≡ start = ap (λ p. p.0) same in
        let right : e ≡ stop = ap (λ p. p.1) same in
        (left, right, ground (arith, left, right), ground (arith, left, right))
  ]
]

-- A range that `parse_range` lets through starts before it ends, is no longer than ten years, and is
-- the one that the two timestamps mean, a missing end being now and a missing start a day before
-- the end.
pub parse_range_sound :
    (fromisoformat : String → Result Stamp) (frm to : Option String) (now start stop : Instant)
    → parse_range fromisoformat frm to now ≡ ok (reply (start, stop))
    → (start < stop)
      × (stop - start ≤ ten_years)
      × ((s : Stamp) × (e : Stamp) × (read_stamps fromisoformat frm to now ≡ ok (s, e))
          × (in_utc s ≡ start)
          × (in_utc e ≡ stop))
unfolding parse_range
parse_range_sound fromisoformat frm to now start stop h =
    elim (Result-cases (read_stamps fromisoformat frm to now)) [
      | inl (e, failed) ↦ elim (Bool-cases (is_value_error e)) [
        | inl caught ↦ absurd (cc (ok-injective (rw (failed, parse_range, caught) at h)))
        | inr other ↦ absurd (cc (rw (failed, parse_range, other) at h))
      ]
      | inr ((s, e), stamps) ↦
          let (left, right, order, span) =
            check_range_of-reply (in_utc s) (in_utc e)
              (ok-injective (rw (stamps, parse_range) at h)) in
          (order, span, (s, e, stamps, left, right))
    ]
