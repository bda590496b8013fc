-- ===== src/Accounts/Locked.antt =====
-- backend/src/psychron/adapters/identity_pg.py. Three mistakes, and what they lock.
use psychron.Accounts.{
  Account, Client, Hashes, Store, account_of, check_password, is_failure, lockout, password_of,
  record_attempt, verify_password, verify_totp,
}
use psychron.Base.{
  Bool-cases, List, Option-cases, String, [], ap, arith, eq_iff, false, inl, inr, map, refl, select,
  str_eq, sym, true, ◌*◌, ◌+◌, ◌<◌, ◌∙◌, ◌∷◌, ◌≡◌, ◌≤◌,
}
use psychron.Identity.{Lockout, is_recent, recent_failures}
use psychron.Identity.Lockouts.{lockout_state_lem, young}
use psychron.Instant.{Instant}
use psychron.Raise.{>>=-eq-ok, ok, ok-injective}

-- the instants of the failures of an identifier, the newest first
abbrev pub failures_of : String → Store → List Instant
failures_of identifier store = map (λ a. a.at) (select (is_failure identifier) store.attempts)

young-recent_failures :
    (failures : List Instant) (now : Instant)
    → young (recent_failures failures now) now ≡ young failures now
young-recent_failures [] now = refl
young-recent_failures (f ∷ failures) now = elim (Bool-cases (is_recent now f)) [
  | inl recent ↦ rw recent (ground (arith, young-recent_failures failures now))
  | inr old ↦ rw old (ground (arith, old, young-recent_failures failures now))
]

-- an identifier with three failures younger than fifteen minutes is locked out
locked_of_young :
    (identifier : String) (now : Instant) (store : Store) (state : Lockout)
    → lockout identifier now store ≡ ok state
    → 3 ≤ young (failures_of identifier store) now
    → state.locked ≡ true
unfolding lockout
locked_of_young identifier now store state looked many =
    let count = young-recent_failures (failures_of identifier store) now in
    elim (lockout_state_lem (recent_failures (failures_of identifier store) now) now state looked) [
      | inl (locked, _, _) ↦ locked
      | inr (_, few, _, _) ↦ absurd (omega (arith, count))
    ]

young-cons :
    (t now : Instant) (failures : List Instant)
    → now < t + 15 * 60 * 1000000
    → young (t ∷ failures) now ≡ young failures now + 1
young-cons t now failures soon = ground arith

young_three :
    (t1 t2 t3 now : Instant) (failures : List Instant)
    → now < t1 + 15 * 60 * 1000000
    → now < t2 + 15 * 60 * 1000000
    → now < t3 + 15 * 60 * 1000000
    → 3 ≤ young (t3 ∷ t2 ∷ t1 ∷ failures) now
young_three t1 t2 t3 now failures first second third =
    rw
      (
        young-cons t3 now (t2 ∷ t1 ∷ failures) third,
        young-cons t2 now (t1 ∷ failures) second,
        young-cons t1 now failures first,
      )
      (omega arith)

failures_of-record_attempt :
    (identifier : String) (client : Client) (now : Instant) (store : Store)
    → (failures_of identifier
          (record_attempt identifier "password" "bad_credential" client now store)
        ≡ now ∷ failures_of identifier store)
      × (failures_of identifier
            (record_attempt identifier "password" "unknown_account" client now store)
          ≡ now ∷ failures_of identifier store)
failures_of-record_attempt identifier client now store =
    let own = (eq_iff identifier identifier).1 refl in (rw own refl, rw own refl)

module _ (hashes : Hashes) (identifier : String) where
  checked_mistake :
      (a : Account) (hash password : String) (client : Client) (now : Instant)
      (store store' : Store)
      → check_password hashes a hash identifier password client now store
        ≡ ok ((false, "bad_credential"), store')
      → failures_of identifier store' ≡ now ∷ failures_of identifier store
  checked_mistake a hash password client now store store' h =
      let (right, verified, eq) = >>=-eq-ok (hashes.matches hash password) _ h in
      let same = ok-injective eq in
      elim (Bool-cases right) [
        | inl agrees ↦ absurd (cc (ap (λ p. p.0.0) (rw agrees at same)))
        | inr wrong ↦
            ap (λ p. failures_of identifier p.1) (sym (rw wrong at same))
            ∙ (failures_of-record_attempt identifier client now store).0
      ]

  -- a password that is answered by "bad_credential" has been put down as a failure
  mistake_counts :
      (password : String) (client : Client) (now : Instant) (store store' : Store)
      → verify_password hashes identifier password client now store
        ≡ ok ((false, "bad_credential"), store')
      → failures_of identifier store' ≡ now ∷ failures_of identifier store
  unfolding verify_password
  mistake_counts password client now store store' h =
      let (state, looked, eq) = >>=-eq-ok (lockout identifier now store) _ h in
      elim (Bool-cases state.locked) [
        | inl locked ↦
            let said = ap (λ p. str_eq p.0.1 "locked") (ok-injective (rw locked at eq)) in
            absurd (cc said)
        | inr unlocked ↦ elim (Option-cases (password_of (account_of identifier store))) [
          | inl missing ↦
              ap (λ p. failures_of identifier p.1)
                (sym (ok-injective (rw (unlocked, missing) at eq)))
              ∙ (failures_of-record_attempt identifier client now store).1
          | inr ((a, hash), found) ↦
              checked_mistake a hash password client now store store' (rw (unlocked, found) at eq)
        ]
      ]

  -- Three passwords of an identifier that verify_password has refused with "bad_credential", one
  -- directly after the other, whether or not the identifier has an account, lock it out until
  -- fifteen minutes after the first: then verify_password answers any password with "locked", and
  -- puts that down, and verify_totp refuses any code and changes nothing. The look at the attempts
  -- is taken to return, as it does unless the lockout ends beyond the calendar.
  pub three_mistakes_lock_out :
      (p1 p2 p3 password code : String) (c1 c2 c3 client : Client) (t1 t2 t3 now : Instant)
      (store s1 s2 s3 : Store) (state : Lockout)
      → verify_password hashes identifier p1 c1 t1 store ≡ ok ((false, "bad_credential"), s1)
      → verify_password hashes identifier p2 c2 t2 s1 ≡ ok ((false, "bad_credential"), s2)
      → verify_password hashes identifier p3 c3 t3 s2 ≡ ok ((false, "bad_credential"), s3)
      → t1 ≤ t2
      → t1 ≤ t3
      → now < t1 + 15 * 60 * 1000000
      → lockout identifier now s3 ≡ ok state
      → (verify_password hashes identifier password client now s3
          ≡ ok ((false, "locked"), record_attempt identifier "password" "locked" client now s3))
        × (verify_totp hashes identifier code client now s3 ≡ ok (false, s3))
  unfolding verify_password verify_totp
  three_mistakes_lock_out p1 p2 p3 password code c1 c2 c3 client t1 t2 t3 now store s1 s2 s3 state
        first second third later last soon looked =
      let one = mistake_counts p1 c1 t1 store s1 first in
      let two = mistake_counts p2 c2 t2 s1 s2 second ∙ ap (λ fs. t2 ∷ fs) one in
      let three = mistake_counts p3 c3 t3 s2 s3 third ∙ ap (λ fs. t3 ∷ fs) two in
      let counted = ap (λ fs. young fs now) three in
      let locked = locked_of_young identifier now s3 state looked (
        rw counted (
          young_three t1 t2 t3 now (failures_of identifier store) soon (omega arith)
            (omega arith))) in
      (rw (verify_password, looked, locked) refl, rw (verify_totp, looked, locked) refl)
