-- ===== src/SignIn/Hides.antt =====
use psychron.Accounts.{
  Account, Client, Hashes, Store, account_of, lockout, record_attempt, truthy, verify_password,
}
use psychron.Base.{
  List, String, false, none, refl, some, ◌≡◌, Bool-cases, eq_iff, inl, inr, str_eq, sym, ◌&&◌,
}
use psychron.Instant.{Instant}
use psychron.SignIn.{answer_login, login, looked_up, fits}
use psychron.Raise.{Result-cases, ok}

-- backend/src/psychron/api/routes_auth.py, `login`. What its answer tells of an account.

lockout-attempts :
    (identifier : String) (now : Instant) (a b : Store)
    → a.attempts ≡ b.attempts
    → lockout identifier now a ≡ lockout identifier now b
unfolding lockout
lockout-attempts identifier now a b same = rw (lockout, same) refl

module _ (identifier : String) (client : Client) (now : Instant) where
  lockout-refused :
      (a b : Store)
      → a.attempts ≡ b.attempts
      → lockout identifier now (record_attempt identifier "password" "locked" client now a)
        ≡ lockout identifier now (record_attempt identifier "password" "locked" client now b)
  unfolding lockout
  lockout-refused a b same = rw (lockout, same) refl

  -- either mistake counts
  lockout-mistake :
      (a b : Store)
      → a.attempts ≡ b.attempts
      → lockout identifier now (record_attempt identifier "password" "unknown_account" client now a)
        ≡ lockout identifier now
            (record_attempt identifier "password" "bad_credential" client now b)
  unfolding lockout
  lockout-mistake a b same = rw (lockout, (eq_iff identifier identifier).1 refl, same) refl

module _ (hashes : Hashes) (set_of : List String → List String) (identifier password token : String)
    (client : Client) (now : Instant) (a b : Store) where
  looked_up-alike :
      (outcome : String)
      → lockout identifier now a ≡ lockout identifier now b
      → (looked_up hashes set_of identifier token client (false, outcome) now a).0
        ≡ (looked_up hashes set_of identifier token client (false, outcome) now b).0
  unfolding looked_up answer_login
  looked_up-alike outcome same = elim (Result-cases (lockout identifier now a)) [
    | inl (e, failed) ↦ rw (looked_up, sym same, failed) refl
    | inr (lock, looked) ↦ elim (Bool-cases (str_eq outcome "locked")) [
      | inl hit ↦ rw (looked_up, sym same, looked, answer_login, hit) refl
      | inr miss ↦ rw (looked_up, sym same, looked, answer_login, miss) refl
    ]
  ]

module _ (hashes : Hashes) (set_of : List String → List String) (identifier password token : String)
    (client : Client) (now : Instant) where
  login-alike :
      (outcome : String) (a b a' b' : Store)
      → verify_password hashes identifier password client now a ≡ ok ((false, outcome), a')
      → verify_password hashes identifier password client now b ≡ ok ((false, outcome), b')
      → lockout identifier now a' ≡ lockout identifier now b'
      → (login hashes set_of identifier password token client now a).0
        ≡ (login hashes set_of identifier password token client now b).0
  unfolding login
  login-alike outcome a b a' b' verified_a verified_b same =
      elim (Bool-cases (fits 1 200 identifier && fits 1 400 password)) [
        | inr bad ↦ rw (login, bad) refl
        | inl good ↦
            rw (login, good, verified_a, verified_b)
              (looked_up-alike hashes set_of identifier password token client now a' b' outcome
                same)
      ]

-- The answer to a sign-in does not tell an identifier that nobody has from a wrong password: on
-- tables with the same attempts, an identifier without an account and one whose account does not
-- accept the password are answered alike.
pub login_hides_accounts :
    (hashes : Hashes) (set_of : List String → List String) (identifier password token : String)
    (client : Client) (now : Instant) (without with_it : Store) (account : Account) (h : String)
    → without.attempts ≡ with_it.attempts
    → account_of identifier without ≡ none
    → account_of identifier with_it ≡ some account
    → truthy account.password_hash ≡ some h
    → hashes.matches h password ≡ ok false
    → (login hashes set_of identifier password token client now without).0
      ≡ (login hashes set_of identifier password token client now with_it).0
unfolding login verify_password
login_hides_accounts hashes set_of identifier password token client now without with_it account h
      same unknown known has wrong =
    let even = lockout-attempts identifier now without with_it same in
    elim (Result-cases (lockout identifier now without)) [
      | inl (e, failed) ↦ elim (Bool-cases (fits 1 200 identifier && fits 1 400 password)) [
        | inl good ↦ rw (login, good, verify_password, sym even, failed) refl
        | inr bad ↦ rw (login, bad) refl
      ]
      | inr (lock, looked) ↦ elim (Bool-cases lock.locked) [
        | inl locked ↦
            login-alike hashes set_of identifier password token client now "locked" without with_it
              (record_attempt identifier "password" "locked" client now without)
              (record_attempt identifier "password" "locked" client now with_it)
              (rw (verify_password, looked, locked) refl)
              (rw (verify_password, sym even, looked, locked) refl)
              (lockout-refused identifier client now without with_it same)
        | inr unlocked ↦
            login-alike hashes set_of identifier password token client now "bad_credential" without
              with_it (record_attempt identifier "password" "unknown_account" client now without)
              (record_attempt identifier "password" "bad_credential" client now with_it)
              (rw (verify_password, looked, unlocked, unknown) refl)
              (rw (verify_password, sym even, looked, unlocked, known, has, wrong) refl)
              (lockout-mistake identifier client now without with_it same)
      ]
    ]
