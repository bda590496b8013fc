-- ===== src/SignIn/Proved.antt =====
use psychron.Accounts.{
  Account, Client, Hashes, Store, account_of, check_password, is_unused, lockout, totp_of, truthy,
  verify_password, verify_recovery, verify_totp,
}
use psychron.Accounts.Gate.{session_principal}
use psychron.Base.{
  Bool-cases, Option, Option-cases, String, any, ap, inl, inr, none, some, str_eq, sym, true, ◌≡◌,
}
use psychron.Instant.{Instant}
use psychron.Raise.{>>=-eq-ok, ok, ok-injective}
use psychron.SignIn.{present_cookie}
use psychron.SignIn.Serve.{Request, to_login, to_recovery, to_totp}

-- backend/src/psychron/api/routes_auth.py. What a request proves of the person behind it.

-- What a request proves about the person behind it, for the session `id` that it finishes: the
-- password of an account that has no second factor, or the second factor of an account whose
-- pending session it presents.
pub data Proved (hashes : Hashes) (now : Instant) (store : Store) (id : String)
    : Request → Type 0 where
  by_password :
      {identifier password token : String} {client : Client} (a : Account) (h : String)
      → account_of identifier store ≡ some a
      → truthy a.password_hash ≡ some h
      → hashes.matches h password ≡ ok true
      → truthy a.totp_secret ≡ none
      → str_eq (hashes.digest token) id ≡ true
      → Proved hashes now store id (to_login identifier password token client)
  by_totp :
      {pending : Option String} {code : String} {client : Client} (token who secret : String)
      → present_cookie pending ≡ some token
      → session_principal hashes token true now store ≡ some who
      → totp_of (account_of who store) ≡ some secret
      → hashes.totp_accepts secret code now ≡ true
      → str_eq (hashes.digest token) id ≡ true
      → Proved hashes now store id (to_totp pending code client)
  by_recovery :
      {pending : Option String} {code : String} {client : Client} (token who : String) (a : Account)
      → present_cookie pending ≡ some token
      → session_principal hashes token true now store ≡ some who
      → account_of who store ≡ some a
      → any (is_unused a.account_id (hashes.digest_code code)) store.recovery_codes ≡ true
      → str_eq (hashes.digest token) id ≡ true
      → Proved hashes now store id (to_recovery pending code client)

module _ (hashes : Hashes) (now : Instant) where
  checked_proves :
      (a : Account) (h identifier password outcome : String) (client : Client)
      (store store' : Store)
      → check_password hashes a h identifier password client now store
        ≡ ok ((true, outcome), store')
      → str_eq outcome "ok" ≡ true
      → (hashes.matches h password ≡ ok true) × (truthy a.totp_secret ≡ none)
  checked_proves a h identifier password outcome client store store' checked first =
      let (right, verified, eq) = >>=-eq-ok (hashes.matches h password) _ checked in
      let same = ap (λ p. p.0) (ok-injective eq) in
      elim (Bool-cases right) [
        | inl agrees ↦ elim (Option-cases (truthy a.totp_secret)) [
          | inl single ↦ (rw agrees at verified, single)
          | inr (secret, has) ↦
              let is_totp = ap (λ p. p.1) (rw (agrees, has) at same) in
              absurd (cc (rw (sym is_totp) at first))
        ]
        | inr wrong ↦ absurd (cc (ap (λ p. p.0) (rw wrong at same)))
      ]

  -- what a right password says
  pub password_proves :
      (identifier password outcome : String) (client : Client) (store store' : Store)
      → verify_password hashes identifier password client now store ≡ ok ((true, outcome), store')
      → str_eq outcome "ok" ≡ true
      → (a : Account) × (h : String) × (account_of identifier store ≡ some a)
        × (truthy a.password_hash ≡ some h)
        × (hashes.matches h password ≡ ok true)
        × (truthy a.totp_secret ≡ none)
  unfolding verify_password
  password_proves identifier password outcome client store store' h first =
      let (state, looked, eq) = >>=-eq-ok (lockout identifier now store) _ h in
      elim (Bool-cases state.locked) [
        | inl locked ↦ absurd (cc (ap (λ p. p.0.0) (ok-injective (rw locked at eq))))
        | inr unlocked ↦ elim (Option-cases (account_of identifier store)) [
          | inl missing ↦
              absurd (cc (ap (λ p. p.0.0) (ok-injective (rw (unlocked, missing) at eq))))
          | inr (a, found) ↦ elim (Option-cases (truthy a.password_hash)) [
            | inl bare ↦
                absurd (cc (ap (λ p. p.0.0) (ok-injective (rw (unlocked, found, bare) at eq))))
            | inr (hash, has) ↦
                let (right, single) =
                  checked_proves a hash identifier password outcome client store store'
                    (rw (unlocked, found, has) at eq) first in
                (a, hash, found, has, right, single)
          ]
        ]
      ]

  pub totp_proves :
      (identifier code : String) (client : Client) (store store' : Store)
      → verify_totp hashes identifier code client now store ≡ ok (true, store')
      → (secret : String) × (totp_of (account_of identifier store) ≡ some secret)
        × (hashes.totp_accepts secret code now ≡ true)
  unfolding verify_totp
  totp_proves identifier code client store store' h =
      let (state, looked, eq) = >>=-eq-ok (lockout identifier now store) _ h in
      let same = ap (λ p. p.0) (ok-injective eq) in
      elim (Bool-cases state.locked) [
        | inl locked ↦ absurd (cc (rw locked at same))
        | inr unlocked ↦ elim (Option-cases (totp_of (account_of identifier store))) [
          | inl missing ↦ absurd (cc (rw (unlocked, missing) at same))
          | inr (secret, found) ↦ (secret, found, rw (unlocked, found) at same)
        ]
      ]

  pub recovery_proves :
      (identifier code : String) (client : Client) (store : Store)
      → (verify_recovery hashes identifier code client now store).0 ≡ true
      → (a : Account) × (account_of identifier store ≡ some a)
        × (any (is_unused a.account_id (hashes.digest_code code)) store.recovery_codes ≡ true)
  unfolding verify_recovery
  recovery_proves identifier code client store h =
      elim (Option-cases (account_of identifier store)) [
        | inl missing ↦ absurd (cc (rw (missing, verify_recovery) at h))
        | inr (a, found) ↦ (a, found, rw (found, verify_recovery) at h)
      ]
