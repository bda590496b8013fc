-- ===== src/Accounts/SingleUse.antt =====
-- backend/src/psychron/adapters/identity_pg.py. What works once.
use psychron.Accounts.{
  use_code, Hashes, Invitation, RecoveryCode, Store, account_of, find, is_unused, verify_recovery,
  Account, Client,
}
use psychron.Accounts.Gate.{
  Enrolment, consume_invitation, enrol, inspect_invitation, is_invitation, mark_consumed,
  usable_link,
}
use psychron.Base.{
  Bool-cases, List, Option-cases, String, [], any, ap, arith, false, inl, inr, map, none, refl,
  some, sym, ℕ, ◌∷◌, ◌≡◌, ◌⊎◌,
}
use psychron.Identity.{invitation_state}
use psychron.Instant.{Instant}
use psychron.Raise.{>>=-eq-ok, ok, ok-injective, raise, value_error}

mark_consumed-find :
    (h : String) (now : Instant) (invitations : List Invitation)
    → (find (is_invitation h) (map (mark_consumed h now) invitations) ≡ none)
      ⊎ ((inv : Invitation) × (find (is_invitation h) (map (mark_consumed h now) invitations)
            ≡ some inv)
          × (inv.consumed_at ≡ some now))
unfolding find
mark_consumed-find h now [] = inl refl
mark_consumed-find h now (inv ∷ invitations) = elim (Bool-cases (is_invitation h inv)) [
  | inl hit ↦ inr (record inv { consumed_at = some now }, rw hit (rw hit refl), refl)
  | inr miss ↦ rw miss (rw miss (mark_consumed-find h now invitations))
]

-- the state of a link that has been marked
marked_refused :
    (hashes : Hashes) (token : String) (now later : Instant) (invitations : List Invitation)
    (store : Store)
    → store.invitations ≡ map (mark_consumed (hashes.digest token) now) invitations
    → usable_link ((inspect_invitation hashes token false later store).0) ≡ raise value_error
unfolding inspect_invitation invitation_state
marked_refused hashes token now later invitations store marked =
    elim (mark_consumed-find (hashes.digest token) now invitations) [
      | inl missing ↦ rw (marked, inspect_invitation, missing) refl
      | inr (inv, found, used) ↦ rw (marked, inspect_invitation, found, used) refl
    ]

-- An invitation creates an account at most once: when `consume_invitation` has returned, it
-- raises ValueError for the same link ever after, whatever is to be enrolled.
pub consume_invitation_once :
    (hashes : Hashes) (e e' : Enrolment) (token : String) (now later : Instant)
    (store store' : Store) (inv : Invitation)
    → consume_invitation hashes e token now store ≡ ok (inv, store')
    → consume_invitation hashes e' token later store' ≡ raise value_error
unfolding consume_invitation
consume_invitation_once hashes e e' token now later store store' inv h =
    let (link, usable, eq) =
      >>=-eq-ok (usable_link ((inspect_invitation hashes token false now store).0)) _ h in
    let same = ap (λ p. p.1.invitations) (ok-injective eq) in
    rw
      (marked_refused hashes token now later ((enrol hashes e link store).invitations) store'
        (sym same))
      refl

used_codes :
    (account_id : ℕ) (h : String) (now : Instant) (rows : List RecoveryCode)
    → any (is_unused account_id h) (map (use_code account_id h now) rows) ≡ false
used_codes account_id h now [] = refl
used_codes account_id h now (c ∷ rows) = elim (Bool-cases (is_unused account_id h c)) [
  | inl unused ↦ rw unused (ground (arith, used_codes account_id h now rows))
  | inr used ↦ rw (used, used, used_codes account_id h now rows) refl
]

module _ (hashes : Hashes) (identifier code : String) (client : Client) where
  no_account :
      (now : Instant) (store : Store)
      → account_of identifier store ≡ none
      → verify_recovery hashes identifier code client now store ≡ (false, store)
  unfolding verify_recovery
  no_account now store missing = rw (missing, verify_recovery) refl

  no_code :
      (now : Instant) (store : Store) (a : Account)
      → account_of identifier store ≡ some a
      → any (is_unused a.account_id (hashes.digest_code code)) store.recovery_codes ≡ false
      → (verify_recovery hashes identifier code client now store).0 ≡ false
  unfolding verify_recovery
  no_code now store a found used = rw (found, verify_recovery) used

  code_used :
      (now : Instant) (store : Store) (a : Account)
      → account_of identifier store ≡ some a
      → (account_of identifier ((verify_recovery hashes identifier code client now store).1)
          ≡ some a)
        × (any
              (is_unused a.account_id (hashes.digest_code code))
              ((verify_recovery hashes identifier code client now store).1.recovery_codes)
            ≡ false)
  unfolding verify_recovery account_of
  code_used now store a found = (
    rw (found, verify_recovery) found,
    rw (found, verify_recovery)
        (used_codes a.account_id (hashes.digest_code code) now store.recovery_codes),
  )

-- A recovery code is good for one sign-in: whatever `verify_recovery` has said of a code, it
-- refuses the same code of the same identifier afterwards.
pub verify_recovery_once :
    (hashes : Hashes) (identifier code : String) (client : Client) (now later : Instant)
    (store : Store)
    → (verify_recovery hashes identifier code client later
        ((verify_recovery hashes identifier code client now store).1)).0
      ≡ false
verify_recovery_once hashes identifier code client now later store =
    let after = (verify_recovery hashes identifier code client now store).1 in
    elim (Option-cases (account_of identifier store)) [
      | inl missing ↦
          let same = ap (λ p. p.1) (no_account hashes identifier code client now store missing) in
          rw (same, no_account hashes identifier code client later store missing) refl
      | inr (a, found) ↦
          let (account, used) = code_used hashes identifier code client now store a found in
          no_code hashes identifier code client later after a account used
    ]
