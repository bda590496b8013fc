-- ===== src/Admin/Codes.antt =====
use psychron.Accounts.{
  Account, Hashes, RecoveryCode, enabled, find, is_unused, Client, Invitation, Store, account_of,
  verify_recovery,
}
use psychron.Accounts.Gate.{
  Enrolment, insert_codes, is_code, renewed, upsert_account, consume_invitation, enrol,
  inspect_invitation, usable_link,
}
use psychron.Base.{
  Bool-cases, List, String, [], any, arith, inl, inr, map, none, some, str_eq, true, ℕ, ◌&&◌, ◌∷◌,
  ◌≡◌, Option-cases, ap, refl, ◌∙◌, Bool, sym, false,
}
use psychron.Accounts.House.{link}
use psychron.Instant.{Instant}
use psychron.Raise.{ok, >>=-eq-ok, ok-injective}
use psychron.SignIn.Proved.{recovery_proves}

-- backend/src/psychron/adapters/identity_pg.py, `consume_invitation`, for an account that enrols
-- again. What becomes of its old recovery codes.

insert_codes-unused :
    (hashes : Hashes) (enrolled account_id : ℕ) (h : String) (codes : List String)
    (rows : List RecoveryCode)
    → any (is_unused account_id h) rows ≡ true
    → any (is_unused account_id h) (insert_codes hashes enrolled codes rows) ≡ true
unfolding insert_codes
insert_codes-unused hashes enrolled account_id h [] rows unused = unused
insert_codes-unused hashes enrolled account_id h (code ∷ codes) rows unused =
    elim (Bool-cases (any (is_code enrolled (hashes.digest code)) rows)) [
      | inl known ↦
          rw (insert_codes, known)
            (insert_codes-unused hashes enrolled account_id h codes rows unused)
      | inr fresh ↦
          rw (insert_codes, fresh)
            (insert_codes-unused hashes enrolled account_id h codes
              (record { account_id = enrolled; code_hash = hashes.digest code; used_at = none }
                ∷ rows)
              (ground (arith, unused)))
    ]

renewed-test :
    (e : Enrolment) (renamed identifier : String) (x : Account)
    → (str_eq (renewed e renamed x).identifier identifier && enabled (renewed e renamed x))
      ≡ (str_eq x.identifier identifier && enabled x)
renewed-test e renamed identifier x = ground arith

renewed-account :
    (e : Enrolment) (renamed : String) (x : Account)
    → (renewed e renamed x).account_id ≡ x.account_id
renewed-account e renamed x = ground arith

-- the account keeps its number, and stays enabled
renewed-find :
    (e : Enrolment) (renamed identifier : String) (accounts : List Account) {a : Account}
    → find (λ x. str_eq x.identifier identifier && enabled x) accounts ≡ some a
    → (a' : Account) × (find
          (λ x. str_eq x.identifier identifier && enabled x)
          (map (renewed e renamed) accounts)
        ≡ some a')
      × (a'.account_id ≡ a.account_id)
unfolding find
renewed-find e renamed identifier [] found = cc
renewed-find e renamed identifier (x ∷ accounts) found =
    let test = renewed-test e renamed identifier x in
    elim (Bool-cases (str_eq x.identifier identifier && enabled x)) [
      | inl hit ↦
          let same = ap (λ o. elim o [ none ↦ x | some y ↦ y ]) (rw hit at found) in
          (
            renewed e renamed x,
            rw (test, hit) refl,
            renewed-account e renamed x ∙ ap (λ y. y.account_id) same,
          )
      | inr miss ↦
          let (a', there, same_id) =
            renewed-find e renamed identifier accounts (rw miss at found) in
          (a', rw (test, miss) there, same_id)
    ]

find_more :
    {A : Type 0} (p q : A → Bool) (xs : List A)
    → find p xs ≡ none
    → find (λ x. p x && q x) xs ≡ none
unfolding find
find_more p q [] h = refl
find_more p q (x ∷ xs) h = elim (Bool-cases (p x)) [
  | inl hit ↦ absurd (cc (rw hit at h))
  | inr miss ↦ rw miss (find_more p q xs (rw miss at h))
]

upsert_account-find :
    (e : Enrolment) (identifier : String) (accounts : List Account) {a : Account}
    → find (λ x. str_eq x.identifier identifier && enabled x) accounts ≡ some a
    → (a' : Account) × (find
          (λ x. str_eq x.identifier identifier && enabled x)
          ((upsert_account e identifier accounts).1)
        ≡ some a')
      × (a'.account_id ≡ a.account_id)
unfolding upsert_account
upsert_account-find e identifier accounts found =
    elim (Option-cases (find (λ x. str_eq x.identifier identifier) accounts)) [
      | inr (known, there) ↦
          rw (upsert_account, there) (renewed-find e identifier identifier accounts found)
      | inl unknown ↦
          let nobody = find_more (λ x. str_eq x.identifier identifier) enabled accounts unknown in
          absurd (cc (sym nobody ∙ found))
    ]

recovery_accepts :
    (hashes : Hashes) (identifier code : String) (client : Client) (now : Instant) (store : Store)
    (a : Account)
    → account_of identifier store ≡ some a
    → any (is_unused a.account_id (hashes.digest_code code)) store.recovery_codes ≡ true
    → (verify_recovery hashes identifier code client now store).0 ≡ true
unfolding verify_recovery
recovery_accepts hashes identifier code client now store a found unused =
    rw (verify_recovery, found) unused

enrolled_accepts :
    (hashes : Hashes) (e : Enrolment) (inv : Invitation) (identifier code : String)
    (client : Client) (later : Instant) (store store' : Store)
    → store'.accounts ≡ (enrol hashes e inv store).accounts
    → store'.recovery_codes ≡ (enrol hashes e inv store).recovery_codes
    → inv.identifier ≡ identifier
    → (a : Account) × (account_of identifier store ≡ some a)
      × (any (is_unused a.account_id (hashes.digest_code code)) store.recovery_codes ≡ true)
    → (verify_recovery hashes identifier code client later store').0 ≡ true
unfolding enrol account_of
enrolled_accepts hashes e inv identifier code client later store store' accounts codes whose
      (a, found, unused) =
    let (a', there, same_id) = upsert_account-find e identifier store.accounts found in
    let kept =
      insert_codes-unused hashes ((upsert_account e inv.identifier store.accounts).0) a'.account_id
        (hashes.digest_code code) e.codes store.recovery_codes (rw same_id unused) in
    recovery_accepts hashes identifier code client later store' a'
      (rw (account_of, accounts, whose) there) (rw codes kept)

-- Enrolling again does not replace the recovery codes: a code that an account could sign in with
-- before `consume_invitation` has renewed its password and its second factor is accepted after it.
pub old_code_accepted :
    (hashes : Hashes) (e : Enrolment) (link identifier code : String) (client : Client)
    (now later : Instant) (store store' : Store) (inv : Invitation)
    → consume_invitation hashes e link now store ≡ ok (inv, store')
    → inv.identifier ≡ identifier
    → (verify_recovery hashes identifier code client now store).0 ≡ true
    → (verify_recovery hashes identifier code client later store').0 ≡ true
unfolding consume_invitation
old_code_accepted hashes e link identifier code client now later store store' inv consumed_now named
      accepted =
    let (held, usable, eq) =
      >>=-eq-ok (usable_link ((inspect_invitation hashes link false now store).0)) _ consumed_now in
    let same = ok-injective eq in
    let whose : held.identifier ≡ identifier = ap (λ p. p.0.identifier) same ∙ named in
    enrolled_accepts hashes e held identifier code client later store store'
      (ap (λ p. p.1.accounts) (sym same)) (ap (λ p. p.1.recovery_codes) (sym same)) whose
      (recovery_proves hashes now identifier code client store accepted)
