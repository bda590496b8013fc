-- ===== src/SignIn/Rows.antt =====
use psychron.Accounts.{
  Account, check_password, password_of, Client, Hashes, Invitation, Session, Store, lockout,
  verify_password, verify_recovery, verify_totp, account_of,
}
use psychron.Accounts.Gate.{
  Enrolment, consume_invitation, enrol, insert_session, inspect_invitation, open_session,
  revoke_row, revoke_session, usable_link, session_end, is_promotable, promote_session,
}
use psychron.Base.{
  Bool, List, Option, String, [], any, ap, arith, false, map, not, refl, str_eq, sym, true, ℕ, ◌&&◌,
  ◌∷◌, ◌≡◌, ◌⊎◌, Bool-cases, Option-cases, inl, inr, none, if◌then◌else◌, ◌∙◌, eq_iff,
}
use psychron.Instant.{Instant}
use psychron.Raise.{>>=-eq-ok, ok, ok-injective}
use psychron.Identity.{session_expiry}

-- backend/src/psychron/adapters/identity_pg.py. What its operations do to the finished sessions.

-- a session that is not pending
abbrev pub finished_row : String → Session → Bool
finished_row session_id s = str_eq s.session_id session_id && not s.pending

-- the update of `promote_session`, on one row
abbrev pub promote_row : String → Instant → Instant → Session → Session
promote_row h now expires s =
    if is_promotable h now s then record s { pending = false; expires_at = expires } else s

abbrev pub holds : String → Store → Bool
holds session_id store = any (finished_row session_id) store.sessions

module _ (hashes : Hashes) (id : String) where
  check_password-sessions :
      (a : Account) (hash identifier password : String) (client : Client) (now : Instant)
      (store store' : Store) (verdict : Bool × String)
      → check_password hashes a hash identifier password client now store ≡ ok (verdict, store')
      → store'.sessions ≡ store.sessions
  check_password-sessions a hash identifier password client now store store' verdict h =
      let (right, verified, eq) = >>=-eq-ok (hashes.matches hash password) _ h in
      let same = ap (λ p. p.1.sessions) (ok-injective eq) in
      elim (Bool-cases right) [
        | inl agrees ↦ sym (rw agrees at same)
        | inr wrong ↦ sym (rw wrong at same)
      ]

  pub verify_password-sessions :
      (identifier password : String) (client : Client) (now : Instant) (store store' : Store)
      (verdict : Bool × String)
      → verify_password hashes identifier password client now store ≡ ok (verdict, store')
      → store'.sessions ≡ store.sessions
  unfolding verify_password
  verify_password-sessions identifier password client now store store' verdict h =
      let (state, looked, eq) = >>=-eq-ok (lockout identifier now store) _ h in
      elim (Bool-cases state.locked) [
        | inl locked ↦ sym (ap (λ p. p.1.sessions) (ok-injective (rw locked at eq)))
        | inr unlocked ↦ elim (Option-cases (password_of (account_of identifier store))) [
          | inl missing ↦ sym (ap (λ p. p.1.sessions) (ok-injective (rw (unlocked, missing) at eq)))
          | inr ((a, hash), found) ↦
              check_password-sessions a hash identifier password client now store store' verdict
                (rw (unlocked, found) at eq)
        ]
      ]

  pub verify_totp-sessions :
      (identifier code : String) (client : Client) (now : Instant) (store store' : Store)
      (verdict : Bool)
      → verify_totp hashes identifier code client now store ≡ ok (verdict, store')
      → store'.sessions ≡ store.sessions
  unfolding verify_totp
  verify_totp-sessions identifier code client now store store' verdict h =
      let (state, looked, eq) = >>=-eq-ok (lockout identifier now store) _ h in
      let same = ap (λ p. p.1.sessions) (ok-injective eq) in ground (arith, same)

  pub verify_recovery-sessions :
      (identifier code : String) (client : Client) (now : Instant) (store : Store)
      → (verify_recovery hashes identifier code client now store).1.sessions ≡ store.sessions
  unfolding verify_recovery
  verify_recovery-sessions identifier code client now store = ground arith

  pub revoke_session-holds :
      (token : String) (now : Instant) (store : Store)
      → holds id (revoke_session hashes token now store) ≡ holds id store
  unfolding revoke_session
  revoke_session-holds token now store = revoke_rows store.sessions
    where
      revoke_rows :
          (sessions : List Session)
          → any (finished_row id) (map (revoke_row (hashes.digest token) now) sessions)
            ≡ any (finished_row id) sessions
      revoke_rows [] = refl
      revoke_rows (s ∷ sessions) = ground (arith, revoke_rows sessions)

  pub inspect_invitation-sessions :
      (token : String) (mark_open : Bool) (now : Instant) (store : Store)
      → (inspect_invitation hashes token mark_open now store).1.sessions ≡ store.sessions
  unfolding inspect_invitation
  inspect_invitation-sessions token mark_open now store = ground arith

  pub consume_invitation-sessions :
      (e : Enrolment) (token : String) (now : Instant) (store store' : Store) (inv : Invitation)
      → consume_invitation hashes e token now store ≡ ok (inv, store')
      → store'.sessions ≡ store.sessions
  unfolding consume_invitation enrol
  consume_invitation-sessions e token now store store' inv h =
      let (link, usable, eq) =
        >>=-eq-ok (usable_link ((inspect_invitation hashes token false now store).0)) _ h in
      sym (ap (λ p. p.1.sessions) (ok-injective eq))

  inserted :
      (s : Session) (store store' : Store)
      → insert_session s store ≡ ok store'
      → holds id store' ≡ true
      → (holds id store ≡ true) ⊎ ((str_eq s.session_id id ≡ true) × (s.pending ≡ false))
  unfolding insert_session
  inserted s store store' h k =
      elim (Bool-cases (any (λ other. str_eq other.session_id s.session_id) store.sessions)) [
        | inl known ↦ absurd (cc (rw known at h))
        | inr fresh ↦
            let same = ap (λ t. t.sessions) (ok-injective (rw fresh at h)) in
            let grown : any (finished_row id) (s ∷ store.sessions) ≡ true =
              ap (λ rows. any (finished_row id) rows) same ∙ k in
            ground arith
      ]

  -- a session that is opened is finished only when it is opened without a second step
  pub open_session-holds :
      (token identifier : String) (pending : Bool) (minutes : Option ℕ) (now : Instant)
      (store store' : Store)
      → open_session hashes token identifier pending minutes now store ≡ ok store'
      → holds id store' ≡ true
      → (holds id store ≡ true) ⊎ ((str_eq (hashes.digest token) id ≡ true) × (pending ≡ false))
  unfolding open_session insert_session
  open_session-holds token identifier pending minutes now store store' h k =
      elim (Option-cases (account_of identifier store)) [
        | inl missing ↦ absurd (cc (rw (missing, open_session) at h))
        | inr (a, found) ↦
            let (expires, ends, eq) =
              >>=-eq-ok (session_end minutes now) _ (rw (found, open_session) at h) in
            inserted
              (record {
                session_id = hashes.digest token;
                account_id = a.account_id;
                expires_at = expires;
                revoked_at = none;
                pending = pending;
              })
              store store' eq k
      ]

  promote_row-finished :
      (h : String) (now expires : Instant) (s : Session)
      → str_eq h id ≡ false
      → finished_row id (promote_row h now expires s) ≡ finished_row id s
  promote_row-finished h now expires s other = elim (Bool-cases (str_eq s.session_id h)) [
    | inl same ↦
        let h_of : s.session_id ≡ h = (eq_iff s.session_id h).0 same in
        let differ : str_eq s.session_id id ≡ false = rw h_of other in ground (arith, differ)
    | inr differ ↦ ground (arith, differ)
  ]

  promoted :
      (h : String) (now expires : Instant) (sessions : List Session)
      → str_eq h id ≡ false
      → any (finished_row id) (map (promote_row h now expires) sessions)
        ≡ any (finished_row id) sessions
  promoted h now expires [] other = refl
  promoted h now expires (s ∷ sessions) other =
      rw (promote_row-finished h now expires s other, promoted h now expires sessions other) refl

  -- a session that is promoted is the one whose token is presented
  pub promote_session-holds :
      (token : String) (now : Instant) (store store' : Store) (principal : Option String)
      → promote_session hashes token now store ≡ ok (principal, store')
      → holds id store' ≡ true
      → (holds id store ≡ true) ⊎ (str_eq (hashes.digest token) id ≡ true)
  unfolding promote_session
  promote_session-holds token now store store' principal h k =
      let (expires, ends, eq) = >>=-eq-ok (session_expiry now) _ h in
      let same = ap (λ p. p.1.sessions) (ok-injective eq) in
      let rows : store'.sessions
          ≡ map (promote_row (hashes.digest token) now expires) store.sessions =
        ground (arith, same) in
      elim (Bool-cases (str_eq (hashes.digest token) id)) [
        | inl hit ↦ inr hit
        | inr other ↦ inl (
            sym (promoted (hashes.digest token) now expires store.sessions other)
            ∙ sym (ap (λ rows. any (finished_row id) rows) rows)
            ∙ k)
      ]
