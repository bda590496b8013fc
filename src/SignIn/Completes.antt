-- ===== src/SignIn/Completes.antt =====
use psychron.Accounts.{
  Session, find, Hashes, Store, Client, account_of, lockout, record_attempt, totp_of, verify_totp,
  Account, is_unused, use_code, verify_recovery,
}
use psychron.Accounts.Gate.{is_live, session_principal, owner_of, promote_session, is_promotable}
use psychron.Base.{
  sym, ◌∙◌, ◌<◌, ◌≤◌, Bool-cases, List, String, [], arith, inl, inr, map, some, true, ◌∷◌, ◌≡◌,
  Option-cases, ap, false, Bool, Option, if◌then◌else◌, none, not, ◌*◌, ◌||◌, any, refl, str_eq,
}
use psychron.Identity.{session_expiry, Lockout}
use psychron.Instant.{Instant}
use psychron.Raise.{ok, Result}
use psychron.SignIn.Rows.{promote_row}
use psychron.SignIn.{
  recovery, deleted, promote, respond, set_to, Answer, finish, fits, judge, second_factor, totp,
}

-- backend/src/psychron/api/routes_auth.py, `_finish`. A right code signs in.

find_holds : {A : Type 0} (p : A → Bool) (xs : List A) {x : A} → find p xs ≡ some x → p x ≡ true
unfolding find
find_holds p [] h = cc
find_holds p (y ∷ xs) h = elim (Bool-cases (p y)) [
  | inl hit ↦ let same = rw hit at h in ground arith
  | inr miss ↦ find_holds p xs (rw miss at h)
]

-- a session that stands only where pending ones are asked for is pending
pending_of :
    (pending : Bool) (owner : Option String) {who : String}
    → owner ≡ some who
    → (if not pending || false then owner else none) ≡ none
    → pending ≡ true
pending_of true owner h k = refl
pending_of false owner h k = absurd (cc (sym h ∙ k))

owned_by :
    (pending : Bool) (owner : Option String) {who : String}
    → (if not pending || true then owner else none) ≡ some who
    → owner ≡ some who
owned_by true owner h = h
owned_by false owner h = h

module _ (h : String) (now later expires : Instant) where
  -- a pending row is live until the end that it is promoted to
  promote_row-live :
      (s : Session)
      → is_live h now s ≡ true
      → s.pending ≡ true
      → later < expires
      → is_live h later (promote_row h now expires s) ≡ true
  promote_row-live s live pending before = ground arith

  -- a row that is dead stays dead
  promote_row-dead :
      (s : Session)
      → is_live h now s ≡ false
      → now ≤ later
      → is_live h later (promote_row h now expires s) ≡ false
  promote_row-dead s dead after = ground arith

  promote_row-pending :
      (s : Session) → is_live h now s ≡ true → (promote_row h now expires s).pending ≡ false
  promote_row-pending s live = ground arith

  promote_row-account : (s : Session) → (promote_row h now expires s).account_id ≡ s.account_id
  promote_row-account s = ground arith

  promote_row-find :
      (sessions : List Session) (s : Session)
      → now ≤ later
      → later < expires
      → s.pending ≡ true
      → find (is_live h now) sessions ≡ some s
      → find (is_live h later) (map (promote_row h now expires) sessions)
        ≡ some (promote_row h now expires s)
  unfolding find
  promote_row-find [] s after before pending found = cc
  promote_row-find (x ∷ sessions) s after before pending found =
      elim (Bool-cases (is_live h now x)) [
        | inl live ↦
            let head : x ≡ s = ground (arith, live) in
            let alive = promote_row-live x live (rw head pending) before in
            rw alive (ap (λ y. some (promote_row h now expires y)) head)
        | inr dead ↦
            rw (promote_row-dead x dead after)
              (promote_row-find sessions s after before pending (rw dead at found))
      ]

-- the answer that ends a sign-in
abbrev pub signed_in_reply : String → String → Answer String
signed_in_reply token who =
    respond
      (record { body = who; session_cookie = set_to token (12 * 3600); pending_cookie = deleted })

module _ (hashes : Hashes) (now later : Instant) where
  -- the tables as `promote_session` leaves them
  abbrev with_promoted : String → Instant → Store → Store
  with_promoted token expires store = record store {
    sessions = map (promote_row (hashes.digest token) now expires) store.sessions;
  }

  promoted_stands :
      (token who : String) (expires : Instant) (store store' : Store)
      → now ≤ later
      → later < expires
      → session_principal hashes token true now store ≡ some who
      → session_principal hashes token false now store ≡ none
      → store'.accounts ≡ store.accounts
      → store'.sessions ≡ map (promote_row (hashes.digest token) now expires) store.sessions
      → session_principal hashes token false later store' ≡ some who
  unfolding session_principal
  promoted_stands token who expires store store' after before stands unproved accounts rows =
      elim (Option-cases (find (is_live (hashes.digest token) now) store.sessions)) [
        | inl missing ↦ absurd (cc (rw (missing, session_principal) at stands))
        | inr (s, found) ↦
            let live = find_holds (is_live (hashes.digest token) now) store.sessions found in
            let owner =
              owned_by s.pending (owner_of s.account_id store.accounts)
                (rw (found, session_principal) at stands) in
            let pending =
              pending_of s.pending (owner_of s.account_id store.accounts) owner
                (rw (found, session_principal) at unproved) in
            let found' =
              promote_row-find (hashes.digest token) now later expires store.sessions s after before
                pending found in
            rw
              (
                session_principal,
                rows,
                found',
                accounts,
                promote_row-pending (hashes.digest token) now later expires s live,
                promote_row-account (hashes.digest token) now later expires s,
              )
              owner
      ]

  promote_session-total :
      (token : String) (expires : Instant) (store : Store)
      → session_expiry now ≡ ok expires
      → (principal : Option String) × (promote_session hashes token now store
          ≡ ok (principal, with_promoted token expires store))
  unfolding promote_session
  promote_session-total token expires store ends =
      elim (Bool-cases (any (is_promotable (hashes.digest token) now) store.sessions)) [
        | inl some_row ↦ (
          session_principal hashes token false now (with_promoted token expires store),
          rw (promote_session, ends, some_row) refl,
        )
        | inr no_row ↦ (none, rw (promote_session, ends, no_row) refl)
      ]

  -- a right code at the second step
  finish_signs_in :
      (set_of : List String → List String) (token who : String)
      (verify : String → Store → Result (Bool × Store)) (expires : Instant) (store store' : Store)
      → session_expiry now ≡ ok expires
      → now ≤ later
      → later < expires
      → session_principal hashes token true now store ≡ some who
      → session_principal hashes token false now store ≡ none
      → verify who store ≡ ok (true, store')
      → store'.accounts ≡ store.accounts
      → store'.sessions ≡ store.sessions
      → let reply = finish hashes set_of token verify now store in
        (reply.0 ≡ ok (signed_in_reply token who))
        × (session_principal hashes token false later reply.1 ≡ some who)
  unfolding finish judge promote
  finish_signs_in set_of token who verify expires store store' ends after before stands unproved
        verified accounts rows =
      let (principal, promoted) = promote_session-total token expires store' ends in
      rw (finish, stands, verified, judge, promote, promoted)
        (
          refl,
          promoted_stands token who expires store (with_promoted token expires store') after before
              stands unproved accounts
              (ap (λ r. map (promote_row (hashes.digest token) now expires) r) rows),
        )

-- Behind a cookie that is not empty and whose session is pending, and stands for an account that is
-- not locked out, a time-based code of 4 to 64 characters that the account's secret accepts is
-- answered with the session cookie, and from then on, at any instant of the next twelve hours, its
-- token stands for the account without the second step, as the tables are left. The clock is taken
-- to be twelve hours before the end of the calendar at least.
pub totp_signs_in :
    (hashes : Hashes) (set_of : List String → List String) (token who code secret : String)
    (client : Client) (now later expires : Instant) (lock : Lockout) (store : Store)
    → fits 4 64 code ≡ true
    → str_eq token "" ≡ false
    → session_expiry now ≡ ok expires
    → now ≤ later
    → later < expires
    → session_principal hashes token true now store ≡ some who
    → session_principal hashes token false now store ≡ none
    → lockout who now store ≡ ok lock
    → lock.locked ≡ false
    → totp_of (account_of who store) ≡ some secret
    → hashes.totp_accepts secret code now ≡ true
    → let reply = totp hashes set_of (some token) code client now store in
      (reply.0 ≡ ok (signed_in_reply token who))
      × (session_principal hashes token false later reply.1 ≡ some who)
unfolding totp second_factor verify_totp
totp_signs_in hashes set_of token who code secret client now later expires lock store fitting there
      ends after before stands unproved looked unlocked found right =
    rw (totp, second_factor, fitting, there)
      (finish_signs_in hashes now later set_of token who
        (λ name s. verify_totp hashes name code client now s) expires store
        (record_attempt who "totp" "ok" client now store) ends after before stands unproved
        (rw (verify_totp, looked, unlocked, found, right) refl) refl refl)

-- Behind a cookie that is not empty and whose session is pending and stands for an account, an
-- unused recovery code of the account, of 4 to 64 characters, is answered with the session cookie,
-- and its token stands for the account at any instant of the next twelve hours, as the tables are
-- left. This is so whatever the attempts before it: a lockout, which refuses the password and the
-- time-based code, does not refuse it. The clock is taken to be twelve hours before the end of the
-- calendar at least.
pub recovery_signs_in :
    (hashes : Hashes) (set_of : List String → List String) (token who code : String) (a : Account)
    (client : Client) (now later expires : Instant) (store : Store)
    → fits 4 64 code ≡ true
    → str_eq token "" ≡ false
    → session_expiry now ≡ ok expires
    → now ≤ later
    → later < expires
    → session_principal hashes token true now store ≡ some who
    → session_principal hashes token false now store ≡ none
    → account_of who store ≡ some a
    → any (is_unused a.account_id (hashes.digest_code code)) store.recovery_codes ≡ true
    → let reply = recovery hashes set_of (some token) code client now store in
      (reply.0 ≡ ok (signed_in_reply token who))
      × (session_principal hashes token false later reply.1 ≡ some who)
unfolding recovery second_factor verify_recovery
recovery_signs_in hashes set_of token who code a client now later expires store fitting there ends
      after before stands unproved found unused =
    let spent : Store = record store {
      recovery_codes =
          map (use_code a.account_id (hashes.digest_code code) now) store.recovery_codes;
    } in
    rw (recovery, second_factor, fitting, there)
      (finish_signs_in hashes now later set_of token who
        (λ name s. ok (verify_recovery hashes name code client now s)) expires store
        (record_attempt who "recovery" "ok" client now spent) ends after before stands unproved
        (rw (verify_recovery, found, unused) refl) refl refl)
