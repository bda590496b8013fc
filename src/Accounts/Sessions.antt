-- ===== src/Accounts/Sessions.antt =====
-- backend/src/psychron/adapters/identity_pg.py. What a session grants.
use psychron.Accounts.{Hashes, Session, Store, find}
use psychron.Accounts.Gate.{is_live, owner_of, revoke_row, revoke_session, session_principal}
use psychron.Base.{
  Bool, Bool-cases, List, Option, Option-cases, String, [], any, is_none, ltb, arith, false,
  if◌then◌else◌, inl, inr, map, none, not, refl, some, str_eq, true, ◌&&◌, ◌||◌, ◌∷◌, ◌≡◌,
}
use psychron.Instant.{Instant}

find-any :
    {A : Type 0} (p q r : A → Bool) (xs : List A) {x : A}
    → ((y : A) → p y ≡ true → q y ≡ true → r y ≡ true)
    → find p xs ≡ some x
    → q x ≡ true
    → any r xs ≡ true
unfolding find
find-any p q r [] joins h good = cc
find-any p q r (y ∷ xs) {x} joins h good = elim (Bool-cases (p y)) [
  | inl hit ↦
      let same : y ≡ x = ground arith in
      let r_y : r y ≡ true = joins y hit (rw same good) in ground arith
  | inr miss ↦ let rest = find-any p q r xs joins (rw miss at h) good in ground arith
]

not_pending :
    (pending : Bool) (owner : Option String) {who : String}
    → (if not pending || false then owner else none) ≡ some who
    → not pending ≡ true
not_pending true owner h = cc
not_pending false owner h = refl

-- what a finished sign-in leaves: a live session that is not pending
abbrev pub is_finished : String → Instant → Session → Bool
is_finished session_id now s =
    str_eq s.session_id session_id
    && (is_none s.revoked_at && (ltb now s.expires_at && not s.pending))

-- A token stands for someone only by a session of its digest that is neither revoked nor expired
-- nor pending: a sign-in whose second factor is missing grants nothing.
pub session_principal_finished :
    (hashes : Hashes) (token who : String) (now : Instant) (store : Store)
    → session_principal hashes token false now store ≡ some who
    → any (is_finished (hashes.digest token) now) store.sessions ≡ true
unfolding session_principal
session_principal_finished hashes token who now store h =
    elim (Option-cases (find (is_live (hashes.digest token) now) store.sessions)) [
      | inl missing ↦ absurd (cc (rw (missing, session_principal) at h))
      | inr (s, found) ↦
          find-any (is_live (hashes.digest token) now) (λ s. not s.pending)
            (is_finished (hashes.digest token) now) store.sessions (λ s live finished. ground arith)
            found
            (not_pending s.pending (owner_of s.account_id store.accounts)
              (rw (found, session_principal) at h))
    ]

revoked_find :
    (h : String) (now later : Instant) (sessions : List Session)
    → find (is_live h later) (map (revoke_row h now) sessions) ≡ none
unfolding find
revoked_find h now later [] = refl
revoked_find h now later (s ∷ sessions) = elim (Bool-cases (str_eq s.session_id h)) [
  | inl hit ↦ rw hit (ground (arith, revoked_find h now later sessions))
  | inr miss ↦ rw miss (rw miss (revoked_find h now later sessions))
]

-- A revoked session is over: whether or not pending sessions are asked for, its token stands for
-- nobody at any later time.
pub revoke_session_ends :
    (hashes : Hashes) (token : String) (allow_pending : Bool) (now later : Instant) (store : Store)
    → session_principal hashes token allow_pending later (revoke_session hashes token now store)
      ≡ none
unfolding session_principal revoke_session
revoke_session_ends hashes token allow_pending now later store =
    rw (session_principal, revoked_find (hashes.digest token) now later store.sessions) refl
