-- ===== src/SignIn/Links.antt =====
use psychron.Accounts.{Hashes, Invitation, Store}
use psychron.Accounts.Gate.{Enrolment, consume_invitation, inspect_invitation, open_session}
use psychron.Base.{
  Bool-cases, List, Option, Option-cases, String, any, ap, inl, inr, refl, some, sym, true, ◌&&◌,
  ◌∙◌, ◌≡◌,
}
use psychron.Fixture.{started}
use psychron.Instant.{Instant}
use psychron.Raise.{is_value_error, Result-cases}
use psychron.SignIn.{fits, logout, present_cookie}
use psychron.SignIn.Answers.{accept, greet, inspect}
use psychron.SignIn.Rows.{
  consume_invitation-sessions, finished_row, holds, inspect_invitation-sessions, open_session-holds,
  revoke_session-holds,
}

-- backend/src/psychron/api/routes_auth.py, `logout` and the routes of an invitation: they finish no
-- session.

module _ (hashes : Hashes) (set_of : List String → List String) (id : String) (now : Instant) where
  pub logout-holds :
      (session : Option String) (store : Store)
      → holds id ((logout hashes set_of session now store).1) ≡ holds id store
  unfolding logout
  logout-holds session store = elim (Option-cases (present_cookie session)) [
    | inl absent ↦ rw (logout, absent) refl
    | inr (token, shown) ↦ rw (logout, shown) (revoke_session-holds hashes id token now store)
  ]

  pub inspect-holds :
      (token : String) (store : Store)
      → holds id ((inspect hashes token now store).1) ≡ holds id store
  unfolding inspect
  inspect-holds token store =
      elim (Option-cases ((inspect_invitation hashes token true now store).0)) [
        | inl unknown ↦
            rw (inspect, unknown)
              (ap (λ rows. any (finished_row id) rows)
                (inspect_invitation-sessions hashes id token true now store))
        | inr ((inv, state), known) ↦
            rw (inspect, known)
              (ap (λ rows. any (finished_row id) rows)
                (inspect_invitation-sessions hashes id token true now store))
      ]

  greet-holds :
      (e : Enrolment) (token : String) (inv : Invitation) (store : Store)
      → holds id ((greet hashes e token inv now store).1) ≡ true
      → holds id store ≡ true
  unfolding greet
  greet-holds e token inv store h =
      elim (Result-cases (open_session hashes token inv.identifier true (some 10) now store)) [
        | inl (x, failed) ↦ rw (failed, greet) at h
        | inr (store', started) ↦
            elim (open_session-holds hashes id token inv.identifier true (some 10) now store store'
              started (rw (started, greet) at h)) [
                | inl before ↦ before
                | inr (same, p) ↦ absurd (cc p)
              ]
      ]

  pub accept-holds :
      (e : Enrolment) (token password pending_token : String) (store : Store)
      → holds id ((accept hashes e token password pending_token now store).1) ≡ true
      → holds id store ≡ true
  unfolding accept
  accept-holds e token password pending_token store h =
      elim (Bool-cases (fits 8 200 token && fits 12 400 password)) [
        | inr bad ↦ rw (bad, accept) at h
        | inl good ↦ elim (Result-cases (consume_invitation hashes e token now store)) [
          | inl (x, failed) ↦ elim (Bool-cases (is_value_error x)) [
            | inl used ↦ rw (good, failed, used, accept) at h
            | inr other ↦ rw (good, failed, other, accept) at h
          ]
          | inr ((inv, store'), consumed_now) ↦
              ap (λ rows. any (finished_row id) rows)
                (sym
                  (consume_invitation-sessions hashes id e token now store store' inv consumed_now))
              ∙ greet-holds e pending_token inv store' (rw (good, consumed_now, accept) at h)
        ]
      ]
