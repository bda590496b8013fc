-- ===== src/SignIn/Second.antt =====
use psychron.Accounts.{Hashes, Session, Store}
use psychron.Accounts.Gate.{session_principal}
use psychron.Accounts.Sessions.{is_finished, session_principal_finished}
use psychron.Base.{
  List, String, [], any, arith, false, inl, inr, some, sym, true, ◌∙◌, ◌∷◌, ◌≡◌, ◌⊎◌,
}
use psychron.Instant.{Instant}
use psychron.SignIn.Codes.{recovery_finishes, totp_finishes}
use psychron.SignIn.Links.{accept-holds, inspect-holds, logout-holds}
use psychron.SignIn.Password.{login_proves}
use psychron.SignIn.Proved.{Proved}
use psychron.SignIn.Rows.{finished_row, holds}
use psychron.SignIn.Serve.{
  Request, after, serve, to_accept, to_inspect, to_login, to_logout, to_recovery, to_totp,
}

-- backend/src/psychron/api/routes_auth.py. A session is finished only by what proves it.

-- Whatever a request does, a session is finished after it only if it was before, or if the request
-- is a sign-in that shows the right password of an account without a second factor, or a second
-- factor that is accepted for the account that the presented pending session stands for.
pub finished_by_proof :
    (hashes : Hashes) (set_of : List String → List String) (id : String) (request : Request)
    (now : Instant) (store : Store)
    → holds id (after hashes set_of request now store) ≡ true
    → (holds id store ≡ true) ⊎ Proved hashes now store id request
unfolding after
finished_by_proof hashes set_of id (to_login identifier password token client) now store h =
    login_proves hashes set_of id now identifier password token client store h
finished_by_proof hashes set_of id (to_totp pending code client) now store h =
    totp_finishes hashes set_of id now pending code client store h
finished_by_proof hashes set_of id (to_recovery pending code client) now store h =
    recovery_finishes hashes set_of id now pending code client store h
finished_by_proof hashes set_of id (to_logout session) now store h =
    inl (sym (logout-holds hashes set_of id now session store) ∙ h)
finished_by_proof hashes set_of id (to_inspect token) now store h =
    inl (sym (inspect-holds hashes set_of id now token store) ∙ h)
finished_by_proof hashes set_of id (to_accept e token password pending_token) now store h =
    inl (accept-holds hashes set_of id now e token password pending_token store h)

finished-holds :
    (id : String) (now : Instant) (sessions : List Session)
    → any (is_finished id now) sessions ≡ true
    → any (finished_row id) sessions ≡ true
finished-holds id now [] h = h
finished-holds id now (s ∷ sessions) h = ground (arith, finished-holds id now sessions)

-- some request of a history proves the session, at the tables as that request finds them
abbrev pub ProvedWithin :
    Hashes → (List String → List String) → String → List (Request × Instant) → Store → Type 0
ProvedWithin hashes set_of id [] store = ⊥
ProvedWithin hashes set_of id ((request, now) ∷ requests) store =
    Proved hashes now store id request
    ⊎ ProvedWithin hashes set_of id requests (after hashes set_of request now store)

holds-serve :
    (hashes : Hashes) (set_of : List String → List String) (id : String)
    (requests : List (Request × Instant)) (store : Store)
    → holds id (serve hashes set_of requests store) ≡ true
    → (holds id store ≡ true) ⊎ ProvedWithin hashes set_of id requests store
unfolding serve
holds-serve hashes set_of id [] store h = inl h
holds-serve hashes set_of id ((request, now) ∷ requests) store h =
    elim (holds-serve hashes set_of id requests (after hashes set_of request now store) h) [
      | inr later ↦ inr (inr later)
      | inl after_it ↦ elim (finished_by_proof hashes set_of id request now store after_it) [
        | inl before ↦ inl before
        | inr proof ↦ inr (inl proof)
      ]
    ]

-- A token that stands for someone after any history of requests is one whose session was finished
-- before it, or a request of the history finishes it by what it shows: the right password of an
-- account without a second factor, or a second factor that is accepted for the account that the
-- presented pending session stands for.
pub principal_proved :
    (hashes : Hashes) (set_of : List String → List String) (token who : String)
    (requests : List (Request × Instant)) (later : Instant) (store : Store)
    → session_principal hashes token false later (serve hashes set_of requests store) ≡ some who
    → (holds (hashes.digest token) store ≡ true)
      ⊎ ProvedWithin hashes set_of (hashes.digest token) requests store
principal_proved hashes set_of token who requests later store h =
    holds-serve hashes set_of (hashes.digest token) requests store (
      finished-holds (hashes.digest token) later (serve hashes set_of requests store).sessions
        (session_principal_finished hashes token who later (serve hashes set_of requests store) h))
