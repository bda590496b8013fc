-- ===== src/App/Sockets.antt =====
use Prim.Native.String.{◌++◌ as text_append}
use psychron.App.{socket_allowed}
use psychron.Auth.{TextMethods, require_principal, by_session}
use psychron.Raise.{ok, ◌>>=◌}
use psychron.Base.{Option, String, is_some, some, ◌≡◌, Option-cases, inl, inr, refl, none}

-- backend/src/psychron/api/app.py, `_socket_allowed`, beside api/auth.py, `require_principal`.

-- The sockets and the routes have one guard: a socket is let in exactly when a route would let in a
-- request with the same cookie and with the query's token as its bearer token, and an exception
-- escapes the one exactly when it escapes the other.
pub socket_allowed_lem :
    (methods : TextMethods) (principal_of : String → Option String) (token cookie : Option String)
    (query : String)
    → socket_allowed methods principal_of token cookie query ≡ (
        require_principal methods
          (some principal_of)
          token
          (some (text_append "Bearer " query))
          cookie
        >>= λ principal. ok (is_some principal))
unfolding socket_allowed require_principal
socket_allowed_lem methods principal_of none cookie query =
    elim (Option-cases (by_session methods principal_of cookie)) [
      | inr (who, session) ↦ rw (socket_allowed, session, require_principal) refl
      | inl nobody ↦ rw (socket_allowed, nobody, require_principal) refl
    ]
socket_allowed_lem methods principal_of (some secret) cookie query =
    elim (Option-cases (by_session methods principal_of cookie)) [
      | inr (who, session) ↦ rw (socket_allowed, session, require_principal) refl
      | inl nobody ↦ rw (socket_allowed, nobody, require_principal) refl
    ]
