-- ===== src/Auth.antt =====
-- backend/src/psychron/api/auth.py: the guard of every route.
use Prim.Native.Char.{code}
pub mod Guard
pub mod Token
mod Tests
use psychron.Base.{
  Bool, ltb, true, ◌&&◌, Option, String, [], if◌then◌else◌, none, not, some, str_eq, ◌==◌, ◌∷◌,
}
use psychron.Raise.{Result, ok, raise, type_error, value_error, ◌>>=◌}

pub record Principal : Type 0 where
  pub subject : String
  pub method : String

-- str.lower and str.strip, which CPython defines
pub record TextMethods : Type 0 where
  pub lower : String → String
  pub strip : String → String

-- `credential.partition(" ")`, less the separator
unfoldable pub partition : String → String × String
partition String.[] = ("", "")
partition (String.◌∷◌ c s) =
    let (before, after) = partition s in
    if code c == b' ' then ("", s) else (String.◌∷◌ c before, after)

unfoldable pub is_ascii : String → Bool
is_ascii String.[] = true
is_ascii (String.◌∷◌ c s) = ltb (code c) 128 && is_ascii s

-- `hmac.compare_digest`, which takes two texts only if both are ASCII
abbrev pub compare_digest : String → String → Result Bool
compare_digest a b = if is_ascii a && is_ascii b then ok (str_eq a b) else raise type_error

abbrev pub bearer : Principal
bearer = record { subject = "local"; method = "bearer-token" }

module _ (methods : TextMethods) where
  -- `TokenAuthenticator.__init__`: an empty token is refused
  abbrev pub token_authenticator : String → Result String
  token_authenticator token = if str_eq token "" then raise value_error else ok token

  -- `TokenAuthenticator.authenticate`
  unfoldable pub authenticate : String → Option String → Result (Option Principal)
  unfolding partition
  authenticate token none = ok none
  authenticate token (some credential) =
      let (scheme, value) = partition credential in
      if str_eq credential ""
      then ok none
      else if not (str_eq (methods.lower scheme) "bearer")
      then ok none
      else do
        same ← compare_digest (methods.strip value) token
        ok (if not same then none else some bearer)

  abbrev pub by_token : Option String → Option String → Result (Option Principal)
  by_token none authorization = ok none
  by_token (some token) authorization = authenticate token authorization

  abbrev pub by_session : (String → Option String) → Option String → Option Principal
  by_session principal_of none = none
  by_session principal_of (some cookie) =
      if str_eq cookie "" then none else elim (principal_of cookie) [
        | none ↦ none
        | some who ↦ some (record { subject = who; method = "session" })
      ]

  abbrev pub of_cookie : Option (String → Option String) → Option String → Option Principal
  of_cookie none cookie = none
  of_cookie (some principal_of) cookie = by_session principal_of cookie

  abbrev pub or_else : Option Principal → Result (Option Principal) → Result (Option Principal)
  or_else none p = p
  or_else (some q) p = ok (some q)

  -- `require_principal`; `none` is the HTTPException 401, and the TypeError of a header that is not
  -- ASCII escapes. The identity provider is
  -- `session_principal` as a function of the cookie, and the token that of the authenticator.
  unfoldable pub require_principal :
      Option (String → Option String)
      → Option String
      → Option String
      → Option String
      → Result (Option Principal)
  require_principal identity token authorization cookie =
      or_else (of_cookie identity cookie) (by_token token authorization)
