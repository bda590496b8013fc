-- ===== src/Auth/Guard.antt =====
-- backend/src/psychron/api/auth.py. Who passes the guard.
use psychron.Accounts.{Hashes, Store}
use psychron.Accounts.Gate.{session_principal}
use psychron.Accounts.Sessions.{is_finished, session_principal_finished}
use psychron.Auth.{
  Principal, TextMethods, bearer, compare_digest, is_ascii, authenticate, by_session, by_token,
  partition, require_principal,
}
use psychron.Base.{
  if◌then◌else◌, not, ◌&&◌, Bool-cases, Option, Option-cases, String, any, arith, eq_iff, false,
  inl, inr, none, refl, some, str_eq, true, ◌≡◌, ◌⊎◌,
}
use psychron.Instant.{Instant}
use psychron.Raise.{◌>>=◌, ok, ok-injective}

compared_sound :
    (value token : String) (p : Principal)
    → (compare_digest value token >>= λ same. ok (if not same then none else some bearer))
      ≡ ok (some p)
    → value ≡ token
compared_sound value token p h = elim (Bool-cases (is_ascii value && is_ascii token)) [
  | inr refused ↦ absurd (cc (rw refused at h))
  | inl ascii ↦ elim (Bool-cases (str_eq value token)) [
    | inl same ↦ (eq_iff value token).0 same
    | inr differ ↦ absurd (cc (ok-injective (rw (ascii, differ) at h)))
  ]
]

module _ (methods : TextMethods) where
  authenticate_sound :
      (token : String) (authorization : Option String) (p : Principal)
      → authenticate methods token authorization ≡ ok (some p)
      → (credential : String) × (authorization ≡ some credential)
        × (methods.strip ((partition credential).1) ≡ token)
  unfolding authenticate
  authenticate_sound token none p h = absurd (cc (ok-injective h))
  authenticate_sound token (some credential) p h = (
    credential,
    refl,
    elim (Bool-cases (str_eq credential "")) [
      | inl empty ↦ absurd (cc (ok-injective (rw empty at h)))
      | inr given ↦ elim (Bool-cases (str_eq (methods.lower ((partition credential).0)) "bearer")) [
        | inr other ↦ absurd (cc (ok-injective (rw (given, other) at h)))
        | inl scheme ↦
            compared_sound (methods.strip ((partition credential).1)) token p
              (rw (given, scheme) at h)
      ]
    ],
  )

  by_token_sound :
      (token authorization : Option String) (p : Principal)
      → by_token methods token authorization ≡ ok (some p)
      → (t : String) × (credential : String) × (token ≡ some t)
        × (authorization ≡ some credential)
        × (methods.strip ((partition credential).1) ≡ t)
  by_token_sound none authorization p h = absurd (cc (ok-injective h))
  by_token_sound (some t) authorization p h =
      let (credential, given, same) = authenticate_sound t authorization p h in
      (t, credential, refl, given, same)

  by_session_sound :
      (principal_of : String → Option String) (cookie : Option String) (p : Principal)
      → by_session methods principal_of cookie ≡ some p
      → (c : String) × (who : String) × (cookie ≡ some c) × (principal_of c ≡ some who)
  by_session_sound principal_of none p h = cc
  by_session_sound principal_of (some c) p h = elim (Option-cases (principal_of c)) [
    | inl nobody ↦ absurd (ground (arith, nobody))
    | inr (who, found) ↦ (c, who, refl, found)
  ]

  -- A request passes the guard only with the cookie of a session that is neither revoked nor
  -- expired nor pending, or with a header that carries the token, which is then set.
  pub require_principal_sound :
      (hashes : Hashes) (now : Instant) (store : Store) (token authorization cookie : Option String)
      (p : Principal)
      → require_principal methods
          (some (λ c. session_principal hashes c false now store))
          token
          authorization
          cookie
        ≡ ok (some p)
      → ((c : String) × (cookie ≡ some c)
          × (any (is_finished (hashes.digest c) now) store.sessions ≡ true))
        ⊎ ((t : String) × (credential : String) × (token ≡ some t)
            × (authorization ≡ some credential)
            × (methods.strip ((partition credential).1) ≡ t))
  unfolding require_principal
  require_principal_sound hashes now store token authorization cookie p h =
      elim (Option-cases
        (by_session methods (λ c. session_principal hashes c false now store) cookie)) [
          | inr (q, found) ↦
              let (c, who, given, known) =
                by_session_sound (λ c. session_principal hashes c false now store) cookie q found in
              inl (c, given, session_principal_finished hashes c who now store known)
          | inl nobody ↦ inr (by_token_sound token authorization p (rw nobody at h))
        ]
