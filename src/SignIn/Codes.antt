-- ===== src/SignIn/Codes.antt =====
use psychron.SignIn.{
  recovery, finish, fits, judge, present_cookie, promote, refuse_code, second_factor, totp,
}
use psychron.Accounts.{Client, Hashes, Store, lockout, verify_recovery, verify_totp}
use psychron.Accounts.Gate.{promote_session, session_principal}
use psychron.Base.{
  Bool, Bool-cases, List, Option, Option-cases, String, any, ap, false, inl, inr, refl, some,
  str_eq, sym, true, ◌∙◌, ◌≡◌, ◌⊎◌,
}
use psychron.Instant.{Instant}
use psychron.Raise.{Error, Result, Result-cases, ok, ok-injective, raise}
use psychron.SignIn.Proved.{by_totp, by_recovery, Proved, recovery_proves, totp_proves}
use psychron.SignIn.Rows.{
  finished_row, holds, promote_session-holds, verify_recovery-sessions, verify_totp-sessions,
}
use psychron.SignIn.Serve.{to_recovery, to_totp}

-- backend/src/psychron/api/routes_auth.py, `_finish` and its two routes: what they leave finished.

module _ (hashes : Hashes) (set_of : List String → List String) (id : String) (now : Instant) where
  promote-holds :
      (token who : String) (store : Store)
      → holds id ((promote hashes set_of token who now store).1) ≡ true
      → (holds id store ≡ true) ⊎ (str_eq (hashes.digest token) id ≡ true)
  unfolding promote
  promote-holds token who store h = elim (Result-cases (promote_session hashes token now store)) [
    | inl (e, failed) ↦ inl (rw (failed, promote) at h)
    | inr ((principal, store'), finished) ↦
        promote_session-holds hashes id token now store store' principal finished
          (rw (finished, promote) at h)
  ]

  refuse_code-holds :
      (who : String) (store : Store)
      → holds id ((refuse_code hashes set_of who now store).1) ≡ true
      → holds id store ≡ true
  unfolding refuse_code
  refuse_code-holds who store h = elim (Result-cases (lockout who now store)) [
    | inl (e, failed) ↦ rw (failed, refuse_code) at h
    | inr (lock, looked) ↦ rw (looked, refuse_code) at h
  ]

  judge-holds :
      (token who : String) (store store' : Store) (accepted : Bool)
      → store'.sessions ≡ store.sessions
      → holds id ((judge hashes set_of token who now store (ok (accepted, store'))).1) ≡ true
      → (holds id store ≡ true) ⊎ ((accepted ≡ true) × (str_eq (hashes.digest token) id ≡ true))
  unfolding judge
  judge-holds token who store store' true same h = elim (promote-holds token who store' h) [
    | inl before ↦ inl (ap (λ rows. any (finished_row id) rows) (sym same) ∙ before)
    | inr matched ↦ inr (refl, matched)
  ]
  judge-holds token who store store' false same h =
      inl (ap (λ rows. any (finished_row id) rows) (sym same) ∙ refuse_code-holds who store' h)

  raised-holds :
      (token who : String) (store : Store) (e : Error)
      → holds id ((judge hashes set_of token who now store (raise e)).1) ≡ true
      → holds id store ≡ true
  unfolding judge
  raised-holds token who store e h = h

  finish-holds :
      (token : String) (verify : String → Store → Result (Bool × Store)) (store : Store)
      → ((who : String) (store' : Store) (accepted : Bool)
          → verify who store ≡ ok (accepted, store')
          → store'.sessions ≡ store.sessions)
      → holds id ((finish hashes set_of token verify now store).1) ≡ true
      → (holds id store ≡ true)
        ⊎ ((who : String) × (store' : Store) × (session_principal hashes token true now store
              ≡ some who)
            × (verify who store ≡ ok (true, store'))
            × (str_eq (hashes.digest token) id ≡ true))
  unfolding finish
  finish-holds token verify store keeps h =
      elim (Option-cases (session_principal hashes token true now store)) [
        | inl nobody ↦ inl (rw (nobody, finish) at h)
        | inr (who, stands) ↦ elim (Result-cases (verify who store)) [
          | inl (e, failed) ↦
              inl (raised-holds token who store e (rw (stands, failed, finish) at h))
          | inr ((accepted, store'), verified) ↦
              elim (judge-holds token who store store' accepted (keeps who store' accepted verified)
                (rw (stands, verified, finish) at h)) [
                  | inl before ↦ inl before
                  | inr (granted, matched) ↦
                      inr (who, store', stands, rw granted at verified, matched)
                ]
        ]
      ]

  -- a second factor finishes a session only when it is accepted, and then that of the cookie
  second_factor-holds :
      (pending : Option String) (code : String) (verify : String → Store → Result (Bool × Store))
      (store : Store)
      → ((who : String) (store' : Store) (accepted : Bool)
          → verify who store ≡ ok (accepted, store')
          → store'.sessions ≡ store.sessions)
      → holds id ((second_factor hashes set_of pending code verify now store).1) ≡ true
      → (holds id store ≡ true)
        ⊎ ((token : String) × (who : String) × (store' : Store) × (present_cookie pending
              ≡ some token)
            × (session_principal hashes token true now store ≡ some who)
            × (verify who store ≡ ok (true, store'))
            × (str_eq (hashes.digest token) id ≡ true))
  unfolding second_factor
  second_factor-holds pending code verify store keeps h = elim (Bool-cases (fits 4 64 code)) [
    | inr bad ↦ inl (rw (bad, second_factor) at h)
    | inl good ↦ elim (Option-cases (present_cookie pending)) [
      | inl absent ↦ inl (rw (good, absent, second_factor) at h)
      | inr (token, shown) ↦
          elim (finish-holds token verify store keeps (rw (good, shown, second_factor) at h)) [
            | inl before ↦ inl before
            | inr (who, store', stands, verified, matched) ↦
                inr (token, who, store', shown, stands, verified, matched)
          ]
    ]
  ]

  pub totp_finishes :
      (pending : Option String) (code : String) (client : Client) (store : Store)
      → holds id ((totp hashes set_of pending code client now store).1) ≡ true
      → (holds id store ≡ true) ⊎ Proved hashes now store id (to_totp pending code client)
  unfolding totp
  totp_finishes pending code client store h =
      elim (second_factor-holds pending code (λ who s. verify_totp hashes who code client now s)
        store
        (λ who store' accepted eq.
          verify_totp-sessions hashes id who code client now store store' accepted eq)
        h) [
          | inl before ↦ inl before
          | inr (token, who, store', shown, stands, verified, matched) ↦
              let (secret, found, right) =
                totp_proves hashes now who code client store store' verified in
              inr (by_totp token who secret shown stands found right matched)
        ]

  pub recovery_finishes :
      (pending : Option String) (code : String) (client : Client) (store : Store)
      → holds id ((recovery hashes set_of pending code client now store).1) ≡ true
      → (holds id store ≡ true) ⊎ Proved hashes now store id (to_recovery pending code client)
  unfolding recovery
  recovery_finishes pending code client store h =
      elim (second_factor-holds pending code
        (λ who s. ok (verify_recovery hashes who code client now s)) store
        (λ who store' accepted eq.
          sym (ap (λ p. p.1.sessions) (ok-injective eq))
          ∙ verify_recovery-sessions hashes id who code client now store)
        h) [
          | inl before ↦ inl before
          | inr (token, who, store', shown, stands, verified, matched) ↦
              let (a, found, unused) =
                recovery_proves hashes now who code client store
                  (ap (λ p. p.0) (ok-injective verified)) in
              inr (by_recovery token who a shown stands found unused matched)
        ]
