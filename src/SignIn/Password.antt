-- ===== src/SignIn/Password.antt =====
use psychron.Accounts.{Client, Hashes, Store, lockout, verify_password}
use psychron.Accounts.Gate.{open_session}
use psychron.Base.{
  Bool, Bool-cases, List, String, any, ap, false, inl, inr, none, refl, some, str_eq, sym, true,
  ◌&&◌, ◌∙◌, ◌≡◌, ◌⊎◌,
}
use psychron.Fixture.{started}
use psychron.Identity.{Lockout}
use psychron.Instant.{Instant}
use psychron.Raise.{Result-cases}
use psychron.SignIn.{answer_login, ask_second_factor, finish_login, fits, login, looked_up}
use psychron.SignIn.Proved.{by_password, Proved, password_proves}
use psychron.SignIn.Rows.{finished_row, holds, open_session-holds, verify_password-sessions}
use psychron.SignIn.Serve.{to_login}

-- backend/src/psychron/api/routes_auth.py, `login`: what it leaves finished.

module _ (hashes : Hashes) (set_of : List String → List String) (id : String) (now : Instant) where
  finish_login-holds :
      (identifier token : String) (store : Store)
      → holds id ((finish_login hashes set_of identifier token now store).1) ≡ true
      → (holds id store ≡ true) ⊎ (str_eq (hashes.digest token) id ≡ true)
  unfolding finish_login
  finish_login-holds identifier token store h =
      elim (Result-cases (open_session hashes token identifier false none now store)) [
        | inl (e, failed) ↦ inl (rw (failed, finish_login) at h)
        | inr (store', started) ↦
            elim (open_session-holds hashes id token identifier false none now store store' started
              (rw (started, finish_login) at h)) [
                | inl before ↦ inl before
                | inr (same, p) ↦ inr same
              ]
      ]

  ask_second_factor-holds :
      (identifier token : String) (client : Client) (lock : Lockout) (store : Store)
      → holds id ((ask_second_factor hashes set_of identifier token client lock now store).1) ≡ true
      → holds id store ≡ true
  unfolding ask_second_factor
  ask_second_factor-holds identifier token client lock store h =
      elim (Result-cases (open_session hashes token identifier true (some 5) now store)) [
        | inl (e, failed) ↦ rw (failed, ask_second_factor) at h
        | inr (store', started) ↦
            elim (open_session-holds hashes id token identifier true (some 5) now store store'
              started (rw (started, ask_second_factor) at h)) [
                | inl before ↦ before
                | inr (same, p) ↦ absurd (cc p)
              ]
      ]

  answer_login-holds :
      (identifier token : String) (client : Client) (accepted : Bool) (outcome : String)
      (lock : Lockout) (store : Store)
      → holds id (
          (answer_login hashes set_of identifier token client (accepted, outcome) lock now store).1)
        ≡ true
      → (holds id store ≡ true)
        ⊎ ((accepted ≡ true)
            × (str_eq outcome "ok" ≡ true)
            × (str_eq (hashes.digest token) id ≡ true))
  unfolding answer_login
  answer_login-holds identifier token client false outcome lock store h =
      inl (elim (Bool-cases (str_eq outcome "locked")) [
        | inl hit ↦ rw (hit, answer_login) at h
        | inr miss ↦ rw (miss, answer_login) at h
      ])
  answer_login-holds identifier token client true outcome lock store h =
      elim (Bool-cases (str_eq outcome "ok")) [
        | inl single ↦
            elim (finish_login-holds identifier token store (rw (single, answer_login) at h)) [
              | inl before ↦ inl before
              | inr same ↦ inr (refl, single, same)
            ]
        | inr double ↦ inl (
            ask_second_factor-holds identifier token client lock store
              (rw (double, answer_login) at h))
      ]

  looked_up-holds :
      (identifier token : String) (client : Client) (verdict : Bool × String) (store : Store)
      → holds id ((looked_up hashes set_of identifier token client verdict now store).1) ≡ true
      → (holds id store ≡ true)
        ⊎ ((verdict.0 ≡ true)
            × (str_eq verdict.1 "ok" ≡ true)
            × (str_eq (hashes.digest token) id ≡ true))
  unfolding looked_up
  looked_up-holds identifier token client (accepted, outcome) store h =
      elim (Result-cases (lockout identifier now store)) [
        | inl (e, failed) ↦ inl (rw (failed, looked_up) at h)
        | inr (lock, looked) ↦
            answer_login-holds identifier token client accepted outcome lock store
              (rw (looked, looked_up) at h)
      ]

  pub login_proves :
      (identifier password token : String) (client : Client) (store : Store)
      → holds id ((login hashes set_of identifier password token client now store).1) ≡ true
      → (holds id store ≡ true)
        ⊎ Proved hashes now store id (to_login identifier password token client)
  unfolding login
  login_proves identifier password token client store h =
      elim (Bool-cases (fits 1 200 identifier && fits 1 400 password)) [
        | inr bad ↦ inl (rw (bad, login) at h)
        | inl good ↦
            elim (Result-cases (verify_password hashes identifier password client now store)) [
              | inl (e, failed) ↦ inl (rw (good, login, failed) at h)
              | inr (((accepted, outcome), store'), verified) ↦
                  let same =
                    verify_password-sessions hashes id identifier password client now store store'
                      (accepted, outcome) verified in
                  elim (looked_up-holds identifier token client (accepted, outcome) store'
                    (rw (good, login, verified) at h)) [
                      | inl before ↦
                          inl (ap (λ rows. any (finished_row id) rows) (sym same) ∙ before)
                      | inr (granted, first, matched) ↦
                          let (a, hash, found, has, right, single) =
                            password_proves hashes now identifier password outcome client store
                              store' (rw granted at verified) first in
                          inr (by_password a hash found has right single matched)
                    ]
            ]
      ]
