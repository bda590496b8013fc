-- ===== src/Accounts/Gate.antt =====
-- backend/src/psychron/adapters/identity_pg.py: sessions and invitations.
use psychron.Accounts.{
  Account, Hashes, Invitation, Session, Store, account_of, enabled, find, RecoveryCode,
}
use psychron.Base.{
  Bool, List, Option, String, [], any, false, if◌then◌else◌, is_none, ltb, map, none, not, some,
  str_eq, suc, true, zero, ℕ, ◌&&◌, ◌*◌, ◌==◌, ◌||◌, ◌∷◌,
}
use psychron.Identity.{
  LinkState, consumed, expired, invitation_state, issued, opened, session_expiry,
}
use psychron.Instant.{Instant, plus_ms}
use psychron.Raise.{Result, ok, raise, unique_violation, value_error, ◌>>=◌}

-- the session of a token that the first four conditions of `session_principal` leave
abbrev pub is_live : String → Instant → Session → Bool
is_live session_id now s =
    str_eq s.session_id session_id && (is_none s.revoked_at && ltb now s.expires_at)

-- `a.disabled_at IS NULL`, joined by account_id
unfoldable pub owner_of : ℕ → List Account → Option String
owner_of account_id [] = none
owner_of account_id (a ∷ accounts) =
    if a.account_id == account_id && enabled a
    then some a.identifier
    else owner_of account_id accounts

-- `now + timedelta(minutes=minutes) if minutes else session_expiry(now)`
abbrev pub session_end : Option ℕ → Instant → Result Instant
session_end none now = session_expiry now
session_end (some zero) now = session_expiry now
session_end (some (suc n)) now = plus_ms now (suc n * 60000)

abbrev pub is_invitation : String → Invitation → Bool
is_invitation token_hash inv = str_eq inv.token_hash token_hash

abbrev pub is_issued : LinkState → Bool
is_issued issued = true
is_issued _ = false

abbrev pub mark_opened : String → Instant → Invitation → Invitation
mark_opened token_hash now inv =
    if is_invitation token_hash inv then record inv { opened_at = some now } else inv

abbrev pub mark_consumed : String → Instant → Invitation → Invitation
mark_consumed token_hash now inv =
    if is_invitation token_hash inv then record inv { consumed_at = some now } else inv

-- `info is None or info["state"] not in ("issued", "open")`
abbrev pub usable_link : Option (Invitation × LinkState) → Result Invitation
usable_link none = raise value_error
usable_link (some (inv, issued)) = ok inv
usable_link (some (inv, opened)) = ok inv
usable_link (some (inv, consumed)) = raise value_error
usable_link (some (inv, expired)) = raise value_error

-- what `consume_invitation` draws at random and hashes, and the account_id that a new row gets
pub record Enrolment : Type 0 where
  pub fresh_id : ℕ
  pub password_hash : String
  pub secret : String
  pub codes : List String

abbrev pub is_code : ℕ → String → RecoveryCode → Bool
is_code account_id code_hash c = c.account_id == account_id && str_eq c.code_hash code_hash

-- `account_count() == 0`
abbrev pub no_accounts : List Account → Bool
no_accounts accounts = not (any enabled accounts)

abbrev pub renewed : Enrolment → String → Account → Account
renewed e identifier a =
    if str_eq a.identifier identifier
    then record a { password_hash = some e.password_hash; totp_secret = some e.secret }
    else a

-- `INSERT INTO account ... ON CONFLICT (identifier) DO UPDATE ... RETURNING account_id`
unfoldable pub upsert_account : Enrolment → String → List Account → ℕ × List Account
unfolding find
upsert_account e identifier accounts = elim (find (λ a. str_eq a.identifier identifier) accounts) [
  | some a ↦ (a.account_id, map (renewed e identifier) accounts)
  | none ↦ (
    e.fresh_id,
    record {
      account_id = e.fresh_id;
      identifier = identifier;
      password_hash = some e.password_hash;
      totp_secret = some e.secret;
      is_owner = no_accounts accounts;
      disabled_at = none;
    }
        ∷ accounts,
  )
]

-- `INSERT INTO session`, whose primary key is the digest of the token
unfoldable pub insert_session : Session → Store → Result Store
insert_session s store =
    if any (λ other. str_eq other.session_id s.session_id) store.sessions
    then raise unique_violation
    else ok (record store { sessions = s ∷ store.sessions })

-- `UPDATE session SET pending = false ... AND pending = true AND expires_at > now()`
abbrev pub is_promotable : String → Instant → Session → Bool
is_promotable session_id now s =
    str_eq s.session_id session_id && (s.pending && ltb now s.expires_at)

-- `UPDATE session SET revoked_at = now()`
abbrev pub revoke_row : String → Instant → Session → Session
revoke_row session_id now s =
    if str_eq s.session_id session_id then record s { revoked_at = some now } else s

module _ (hashes : Hashes) where
  unfoldable pub session_principal : String → Bool → Instant → Store → Option String
  unfolding find owner_of
  session_principal token allow_pending now store =
      elim (find (is_live (hashes.digest token) now) store.sessions) [
        | none ↦ none
        | some s ↦
            if not s.pending || allow_pending then owner_of s.account_id store.accounts else none
      ]

  -- `token` is `secrets.token_urlsafe(32)`
  unfoldable pub open_session : String → String → Bool → Option ℕ → Instant → Store → Result Store
  unfolding account_of insert_session
  open_session token identifier pending minutes now store = elim (account_of identifier store) [
    | none ↦ raise value_error
    | some account ↦ do
      expires ← session_end minutes now
      insert_session
          (record {
            session_id = hashes.digest token;
            account_id = account.account_id;
            expires_at = expires;
            revoked_at = none;
            pending = pending;
          })
          store
  ]

  unfoldable pub promote_session : String → Instant → Store → Result (Option String × Store)
  unfolding session_principal
  promote_session token now store = do
    expires ← session_expiry now
    let promotable = is_promotable (hashes.digest token) now
    let store' = record store {
      sessions =
          map (λ s. if promotable s then record s { pending = false; expires_at = expires } else s)
            store.sessions;
    }
    ok (
        if any promotable store.sessions
        then (session_principal token false now store', store')
        else (none, store'))

  unfoldable pub revoke_session : String → Instant → Store → Store
  revoke_session token now store = record store {
    sessions = map (revoke_row (hashes.digest token) now) store.sessions;
  }

  unfoldable pub inspect_invitation :
      String → Bool → Instant → Store → Option (Invitation × LinkState) × Store
  unfolding find
  inspect_invitation token mark_open now store =
      elim (find (is_invitation (hashes.digest token)) store.invitations) [
        | none ↦ (none, store)
        | some inv ↦
            let state = invitation_state inv.expires_at inv.opened_at inv.consumed_at now in
            if mark_open && is_issued state
            then (
              some (inv, opened),
              record store {
                invitations = map (mark_opened (hashes.digest token) now) store.invitations;
              },
            )
            else (some (inv, state), store)
      ]

  -- `INSERT INTO recovery_code ... ON CONFLICT DO NOTHING`, one code after the other
  unfoldable pub insert_codes : ℕ → List String → List RecoveryCode → List RecoveryCode
  insert_codes account_id [] rows = rows
  insert_codes account_id (code ∷ codes) rows =
      let code_hash = hashes.digest code in
      let known = any (is_code account_id code_hash) rows in
      insert_codes account_id codes (
        if known
        then rows
        else record { account_id = account_id; code_hash = code_hash; used_at = none } ∷ rows)

  -- the writes of `consume_invitation` before it marks the link
  unfoldable pub enrol : Enrolment → Invitation → Store → Store
  unfolding upsert_account insert_codes
  enrol e inv store =
      let (account_id, accounts) = upsert_account e inv.identifier store.accounts in
      record store {
        accounts = accounts;
        recovery_codes = insert_codes account_id e.codes store.recovery_codes;
      }

  unfoldable pub consume_invitation :
      Enrolment → String → Instant → Store → Result (Invitation × Store)
  unfolding inspect_invitation enrol
  consume_invitation e token now store = do
    inv ← usable_link ((inspect_invitation token false now store).0)
    let store' = enrol e inv store
    ok (
      inv,
      record store' {
        invitations = map (mark_consumed (hashes.digest token) now) store'.invitations;
      },
    )
