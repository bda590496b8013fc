-- ===== src/Admin.antt =====
-- backend/src/psychron/admin.py: the owner's tools, over the tables of adapters/identity_pg.py. What
-- they print is the exit status with the rows or the link; the layout of the text is left out.
pub mod Reissue
pub mod Codes
mod Tests
use psychron.Accounts.{Account, Attempt, Hashes, Session, Store, enabled, find}
use psychron.Accounts.Context.{account_count, is_owned, issue_invitation}
use psychron.Base.{
  Bool, List, Option, String, if◌then◌else◌, is_none, is_some, length, map, none, select, some,
  str_eq, ℕ, ◌&&◌, ◌==◌, [], ◌++◌, ◌∷◌,
}
use psychron.Instant.{Instant}
use psychron.Queries.Health.{latest_of}
use psychron.Raise.{Result, ok, raise}

-- a line of `cmd_list`
pub record Listed : Type 0 where
  pub identifier : String
  pub is_owner : Bool
  pub has_totp : Bool
  pub codes : ℕ
  pub last_full_signin : Option Instant

-- `identifier = ... AND stage = 'totp' AND outcome = 'ok'`
abbrev pub is_full_signin : String → Attempt → Bool
is_full_signin identifier a =
    str_eq a.identifier identifier && (str_eq a.stage "totp" && str_eq a.outcome "ok")

abbrev pub listed : Store → Account → Listed
listed store a = record {
  identifier = a.identifier;
  is_owner = a.is_owner;
  has_totp = is_some a.totp_secret;
  codes = length (select (λ c. is_owned a.account_id c && is_none c.used_at) store.recovery_codes);
  last_full_signin =
      latest_of (map (λ t. t.at) (select (is_full_signin a.identifier) store.attempts));
}

-- `ORDER BY created_at`, the rows of a table being newest first
abbrev pub oldest_first : {A : Type 0} → List A → List A
oldest_first [] = []
oldest_first (x ∷ xs) = oldest_first xs ++ (x ∷ [])

-- `cmd_list`
unfoldable pub cmd_list : Store → List Listed
unfolding latest_of
cmd_list store = map (listed store) (oldest_first (select enabled store.accounts))

-- the account that the two statements of `cmd_reissue` name, which may be disabled
unfoldable pub any_account : String → Store → Option Account
unfolding find
any_account identifier store = find (λ a. str_eq a.identifier identifier) store.accounts

-- `UPDATE session SET revoked_at = now() WHERE revoked_at IS NULL AND account_id = ...`
abbrev pub end_row : ℕ → Instant → Session → Session
end_row account_id now s =
    if s.account_id == account_id && is_none s.revoked_at
    then record s { revoked_at = some now }
    else s

abbrev pub end_sessions : ℕ → Instant → Store → Store
end_sessions account_id now store = record store {
  sessions = map (end_row account_id now) store.sessions;
}

module _ (hashes : Hashes) where
  -- `cmd_invite`; `token` is the one that is drawn, and what is told beside the link is whether the
  -- account will be the first
  unfoldable pub cmd_invite :
      String → String → Option String → Instant → Store → Result Bool × Store
  unfolding issue_invitation account_count
  cmd_invite token identifier by now store =
      elim (issue_invitation hashes token identifier by now store) [
        | raise e ↦ (raise e, store)
        | ok store' ↦ (ok (account_count store' == 0), store')
      ]

  -- `cmd_reissue`: the exit status; the sessions are ended before the invitation is issued
  unfoldable pub cmd_reissue : String → String → Option String → Instant → Store → Result ℕ × Store
  unfolding issue_invitation any_account
  cmd_reissue token identifier by now store = elim (any_account identifier store) [
    | none ↦ (ok 1, store)
    | some account ↦
        let ended = end_sessions account.account_id now store in
        elim (issue_invitation hashes token identifier by now ended) [
          | raise e ↦ (raise e, ended)
          | ok store' ↦ (ok 0, store')
        ]
  ]
