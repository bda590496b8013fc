-- ===== src/Accounts/Context.antt =====
use psychron.Accounts.{Attempt, Client, Hashes, RecoveryCode, Store, account_of, enabled, truthy}
use psychron.Accounts.Gate.{is_invitation}
use psychron.Base.{
  Bool, List, Option, String, [], any, if◌then◌else◌, is_none, length, map, none, select, some,
  str_eq, take, ℕ, ◌&&◌, ◌==◌, ◌∷◌,
}
use psychron.Identity.{invitation_lifetime_ms}
use psychron.Identity.Attempts.{AttemptContext, describe_attempt}
use psychron.Instant.{Instant, plus_ms}
use psychron.Raise.{Result, ok, raise, unique_violation, ◌>>=◌}
use psychron.Sorting.{descending, order_by}

-- backend/src/psychron/adapters/identity_pg.py: counts, the context of an attempt, new invitations.

-- `account_count`
unfoldable pub account_count : Store → ℕ
account_count store = length (select enabled store.accounts)

abbrev pub is_owned : ℕ → RecoveryCode → Bool
is_owned account_id c = c.account_id == account_id

-- `(unused, total)`
unfoldable pub recovery_remaining : String → Store → ℕ × ℕ
unfolding account_of
recovery_remaining identifier store = elim (account_of identifier store) [
  | none ↦ (0, 0)
  | some account ↦
      let owned = select (is_owned account.account_id) store.recovery_codes in
      (length (select (λ c. is_none c.used_at) owned), length owned)
]

-- `identifier = ... AND outcome = 'ok' AND stage = 'password'`
abbrev pub is_success : String → Attempt → Bool
is_success identifier a =
    str_eq a.identifier identifier && (str_eq a.outcome "ok" && str_eq a.stage "password")

-- `ORDER BY at DESC LIMIT 200`
unfoldable pub successes : String → Store → List Attempt
successes identifier store =
    take 200 (order_by (descending (λ a. a.at)) (select (is_success identifier) store.attempts))

-- `{r["user_agent"] for r in rows if r["user_agent"]}`
abbrev pub agents_of : List Attempt → List String
agents_of [] = []
agents_of (a ∷ rows) =
    let rest = agents_of rows in
    elim (truthy a.client.user_agent) [ none ↦ rest | some ua ↦ ua ∷ rest ]

unfoldable pub attempt_context :
    (set_of : List String → List String) → String → Client → Store → AttemptContext
unfolding successes
attempt_context set_of identifier client store =
    let rows = successes identifier store in
    describe_attempt set_of client.ip (map (λ a. (truthy a.client.ip, a.at)) rows) client.user_agent
      (agents_of rows)

-- `self._account(issued_by)["account_id"] if issued_by and self._account(issued_by) else None`
unfoldable pub issuer : Option String → Store → Option ℕ
unfolding account_of
issuer issued_by store = elim (truthy issued_by) [
  | none ↦ none
  | some who ↦ elim (account_of who store) [ none ↦ none | some account ↦ some account.account_id ]
]

module _ (hashes : Hashes) where
  -- `token` is `secrets.token_urlsafe(24)`, and its digest the primary key
  unfoldable pub issue_invitation : String → String → Option String → Instant → Store → Result Store
  unfolding issuer
  issue_invitation token identifier issued_by now store = do
    expires ← plus_ms now invitation_lifetime_ms
    if any (is_invitation (hashes.digest token)) store.invitations
        then raise unique_violation
        else ok (record store {
          invitations =
              record {
                token_hash = hashes.digest token;
                identifier = identifier;
                issued_by = issuer issued_by store;
                expires_at = expires;
                opened_at = none;
                consumed_at = none;
              }
              ∷ store.invitations;
        })
