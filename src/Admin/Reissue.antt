-- ===== src/Admin/Reissue.antt =====
use psychron.Accounts.{Account}
use psychron.Base.{All, List, String, str_eq, true, ℕ, ◌≡◌}
use psychron.Instant.{Instant}

-- backend/src/psychron/admin.py, `cmd_reissue`. Whose sessions it ends.

-- the UNIQUE constraint on the identifiers of the accounts, for an identifier and its account
abbrev pub OnlyAccount : String → ℕ → List Account → Type 0
OnlyAccount identifier account_id =
    All (λ a. str_eq a.identifier identifier ≡ true → a.account_id ≡ account_id)
