-- ===== src/Auth/Token.antt =====
use Prim.Native.Char.{code}
use Prim.Native.String.{◌++◌ as text_append}
use psychron.Auth.{TextMethods}
use psychron.Base.{
  List, Option, String, [], if◌then◌else◌, none, refl, some, starts_with, str_eq, ◌++◌, ◌==◌, ◌∷◌,
  ◌≡◌, Bool-cases, inl, inr,
}

-- backend/src/psychron/api/auth.py, `ensure_token`: the token of the file, or one that is minted and
-- written down. str.splitlines is a parameter, as str.strip is.

abbrev pub token_prefix : String
token_prefix = "PSYCHRON_API_TOKEN="

-- `line.split("=", 1)[1]`, for a line that has an equals sign
unfoldable pub after_equals : String → String
after_equals String.[] = ""
after_equals (String.◌∷◌ c s) = if code c == b'=' then s else after_equals s

abbrev pub minted : String → String
minted token =
    text_append "\n# Bearer token for the read API. Rotate by deleting this line.\n"
      (text_append token_prefix (text_append token "\n"))

module _ (methods : TextMethods) (splitlines : String → List String) where
  -- the loop over the lines, which passes over a line without a value
  unfoldable pub find_token : List String → Option String
  unfolding after_equals
  find_token [] = none
  find_token (line ∷ lines) =
      let rest = find_token lines in
      if starts_with line token_prefix
      then (let value = methods.strip (after_equals line) in
          if str_eq value "" then rest else some value)
      else rest

  -- the token, and the file's text as it is left; `fresh` is `secrets.token_urlsafe(32)`
  unfoldable pub ensure_token : String → String → String × String
  unfolding find_token
  ensure_token fresh written = elim (find_token (splitlines written)) [
    | some value ↦ (value, written)
    | none ↦ (fresh, text_append written (minted fresh))
  ]

-- what a later run reads of a file that holds a line with the token
find_token-append :
    (methods : TextMethods) (splitlines : String → List String) (before lines : List String)
    → find_token methods splitlines before ≡ none
    → find_token methods splitlines (before ++ lines) ≡ find_token methods splitlines lines
unfolding find_token
find_token-append methods splitlines [] lines h = refl
find_token-append methods splitlines (line ∷ before) lines h =
    elim (Bool-cases (starts_with line token_prefix)) [
      | inr other ↦
          rw other (find_token-append methods splitlines before lines (rw (other, find_token) at h))
      | inl named ↦ elim (Bool-cases (str_eq (methods.strip (after_equals line)) "")) [
        | inl empty ↦
            rw (named, empty)
              (find_token-append methods splitlines before lines
                (rw (named, empty, find_token) at h))
        | inr filled ↦ absurd (cc (rw (named, filled, find_token) at h))
      ]
    ]
