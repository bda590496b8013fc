-- ===== src/Topics/Laws.antt =====
-- backend/src/psychron/ingest.py. The device of a topic.
use Prim.Native.Char.{code}
use Prim.Native.String.{◌++◌ as text_append}
use text.Mathlib.TextLemmas.{nil-append, cons-append}
use text.Mathlib.TextEquality.{starts_with_iff}
use psychron.Base.{
  refl, some, ◌≡◌, String, Bool-cases, List, [], inl, inr, starts_with, true, ◌==◌, ◌∷◌, ◌⊎◌, ap,
  ◌∙◌,
}
use psychron.Topics.{device_from_topic, split_slash, third_of}

split_slash-cons : (s : String) → (w : String) × (ws : List String) × (split_slash s ≡ w ∷ ws)
unfolding split_slash
split_slash-cons String.[] = ("", [], refl)
split_slash-cons (String.◌∷◌ c s) = elim (Bool-cases (code c == b'/')) [
  | inl slash ↦ ("", split_slash s, rw slash)
  | inr other ↦ let (w, ws, e) = split_slash-cons s in (String.◌∷◌ c w, ws, rw (other, e))
]

-- `++` by clauses, which computes at a literal prefix
abbrev prefixed : String → String → String
prefixed String.[] r = r
prefixed (String.◌∷◌ c s) r = String.◌∷◌ c (prefixed s r)

append-prefixed : (s r : String) → text_append s r ≡ prefixed s r
append-prefixed String.[] r = nil-append r
append-prefixed (String.◌∷◌ c s) r = cons-append c s r ∙ ap (String.◌∷◌ c) (append-prefixed s r)

third_of_prefixed :
    (version : String) (r : String)
    → (w : String) × (third_of ("psychron" ∷ version ∷ split_slash r) ≡ some w)
third_of_prefixed version r = let (w, ws, e) = split_slash-cons r in (w, rw e)

-- A topic below psychron/v1/ or psychron/v2/ names a device, if only the empty one.
pub device_of_prefix :
    (prefix topic : String)
    → (prefix ≡ "psychron/v1/") ⊎ (prefix ≡ "psychron/v2/")
    → starts_with topic prefix ≡ true
    → (w : String) × (device_from_topic topic ≡ some w)
unfolding device_from_topic
device_of_prefix prefix topic (inl e) h =
    let (r, eq) = (starts_with_iff topic "psychron/v1/").0 (rw e at h) in
    rw (← eq, append-prefixed "psychron/v1/" r) (third_of_prefixed "v1" r)
device_of_prefix prefix topic (inr e) h =
    let (r, eq) = (starts_with_iff topic "psychron/v2/").0 (rw e at h) in
    rw (← eq, append-prefixed "psychron/v2/" r) (third_of_prefixed "v2" r)
