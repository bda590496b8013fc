-- ===== src/Topics.antt =====
-- Topics: the string methods that backend/src/psychron/ingest.py applies to them.
pub mod Laws
use Prim.Native.Char.{Char, code}
use psychron.Base.{
  Bool, List, Option, [], if◌then◌else◌, none, some, starts_with, str_eq, ◌&&◌, ◌==◌, ◌||◌, ◌∷◌,
  String,
}

-- `s.endswith(t)`
unfoldable pub ends_with : String → String → Bool
ends_with String.[] t = str_eq "" t
ends_with (String.◌∷◌ c s) t = str_eq (String.◌∷◌ c s) t || ends_with s t

abbrev pub push_front : Char → List String → List String
push_front c [] = String.◌∷◌ c "" ∷ []
push_front c (w ∷ ws) = String.◌∷◌ c w ∷ ws

-- `s.split("/")`
unfoldable pub split_slash : String → List String
split_slash String.[] = "" ∷ []
split_slash (String.◌∷◌ c s) =
    let parts = split_slash s in if code c == b'/' then "" ∷ parts else push_front c parts

-- `parts[2] if len(parts) >= 3 and parts[0] == "psychron" else None`
abbrev pub third_of : List String → Option String
third_of (first ∷ second ∷ third ∷ rest) = if str_eq first "psychron" then some third else none
third_of _ = none

-- `Ingestor._device_from_topic`
unfoldable pub device_from_topic : String → Option String
unfolding split_slash
device_from_topic topic = third_of (split_slash topic)

-- `topic.startswith("psychron/v2/") and topic.endswith("/sample")`, and the like
unfoldable pub is_topic : String → String → String → Bool
unfolding ends_with
is_topic prefix suffix topic = starts_with topic prefix && ends_with topic suffix
