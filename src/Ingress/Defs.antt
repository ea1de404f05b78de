-- ===== src/Ingress/Defs.antt =====
-- The checks of an ingress request: authorisation, headers, the event and its segments
-- (ingress.py), and what the module takes from the libraries.
use mutsumi_s_sync.Common.{
  ℕ, ◌+◌, ◌==◌, Bool, true, false, not, ◌&&◌, ◌||◌, Option, none, some, List, [], ◌∷◌, ◌++◌,
}
use mutsumi_s_sync.Common.{
  Text, codes, text_eq, strip, is_empty, all, length, leb, if◌then◌else◌, Result, ok, err,
  partition_at, join, words, take,
}
use mutsumi_s_sync.Json.{Json, Fields, get_field, get_or_null, truthy, as_str, as_obj}

pub data Failure : Type 0 where
  request_error : ℕ → Text → Failure
  internal_error : Failure

infixl 5 ◌>>=◌ ◌>>◌
abbrev pub ◌>>=◌ : {A B : Type 0} → Result Failure A → (A → Result Failure B) → Result Failure B
ok a >>= f = f a
err e >>= f = err e

abbrev pub ◌>>◌ : {B : Type 0} → Result Failure (Unit {0}) → Result Failure B → Result Failure B
m >> k = m >>= λ _. k

abbrev pub require : Bool → ℕ → Text → Result Failure (Unit {0})
require true status message = ok tt
require false status message = err (request_error status message)

-- The fields of `MessageEvent` that the ingress reads. Numbers are in their decimal form.
pub record ServiceMessageEvent : Type 0 where
  pub user_id : Text
  pub message : List Json
  pub raw_message : Text
  pub message_id : Text
  pub sender : Fields

-- What is not this program's code: `str()` of a JSON value, `urlparse` (scheme and netloc),
-- `json.loads` of the decoded body (`none` for a body that is no UTF-8 JSON),
-- `ServiceMessageEvent.model_validate` of pydantic, and `uuid.uuid5` over `NAMESPACE_URL`.
pub record Libraries : Type 0 where
  pub to_str : Json → Text
  pub urlparse : Text → Text × Text
  pub decode_json : Text → Option Json
  pub model_validate : Fields → Option ServiceMessageEvent
  pub uuid5 : Text → Text

pub record IngressConfig : Type 0 where
  pub token : Text
  pub max_body_bytes : ℕ
  pub target_user_id : Text

-- `str.lower` of Latin-1 text, which is all that a header can hold.
lower_char : ℕ → ℕ
lower_char c =
    if leb b'A' c && leb c b'Z' || leb 0xc0 c && leb c 0xde && not (c == 0xd7) then c + 32 else c

unfoldable pub lower : Text → Text
unfolding lower_char
lower [] = []
lower (c ∷ t) = lower_char c ∷ lower t

abbrev is_some_nonempty : Option Text → Bool
is_some_nonempty none = false
is_some_nonempty (some t) = not (is_empty t)

abbrev some_or_empty : Option Text → Text
some_or_empty none = []
some_or_empty (some t) = t

abbrev is_ascii : Text → Bool
is_ascii t = all (λ c. leb c 127) t

-- `hmac.compare_digest` of two `str` raises `TypeError` unless both are ASCII.
compare_digest : Text → Text → Result Failure Bool
compare_digest a b = if is_ascii a && is_ascii b then ok (text_eq a b) else err internal_error

unfoldable pub authorized : IngressConfig → Text → Result Failure Bool
unfolding compare_digest lower partition_at
authorized config value =
    let (prefix, behind) = partition_at b' ' value in
    let token = some_or_empty behind in
    if text_eq (lower prefix) (codes "bearer") && not (is_empty token)
    then compare_digest token config.token
    else ok false

is_alnum : ℕ → Bool
is_alnum c = leb b'A' c && leb c b'Z' || leb b'a' c && leb c b'z' || leb b'0' c && leb c b'9'

is_id_char : ℕ → Bool
unfolding is_alnum
is_id_char c = is_alnum c || c == b'_' || c == b'.' || c == b'-'

-- `_SERVICE_ID_RE.fullmatch`
unfoldable pub is_service_id : Text → Bool
unfolding is_id_char
is_service_id [] = false
is_service_id (c ∷ t) = is_alnum c && (all is_id_char t && leb (length t) 127)

-- `str(value or "")`
abbrev str_or_empty : Libraries → Json → Text
str_or_empty lib value = if truthy value then lib.to_str value else []

validate_text : Fields → Result Failure Bool
unfolding get_or_null
validate_text fields = elim (as_str (get_or_null (codes "text") fields)) [
  | none ↦ err (request_error 400 (codes "text segment requires string data.text"))
  | some text ↦ ok (not (is_empty text))
]

-- `parsed.scheme in {"http", "https"} and parsed.netloc`
is_http_url : Libraries → Text → Bool
is_http_url lib url =
    let (scheme, netloc) = lib.urlparse url in
    (text_eq scheme (codes "http") || text_eq scheme (codes "https")) && not (is_empty netloc)

validate_image : Libraries → Fields → Result Failure Bool
unfolding truthy get_or_null is_http_url
validate_image lib fields = do
  require (not (truthy (get_or_null (codes "file") fields))) 400
      (codes "external image segments cannot use local file paths")
  require (is_http_url lib (strip (str_or_empty lib (get_or_null (codes "url") fields)))) 400
      (codes "external image segments require an HTTP(S) data.url")
  ok true

abbrev type_or_unknown : Text → Text
type_or_unknown [] = codes "unknown"
type_or_unknown (c ∷ t) = c ∷ t

-- One round of the loop of `_validate_segments`: whether the segment has content.
validate_segment : Libraries → Json → Result Failure Bool
unfolding truthy get_or_null validate_text validate_image
validate_segment lib segment = do
  fields ← elim (as_obj segment) [
    | none ↦ err (request_error 400 (codes "message segments must be JSON objects"))
    | some fields ↦ ok fields
  ]
  let segment_type = str_or_empty lib (get_or_null (codes "type") fields)
  data_fields ← elim (as_obj (get_or_null (codes "data") fields)) [
    | none ↦ err (request_error 400 (codes "message segment data must be a JSON object"))
    | some data_fields ↦ ok data_fields
  ]
  if text_eq segment_type (codes "text")
      then validate_text data_fields
      else if text_eq segment_type (codes "image")
      then validate_image lib data_fields
      else err (
          request_error 400
            (codes "unsupported external message segment: " ++ type_or_unknown segment_type))

validate_from : Libraries → Bool → List Json → Result Failure (Unit {0})
unfolding validate_segment
validate_from lib has_content [] =
    require has_content 400 (codes "message has no text or image content")
validate_from lib has_content (segment ∷ segments) =
    validate_segment lib segment >>= λ content. validate_from lib (has_content || content) segments

unfoldable pub validate_segments : Libraries → List Json → Result Failure (Unit {0})
unfolding validate_from
validate_segments lib segments = validate_from lib false segments

abbrev is_str_field : Text → Text → Fields → Bool
is_str_field key value fields = elim (as_str (get_or_null key fields)) [
  | none ↦ false
  | some s ↦ text_eq s value
]

unfoldable pub parse_event : Libraries → Fields → Result Failure ServiceMessageEvent
unfolding get_or_null validate_segments is_service_id
parse_event lib payload = do
  require
      (is_str_field (codes "post_type") (codes "message") payload
        && is_str_field (codes "message_type") (codes "private") payload)
      400 (codes "only private message events are supported")
  event ← elim (lib.model_validate payload) [
    | none ↦ err (request_error 400 (codes "invalid NapCat message event"))
    | some event ↦ ok event
  ]
  require (is_service_id (strip event.user_id)) 400
      (codes "user_id must be a safe service identifier")
  require (not (is_empty event.message)) 400
      (codes "message must be a non-empty NapCat segment list")
  validate_segments lib event.message
  ok event

-- `_text_from_segments`, of segments that `_validate_segments` has accepted
segment_text : Libraries → Json → Text
unfolding get_or_null
segment_text lib segment = elim (as_obj segment) [
  | none ↦ []
  | some fields ↦
      if is_str_field (codes "type") (codes "text") fields
      then elim (as_obj (get_or_null (codes "data") fields)) [
        | none ↦ []
        | some data_fields ↦ elim (get_field (codes "text") data_fields) [
          | none ↦ []
          | some text ↦ lib.to_str text
        ]
      ]
      else []
]

unfoldable pub text_from_segments : Libraries → List Json → Text
unfolding segment_text
text_from_segments lib [] = []
text_from_segments lib (segment ∷ segments) =
    segment_text lib segment ++ text_from_segments lib segments

-- `_clean_actor_name(value, fallback)`
unfoldable pub clean_actor_name : Libraries → Json → Text → Text
unfolding words join truthy
clean_actor_name lib value fallback =
    let cleaned = join (codes " ") (words (if truthy value then lib.to_str value else fallback)) in
    take 128 (if is_empty cleaned then fallback else cleaned)
