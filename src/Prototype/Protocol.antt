-- ===== src/Prototype/Protocol.antt =====
-- The reply of the prototype's model (archive/v3/src/mutsumi_sync/prototype/protocol.py).
-- `json.loads` is a parameter, which gives the fields of an object as they are written.
pub mod Acceptance
use mutsumi_s_sync.Common.{
  ℕ, zero, suc, Bool, true, false, not, ◌&&◌, ◌||◌, Option, none, some, List, [], ◌∷◌,
  if◌then◌else◌,
}
use mutsumi_s_sync.Common.{
  Text, codes, text_eq, strip, contains, is_empty, any, length, ltb, leb, Result, ok, err,
}
use mutsumi_s_sync.Json.{
  Json, null, boolean, number, str, arr, obj, Items, nil, cons, Fields, end, field,
}
use mutsumi_s_sync.Envelope.{markers, FinalEnvelope, OutputProtocolError, parse_final_envelope}
use mutsumi_s_sync.Pipeline.Markdown.{unsupported_markdown_features}

pub record Reply : Type 0 where
  pub to_self : Text
  pub messages : List Text

-- One constructor for each `raise`.
pub data ReplyError : Type 0 where
  bad_limits nested_markers not_json duplicate_field only_messages not_array too_many : ReplyError
  not_nonblank_text too_long marker_in_message not_plain : ReplyError
  bad_envelope : OutputProtocolError → ReplyError

unfoldable pub has_name : Text → Fields → Bool
has_name k end = false
has_name k (field j v fs) = text_eq j k || has_name k fs

-- No call of `_unique_object`, of which `json.loads` makes one for each object, raises.
mutual
  unfolding has_name

  pub is_unique : Json → Bool
  is_unique null = true
  is_unique (boolean b) = true
  is_unique (number z t) = true
  is_unique (str t) = true
  is_unique (arr xs) = are_unique xs
  is_unique (obj fs) = unique_object fs

  pub are_unique : Items → Bool
  are_unique nil = true
  are_unique (cons x xs) = is_unique x && are_unique xs

  unique_object : Fields → Bool
  unique_object end = true
  unique_object (field k v fs) = not (has_name k fs) && is_unique v && unique_object fs

abbrev pub has_marker : Text → Bool
has_marker text = any (λ marker. contains marker text) markers

-- One round of the loop over the messages.
unfoldable pub check_message : ℕ → Json → Result ReplyError Text
check_message max_chars (str message) =
    if is_empty (strip message)
    then err not_nonblank_text
    else if ltb max_chars (length message)
    then err too_long
    else if has_marker message
    then err marker_in_message
    else if is_empty (unsupported_markdown_features message)
    then ok message
    else err not_plain
check_message max_chars _ = err not_nonblank_text

unfoldable pub check_messages : ℕ → Items → Result ReplyError (List Text)
unfolding check_message
check_messages max_chars nil = ok []
check_messages max_chars (cons x xs) =
    let rest = check_messages max_chars xs in
    elim (check_message max_chars x) [
      | err e ↦ err e
      | ok message ↦ elim rest [ err e ↦ err e | ok messages ↦ ok (message ∷ messages) ]
    ]

unfoldable pub count_items : Items → ℕ
count_items nil = 0
count_items (cons x xs) = suc (count_items xs)

-- `set(payload) == {"messages"}`, of an object without duplicates
abbrev pub sole_messages : Fields → Option Json
sole_messages (field k v end) = if text_eq k (codes "messages") then some v else none
sole_messages _ = none

unfoldable pub check_payload : ℕ → ℕ → Json → Result ReplyError (List Text)
unfolding check_messages count_items
check_payload max_messages max_chars (obj fs) = elim (sole_messages fs) [
  | none ↦ err only_messages
  | some (arr xs) ↦
      if ltb max_messages (count_items xs) then err too_many else check_messages max_chars xs
  | some _ ↦ err not_array
]
check_payload max_messages max_chars _ = err only_messages

module _ (loads : Text → Option Json) where
  unfoldable pub parse_payload : ℕ → ℕ → Text → Result ReplyError (List Text)
  unfolding check_payload
  parse_payload max_messages max_chars text = elim (loads text) [
    | none ↦ err not_json
    | some payload ↦
        if is_unique payload
        then check_payload max_messages max_chars payload
        else err duplicate_field
  ]

  unfoldable pub parse_reply : Text → ℕ → ℕ → Result ReplyError Reply
  unfolding parse_payload
  parse_reply content max_messages max_chars =
      if ltb max_messages 1 || ltb max_chars 1
      then err bad_limits
      else elim (parse_final_envelope content true) [
        | err e ↦ err (bad_envelope e)
        | ok envelope ↦
            if has_marker envelope.to_self || has_marker envelope.to_user
            then err nested_markers
            else elim (parse_payload max_messages max_chars envelope.to_user) [
              | err e ↦ err e
              | ok messages ↦ ok (record { to_self = envelope.to_self; messages = messages })
            ]
      ]
