-- ===== src/Message.antt =====
-- Chat events and their classification (archive/v3/src/mutsumi_sync/message/receiver.py and
-- message/classifier.py). `to_str` stands for `str` of a JSON value.
pub mod Kinds
pub mod Totality
use mutsumi_s_sync.Common.{
  ℕ, zero, suc, ◌+◌, ◌==◌, Bool, true, false, not, ◌&&◌, ◌||◌, Option, none, some, List, [], ◌∷◌,
  ◌++◌,
}
use mutsumi_s_sync.Common.{
  Text, codes, text_eq, is_empty, contains, length, leb, ltb, if◌then◌else◌, Result, ok, err,
}
use mutsumi_s_sync.Json.{
  Json, null, str, obj, Fields, end, get_field, get_or_null, truthy, as_str, as_obj,
}

-- The fields of `MessageEvent` that the program reads, and whether it is a `ServiceMessageEvent`.
-- An id is in its decimal form; `group_id` is `none` for `None` and for 0, which test the same.
pub record MessageEvent : Type 0 where
  pub is_service : Bool
  pub message_type : Text
  pub user_id : Text
  pub group_id : Option Text
  pub message : List Fields
  pub raw_message : Text
  pub sender : Fields
  pub time : ℕ

pub data MessageType : Type 0 where
  short_text long_text image media : MessageType

pub record ClassifiedMessage : Type 0 where
  pub raw : Text
  pub msg_type : MessageType
  pub content : Option Text
  pub image_file : Option Text
  pub image_url : Option Text
  pub media_kind : Text

-- A segment of another shape than the code takes for granted raises.
pub data Malformed : Type 0 where
  malformed : Malformed

-- `str.lower`, as far as a search for words of ASCII can tell: the letters of ASCII, the
-- Kelvin sign, and the dotted capital I.
lower_char : ℕ → Text
lower_char c =
    if leb b'A' c && leb c b'Z'
    then (c + 32) ∷ []
    else if c == 0x212a
    then b'k' ∷ []
    else if c == 0x130
    then b'i' ∷ 0x307 ∷ []
    else c ∷ []

unfoldable pub lower_search : Text → Text
unfolding lower_char
lower_search [] = []
lower_search (c ∷ t) = lower_char c ++ lower_search t

-- The local variables of the loop.
pub record Parts : Type 0 where
  pub text : Text
  pub image_file : Json
  pub image_url : Json
  pub media_kind : Text
  pub has_image : Bool
  pub has_media : Bool

abbrev pub no_parts : Parts
no_parts = record {
  text = [];
  image_file = null;
  image_url = null;
  media_kind = codes "image";
  has_image = false;
  has_media = false;
}

abbrev pub or_json : Json → Json → Json
or_json a b = if truthy a then a else b

-- `seg.get("data", {})`, on which `get` is called
data_of : Fields → Result Malformed Fields
unfolding get_field
data_of seg = elim (get_field (codes "data") seg) [
  | none ↦ ok end
  | some value ↦ elim (as_obj value) [ none ↦ err malformed | some fields ↦ ok fields ]
]

-- `seg.get("type", "")`, where it is a `str`: no other value equals one
unfoldable pub segment_type : Fields → Option Text
unfolding get_field
segment_type seg = elim (get_field (codes "type") seg) [ none ↦ none | some value ↦ as_str value ]

abbrev pub type_is : Text → Fields → Bool
type_is name seg = elim (segment_type seg) [ none ↦ false | some t ↦ text_eq t name ]

abbrev pub is_media_segment : Fields → Bool
is_media_segment seg =
    type_is (codes "record") seg || type_is (codes "video") seg || type_is (codes "forward") seg

is_sticker : (Json → Text) → Fields → Bool
unfolding truthy get_or_null
is_sticker to_str fields =
    let shown =
      or_json (get_or_null (codes "summary") fields) (get_or_null (codes "sub_type") fields) in
    let summary = lower_search (if truthy shown then to_str shown else []) in
    contains (codes "sticker") summary
    || contains (codes "face") summary
    || contains (codes "表情") summary

-- A text that is no `str` is only refused by the `join` behind the loop, which raises all the same.
text_of : Fields → Result Malformed Text
unfolding get_field
text_of fields = elim (get_field (codes "text") fields) [
  | none ↦ ok []
  | some value ↦ elim (as_str value) [ none ↦ err malformed | some t ↦ ok t ]
]

-- One round of the loop.
add_segment : (Json → Text) → Fields → Parts → Result Malformed Parts
unfolding data_of text_of is_sticker truthy get_or_null
add_segment to_str seg parts =
    if type_is (codes "text") seg
    then elim (data_of seg) [
      | err e ↦ err e
      | ok fields ↦ elim (text_of fields) [
        | err e ↦ err e
        | ok t ↦ ok (record parts { text = parts.text ++ t })
      ]
    ]
    else if type_is (codes "image") seg
    then elim (data_of seg) [
      | err e ↦ err e
      | ok fields ↦ ok (record parts {
        has_image = true;
        image_file = or_json parts.image_file (get_or_null (codes "file") fields);
        image_url = or_json parts.image_url (get_or_null (codes "url") fields);
        media_kind = if is_sticker to_str fields then codes "sticker" else parts.media_kind;
      })
    ]
    else ok (if is_media_segment seg then record parts { has_media = true } else parts)

add_segments : (Json → Text) → List Fields → Parts → Result Malformed Parts
unfolding add_segment
add_segments to_str [] parts = ok parts
add_segments to_str (seg ∷ segs) parts = elim (add_segment to_str seg parts) [
  | err e ↦ err e
  | ok next ↦ add_segments to_str segs next
]

-- What pydantic accepts for `str | None`.
abbrev as_optional_str : Json → Result Malformed (Option Text)
as_optional_str null = ok none
as_optional_str (str t) = ok (some t)
as_optional_str _ = err malformed

image_message : Text → Parts → Result Malformed ClassifiedMessage
image_message raw_message parts = elim (as_optional_str parts.image_file) [
  | err e ↦ err e
  | ok file ↦ elim (as_optional_str parts.image_url) [
    | err e ↦ err e
    | ok url ↦ ok (record {
      raw = raw_message;
      msg_type = image;
      content = some parts.text;
      image_file = file;
      image_url = url;
      media_kind = parts.media_kind;
    })
  ]
]

abbrev plain_message : Text → MessageType → Option Text → ClassifiedMessage
plain_message raw_message msg_type content = record {
  raw = raw_message;
  msg_type = msg_type;
  content = content;
  image_file = none;
  image_url = none;
  media_kind = codes "image";
}

classify_parts : Text → Parts → Result Malformed ClassifiedMessage
unfolding image_message
classify_parts raw_message parts =
    if parts.has_media
    then ok
        (plain_message raw_message media (if is_empty parts.text then none else some parts.text))
    else if parts.has_image
    then image_message raw_message parts
    else if ltb (length parts.text) 50
    then ok (plain_message raw_message short_text (some parts.text))
    else ok (plain_message raw_message long_text (some parts.text))

unfoldable pub classify_message :
    (Json → Text) → List Fields → Text → Result Malformed ClassifiedMessage
unfolding add_segments classify_parts
classify_message to_str message raw_message = elim (add_segments to_str message no_parts) [
  | err e ↦ err e
  | ok parts ↦ classify_parts raw_message parts
]
