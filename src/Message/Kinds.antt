-- ===== src/Message/Kinds.antt =====
-- The kind that a message is given.
use mutsumi_s_sync.Common.{
  ◌≡◌, refl, Bool, true, false, ◌||◌, inl, inr, Option, none, some, List, [], ◌∷◌, arith, any,
  Bool-cases, Option-cases, if◌then◌else◌, Result, ok, err, length, ltb,
}
use mutsumi_s_sync.Common.{Text, codes, text_eq, text_eq_iff}
use mutsumi_s_sync.Json.{Json, Fields}
use mutsumi_s_sync.Message.{
  MessageType, short_text, long_text, image, media, ClassifiedMessage, Malformed, Parts, no_parts,
  segment_type, type_is, is_media_segment, add_segment, add_segments, image_message, classify_parts,
  classify_message,
}

abbrev pub is_image_segment : Fields → Bool
is_image_segment seg = type_is (codes "image") seg

-- What the loop has found on top of what it began with.
record Found (message : List Fields) (before after : Parts) : Type 0 where
  found_media : after.has_media ≡ (before.has_media || any is_media_segment message)
  found_image : after.has_image ≡ (before.has_image || any is_image_segment message)

type_is-one :
    (name other : Text) (seg : Fields)
    → type_is name seg ≡ true
    → type_is other seg ≡ text_eq name other
type_is-one name other seg h = elim (Option-cases (segment_type seg)) [
  | inl e ↦ absurd (ground (arith, e))
  | inr (t, e) ↦
      let same : t ≡ name = (text_eq_iff t name).0 (ground (arith, e)) in rw (e, same, type_is)
]

add_segment-Found :
    (to_str : Json → Text) (seg : Fields) (before after : Parts)
    → add_segment to_str seg before ≡ ok after
    → Found (seg ∷ []) before after
unfolding add_segment text_eq
add_segment-Found to_str seg before after h = elim (Bool-cases (type_is (codes "text") seg)) [
  | inl e ↦
      let no_record : type_is (codes "record") seg ≡ false =
        type_is-one (codes "text") (codes "record") seg e in
      let no_video : type_is (codes "video") seg ≡ false =
        type_is-one (codes "text") (codes "video") seg e in
      let no_forward : type_is (codes "forward") seg ≡ false =
        type_is-one (codes "text") (codes "forward") seg e in
      let no_image : type_is (codes "image") seg ≡ false =
        type_is-one (codes "text") (codes "image") seg e in
      record { found_media = ground arith; found_image = ground arith }
  | inr e ↦ elim (Bool-cases (type_is (codes "image") seg)) [
    | inl i ↦
        let no_record : type_is (codes "record") seg ≡ false =
          type_is-one (codes "image") (codes "record") seg i in
        let no_video : type_is (codes "video") seg ≡ false =
          type_is-one (codes "image") (codes "video") seg i in
        let no_forward : type_is (codes "forward") seg ≡ false =
          type_is-one (codes "image") (codes "forward") seg i in
        record { found_media = ground arith; found_image = ground arith }
    | inr i ↦ record { found_media = ground arith; found_image = ground arith }
  ]
]

add_segments-Found :
    (to_str : Json → Text) (message : List Fields) (before after : Parts)
    → add_segments to_str message before ≡ ok after
    → Found message before after
unfolding add_segments
add_segments-Found to_str [] before after h = record {
  found_media = ground arith;
  found_image = ground arith;
}
add_segments-Found to_str (seg ∷ segs) before after h =
    by_first (add_segment to_str seg before) refl (add_segments-Found to_str segs)
  where
    by_first :
        (r : Result Malformed Parts)
        → add_segment to_str seg before ≡ r
        → ((b a : Parts) → add_segments to_str segs b ≡ ok a → Found segs b a)
        → Found (seg ∷ segs) before after
    by_first (err e) p later = absurd (ground arith)
    by_first (ok next) p later =
        let now = add_segment-Found to_str seg before next p in
        let rest = later next after (ground arith) in
        record {
          found_media = ground (arith, now.found_media, rest.found_media);
          found_image = ground (arith, now.found_image, rest.found_image);
        }

-- The kind that a message of these segments and this text has.
abbrev pub kind_of : List Fields → Text → MessageType
kind_of message text =
    if any is_media_segment message
    then media
    else if any is_image_segment message
    then image
    else if ltb (length text) 50
    then short_text
    else long_text

abbrev pub content_or_empty : Option Text → Text
content_or_empty none = []
content_or_empty (some text) = text

classify_parts-kind :
    (raw : Text) (message : List Fields) (parts : Parts) (c : ClassifiedMessage)
    → Found message no_parts parts
    → classify_parts raw parts ≡ ok c
    → (c.msg_type ≡ kind_of message (content_or_empty c.content)) × (c.raw ≡ raw)
unfolding classify_parts image_message
classify_parts-kind raw message parts c f h =
    (ground (arith, f.found_media, f.found_image), ground arith)

-- A message that is classified is of kind media if any of its segments is a record, a video or a
-- forward, else an image if any segment is one, else a short text below 50 characters and a long
-- one from there; the raw message is kept.
pub classify_message-kind :
    (to_str : Json → Text) (message : List Fields) (raw : Text) (c : ClassifiedMessage)
    → classify_message to_str message raw ≡ ok c
    → (c.msg_type ≡ kind_of message (content_or_empty c.content)) × (c.raw ≡ raw)
unfolding classify_message
classify_message-kind to_str message raw c h = by_parts (add_segments to_str message no_parts) refl
  where
    by_parts :
        (r : Result Malformed Parts)
        → add_segments to_str message no_parts ≡ r
        → (c.msg_type ≡ kind_of message (content_or_empty c.content)) × (c.raw ≡ raw)
    by_parts (err e) p = absurd (ground arith)
    by_parts (ok parts) p =
        classify_parts-kind raw message parts c (add_segments-Found to_str message no_parts parts p)
          (ground arith)
