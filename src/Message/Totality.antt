-- ===== src/Message/Totality.antt =====
-- Messages that the classification does not refuse.
use mutsumi_s_sync.Common.{
  ◌≡◌, refl, sym, subst, ◌∙◌, if_true, if_false, Bool, true, false, ◌&&◌, inl, inr, Option, none,
  some, List, [], ◌∷◌, ◌++◌, arith, all, Bool-cases, Option-cases, if◌then◌else◌, ok, length, ltb,
}
use mutsumi_s_sync.Common.{Text, codes}
use mutsumi_s_sync.Json.{
  Json, str, null, Fields, end, get_field, get_or_null, truthy, as_str, as_obj, obj,
}
use mutsumi_s_sync.Message.{
  image, ClassifiedMessage, Parts, no_parts, or_json, type_is, is_media_segment, is_sticker,
  data_of, text_of, add_segment, add_segments, as_optional_str, image_message, classify_parts,
  classify_message,
}

abbrev pub is_optional_str : Json → Bool
is_optional_str null = true
is_optional_str (str t) = true
is_optional_str _ = false

abbrev pub has_good_fields : Fields → Bool
has_good_fields fields =
    is_optional_str (get_or_null (codes "file") fields)
    && is_optional_str (get_or_null (codes "url") fields)
    && elim (get_field (codes "text") fields) [
      | none ↦ true
      | some value ↦ elim (as_str value) [ none ↦ false | some t ↦ true ]
    ]

-- The data of a segment, if it has any, is an object, whose text is a string if it is there, and
-- whose file and URL are strings, null or missing.
abbrev pub is_well_shaped : Fields → Bool
is_well_shaped seg = elim (get_field (codes "data") seg) [
  | none ↦ true
  | some value ↦ elim (as_obj value) [ none ↦ false | some fields ↦ has_good_fields fields ]
]

or_json-optional :
    (a b : Json)
    → is_optional_str a ≡ true
    → is_optional_str b ≡ true
    → is_optional_str (or_json a b) ≡ true
or_json-optional a b h k = elim (Bool-cases (truthy a)) [ inl e ↦ rw e h | inr e ↦ rw e k ]

data_of-good :
    (seg : Fields)
    → is_well_shaped seg ≡ true
    → (fields : Fields) × (data_of seg ≡ ok fields) × (has_good_fields fields ≡ true)
unfolding data_of get_field get_or_null
data_of-good seg h = elim (Option-cases (get_field (codes "data") seg)) [
  | inl e ↦ (end, rw (e, data_of), refl)
  | inr (value, e) ↦ elim (Option-cases (as_obj value)) [
    | inl f ↦ absurd (ground arith)
    | inr (fields, f) ↦ (fields, rw (e, data_of) (rw f), ground arith)
  ]
]

text_of-good :
    (fields : Fields) → has_good_fields fields ≡ true → (t : Text) × (text_of fields ≡ ok t)
unfolding text_of
text_of-good fields h = elim (Option-cases (get_field (codes "text") fields)) [
  | inl e ↦ ([], rw (e, text_of))
  | inr (value, e) ↦ elim (Option-cases (as_str value)) [
    | inl f ↦ absurd (ground arith)
    | inr (t, f) ↦ (t, rw (e, text_of) (rw f))
  ]
]

abbrev with_image : (Json → Text) → Fields → Parts → Parts
with_image to_str fields parts = record parts {
  has_image = true;
  image_file = or_json parts.image_file (get_or_null (codes "file") fields);
  image_url = or_json parts.image_url (get_or_null (codes "url") fields);
  media_kind = if is_sticker to_str fields then codes "sticker" else parts.media_kind;
}

record AreGood (parts : Parts) : Type 0 where
  good_file : is_optional_str parts.image_file ≡ true
  good_url : is_optional_str parts.image_url ≡ true

add_segment-AreGood :
    (to_str : Json → Text) (seg : Fields) (parts : Parts)
    → is_well_shaped seg ≡ true
    → AreGood parts
    → (next : Parts) × (add_segment to_str seg parts ≡ ok next) × AreGood next
unfolding add_segment
add_segment-AreGood to_str seg parts h good =
    let (fields, found, fine) = data_of-good seg h in
    let (t, text) = text_of-good fields fine in
    elim (Bool-cases (type_is (codes "text") seg)) [
      | inl e ↦ (
        record parts { text = parts.text ++ t },
        rw (e, add_segment) (rw found (rw text)),
        record { good_file = good.good_file; good_url = good.good_url },
      )
      | inr e ↦ elim (Bool-cases (type_is (codes "image") seg)) [
        | inl i ↦ (
          with_image to_str fields parts,
          rw (e, add_segment) (rw i (rw found)),
          record {
            good_file =
                or_json-optional parts.image_file (get_or_null (codes "file") fields) good.good_file
                  (ground arith);
            good_url =
                or_json-optional parts.image_url (get_or_null (codes "url") fields) good.good_url
                  (ground arith);
          },
        )
        | inr i ↦ (
          (if is_media_segment seg then record parts { has_media = true } else parts),
          rw (e, add_segment) (rw i),
          elim (Bool-cases (is_media_segment seg)) [
            | inl m ↦
                subst AreGood (sym (if_true _ _ _ m))
                  (record { good_file = good.good_file; good_url = good.good_url })
            | inr m ↦ subst AreGood (sym (if_false _ _ _ m)) good
          ],
        )
      ]
    ]

add_segments-AreGood :
    (to_str : Json → Text) (message : List Fields) (parts : Parts)
    → all is_well_shaped message ≡ true
    → AreGood parts
    → (after : Parts) × (add_segments to_str message parts ≡ ok after) × AreGood after
unfolding add_segments
add_segments-AreGood to_str [] parts h good = (parts, refl, good)
add_segments-AreGood to_str (seg ∷ segs) parts h good =
    let (next, now, fine) = add_segment-AreGood to_str seg parts (ground arith) good in
    let (after, later, last) = add_segments-AreGood to_str segs next (ground arith) fine in
    (after, rw (now, add_segments) later, last)

as_optional_str-ok :
    (a : Json) → is_optional_str a ≡ true → (o : Option Text) × (as_optional_str a ≡ ok o)
as_optional_str-ok null h = (none, refl)
as_optional_str-ok (str t) h = (some t, refl)
as_optional_str-ok (Json.boolean b) h = absurd cc
as_optional_str-ok (Json.number z l) h = absurd cc
as_optional_str-ok (Json.arr xs) h = absurd cc
as_optional_str-ok (obj fs) h = absurd cc

image_message-ok :
    (raw : Text) (parts : Parts)
    → AreGood parts
    → (c : ClassifiedMessage) × (image_message raw parts ≡ ok c)
unfolding image_message
image_message-ok raw parts good =
    let (file, f) = as_optional_str-ok parts.image_file good.good_file in
    let (url, u) = as_optional_str-ok parts.image_url good.good_url in
    (
      record {
        raw = raw;
        msg_type = image;
        content = some parts.text;
        image_file = file;
        image_url = url;
        media_kind = parts.media_kind;
      },
      rw (f, image_message) (rw u),
    )

classify_parts-ok :
    (raw : Text) (parts : Parts)
    → AreGood parts
    → (c : ClassifiedMessage) × (classify_parts raw parts ≡ ok c)
unfolding classify_parts
classify_parts-ok raw parts good =
    let (shown, done) = image_message-ok raw parts good in
    elim (Bool-cases parts.has_media) [
      | inl m ↦ (_, if_true _ _ _ m)
      | inr m ↦ elim (Bool-cases parts.has_image) [
        | inl i ↦ (shown, if_false _ _ _ m ∙ (if_true _ _ _ i ∙ done))
        | inr i ↦ elim (Bool-cases (ltb (length parts.text) 50)) [
          | inl s ↦ (_, if_false _ _ _ m ∙ (if_false _ _ _ i ∙ if_true _ _ _ s))
          | inr s ↦ (_, if_false _ _ _ m ∙ (if_false _ _ _ i ∙ if_false _ _ _ s))
        ]
      ]
    ]

-- A message is classified, and never refused, if the data of each segment is missing or an object,
-- whose text is missing or a string and whose file and URL are missing, null or strings.
pub classify_message-total :
    (to_str : Json → Text) (message : List Fields) (raw : Text)
    → all is_well_shaped message ≡ true
    → (c : ClassifiedMessage) × (classify_message to_str message raw ≡ ok c)
unfolding classify_message
classify_message-total to_str message raw h =
    let (parts, found, good) =
      add_segments-AreGood to_str message no_parts h
        (record { good_file = refl; good_url = refl }) in
    let (c, done) = classify_parts-ok raw parts good in (c, rw (found, classify_message) done)
