-- ===== src/Store/Media.antt =====
-- The media ledger and the files that it names (register_media and its neighbours of
-- archive/v3/src/mutsumi_sync/memory/store.py). Data is a list of bytes.
use mutsumi_s_sync.Common.{
  ℕ, ◌+◌, ◌==◌, ◌≡◌, ap, ◌&&◌, inl, inr, Option, none, some, List, [], ◌∷◌, ◌++◌, map, arith,
  Bool-cases, Option-cases,
}
use mutsumi_s_sync.Common.{
  Text, codes, text_eq, text_eq_refl, is_empty, take, leb, if◌then◌else◌, Result, ok, err, Dict,
  put,
}
use mutsumi_s_sync.Ledger.{StoreError, integrity_error, row_unreadable}

pub record MediaRecord : Type 0 where
  pub media_id : Text
  pub sha256 : Text
  pub kind : Text
  pub path : Text
  pub source_url : Text
  pub mime_type : Text
  pub description : Text
  pub short_description : Text
  pub status : Text
  pub created_at : ℕ
  pub last_used_at : ℕ

-- The table, and the files below `media_dir` by their paths.
pub record MediaStore : Type 0 where
  pub rows : List MediaRecord
  pub files : Dict (List ℕ)

unfoldable pub find_media : Text → List MediaRecord → Option MediaRecord
find_media media_id [] = none
find_media media_id (r ∷ rows) =
    if text_eq r.media_id media_id then some r else find_media media_id rows

unfoldable pub get_media : Text → MediaStore → Option MediaRecord
unfolding find_media
get_media media_id s = find_media media_id s.rows

unfoldable pub get_media_by_sha256 : Text → List MediaRecord → Option MediaRecord
get_media_by_sha256 sha256 [] = none
get_media_by_sha256 sha256 (r ∷ rows) =
    if text_eq r.sha256 sha256 then some r else get_media_by_sha256 sha256 rows

-- `ext.lstrip(".")`
strip_dots : Text → Text
strip_dots [] = []
strip_dots (c ∷ t) = let rest = strip_dots t in if c == b'.' then rest else c ∷ t

ascii_lower : Text → Text
ascii_lower t = map (λ c. if leb b'A' c && leb c b'Z' then c + 32 else c) t

-- Lowering a letter outside ASCII gives none of the keys.
unfoldable pub mime_for_extension : Text → Text
unfolding strip_dots ascii_lower text_eq
mime_for_extension ext =
    let e = strip_dots (ascii_lower ext) in
    if text_eq e (codes "png")
    then codes "image/png"
    else if text_eq e (codes "jpg")
    then codes "image/jpeg"
    else if text_eq e (codes "jpeg")
    then codes "image/jpeg"
    else if text_eq e (codes "gif")
    then codes "image/gif"
    else if text_eq e (codes "webp")
    then codes "image/webp"
    else if text_eq e (codes "mp4")
    then codes "video/mp4"
    else if text_eq e (codes "mp3")
    then codes "audio/mpeg"
    else codes "application/octet-stream"

abbrev subdir : Text → Text
subdir kind =
    if text_eq kind (codes "image")
    then codes "images"
    else if text_eq kind (codes "audio")
    then codes "audio"
    else if text_eq kind (codes "video")
    then codes "video"
    else codes "other"

abbrev file_name : Text → Text → Text
file_name digest ext = if is_empty ext then digest else digest ++ (codes "." ++ ext)

update_media : Text → (MediaRecord → MediaRecord) → List MediaRecord → List MediaRecord
update_media media_id f [] = []
update_media media_id f (r ∷ rows) =
    (if text_eq r.media_id media_id then f r else r) ∷ update_media media_id f rows

abbrev used : ℕ → MediaRecord → MediaRecord
used now r = record r { last_used_at = now }

unfoldable pub mark_media_used : ℕ → Text → MediaStore → MediaStore
unfolding update_media
mark_media_used now media_id s = record s { rows = update_media media_id (used now) s.rows }

unfoldable pub set_media_status : Text → Text → MediaStore → MediaStore
unfolding update_media
set_media_status media_id status s = record s {
  rows = update_media media_id (λ r. record r { status = status }) s.rows;
}

unfoldable pub update_media_description : ℕ → Text → Text → Text → MediaStore → MediaStore
unfolding update_media
update_media_description now media_id description short_description s = record s {
  rows =
      update_media media_id
        (λ r. record r {
          description = description;
          short_description =
              if is_empty short_description then take 80 description else short_description;
          last_used_at = now;
        })
        s.rows;
}

-- `INSERT`: the id is the primary key and the digest is `UNIQUE`.
unfoldable pub insert_media : MediaRecord → MediaStore → Result StoreError MediaRecord × MediaStore
unfolding find_media get_media_by_sha256
insert_media row s = elim (find_media row.media_id s.rows) [
  | some taken ↦ (err integrity_error, s)
  | none ↦ elim (get_media_by_sha256 row.sha256 s.rows) [
    | some taken ↦ (err integrity_error, s)
    | none ↦
        let after = record s { rows = s.rows ++ row ∷ [] } in
        (
          elim (find_media row.media_id after.rows) [
            | none ↦ err row_unreadable
            | some read ↦ ok read
          ],
          after,
        )
  ]
]

abbrev new_media : ℕ → Text → Text → Text → Text → Text → Text → MediaRecord
new_media now media_id digest kind path source_url mime = record {
  media_id = media_id;
  sha256 = digest;
  kind = kind;
  path = path;
  source_url = source_url;
  mime_type = mime;
  description = [];
  short_description = [];
  status = codes "active";
  created_at = now;
  last_used_at = now;
}

-- `digest` is the hexadecimal SHA-256 of the data. A row that is there is returned as it was read.
unfoldable pub register_media :
    (List ℕ → Text)
    → Text
    → ℕ
    → List ℕ
    → Text
    → Text
    → Text
    → MediaStore
    → Result StoreError MediaRecord × MediaStore
unfolding get_media mark_media_used insert_media mime_for_extension strip_dots
register_media sha256 media_dir now bytes kind ext source_url s =
    let extension = strip_dots ext in
    let digest = sha256 bytes in
    let media_id = codes "media_" ++ take 24 digest in
    elim (get_media media_id s) [
      | some existing ↦ (ok existing, mark_media_used now media_id s)
      | none ↦
          let path =
            media_dir
            ++ (codes "/" ++ (subdir kind ++ (codes "/" ++ file_name digest extension))) in
          insert_media
            (new_media now media_id digest kind path source_url (mime_for_extension extension))
            (record s { files = put path bytes s.files })
    ]

-- `source_url.rsplit(".", 1)[-1]`: what stands behind the last dot, or all of it.
last_part : Text → Text → Text
last_part kept [] = kept
last_part kept (c ∷ t) =
    let cut = last_part t t in let same = last_part kept t in if c == b'.' then cut else same

unfoldable pub register_external_media :
    (Text → Text) → ℕ → Text → Text → MediaStore → Result StoreError MediaRecord × MediaStore
unfolding get_media insert_media mime_for_extension last_part
register_external_media sha256_utf8 now source_url kind s =
    let digest = sha256_utf8 source_url in
    let media_id = codes "media_url_" ++ take 24 digest in
    elim (get_media media_id s) [
      | some existing ↦ (ok existing, s)
      | none ↦
          insert_media
            (new_media now media_id digest kind [] source_url
              (mime_for_extension (last_part source_url source_url)))
            s
    ]

find_media-snoc :
    (rows : List MediaRecord) (row : MediaRecord)
    → find_media row.media_id rows ≡ none
    → find_media row.media_id (rows ++ row ∷ []) ≡ some row
unfolding find_media
find_media-snoc [] row h = rw (text_eq_refl row.media_id)
find_media-snoc (x ∷ rows) row h = ground (arith, find_media-snoc rows row)

find_media-used :
    (now : ℕ) (media_id : Text) (rows : List MediaRecord) (r : MediaRecord)
    → find_media media_id rows ≡ some r
    → find_media media_id (update_media media_id (used now) rows) ≡ some (used now r)
unfolding find_media update_media
find_media-used now media_id [] r h = absurd cc
find_media-used now media_id (x ∷ rows) r h = elim (Bool-cases (text_eq x.media_id media_id)) [
  | inl e ↦ let same : x ≡ r = ground (arith, e) in rw e (rw e (ap (λ y. some (used now y)) same))
  | inr e ↦ rw e (rw e (find_media-used now media_id rows r (ground arith)))
]

insert_media-new :
    (row : MediaRecord) (s : MediaStore)
    → find_media row.media_id s.rows ≡ none
    → get_media_by_sha256 row.sha256 s.rows ≡ none
    → insert_media row s ≡ (ok row, record s { rows = s.rows ++ row ∷ [] })
unfolding insert_media
insert_media-new row s e d = rw (e, insert_media) (rw d (rw (find_media-snoc s.rows row e)))

insert_media-found :
    (row : MediaRecord) (s : MediaStore) (r : MediaRecord)
    → (insert_media row s).0 ≡ ok r
    → find_media row.media_id (insert_media row s).1.rows ≡ some row
unfolding insert_media
insert_media-found row s r h = elim (Option-cases (find_media row.media_id s.rows)) [
  | inr (taken, e) ↦ absurd (ground arith)
  | inl e ↦ elim (Option-cases (get_media_by_sha256 row.sha256 s.rows)) [
    | inr (taken, d) ↦ absurd (ground arith)
    | inl d ↦ rw (insert_media-new row s e d) (find_media-snoc s.rows row e)
  ]
]

module _ (sha256 : List ℕ → Text) (media_dir : Text) (bytes : List ℕ) where
  abbrev pub media_id_of : Text
  media_id_of = codes "media_" ++ take 24 (sha256 bytes)

  register_media-known :
      (now : ℕ) (kind ext url : Text) (s : MediaStore) (r : MediaRecord)
      → get_media media_id_of s ≡ some r
      → register_media sha256 media_dir now bytes kind ext url s
        ≡ (ok r, mark_media_used now media_id_of s)
  unfolding register_media
  register_media-known now kind ext url s r found = rw (found, register_media)

  abbrev added : ℕ → Text → Text → Text → MediaStore → MediaRecord × MediaStore
  added now kind ext url s =
      let extension = strip_dots ext in
      let path =
        media_dir
        ++ (codes "/" ++ (subdir kind ++ (codes "/" ++ file_name (sha256 bytes) extension))) in
      (
        new_media now media_id_of (sha256 bytes) kind path url (mime_for_extension extension),
        record s { files = put path bytes s.files },
      )

  register_media-new :
      (now : ℕ) (kind ext url : Text) (s : MediaStore)
      → get_media media_id_of s ≡ none
      → register_media sha256 media_dir now bytes kind ext url s
        ≡ insert_media (added now kind ext url s).0 (added now kind ext url s).1
  unfolding register_media
  register_media-new now kind ext url s missing =
      ap
        (λ (o : Option MediaRecord). elim o as (λ x. Result StoreError MediaRecord × MediaStore) [
          | some existing ↦ (ok existing, mark_media_used now media_id_of s)
          | none ↦ insert_media (added now kind ext url s).0 (added now kind ext url s).1
        ])
        missing

  register_media-found :
      (now : ℕ) (kind ext url : Text) (s : MediaStore) (r : MediaRecord)
      → (register_media sha256 media_dir now bytes kind ext url s).0 ≡ ok r
      → (stored : MediaRecord) × (get_media media_id_of
            (register_media sha256 media_dir now bytes kind ext url s).1
          ≡ some stored)
  unfolding register_media get_media mark_media_used
  register_media-found now kind ext url s r h = elim (Option-cases (get_media media_id_of s)) [
    | inr (known, e) ↦ (
      used now known,
      rw (register_media-known now kind ext url s known e)
          (find_media-used now media_id_of s.rows known e),
    )
    | inl e ↦
        let (row, before) = added now kind ext url s in
        let same = register_media-new now kind ext url s e in
        (row, rw same (insert_media-found row before r (ground (arith, same))))
  ]

  -- The same bytes, registered a second time after a registration that succeeded and under whatever
  -- kind, extension and source, give the stored row of the first time, mark it used, and neither
  -- write a file nor add a row.
  pub register_media_again :
      (now later : ℕ) (kind kind' ext ext' url url' : Text) (s : MediaStore) (r : MediaRecord)
      → (register_media sha256 media_dir now bytes kind ext url s).0 ≡ ok r
      → let after = (register_media sha256 media_dir now bytes kind ext url s).1 in
        (stored : MediaRecord) × (get_media media_id_of after ≡ some stored)
        × (register_media sha256 media_dir later bytes kind' ext' url' after
            ≡ (ok stored, mark_media_used later media_id_of after))
  register_media_again now later kind kind' ext ext' url url' s r h =
      let after = (register_media sha256 media_dir now bytes kind ext url s).1 in
      let (stored, found) = register_media-found now kind ext url s r h in
      (stored, found, register_media-known later kind' ext' url' after stored found)
