-- ===== src/Pipeline/Sanitizing.antt =====
-- What the action ledger keeps of a tool's arguments: `_sanitize_action_arguments` and
-- `_is_sensitive_name` of archive/v3/src/mutsumi_sync/pipeline.py. The hash and the literal of a
-- number are parameters.
use mutsumi_s_sync.Common.{
  ℕ, Bool, false, ◌==◌, Option, none, some, List, [], ◌∷◌, ◌≡◌, refl, ◌⊎◌, inl, inr, sym, subst,
  Bool-cases,
}
use mutsumi_s_sync.Common.{
  Text, codes, text_eq, text_eq_iff, any, contains, length, starts_with, find, if◌then◌else◌,
}
use mutsumi_s_sync.Json.{
  Json, null, boolean, number, str, arr, obj, Items, nil, cons, Fields, end, field,
}
use mutsumi_s_sync.Message.{lower_search}

abbrev secrets : List Text
secrets =
    codes "api_key" ∷ codes "token" ∷ codes "secret" ∷ codes "password" ∷ codes "authorization" ∷ []

-- `any(secret in lowered for secret in …)`
unfoldable pub is_secret_key : Text → Bool
unfolding lower_search
is_secret_key key = any (λ secret. contains secret (lower_search key)) secrets

-- `_is_sensitive_name`
unfoldable pub is_sensitive_name : Text → Bool
unfolding lower_search
is_sensitive_name name =
    any (λ secret. contains secret (lower_search name))
      (codes "api_key"
        ∷ codes "access_token"
        ∷ codes "session_token"
        ∷ codes "secret"
        ∷ codes "password"
        ∷ codes "authorization"
        ∷ [])

-- `sanitized[key] = value`
unfoldable pub set_field : Text → Json → Fields → Fields
set_field k v end = field k v end
set_field k v (field j w fs) =
    let rest = set_field k v fs in if text_eq j k then field j v fs else field j w rest

abbrev pub redacted : Json
redacted = str (codes "[redacted]")

abbrev as_markdown : Text → Json → Option Text
as_markdown key (str t) = if text_eq key (codes "markdown_image") then some t else none
as_markdown key _ = none

module _ (sha256 : Text → Text) (literal : ℕ → Text) where
  -- One round of the loop over a `dict`; `item` is the value and `clean` the value, sanitized.
  unfoldable pub set_item : Text → Json → Json → Fields → Fields
  unfolding set_field is_secret_key
  set_item key item clean sanitized =
      if is_secret_key key then set_field key redacted sanitized else elim (as_markdown key item) [
        | none ↦ set_field key clean sanitized
        | some text ↦
            set_field (codes "markdown_image_chars")
              (number (length text == 0) (literal (length text)))
              (set_field (codes "markdown_image_sha256") (str (sha256 text)) sanitized)
      ]

  mutual
    unfolding set_item

    pub sanitize : Json → Json
    sanitize null = null
    sanitize (boolean b) = boolean b
    sanitize (number z t) = number z t
    sanitize (str t) = str t
    sanitize (arr xs) = arr (sanitize_items xs)
    sanitize (obj fs) = obj (sanitize_fields fs end)

    pub sanitize_items : Items → Items
    sanitize_items nil = nil
    sanitize_items (cons x xs) = cons (sanitize x) (sanitize_items xs)

    pub sanitize_fields : Fields → Fields → Fields
    sanitize_fields end sanitized = sanitized
    sanitize_fields (field key item fs) sanitized =
        sanitize_fields fs (set_item key item (sanitize item) sanitized)

-- No field under a secret name has a value of its own, however deep it lies.
mutual
  pub IsRedacted : Json → Type 0
  IsRedacted null = Unit
  IsRedacted (boolean b) = Unit
  IsRedacted (number z t) = Unit
  IsRedacted (str t) = Unit
  IsRedacted (arr xs) = AreRedacted xs
  IsRedacted (obj fs) = FieldsRedacted fs

  pub AreRedacted : Items → Type 0
  AreRedacted nil = Unit
  AreRedacted (cons x xs) = IsRedacted x × AreRedacted xs

  pub FieldsRedacted : Fields → Type 0
  FieldsRedacted end = Unit
  FieldsRedacted (field k v fs) =
      ((is_secret_key k ≡ false) ⊎ (v ≡ redacted)) × IsRedacted v × FieldsRedacted fs

set_field-FieldsRedacted :
    (k : Text) (v : Json) (fs : Fields)
    → (is_secret_key k ≡ false) ⊎ (v ≡ redacted)
    → IsRedacted v
    → FieldsRedacted fs
    → FieldsRedacted (set_field k v fs)
unfolding set_field IsRedacted
set_field-FieldsRedacted k v end a b h = (a, b, tt)
set_field-FieldsRedacted k v (field j w fs) a b (c, d, h) = elim (Bool-cases (text_eq j k)) [
  | inl e ↦
      let same : k ≡ j = sym ((text_eq_iff j k).0 e) in
      rw e (subst (λ x. (is_secret_key x ≡ false) ⊎ (v ≡ redacted)) same a, b, h)
  | inr e ↦ rw e (c, d, set_field-FieldsRedacted k v fs a b h)
]

plain_keys :
    (is_secret_key (codes "markdown_image_sha256") ≡ false)
    × (is_secret_key (codes "markdown_image_chars") ≡ false)
unfolding is_secret_key contains find starts_with
plain_keys = (refl, refl)

module _ (sha256 : Text → Text) (literal : ℕ → Text) where
  set_item-FieldsRedacted :
      (key : Text) (item clean : Json) (fs : Fields)
      → IsRedacted clean
      → FieldsRedacted fs
      → FieldsRedacted (set_item sha256 literal key item clean fs)
  unfolding set_item IsRedacted
  set_item-FieldsRedacted key item clean fs c h = elim (Bool-cases (is_secret_key key)) [
    | inl e ↦ rw (e, set_item) (set_field-FieldsRedacted key redacted fs (inr refl) tt h)
    | inr e ↦ rw (e, set_item) (by_markdown (as_markdown key item) e)
  ]
    where
      by_markdown :
          (o : Option Text)
          → is_secret_key key ≡ false
          → FieldsRedacted (elim o [
            | none ↦ set_field key clean fs
            | some text ↦
                set_field
                  (codes "markdown_image_chars")
                  (number (length text == 0) (literal (length text)))
                  (set_field (codes "markdown_image_sha256") (str (sha256 text)) fs)
          ])
      by_markdown none e = set_field-FieldsRedacted key clean fs (inl e) c h
      by_markdown (some text) e =
          set_field-FieldsRedacted (codes "markdown_image_chars") _ _ (inl plain_keys.1) tt
            (set_field-FieldsRedacted (codes "markdown_image_sha256") _ fs (inl plain_keys.0) tt h)

  mutual
    unfolding sanitize IsRedacted

    redacts_value : (x : Json) → IsRedacted (sanitize sha256 literal x)
    redacts_value null = tt
    redacts_value (boolean b) = tt
    redacts_value (number z t) = tt
    redacts_value (str t) = tt
    redacts_value (arr xs) = redacts_items xs
    redacts_value (obj fs) = redacts_fields fs end tt

    redacts_items : (xs : Items) → AreRedacted (sanitize_items sha256 literal xs)
    redacts_items nil = tt
    redacts_items (cons x xs) = (redacts_value x, redacts_items xs)

    redacts_fields :
        (fs done : Fields)
        → FieldsRedacted done
        → FieldsRedacted (sanitize_fields sha256 literal fs done)
    redacts_fields end done h = h
    redacts_fields (field key item fs) done h =
        redacts_fields fs (set_item sha256 literal key item (sanitize sha256 literal item) done) (
          set_item-FieldsRedacted key item (sanitize sha256 literal item) done (redacts_value item)
            h)

  -- In what the action ledger keeps of any arguments, however deep, every field whose name holds a
  -- secret word has the redacted text as its value.
  pub sanitize-IsRedacted : (x : Json) → IsRedacted (sanitize sha256 literal x)
  sanitize-IsRedacted x = redacts_value x
