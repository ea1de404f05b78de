-- ===== src/Envelope/Strip.antt =====
-- What `strip` keeps and what it drops.
use mutsumi_s_sync.Common.{ℕ, ◌≡◌, refl, true, false, inl, inr}
use mutsumi_s_sync.Common.{[], ◌∷◌, ◌++◌, arith, if◌then◌else◌, Bool-cases}
use mutsumi_s_sync.Common.{Text, all, ◌∙◌, is_empty, is_space, strip, lstrip, rstrip}

-- A text that does not begin with white space.
abbrev pub Starts : Text → Type 0
Starts [] = Unit
Starts (c ∷ t) = is_space c ≡ false

pub lstrip-Starts : (t : Text) → Starts (lstrip t)
unfolding lstrip
lstrip-Starts [] = tt
lstrip-Starts (c ∷ t) = elim (Bool-cases (is_space c)) [
  | inl e ↦ rw e (lstrip-Starts t)
  | inr e ↦ rw e e
]

pub lstrip-eq_of_Starts : (t : Text) → Starts t → lstrip t ≡ t
unfolding lstrip
lstrip-eq_of_Starts [] h = refl
lstrip-eq_of_Starts (c ∷ t) h = rw h

pub rstrip-Starts : (t : Text) → Starts t → Starts (rstrip t)
unfolding rstrip
rstrip-Starts [] h = tt
rstrip-Starts (c ∷ t) h = elim-on (rstrip t)
  where
    elim-on :
        (r : Text) → Starts (elim r [ [] ↦ if is_space c then [] else c ∷ [] | d ∷ s ↦ c ∷ d ∷ s ])
    elim-on [] = rw h h
    elim-on (d ∷ s) = h

pub rstrip-snoc_space : (t : Text) (c : ℕ) → is_space c ≡ true → rstrip (t ++ c ∷ []) ≡ rstrip t
unfolding rstrip
rstrip-snoc_space [] c h = rw h
rstrip-snoc_space (d ∷ t) c h = rw (rstrip-snoc_space t c h)

pub rstrip-snoc : (t : Text) (c : ℕ) → is_space c ≡ false → rstrip (t ++ c ∷ []) ≡ t ++ c ∷ []
unfolding rstrip
rstrip-snoc [] c h = rw h
rstrip-snoc (d ∷ []) c h = rw h
rstrip-snoc (d ∷ e ∷ t) c h = rw (rstrip-snoc (e ∷ t) c h)

pub rstrip-rstrip : (t : Text) → rstrip (rstrip t) ≡ rstrip t
unfolding rstrip
rstrip-rstrip [] = refl
rstrip-rstrip (c ∷ t) = ground (arith, rstrip-rstrip t)

-- A blank at either end makes no difference.
pub rstrip-lstrip-snoc :
    (t : Text) (c : ℕ) → is_space c ≡ true → rstrip (lstrip (t ++ c ∷ [])) ≡ rstrip (lstrip t)
unfolding lstrip
rstrip-lstrip-snoc [] c h = rw h
rstrip-lstrip-snoc (d ∷ t) c h = elim (Bool-cases (is_space d)) [
  | inl e ↦ rw e (rstrip-lstrip-snoc t c h)
  | inr e ↦ rw e (rstrip-snoc_space (d ∷ t) c h)
]

pub strip_padded :
    (t : Text) (c d : ℕ) → is_space c ≡ true → is_space d ≡ true → strip (c ∷ t ++ d ∷ []) ≡ strip t
unfolding strip lstrip
strip_padded t c d h k = rw h (rstrip-lstrip-snoc t d k)

pub strip-strip : (t : Text) → strip (strip t) ≡ strip t
unfolding strip
strip-strip t =
    rw (lstrip-eq_of_Starts (rstrip (lstrip t)) (rstrip-Starts (lstrip t) (lstrip-Starts t)))
      (rstrip-rstrip (lstrip t))

-- A text between two characters that are no white space is stripped already.
pub strip_framed :
    (t : Text) (c d : ℕ)
    → is_space c ≡ false
    → is_space d ≡ false
    → strip (c ∷ t ++ d ∷ []) ≡ c ∷ t ++ d ∷ []
unfolding strip lstrip
strip_framed t c d h k = rw h (rstrip-snoc (c ∷ t) d k)

-- A text that begins with a character that is no white space is not blank.
pub strip-cons : (t : Text) (c : ℕ) → is_space c ≡ false → is_empty (strip (c ∷ t)) ≡ false
unfolding strip lstrip rstrip
strip-cons t c h = rw h (ground arith)

pub is_empty-strip : (t : Text) → is_empty (strip t) ≡ all is_space t
unfolding strip lstrip rstrip
is_empty-strip [] = refl
is_empty-strip (c ∷ t) = elim (Bool-cases (is_space c)) [
  | inl e ↦ rw e (is_empty-strip t)
  | inr e ↦ strip-cons t c e ∙ rw e
]
