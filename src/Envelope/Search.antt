-- ===== src/Envelope/Search.antt =====
-- Where `find` stops in a text that is put together from parts.
use mutsumi_s_sync.Common.{ℕ, suc, ◌+◌, ◌-◌, ◌≡◌, refl, ap, ◌∙◌, true, false, inl, inr, ◌||◌}
use mutsumi_s_sync.Common.{[], ◌∷◌, ◌++◌, some, arith, Bool-cases, Option-cases, All, ◌==◌}
use mutsumi_s_sync.Common.{
  Text, starts_with, find, find_from, contains, slice, length, drop, drop-at, take-at,
  length-append, append_assoc,
}

pub starts_with-append : (m t : Text) → starts_with (m ++ t) m ≡ true
unfolding starts_with
starts_with-append [] t = refl
starts_with-append (c ∷ m) t = ground (arith, starts_with-append m t)

-- A prefix test that passes shows the prefix.
pub starts_with_sound : (t m : Text) → starts_with t m ≡ true → t ≡ m ++ drop (length m) t
unfolding starts_with
starts_with_sound t [] h = refl
starts_with_sound [] (c ∷ m) h = cc
starts_with_sound (x ∷ t) (c ∷ m) h = ground (arith, starts_with_sound t m)

abbrev pub Lacks : ℕ → Text → Type 0
Lacks c m = All (λ x. (x == c) ≡ false) m

-- A marker without the character `c` does not run across one.
pub starts_with-separated :
    (s m t : Text) (c : ℕ) → Lacks c m → starts_with (s ++ c ∷ t) m ≡ true → starts_with s m ≡ true
unfolding starts_with
starts_with-separated s [] t c l h = refl
starts_with-separated [] (x ∷ m) t c l h = ground arith
starts_with-separated (y ∷ s) (x ∷ m) t c l h = ground (arith, starts_with-separated s m t c l.1)

pub find-hit : (m t : Text) (c : ℕ) → find (c ∷ m) (c ∷ m ++ t) ≡ some 0
unfolding find
find-hit m t c = rw (starts_with-append (c ∷ m) t)

pub contains-cons :
    (m t : Text) (c : ℕ) → contains m (c ∷ t) ≡ (starts_with (c ∷ t) m || contains m t)
unfolding contains find
contains-cons m t c = ground arith

pub find-miss :
    (m t : Text) (c i : ℕ)
    → starts_with (c ∷ t) m ≡ false
    → find m t ≡ some i
    → find m (c ∷ t) ≡ some (suc i)
unfolding find
find-miss m t c i h k = rw (h, k)

starts_with-inner :
    (s m t : Text) (x y : ℕ)
    → Lacks x m
    → starts_with (y ∷ s ++ (x ∷ m ++ t)) (x ∷ m) ≡ true
    → starts_with (y ∷ s) (x ∷ m) ≡ true
unfolding starts_with
starts_with-inner s m t x y l h = ground (arith, starts_with-separated s m (m ++ t) x l)

-- A marker whose first character does not come again is found first where it was put.
pub find-append :
    (s m t : Text) (x : ℕ)
    → Lacks x m
    → contains (x ∷ m) s ≡ false
    → find (x ∷ m) (s ++ (x ∷ m ++ t)) ≡ some (length s)
find-append [] m t x l h = find-hit m t x
find-append (y ∷ s) m t x l h =
    let rest = s ++ (x ∷ m ++ t) in
    elim (Bool-cases (starts_with (y ∷ rest) (x ∷ m))) [
      | inl e ↦ ground (arith, contains-cons (x ∷ m) s y, starts_with-inner s m t x y l e)
      | inr e ↦
          find-miss (x ∷ m) rest y (length s) e
            (find-append s m t x l (ground (arith, contains-cons (x ∷ m) s y)))
    ]

-- What `find` has found: the first occurrence.
pub record FoundAt (m t : Text) (i : ℕ) : Type 0 where
  pub before : Text
  pub after : Text
  pub split : t ≡ before ++ (m ++ after)
  pub first : contains m before ≡ false
  pub index : i ≡ length before

pub starts_with-prefix : (s m t : Text) → starts_with s m ≡ true → starts_with (s ++ t) m ≡ true
unfolding starts_with
starts_with-prefix s [] t h = refl
starts_with-prefix [] (x ∷ m) t h = cc
starts_with-prefix (y ∷ s) (x ∷ m) t h = ground (arith, starts_with-prefix s m t)

FoundAt-suc :
    (x : ℕ) (m t : Text) (c i j : ℕ)
    → i ≡ suc j
    → starts_with (c ∷ t) (x ∷ m) ≡ false
    → FoundAt (x ∷ m) t j
    → FoundAt (x ∷ m) (c ∷ t) i
FoundAt-suc x m t c i j e h f = record {
  before = c ∷ f.before;
  after = f.after;
  split = ap (λ l. c ∷ l) f.split;
  first = ground (
    arith,
    contains-cons (x ∷ m) f.before c,
    starts_with-prefix (c ∷ f.before) (x ∷ m) (x ∷ m ++ f.after),
    f.split,
    h,
    f.first,
  );
  index = e ∙ ap suc f.index;
}

pub find-FoundAt : (x : ℕ) (m t : Text) (i : ℕ) → find (x ∷ m) t ≡ some i → FoundAt (x ∷ m) t i
unfolding find
find-FoundAt x m [] i h = cc
find-FoundAt x m (c ∷ t) i h = elim (Bool-cases (starts_with (c ∷ t) (x ∷ m))) [
  | inl e ↦ record {
    before = [];
    after = drop (length (x ∷ m)) (c ∷ t);
    split = starts_with_sound (c ∷ t) (x ∷ m) e;
    first = unfold contains in refl;
    index = ground arith;
  }
  | inr e ↦ elim (Option-cases (find (x ∷ m) t)) [
    | inl n ↦ absurd (ground arith)
    | inr (j, k) ↦ FoundAt-suc x m t c i j (ground arith) e (find-FoundAt x m t j k)
  ]
]

-- `text[n:m]` where `b` stands
pub slice-at :
    (a b c : Text) (n m : ℕ)
    → n ≡ length a
    → m ≡ length a + length b
    → slice (a ++ (b ++ c)) n m ≡ b
unfolding slice
slice-at a b c n m e f = rw (drop-at a (b ++ c) n e) (take-at b c (m - n) (omega arith))

pub drop-at_behind :
    (a b c d : Text) (n : ℕ)
    → n ≡ length a + length b + length c
    → drop n (a ++ (b ++ (c ++ d))) ≡ d
drop-at_behind a b c d n e =
    let n-eq : n ≡ length (a ++ (b ++ c)) =
      omega (arith, length-append a (b ++ c), length-append b c) in
    simp append_assoc at (drop-at (a ++ (b ++ c)) d n n-eq)

-- A search that begins behind `a`.
pub find_from-at :
    (m a b : Text) (n i : ℕ)
    → n ≡ length a
    → find m b ≡ some i
    → find_from m (a ++ b) n ≡ some (n + i)
unfolding find_from
find_from-at m a b n i e h = rw (drop-at a b n e, h, find_from)

-- A blank behind the text brings no occurrence.
pub contains-snoc :
    (s m : Text) (c : ℕ) (x : ℕ)
    → Lacks c (x ∷ m)
    → contains (x ∷ m) s ≡ false
    → contains (x ∷ m) (s ++ c ∷ []) ≡ false
contains-snoc [] m c x l h = unfold contains find starts_with in ground arith
contains-snoc (y ∷ s) m c x l h = ground (
  arith,
  contains-cons (x ∷ m) s y,
  contains-cons (x ∷ m) (s ++ c ∷ []) y,
  starts_with-separated (y ∷ s) (x ∷ m) [] c l,
  contains-snoc s m c x l,
)
