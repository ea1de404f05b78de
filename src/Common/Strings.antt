-- ===== src/Common/Strings.antt =====
-- Python's `str` as the list of its code points, with the string methods that the program calls.
use Prim.Native.Nat.{ℕ, suc, ◌+◌, ◌-◌}
use Prim.Native.Char.{code}
use Prim.Native.String.{String}
use mathlib.Core.Path.{◌≡◌, refl}
use mathlib.Core.Logic.{◌↔◌}
use mathlib.Core.Bool.{Bool, true, false, ◌&&◌, ◌||◌}
use mathlib.Core.List.{List, [], ◌∷◌, ◌++◌}
use mathlib.Core.Option.{Option, none, some}
use native.Mathlib.Omega.{arith}
use mutsumi_s_sync.Common.Tests.{leb, ◌==◌, if◌then◌else◌}
use mutsumi_s_sync.Common.Lists.{take, drop, is_empty}

abbrev pub Text : Type 0
Text = List ℕ

abbrev pub codes : String → Text
codes String.[] = []
codes (String.◌∷◌ c s) = code c ∷ codes s

unfoldable pub text_eq : Text → Text → Bool
text_eq [] [] = true
text_eq [] (y ∷ ys) = false
text_eq (x ∷ xs) [] = false
text_eq (x ∷ xs) (y ∷ ys) = x == y && text_eq xs ys

pub text_eq_refl : (s : Text) → text_eq s s ≡ true
unfolding text_eq
text_eq_refl [] = refl
text_eq_refl (x ∷ xs) = ground (arith, text_eq_refl xs)

text_eq_sound : (s t : Text) → text_eq s t ≡ true → s ≡ t
unfolding text_eq
text_eq_sound [] [] h = refl
text_eq_sound [] (y ∷ ys) h = cc
text_eq_sound (x ∷ xs) [] h = cc
text_eq_sound (x ∷ xs) (y ∷ ys) h = ground (arith, text_eq_sound xs ys)

pub text_eq_iff : (s t : Text) → (text_eq s t ≡ true) ↔ (s ≡ t)
text_eq_iff s t = (text_eq_sound s t, λ e. rw e (text_eq_refl t))

-- `str.isspace` of one character, which is also `\s` of the `re` module.
unfoldable pub is_space : ℕ → Bool
is_space c =
    leb 9 c && leb c 13
    || leb 28 c && leb c 32
    || c == 0x85
    || c == 0xa0
    || c == 0x1680
    || leb 0x2000 c && leb c 0x200a
    || c == 0x2028
    || c == 0x2029
    || c == 0x202f
    || c == 0x205f
    || c == 0x3000

unfoldable pub lstrip : Text → Text
lstrip [] = []
lstrip (c ∷ t) = if is_space c then lstrip t else c ∷ t

abbrev cons_unless_blank : ℕ → Text → Text
cons_unless_blank c [] = if is_space c then [] else c ∷ []
cons_unless_blank c (d ∷ t) = c ∷ d ∷ t

unfoldable pub rstrip : Text → Text
rstrip [] = []
rstrip (c ∷ t) = cons_unless_blank c (rstrip t)

unfoldable pub strip : Text → Text
strip t = rstrip (lstrip t)

-- `text.startswith(prefix)`
unfoldable pub starts_with : Text → Text → Bool
starts_with t [] = true
starts_with [] (p ∷ ps) = false
starts_with (c ∷ t) (p ∷ ps) = c == p && starts_with t ps

-- The first position of `needle`, which is not empty wherever the program searches.
unfoldable pub find : Text → Text → Option ℕ
find needle [] = none
find needle (c ∷ t) =
    if starts_with (c ∷ t) needle
    then some 0
    else elim (find needle t) [ none ↦ none | some i ↦ some (suc i) ]

-- `text.find(needle, start)`, with `none` for -1
unfoldable pub find_from : Text → Text → ℕ → Option ℕ
find_from needle t start = elim (find needle (drop start t)) [
  | none ↦ none
  | some i ↦ some (start + i)
]

-- `needle in text`
unfoldable pub contains : Text → Text → Bool
unfolding find
contains needle t = elim (find needle t) [ none ↦ false | some i ↦ true ]

-- `text[a:b]` for `0 <= a`
unfoldable pub slice : Text → ℕ → ℕ → Text
slice t a b = take (b - a) (drop a t)

-- `sep.join(parts)`
unfoldable pub join : Text → List Text → Text
join sep [] = []
join sep (x ∷ []) = x
join sep (x ∷ y ∷ xs) = x ++ (sep ++ join sep (y ∷ xs))

-- `text.split()`: the runs of characters that are no white space. `word` is the run so far.
split_words : Text → Text → List Text
split_words word [] = if is_empty word then [] else word ∷ []
split_words word (c ∷ t) =
    let kept = split_words (word ++ c ∷ []) t in
    let cut = split_words [] t in
    if is_space c then (if is_empty word then cut else word ∷ cut) else kept

unfoldable pub words : Text → List Text
unfolding split_words
words t = split_words [] t

-- `text.partition(sep)` for one character: what stands before its first place, and what stands
-- behind it if it is there.
unfoldable pub partition_at : ℕ → Text → Text × Option Text
partition_at sep [] = ([], none)
partition_at sep (c ∷ t) =
    let (before, after) = partition_at sep t in
    if c == sep then ([], some t) else (c ∷ before, after)
