-- ===== src/Pipeline/Markdown.antt =====
-- The tests of a message for Markdown that the chat does not render:
-- `_unsupported_markdown_features` and `_split_visible_content` of
-- archive/v3/src/mutsumi_sync/pipeline.py. Each regular expression is a function by clauses.
use mutsumi_s_sync.Common.{
  ℕ, zero, suc, ◌==◌, Bool, true, false, not, ◌&&◌, ◌||◌, List, [], ◌∷◌, ◌++◌, if◌then◌else◌,
}
use mutsumi_s_sync.Common.{Text, codes, is_space, starts_with, contains, strip, is_empty}

unfoldable pub split_visible_content : Text → List Text
split_visible_content content = if is_empty (strip content) then [] else content ∷ []

-- `#{1,6}\s`, with how many further `#` the pattern takes
hashes_then_space : ℕ → Text → Bool
hashes_then_space n [] = false
hashes_then_space zero (c ∷ t) = is_space c
hashes_then_space (suc n) (c ∷ t) =
    let further = hashes_then_space n t in if c == 35 then further else is_space c

-- `\s{0,3}#{1,6}\s`, with how many further spaces the pattern takes
heading_here : ℕ → Text → Bool
unfolding hashes_then_space
heading_here n [] = false
heading_here zero (c ∷ t) = c == 35 && hashes_then_space 5 t
heading_here (suc n) (c ∷ t) =
    let further = heading_here n t in
    if c == 35 then hashes_then_space 5 t else is_space c && further

-- `\s*$`
rest_is_blank : Text → Bool
rest_is_blank [] = true
rest_is_blank (c ∷ t) = c == 10 || is_space c && rest_is_blank t

-- `.*\|\s*$`
bar_at_end : Text → Bool
unfolding rest_is_blank
bar_at_end [] = false
bar_at_end (c ∷ t) = not (c == 10) && (c == 124 && rest_is_blank t || bar_at_end t)

-- `\s*\|.*\|\s*$`
table_here : Text → Bool
unfolding bar_at_end
table_here [] = false
table_here (c ∷ t) =
    let further = table_here t in if c == 124 then bar_at_end t else is_space c && further

-- `\([^)]*\)`
parenthesis_here : Text → Bool
parenthesis_here t = starts_with t (codes "(") && contains (codes ")") t

-- `\(https?://[^)]+\)`
url_here : Text → Bool
url_here t =
    (starts_with t (codes "(http://") && not (starts_with t (codes "(http://)"))
      || starts_with t (codes "(https://") && not (starts_with t (codes "(https://)")))
    && contains (codes ")") t

-- `[^\]]*\]` and then the test
after_bracket : (Text → Bool) → Text → Bool
after_bracket test [] = false
after_bracket test (c ∷ t) =
    let further = after_bracket test t in if c == 93 then test t else further

image_here : Text → Bool
unfolding after_bracket parenthesis_here
image_here t = elim t [
  | [] ↦ false
  | c ∷ rest ↦
      c == 33
      && elim rest [ [] ↦ false | d ∷ label ↦ d == 91 && after_bracket parenthesis_here label ]
]

link_here : Text → Bool
unfolding after_bracket url_here
link_here t = elim t [
  | [] ↦ false
  | c ∷ label ↦ c == 91 && not (starts_with label (codes "]")) && after_bracket url_here label
]

-- `re.search`, of a pattern without `^`
somewhere : (Text → Bool) → Text → Bool
somewhere here [] = here []
somewhere here (c ∷ t) = here (c ∷ t) || somewhere here t

-- `re.search` under `(?m)^`, behind a line break or not
at_line_start : (Text → Bool) → Bool → Text → Bool
at_line_start here first [] = first && here []
at_line_start here first (c ∷ t) = first && here (c ∷ t) || at_line_start here (c == 10) t

pub data MarkdownFeature : Type 0 where
  heading code_fence table link_or_image latex : MarkdownFeature

abbrev when : Bool → MarkdownFeature → List MarkdownFeature
when found feature = if found then feature ∷ [] else []

unfoldable pub unsupported_markdown_features : Text → List MarkdownFeature
unfolding at_line_start somewhere heading_here table_here image_here link_here
unsupported_markdown_features content =
    when (at_line_start (heading_here 3) true content) heading
    ++ when (contains (codes "```") content || contains (codes "~~~") content) code_fence
    ++ when (at_line_start table_here true content) table
    ++ when (somewhere (λ t. image_here t || link_here t) content) link_or_image
    ++ when
        (contains (codes "$$") content
          || contains (codes "\\(") content
          || contains (codes "\\[") content)
        latex
