-- ===== src/Envelope.antt =====
-- The dual-channel envelope of the final model output
-- (archive/v3/src/mutsumi_sync/output_protocol.py). A text is the list of its code points.
mod Strip
mod Search
pub mod Grammar
pub mod RoundTrip
pub mod Recovery
use mutsumi_s_sync.Common.{ℕ, suc, ◌+◌, ◌-◌, Bool, true, false, not, ◌||◌, ◌&&◌, Option, none, some}
use mutsumi_s_sync.Common.{List, [], ◌∷◌, ◌++◌, Result, ok, err, if◌then◌else◌, any, all, ◌==◌}
use mutsumi_s_sync.Common.{
  Text, codes, is_space, strip, lstrip, starts_with, find_from, contains, slice, text_eq, length,
  take, drop, is_empty,
}

abbrev pub self_open : Text
self_open = codes "[TO_SELF]"

abbrev pub self_close : Text
self_close = codes "[/TO_SELF]"

abbrev pub user_open : Text
user_open = codes "[TO_USER]"

abbrev pub user_close : Text
user_close = codes "[/TO_USER]"

abbrev pub markers : List Text
markers = self_open ∷ self_close ∷ user_open ∷ user_close ∷ []

pub record FinalEnvelope : Type 0 where
  pub to_self : Text
  pub to_user : Text

-- One constructor for each message of `OutputProtocolError`.
pub data OutputProtocolError : Type 0 where
  must_start_with_self missing_self_close user_must_follow : OutputProtocolError
  missing_user_close content_after_user : OutputProtocolError

abbrev newline : Text
newline = 10 ∷ []

-- The f-string of the source, bracketed to the right.
unfoldable pub format_final_envelope : Text → Text → Text
format_final_envelope to_self to_user =
    self_open
    ++ (newline
        ++ (strip to_self
            ++ (newline
                ++ (self_close
                    ++ (newline
                        ++ (user_open
                            ++ (newline ++ (strip to_user ++ (newline ++ user_close)))))))))

-- Lines 50 to 60: the user block from the end of its opening marker on.
parse_user_block : Text → Text → ℕ → Result OutputProtocolError FinalEnvelope
parse_user_block text self_content user_content_start =
    elim (find_from user_close text user_content_start) [
      | none ↦ err missing_user_close
      | some user_end ↦
          if is_empty (strip (drop (user_end + length user_close) text))
          then ok (record {
            to_self = self_content;
            to_user = strip (slice text user_content_start user_end);
          })
          else err content_after_user
    ]

-- Lines 44 to 49: the white space and the opening marker behind the self block.
parse_after_self : Text → Text → ℕ → Result OutputProtocolError FinalEnvelope
unfolding parse_user_block
parse_after_self text self_content self_end =
    let user_start = self_end + length self_close in
    let between = drop user_start text in
    let whitespace = take (length between - length (lstrip between)) between in
    let user_start' = user_start + length whitespace in
    if text_eq (slice text user_start' (user_start' + length user_open)) user_open
    then parse_user_block text self_content (user_start' + length user_open)
    else err user_must_follow

-- Lines 36 to 60, of the stripped text
parse_stripped : Text → Result OutputProtocolError FinalEnvelope
unfolding parse_after_self
parse_stripped text =
    if starts_with text self_open
    then elim (find_from self_close text (length self_open)) [
      | none ↦ err missing_self_close
      | some self_end ↦
          parse_after_self text (strip (slice text (length self_open) self_end)) self_end
    ]
    else err must_start_with_self

-- `parse_final_envelope(content, strict=True)`
parse_strict : Text → Result OutputProtocolError FinalEnvelope
unfolding parse_stripped
parse_strict content = parse_stripped (strip content)

-- What `(.*?)` takes before the first `close`, and what stands behind that marker.
lazy_until : Text → Text → Option (Text × Text)
lazy_until close [] = none
lazy_until close (c ∷ t) =
    if starts_with (c ∷ t) close
    then some ([], drop (length close) (c ∷ t))
    else elim (lazy_until close t) [ none ↦ none | some (g, rest) ↦ some (c ∷ g, rest) ]

-- `(.*?)\[/TO_SELF\]\s*` against a whole text
lazy_to_end : Text → Text → Option Text
lazy_to_end close [] = none
lazy_to_end close (c ∷ t) =
    if starts_with (c ∷ t) close && all is_space (drop (length close) (c ∷ t))
    then some []
    else elim (lazy_to_end close t) [ none ↦ none | some g ↦ some (c ∷ g) ]

-- `re.fullmatch(r"\s*\[TO_SELF\](.*?)\[/TO_SELF\]\s*", text, re.DOTALL)`: its group. The white
-- space in front is skipped whole, since the marker begins with no white space.
match_self : Text → Option Text
unfolding lazy_to_end
match_self text =
    let t = lstrip text in
    if starts_with t self_open then lazy_to_end self_close (drop (length self_open) t) else none

-- A match of `\[TO_USER\](.*?)\[/TO_USER\]`: what stands before it, its group, and what follows.
record UserMatch : Type 0 where
  before : Text
  group : Text
  after : Text

-- The first match at or behind the current position, `re.search` with `re.DOTALL`.
search_user : Text → Option UserMatch
unfolding lazy_until
search_user [] = none
search_user (c ∷ t) =
    elim (if starts_with (c ∷ t) user_open
      then lazy_until user_close (drop (length user_open) (c ∷ t))
      else none) [
        | some (g, rest) ↦ some (record { before = []; group = g; after = rest })
        | none ↦ elim (search_user t) [
          | none ↦ none
          | some m ↦ some (record m { before = c ∷ m.before })
        ]
      ]

unfoldable pub recover_final_envelope : Text → Option FinalEnvelope
unfolding match_self search_user
recover_final_envelope content =
    let text = strip content in
    if is_empty text
    then none
    else if not (any (λ marker. contains marker text) markers)
    then some (record { to_self = []; to_user = text })
    else elim (search_user text) [
      | none ↦ none
      | some user_match ↦
          let remainder = user_match.before ++ user_match.after in
          elim (match_self text) [
            | none ↦
                if is_empty (strip remainder)
                then some (record { to_self = []; to_user = strip user_match.group })
                else none
            | some self_group ↦
                some (record { to_self = strip self_group; to_user = strip user_match.group })
          ]
    ]

unfoldable pub parse_final_envelope : Text → Bool → Result OutputProtocolError FinalEnvelope
unfolding parse_strict
parse_final_envelope content strict =
    if strict then parse_strict content else elim (recover_final_envelope content) [
      | some recovered ↦ ok recovered
      | none ↦ parse_strict content
    ]

-- `re.finditer`: every match, the next search starting behind the last match. Each match is longer
-- than its markers, so as many rounds as the text has characters are enough.
find_user_blocks : ℕ → Text → List Text
unfolding search_user
find_user_blocks ℕ.zero text = []
find_user_blocks (suc rounds) text = elim (search_user text) [
  | none ↦ []
  | some m ↦ m.group ∷ find_user_blocks rounds m.after
]

unfoldable pub extract_unambiguous_to_user : Text → Option Text
unfolding find_user_blocks
extract_unambiguous_to_user content = elim (find_user_blocks (length content) content) [
  | [] ↦ none
  | block ∷ [] ↦
      let candidate = strip block in
      if any (λ marker. contains marker candidate) markers then none else some candidate
  | block ∷ other ∷ more ↦ none
]
