-- ===== src/Tests/EnvelopeTests.antt =====
-- The envelope at concrete texts.
use mutsumi_s_sync.Common.{
  ◌≡◌, refl, ◌↔◌, true, false, none, some, [], ok, err, Text, codes, strip, rstrip, lstrip,
  starts_with, is_space, find, find_from, contains, slice, text_eq,
}
use mutsumi_s_sync.Envelope.{
  FinalEnvelope, format_final_envelope, parse_final_envelope, recover_final_envelope,
  extract_unambiguous_to_user, user_must_follow,
}
use mutsumi_s_sync.Envelope.Grammar.{IsEnvelope, parse_final_envelope_iff}
use mutsumi_s_sync.Envelope.RoundTrip.{parse-format}
use mutsumi_s_sync.Envelope.Recovery.{parse-conservative}

abbrev reply : Text
reply = codes "[TO_SELF]\n note [/TO_SELF] [TO_USER]hello[/TO_USER]\n"

abbrev parts : FinalEnvelope
parts = record { to_self = codes "note"; to_user = codes "hello" }

tools : Unit {0}
unfolding parse_final_envelope recover_final_envelope extract_unambiguous_to_user strip rstrip
    lstrip starts_with is_space find find_from contains slice text_eq
tools = tt

parse-reply : parse_final_envelope reply true ≡ ok parts
unfolding tools
parse-reply = refl

-- A marker in another order is no envelope, and the recovering mode still finds the user block.
wrong_order :
    (parse_final_envelope (codes "[TO_SELF]a[/TO_SELF]b[TO_USER]c[/TO_USER]") true
      ≡ err user_must_follow)
    × (parse_final_envelope (codes " [TO_USER]c[/TO_USER]") false
        ≡ ok (record { to_self = []; to_user = codes "c" }))
    × (extract_unambiguous_to_user (codes "x[TO_USER]c[/TO_USER]y") ≡ some (codes "c"))
    × (extract_unambiguous_to_user (codes "[TO_USER]c[/TO_USER][TO_USER]d[/TO_USER]") ≡ none)
unfolding tools
wrong_order = (refl, refl, refl, refl)

parse_final_envelope_iff_example :
    (parse_final_envelope reply true ≡ ok parts) ↔ IsEnvelope (strip reply) parts
parse_final_envelope_iff_example = parse_final_envelope_iff reply parts

parse-format_example :
    parse_final_envelope (format_final_envelope (codes " a ") (codes "b|[TO_USER]")) false
    ≡ ok (record { to_self = strip (codes " a "); to_user = strip (codes "b|[TO_USER]") })
unfolding tools
parse-format_example = parse-format (codes " a ") (codes "b|[TO_USER]") false refl refl

parse-conservative_example : parse_final_envelope reply false ≡ ok parts
parse-conservative_example = parse-conservative reply parts false parse-reply
