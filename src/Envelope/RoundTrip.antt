-- ===== src/Envelope/RoundTrip.antt =====
-- What `format_final_envelope` builds is read back, by the strict and by the recovering parser.
use mutsumi_s_sync.Common.{◌≡◌, refl, ◌∙◌, Bool, false, [], ◌∷◌, ◌++◌, ok, append_assoc}
use mutsumi_s_sync.Common.{Text, codes, is_space, strip, rstrip, lstrip, starts_with, contains}
use mutsumi_s_sync.Envelope.Strip.{strip_framed, strip_padded, strip-strip}
use mutsumi_s_sync.Envelope.Search.{Lacks, contains-cons, contains-snoc}
use mutsumi_s_sync.Envelope.Recovery.{parse-conservative}
use mutsumi_s_sync.Envelope.Grammar.{IsEnvelope, parse_final_envelope_iff}
use mutsumi_s_sync.Envelope.{
  FinalEnvelope, self_close, user_close, format_final_envelope, parse_final_envelope,
}

format_body : Text → Text → Text
format_body s u =
    codes "TO_SELF]"
    ++ (codes "\n"
        ++ (strip s ++ (codes "\n[/TO_SELF]\n[TO_USER]\n" ++ (strip u ++ codes "\n[/TO_USER"))))

format-eq : (s u : Text) → format_final_envelope s u ≡ 91 ∷ format_body s u ++ 93 ∷ []
unfolding format_final_envelope format_body
format-eq s u = simp append_assoc

strip-format : (s u : Text) → strip (format_final_envelope s u) ≡ format_final_envelope s u
strip-format s u =
    rw format-eq
      (strip_framed (format_body s u) 91 93 (unfold is_space in refl) (unfold is_space in refl))

padded : Text → Text
padded t = 10 ∷ strip t ++ 10 ∷ []

strip-padded : (t : Text) → strip (padded t) ≡ strip t
unfolding padded
strip-padded t =
    strip_padded (strip t) 10 10 (unfold is_space in refl) (unfold is_space in refl) ∙ strip-strip t

padded-open :
    (t m : Text)
    → Lacks 10 m
    → contains (91 ∷ m) (strip t) ≡ false
    → contains (91 ∷ m) (padded t) ≡ false
unfolding padded starts_with
padded-open t m l h =
    contains-snoc (10 ∷ strip t) m 10 91 (refl, l) (rw (contains-cons (91 ∷ m) (strip t) 10) h)

format-IsEnvelope :
    (s u : Text)
    → contains self_close (strip s) ≡ false
    → contains user_close (strip u) ≡ false
    → IsEnvelope
        (strip (format_final_envelope s u))
        (record { to_self = strip s; to_user = strip u })
unfolding padded format_final_envelope rstrip
format-IsEnvelope s u h k = record {
  inner = padded s;
  gap = 10 ∷ [];
  outer = padded u;
  tail = [];
  shape = strip-format s u ∙ simp append_assoc;
  inner_open =
      padded-open s (codes "/TO_SELF]")
        (refl, (refl, (refl, (refl, (refl, (refl, (refl, (refl, (refl, tt))))))))) h;
  gap_blank = unfold is_space in refl;
  outer_open =
      padded-open u (codes "/TO_USER]")
        (refl, (refl, (refl, (refl, (refl, (refl, (refl, (refl, (refl, tt))))))))) k;
  tail_blank = unfold strip lstrip in refl;
  parts = cc (strip-padded s, strip-padded u);
}

-- Whatever the two texts are, if they do not hold their own closing markers, the parser returns
-- them stripped, in the strict and in the recovering mode.
pub parse-format :
    (s u : Text) (strict : Bool)
    → contains self_close (strip s) ≡ false
    → contains user_close (strip u) ≡ false
    → parse_final_envelope (format_final_envelope s u) strict
      ≡ ok (record { to_self = strip s; to_user = strip u })
parse-format s u strict h k =
    let parts : FinalEnvelope = record { to_self = strip s; to_user = strip u } in
    parse-conservative (format_final_envelope s u) parts strict
      ((parse_final_envelope_iff (format_final_envelope s u) parts).1 (format-IsEnvelope s u h k))
