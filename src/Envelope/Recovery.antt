-- ===== src/Envelope/Recovery.antt =====
-- The recovering mode of `parse_final_envelope` beside the strict one.
use mutsumi_s_sync.Common.{
  ℕ, zero, suc, ◌≤◌, ◌≡◌, refl, sym, subst, ◌==◌, ==_iff, ◌∙◌, Bool, true, false, [], ◌∷◌, ◌++◌,
  none, some, inl, inr, arith, Bool-cases, Option-cases, ok, all, append_assoc, length-append,
}
use mutsumi_s_sync.Common.{
  Text, codes, is_space, strip, lstrip, starts_with, contains, find, drop, length, is_empty,
}
use mutsumi_s_sync.Envelope.Strip.{strip-cons, is_empty-strip}
use mutsumi_s_sync.Envelope.Grammar.{IsEnvelope, parse_final_envelope_iff}
use mutsumi_s_sync.Envelope.{
  FinalEnvelope, UserMatch, self_open, self_close, user_open, user_close, parse_final_envelope,
  recover_final_envelope, search_user, match_self, lazy_to_end,
}

all-space_end :
    (k : ℕ) (p tail : Text) → k ≤ length p → all is_space (drop k (p ++ 93 ∷ tail)) ≡ false
unfolding is_space
all-space_end zero [] tail h = refl
all-space_end zero (c ∷ p) tail h = ground (arith, all-space_end zero p tail (omega arith))
all-space_end (suc k) [] tail h = absurd (omega arith)
all-space_end (suc k) (c ∷ p) tail h = all-space_end k p tail (omega arith)

bracket_is_no_space : (c : ℕ) → is_space c ≡ true → (c == 91) ≡ false
unfolding is_space
bracket_is_no_space c h = elim (Bool-cases (c == 91)) [
  | inl e ↦
      let at_bracket : is_space 91 ≡ true = subst (λ d. is_space d ≡ true) ((==_iff c 91).0 e) h in
      cc
  | inr e ↦ e
]

lazy_to_end-blank : (t : Text) → all is_space t ≡ true → lazy_to_end self_close t ≡ none
unfolding lazy_to_end starts_with
lazy_to_end-blank [] h = refl
lazy_to_end-blank (c ∷ t) h = ground (arith, bracket_is_no_space c, lazy_to_end-blank t)

-- No self block ends where a user block ends.
lazy_to_end-user_close :
    (t tail : Text)
    → all is_space tail ≡ true
    → lazy_to_end self_close (t ++ (user_close ++ tail)) ≡ none
unfolding lazy_to_end starts_with
lazy_to_end-user_close [] tail h = rw (lazy_to_end-blank tail h)
lazy_to_end-user_close (c ∷ t) tail h =
    let front = t ++ codes "[/TO_USER" in
    let front-eq : t ++ (user_close ++ tail) ≡ front ++ 93 ∷ tail = simp append_assoc in
    let ends : all is_space (drop 9 (t ++ (user_close ++ tail))) ≡ false =
      rw front-eq
        (all-space_end 9 front tail (omega (arith, length-append t (codes "[/TO_USER")))) in
    ground (arith, ends, lazy_to_end-user_close t tail h)

-- Something that is not blank stands in front of a user block that does not begin the text.
search_user-remainder :
    (c : ℕ) (t : Text) (m : UserMatch)
    → starts_with (c ∷ t) user_open ≡ false
    → is_space c ≡ false
    → search_user (c ∷ t) ≡ some m
    → is_empty (strip (m.before ++ m.after)) ≡ false
unfolding search_user
search_user-remainder c t m h k found = elim (Option-cases (search_user t)) [
  | inl e ↦ absurd (ground arith)
  | inr (m', e) ↦
      let before-eq : m ≡ record m' { before = c ∷ m'.before } = ground arith in
      rw before-eq (strip-cons (m'.before ++ m'.after) c k)
]

recover-none :
    (content : Text)
    → is_empty (strip content) ≡ false
    → contains self_open (strip content) ≡ true
    → match_self (strip content) ≡ none
    → ((m : UserMatch)
        → search_user (strip content) ≡ some m
        → is_empty (strip (m.before ++ m.after)) ≡ false)
    → recover_final_envelope content ≡ none
unfolding recover_final_envelope
recover-none content h k e r = elim (Option-cases (search_user (strip content))) [
  | inl f ↦ rw (h, k, f)
  | inr (m, f) ↦ rw (h, k, f) (rw e (rw (r m f)))
]

match_self-none :
    (inner tail : Text)
    → all is_space tail ≡ true
    → match_self (self_open ++ (inner ++ (user_close ++ tail))) ≡ none
unfolding match_self starts_with lstrip is_space
match_self-none inner tail h = lazy_to_end-user_close inner tail h

recover-IsEnvelope :
    (content : Text) (e : FinalEnvelope)
    → IsEnvelope (strip content) e
    → recover_final_envelope content ≡ none
unfolding starts_with is_space contains find
recover-IsEnvelope content e g =
    let inner = g.inner ++ (self_close ++ (g.gap ++ (user_open ++ g.outer))) in
    let text = self_open ++ (inner ++ (user_close ++ g.tail)) in
    let shape : strip content ≡ text = g.shape ∙ simp append_assoc in
    recover-none content (rw shape) (rw shape)
      (rw shape (match_self-none inner g.tail (sym (is_empty-strip g.tail) ∙ g.tail_blank)))
      (rw shape (λ m. search_user-remainder 91 _ m refl refl))

-- A text that the strict mode accepts gives the same envelope in the recovering mode.
pub parse-conservative :
    (content : Text) (e : FinalEnvelope) (strict : Bool)
    → parse_final_envelope content true ≡ ok e
    → parse_final_envelope content strict ≡ ok e
unfolding parse_final_envelope
parse-conservative content e true h = h
parse-conservative content e false h =
    rw (recover-IsEnvelope content e ((parse_final_envelope_iff content e).0 h)) h
