-- ===== src/Envelope/Grammar.antt =====
-- The strict parser of output_protocol.py against the grammar of envelopes.
use mutsumi_s_sync.Common.{ℕ, ◌+◌, ◌-◌, ◌≡◌, refl, ap, sym, subst, ◌∙◌, true, false, inl, inr, ◌↔◌}
use mutsumi_s_sync.Common.{
  [], ◌∷◌, ◌++◌, none, some, arith, if◌then◌else◌, Bool-cases, Option-cases, ok, err, all,
  append_assoc,
}
use mutsumi_s_sync.Common.{
  Text, codes, is_space, strip, lstrip, starts_with, find, find_from, contains, slice, length, drop,
  take, drop-at, take-at, take-append-drop, length-append, is_empty, text_eq, text_eq_iff,
  text_eq_refl,
}
use mutsumi_s_sync.Envelope.Strip.{Starts, lstrip-Starts, lstrip-eq_of_Starts}
use mutsumi_s_sync.Envelope.Search.{
  slice-at, drop-at_behind, find_from-at, find-append, FoundAt, find-FoundAt, starts_with_sound,
}
use mutsumi_s_sync.Envelope.{
  FinalEnvelope, content_after_user, user_must_follow, missing_self_close, missing_user_close,
  must_start_with_self, self_open, self_close, user_open, user_close, parse_final_envelope,
  parse_stripped, parse_after_self, parse_user_block,
}

-- [TO_SELF] inner [/TO_SELF] gap [TO_USER] outer [/TO_USER] tail
pub record IsEnvelope (text : Text) (e : FinalEnvelope) : Type 0 where
  pub inner : Text
  pub gap : Text
  pub outer : Text
  pub tail : Text
  pub shape :
      text
      ≡ self_open
        ++ (inner ++ (self_close ++ (gap ++ (user_open ++ (outer ++ (user_close ++ tail))))))
  pub inner_open : contains self_close inner ≡ false
  pub gap_blank : all is_space gap ≡ true
  pub outer_open : contains user_close outer ≡ false
  pub tail_blank : is_empty (strip tail) ≡ true
  pub parts : e ≡ record { to_self = strip inner; to_user = strip outer }

abbrev envelope : Text → Text → FinalEnvelope
envelope s u = record { to_self = s; to_user = u }

find-user_close :
    (s t : Text)
    → contains user_close s ≡ false
    → find user_close (s ++ (user_close ++ t)) ≡ some (length s)
find-user_close s t h =
    find-append s (codes "/TO_USER]") t 91
      (refl, (refl, (refl, (refl, (refl, (refl, (refl, (refl, (refl, tt))))))))) h

find-self_close :
    (s t : Text)
    → contains self_close s ≡ false
    → find self_close (s ++ (self_close ++ t)) ≡ some (length s)
find-self_close s t h =
    find-append s (codes "/TO_SELF]") t 91
      (refl, (refl, (refl, (refl, (refl, (refl, (refl, (refl, (refl, tt))))))))) h

-- The user block of a text in which it begins at position `n`.
user_block-eq :
    (a outer tail sc : Text) (n : ℕ)
    → n ≡ length a
    → contains user_close outer ≡ false
    → parse_user_block (a ++ (outer ++ (user_close ++ tail))) sc n
      ≡ (if is_empty (strip tail) then ok (envelope sc (strip outer)) else err content_after_user)
unfolding parse_user_block
user_block-eq a outer tail sc n e h =
    let text = a ++ (outer ++ (user_close ++ tail)) in
    let found : find_from user_close text n ≡ some (n + length outer) =
      find_from-at user_close a (outer ++ (user_close ++ tail)) n (length outer) e
        (find-user_close outer tail h) in
    let rest : drop (n + length outer + length user_close) text ≡ tail =
      drop-at_behind a outer user_close tail (n + length outer + length user_close) (omega arith) in
    let middle : slice text n (n + length outer) ≡ outer =
      slice-at a outer (user_close ++ tail) n (n + length outer) e (omega arith) in
    rw (found, parse_user_block) (rw (rest, middle))

lstrip-blank : (gap t : Text) → all is_space gap ≡ true → Starts t → lstrip (gap ++ t) ≡ t
unfolding lstrip
lstrip-blank [] t h s = lstrip-eq_of_Starts t s
lstrip-blank (c ∷ gap) t h s = ground (arith, lstrip-blank gap t)

-- Where the self block ends at position `n`, the parser looks behind the white space.
after_self-eq :
    (a gap c sc : Text) (n : ℕ)
    → n ≡ length a
    → all is_space gap ≡ true
    → Starts c
    → parse_after_self (a ++ (self_close ++ (gap ++ c))) sc n ≡ (
        if text_eq (take (length user_open) c) user_open
        then parse_user_block
            (a ++ (self_close ++ (gap ++ c)))
            sc
            (n + length self_close + length gap + length user_open)
        else err user_must_follow)
unfolding parse_after_self slice
after_self-eq a gap c sc n e g st =
    let text = a ++ (self_close ++ (gap ++ c)) in
    let start = n + length self_close + length gap in
    let between : drop (n + length self_close) text ≡ gap ++ c =
      drop-at_behind [] a self_close (gap ++ c) (n + length self_close) (omega arith) in
    let stripped : lstrip (gap ++ c) ≡ c = lstrip-blank gap c g st in
    let white : take (length (gap ++ c) - length c) (gap ++ c) ≡ gap =
      take-at gap c (length (gap ++ c) - length c) (omega (arith, length-append gap c)) in
    let opened : drop start text ≡ c = drop-at_behind a self_close gap c start (omega arith) in
    let width : start + length user_open - start ≡ length user_open = omega arith in
    rw (between, parse_after_self) (rw stripped (rw white (rw opened (rw width))))

-- The first part: the opening marker and the end of the self block.
stripped-eq :
    (t : Text)
    → parse_stripped (self_open ++ t) ≡ elim (find self_close t) [
      | none ↦ err missing_self_close
      | some i ↦ parse_after_self (self_open ++ t) (strip (take i t)) (length self_open + i)
    ]
unfolding parse_stripped find_from slice starts_with
stripped-eq t = elim (Option-cases (find self_close t)) [
  | inl e ↦ rw e
  | inr (i, e) ↦
      let width : length self_open + i - length self_open ≡ i = omega arith in rw e (rw width)
]

-- Every text of the grammar is accepted, with its two parts stripped.
stripped_complete :
    (text : Text) (e : FinalEnvelope) → IsEnvelope text e → parse_stripped text ≡ ok e
stripped_complete text e g =
    let block = g.outer ++ (user_close ++ g.tail) in
    let behind = g.gap ++ (user_open ++ block) in
    let text = self_open ++ (g.inner ++ (self_close ++ behind)) in
    let n = length self_open + length g.inner in
    let n-eq : n ≡ length (self_open ++ g.inner) = omega (arith, length-append self_open g.inner) in
    let front = self_open ++ (g.inner ++ (self_close ++ (g.gap ++ user_open))) in
    let m = n + length self_close + length g.gap + length user_open in
    let m-eq : m ≡ length front = omega (
      arith,
      length-append g.inner (self_close ++ (g.gap ++ user_open)),
      length-append g.gap user_open,
    ) in
    let found : find self_close (g.inner ++ (self_close ++ behind)) ≡ some (length g.inner) =
      find-self_close g.inner behind g.inner_open in
    let inside : take (length g.inner) (g.inner ++ (self_close ++ behind)) ≡ g.inner =
      take-at g.inner (self_close ++ behind) (length g.inner) refl in
    let self_part : parse_stripped text ≡ parse_after_self text (strip g.inner) n =
      stripped-eq (g.inner ++ (self_close ++ behind)) ∙ rw found (rw inside) in
    let white : parse_after_self text (strip g.inner) n ≡ parse_user_block text (strip g.inner) m =
      after_self-eq (self_open ++ g.inner) g.gap (user_open ++ block) (strip g.inner) n n-eq
        g.gap_blank (unfold is_space in refl)
      ∙ rw text_eq_refl in
    let user : parse_user_block text (strip g.inner) m
        ≡ ok (envelope (strip g.inner) (strip g.outer)) =
      simp append_assoc at (user_block-eq front g.outer g.tail (strip g.inner) m m-eq g.outer_open)
      ∙ rw g.tail_blank in
    rw g.shape (rw g.parts (self_part ∙ white ∙ user))

user_block-none :
    (a b sc : Text) (n : ℕ)
    → n ≡ length a
    → find user_close b ≡ none
    → parse_user_block (a ++ b) sc n ≡ err missing_user_close
unfolding parse_user_block find_from
user_block-none a b sc n e h = rw (drop-at a b n e, parse_user_block, find_from) (rw h)

white_split : (t : Text) → (gap : Text) × (t ≡ gap ++ lstrip t) × (all is_space gap ≡ true)
unfolding lstrip
white_split [] = ([], refl, refl)
white_split (c ∷ t) = elim (Bool-cases (is_space c)) [
  | inl e ↦ let (gap, p, q) = white_split t in (c ∷ gap, rw e (ap (λ l. c ∷ l) p), ground arith)
  | inr e ↦ ([], rw e, refl)
]

-- What an accepted user block looks like, and what is returned for it.
user_block_sound :
    (a b sc : Text) (n : ℕ) (e : FinalEnvelope)
    → n ≡ length a
    → parse_user_block (a ++ b) sc n ≡ ok e
    → (outer : Text) × (tail : Text) × (b ≡ outer ++ (user_close ++ tail))
      × (contains user_close outer ≡ false)
      × (is_empty (strip tail) ≡ true)
      × (e ≡ envelope sc (strip outer))
user_block_sound a b sc n e i h = elim (Option-cases (find user_close b)) [
  | inl no_close ↦ absurd (ground (arith, user_block-none a b sc n i no_close))
  | inr (k, close_at) ↦
      let f : FoundAt user_close b k = find-FoundAt 91 (codes "/TO_USER]") b k close_at in
      let value = user_block-eq a f.before f.after sc n i f.first in
      let h' : parse_user_block (a ++ (f.before ++ (user_close ++ f.after))) sc n ≡ ok e =
        rw (← f.split) h in
      (f.before, f.after, f.split, f.first, ground arith, ground arith)
]

prefix-of_text_eq :
    (c : Text)
    → text_eq (take (length user_open) c) user_open ≡ true
    → c ≡ user_open ++ drop (length user_open) c
prefix-of_text_eq c h =
    sym (take-append-drop (length user_open) c)
    ∙ ap (λ (p : Text). p ++ drop (length user_open) c)
        ((text_eq_iff (take (length user_open) c) user_open).0 h)

-- The gap and the user block behind an accepted self block.
after_self_sound :
    (a b sc : Text) (n : ℕ) (e : FinalEnvelope)
    → n ≡ length a
    → parse_after_self (a ++ (self_close ++ b)) sc n ≡ ok e
    → (gap : Text) × (outer : Text) × (tail : Text) × (b
        ≡ gap ++ (user_open ++ (outer ++ (user_close ++ tail))))
      × (all is_space gap ≡ true)
      × (contains user_close outer ≡ false)
      × (is_empty (strip tail) ≡ true)
      × (e ≡ envelope sc (strip outer))
after_self_sound a b sc n e i h =
    let (gap, b-eq, blank) = white_split b in
    let c = lstrip b in
    let text = a ++ (self_close ++ (gap ++ c)) in
    let m = n + length self_close + length gap + length user_open in
    let h' : parse_after_self text sc n ≡ ok e = rw (← b-eq) h in
    let value = after_self-eq a gap c sc n i blank (lstrip-Starts b) in
    elim (Bool-cases (text_eq (take (length user_open) c) user_open)) [
      | inr differ ↦ absurd (ground (arith))
      | inl same ↦
          let c-eq = prefix-of_text_eq c same in
          let block = drop (length user_open) c in
          let front = a ++ (self_close ++ (gap ++ user_open)) in
          let whole : text ≡ front ++ block =
            ap (λ (d : Text). a ++ (self_close ++ (gap ++ d))) c-eq ∙ simp append_assoc in
          let parsed : parse_user_block (front ++ block) sc m ≡ ok e =
            rw (← whole) (ground arith) in
          let m-eq : m ≡ length front = omega (
            arith,
            length-append a (self_close ++ (gap ++ user_open)),
            length-append gap user_open,
          ) in
          let (outer, tail, block-eq, once, tail_blank, value') =
            user_block_sound front block sc m e m-eq parsed in
          (
            gap,
            outer,
            tail,
            b-eq ∙ ap (λ (d : Text). gap ++ d) (c-eq ∙ ap (λ (d : Text). user_open ++ d) block-eq),
            blank,
            once,
            tail_blank,
            value',
          )
    ]

stripped-not_opened :
    (text : Text)
    → starts_with text self_open ≡ false
    → parse_stripped text ≡ err must_start_with_self
unfolding parse_stripped
stripped-not_opened text h = rw h

stripped_sound : (text : Text) (e : FinalEnvelope) → parse_stripped text ≡ ok e → IsEnvelope text e
stripped_sound text e h = elim (Bool-cases (starts_with text self_open)) [
  | inr differ ↦ absurd (ground (arith, stripped-not_opened text differ))
  | inl same ↦
      let t = drop (length self_open) text in
      let text-eq : text ≡ self_open ++ t = starts_with_sound text self_open same in
      let h' : parse_stripped (self_open ++ t) ≡ ok e = rw (← text-eq) h in
      let value = stripped-eq t in
      elim (Option-cases (find self_close t)) [
        | inl no_close ↦ absurd (ground arith)
        | inr (i, close_at) ↦
            let f : FoundAt self_close t i = find-FoundAt 91 (codes "/TO_SELF]") t i close_at in
            let parsed : parse_after_self (self_open ++ t) (strip (take i t)) (length self_open + i)
                ≡ ok e =
              ground arith in
            let parsed' : parse_after_self (self_open ++ f.before ++ (self_close ++ f.after))
                  (strip (take i t)) (length self_open + i)
                ≡ ok e =
              subst
                (λ (d : Text).
                  parse_after_self (self_open ++ d) (strip (take i t)) (length self_open + i)
                  ≡ ok e)
                f.split parsed in
            let inner-eq : take i t ≡ f.before =
              ap (λ (d : Text). take i d) f.split
              ∙ take-at f.before (self_close ++ f.after) i f.index in
            let (gap, outer, tail, after-eq, blank, once, tail_blank, parts) =
              after_self_sound (self_open ++ f.before) f.after (strip (take i t))
                (length self_open + i) e (omega (arith, f.index)) parsed' in
            record {
              inner = f.before;
              gap = gap;
              outer = outer;
              tail = tail;
              shape =
                  text-eq
                  ∙ ap (λ (d : Text). self_open ++ d)
                      (f.split ∙ ap (λ (d : Text). f.before ++ (self_close ++ d)) after-eq);
              inner_open = f.first;
              gap_blank = blank;
              outer_open = once;
              tail_blank = tail_blank;
              parts = parts ∙ ap (λ (d : Text). envelope (strip d) (strip outer)) inner-eq;
            }
      ]
]

-- The strict parser accepts a text exactly if the stripped text is an envelope, and returns the
-- stripped contents of its two blocks.
pub parse_final_envelope_iff :
    (content : Text) (e : FinalEnvelope)
    → (parse_final_envelope content true ≡ ok e) ↔ IsEnvelope (strip content) e
unfolding parse_final_envelope
parse_final_envelope_iff content e =
    (stripped_sound (strip content) e, stripped_complete (strip content) e)
