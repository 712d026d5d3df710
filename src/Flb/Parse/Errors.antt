-- ===== src/Flb/Parse/Errors.antt =====
-- The parser consumes the lexer's tokens as they come: in each state of the lexer the parser is in
-- the middle of a section's header, of an entry, or of neither.
use observability.Base.{
  Bool, true, false, not, ◌||◌, ◌≡◌, refl, sym, ap, ◌∙◌, subst, if_intro, List, [], ◌∷◌, ◌++◌, ◌⊎◌,
  inl, inr, Option, none, some, arith, Text, codes,
}
use observability.Flb.Utf8.{Unicode}
use observability.Flb.Lex.{
  error, eof, new_line, left_bracket, right_bracket, section, key, value, token, Token, StateFunc,
  lex_start, lex_eof, lex_global_white_space, lex_key_white_space, lex_new_line, lex_left_bracket,
  lex_key, lex_section, lex_right_bracket, lex_value, Lexer, new_lexer, go_to, drop_rune, emit,
  errorf, next, step, run, lex_fuel, unexpected_eof,
}
use observability.Flb.Lex.Bounds.{run_induction, lexer_halts}
use observability.Flb.Parse.{
  Parsed, ok, err, ParseState, Round, return, continue, parse_round, parse_tokens, initial, parse,
}

-- The rounds over all the tokens of a list.
pub feed : List Token → ParseState → Round
feed [] st = continue st
feed (t ∷ ts) st = elim (parse_round t st) [ return r ↦ return r | continue st' ↦ feed ts st' ]

abbrev finish : Round → Parsed
finish (return r) = r
finish (continue st) = ok st.file

abbrev then_round : Token → Round → Round
then_round t (return r) = return r
then_round t (continue st) = parse_round t st

parse_tokens-feed : (ts : List Token) (st : ParseState) → parse_tokens ts st ≡ finish (feed ts st)
unfolding parse_tokens feed
parse_tokens-feed [] st = refl
parse_tokens-feed (t ∷ ts) st = go (parse_tokens-feed ts) (parse_round t st)
  where
    go :
        ((s : ParseState) → parse_tokens ts s ≡ finish (feed ts s))
        → (r : Round)
        → (elim r [ return p ↦ p | continue st' ↦ parse_tokens ts st' ])
          ≡ finish (elim r [ return p ↦ return p | continue st' ↦ feed ts st' ])
    go later (return p) = refl
    go later (continue st') = later st'

feed_one :
    (ts : List Token) (t : Token) (st : ParseState)
    → feed (ts ++ t ∷ []) st ≡ then_round t (feed ts st)
unfolding feed
feed_one [] t st = go (parse_round t st)
  where
    go : (r : Round) → (elim r [ return p ↦ return p | continue st' ↦ continue st' ]) ≡ r
    go (return p) = refl
    go (continue st') = refl
feed_one (x ∷ ts) t st = go (feed_one ts t) (parse_round x st)
  where
    go :
        ((s : ParseState) → feed (ts ++ t ∷ []) s ≡ then_round t (feed ts s))
        → (r : Round)
        → (elim r [ return p ↦ return p | continue st' ↦ feed (ts ++ t ∷ []) st' ])
          ≡ then_round t (elim r [ return p ↦ return p | continue st' ↦ feed ts st' ])
    go later (return p) = refl
    go later (continue st') = later st'

abbrev in_section : StateFunc → Bool
in_section lex_section = true
in_section lex_right_bracket = true
in_section _ = false

abbrev in_entry : StateFunc → Bool
in_entry lex_key_white_space = true
in_entry lex_value = true
in_entry _ = false

abbrev newline_required : Text
newline_required = codes "newline required"

-- The errors that a caller of `Parse` can see.
abbrev pub Reported : Text → Type 0
Reported m =
    (m ≡ unexpected_eof)
    ⊎ (m ≡ codes "missing right bracket")
    ⊎ (m ≡ codes "invalid key")
    ⊎ (m ≡ newline_required)

abbrev pub ReportedBy : Parsed → Type 0
ReportedBy (ok f) = Unit
ReportedBy (err m) = Reported m

record InStep (f : StateFunc) (st : ParseState) : Type 0 where
  section : st.processing_section ≡ in_section f
  entry : st.processing_kv ≡ in_entry f
  newline : (in_section f || in_entry f) ≡ true → st.require_newline ≡ false

abbrev Agree : Option StateFunc → Round → Type 0
Agree none (return r) = ReportedBy r
Agree none (continue st) = ⊥
Agree (some f) (return r) = r ≡ err newline_required
Agree (some f) (continue st) = InStep f st

-- A step with no token, between states that stand at the same place of the grammar.
keep :
    (f g : StateFunc) (r : Round)
    → in_section f ≡ in_section g
    → in_entry f ≡ in_entry g
    → Agree (some f) r
    → Agree (some g) r
keep f g (return r) p q h = h
keep f g (continue st) p q h = record {
  section = h.section ∙ p;
  entry = h.entry ∙ q;
  newline = rw (p, q) at h.newline;
}

abbrev between : StateFunc → Bool
between f = not (in_section f || in_entry f)

module _ (f : StateFunc) (v : Text) where
  add_error :
      (r : Round) → Reported v → Agree (some f) r → Agree none (then_round (token error v) r)
  unfolding parse_round
  add_error (return r) k h = rw h (inr (inr (inr refl)))
  add_error (continue st) k h = ground arith

  add_eof :
      (r : Round) → between f ≡ true → Agree (some f) r → Agree none (then_round (token eof v) r)
  unfolding parse_round
  add_eof (return r) k h = rw h (inr (inr (inr refl)))
  add_eof (continue st) k h = ground (arith, h.section, h.entry)

  add_new_line :
      (r : Round)
      → between f ≡ true
      → Agree (some f) r
      → Agree (some lex_start) (then_round (token new_line v) r)
  unfolding parse_round
  add_new_line (return r) k h = h
  add_new_line (continue st) k h = ground (arith, h.section, h.entry)

  add_left_bracket :
      (r : Round)
      → between f ≡ true
      → Agree (some f) r
      → Agree (some lex_section) (then_round (token left_bracket v) r)
  unfolding parse_round
  add_left_bracket (return r) k h = h
  add_left_bracket (continue st) k h = ground (arith, h.section, h.entry)

add_section :
    (v : Text) (r : Round)
    → Agree (some lex_section) r
    → Agree (some lex_right_bracket) (then_round (token section v) r)
unfolding parse_round
add_section v (return r) h = h
add_section v (continue st) h = ground (arith, h.section, h.entry, h.newline)

add_right_bracket :
    (v : Text) (r : Round)
    → Agree (some lex_right_bracket) r
    → Agree (some lex_start) (then_round (token right_bracket v) r)
unfolding parse_round
add_right_bracket v (return r) h = h
add_right_bracket v (continue st) h = ground (arith, h.section, h.entry, h.newline)

add_key :
    (v : Text) (r : Round)
    → Agree (some lex_key) r
    → Agree (some lex_key_white_space) (then_round (token key v) r)
unfolding parse_round
add_key v (return r) h = h
add_key v (continue st) h = ground (arith, h.section, h.entry)

add_value :
    (v : Text) (r : Round)
    → Agree (some lex_value) r
    → Agree (some lex_start) (then_round (token value v) r)
unfolding parse_round
add_value v (return r) h = h
add_value v (continue st) h = ground (arith, h.section, h.entry, h.newline)

module _ (u : Unicode) (i : ParseState) where
  record Agrees (l : Lexer) : Type 0 where
    so_far : Agree l.state (feed l.tokens i)

  Agrees-at :
      (f : StateFunc) (l : Lexer) → l.state ≡ some f → Agrees l → Agree (some f) (feed l.tokens i)
  Agrees-at f l e h = subst (λ o. Agree o (feed l.tokens i)) e h.so_far

  Agrees-with :
      (l : Lexer) (t : Token) (ts : List Token)
      → l.tokens ≡ ts ++ t ∷ []
      → Agree l.state (then_round t (feed ts i))
      → Agrees l
  Agrees-with l t ts e h = record { so_far = rw (e, feed_one) h }

  step-Agrees : (f : StateFunc) (l : Lexer) → l.state ≡ some f → Agrees l → Agrees (step u f l)
  unfolding step emit errorf next
  step-Agrees lex_start l e h =
      let here = Agrees-at lex_start l e h in
      let to_eof : Agrees (go_to lex_eof l) = record {
        so_far = keep lex_start lex_eof _ refl refl here;
      } in
      let to_blank : Agrees (go_to lex_global_white_space l) = record {
        so_far = keep lex_start lex_global_white_space _ refl refl here;
      } in
      let to_line : Agrees (go_to lex_new_line l) = record {
        so_far = keep lex_start lex_new_line _ refl refl here;
      } in
      let to_bracket : Agrees (go_to lex_left_bracket l) = record {
        so_far = keep lex_start lex_left_bracket _ refl refl here;
      } in
      let to_key : Agrees (go_to lex_key l) = record {
        so_far = keep lex_start lex_key _ refl refl here;
      } in
      if_intro Agrees _ to_eof (
        if_intro Agrees _ to_blank
          (if_intro Agrees _ to_line (if_intro Agrees _ to_bracket to_key)))
  step-Agrees lex_eof l e h =
      Agrees-with _ _ l.tokens refl (add_eof lex_eof _ _ refl (Agrees-at lex_eof l e h))
  step-Agrees lex_global_white_space l e h = record {
    so_far =
        keep lex_global_white_space lex_start _ refl refl (Agrees-at lex_global_white_space l e h);
  }
  step-Agrees lex_key_white_space l e h =
      let here = Agrees-at lex_key_white_space l e h in
      let again : Agrees (go_to lex_key_white_space (drop_rune l)) = record { so_far = here } in
      let on : Agrees (go_to lex_value (drop_rune l)) = record {
        so_far = keep lex_key_white_space lex_value _ refl refl here;
      } in
      if_intro Agrees _ again on
  step-Agrees lex_new_line l e h =
      Agrees-with _ _ l.tokens refl
        (add_new_line lex_new_line _ _ refl (Agrees-at lex_new_line l e h))
  step-Agrees lex_left_bracket l e h =
      Agrees-with _ _ l.tokens refl
        (add_left_bracket lex_left_bracket _ _ refl (Agrees-at lex_left_bracket l e h))
  step-Agrees lex_right_bracket l e h =
      Agrees-with _ _ l.tokens refl (add_right_bracket _ _ (Agrees-at lex_right_bracket l e h))
  step-Agrees lex_section l e h =
      let here = Agrees-at lex_section l e h in
      let at_end : Agrees (errorf unexpected_eof l) =
        Agrees-with _ _ l.tokens refl (add_error lex_section _ _ (inl refl) here) in
      let again : Agrees (go_to lex_section (next l)) = record { so_far = here } in
      let closed : Agrees (go_to lex_right_bracket (emit section l)) =
        Agrees-with _ _ l.tokens refl (add_section _ _ here) in
      let bad : Agrees (errorf (codes "missing right bracket") l) =
        Agrees-with _ _ l.tokens refl (add_error lex_section _ _ (inr (inl refl)) here) in
      if_intro Agrees _ at_end (if_intro Agrees _ again (if_intro Agrees _ closed bad))
  step-Agrees lex_key l e h =
      let here = Agrees-at lex_key l e h in
      let at_end : Agrees (errorf unexpected_eof l) =
        Agrees-with _ _ l.tokens refl (add_error lex_key _ _ (inl refl) here) in
      let again : Agrees (go_to lex_key (next l)) = record { so_far = here } in
      let closed : Agrees (go_to lex_key_white_space (emit key l)) =
        Agrees-with _ _ l.tokens refl (add_key _ _ here) in
      let bad : Agrees (errorf (codes "invalid key") l) =
        Agrees-with _ _ l.tokens refl (add_error lex_key _ _ (inr (inr (inl refl))) here) in
      if_intro Agrees _ at_end (if_intro Agrees _ again (if_intro Agrees _ closed bad))
  step-Agrees lex_value l e h =
      let here = Agrees-at lex_value l e h in
      let at_end : Agrees (errorf unexpected_eof l) =
        Agrees-with _ _ l.tokens refl (add_error lex_value _ _ (inl refl) here) in
      let closed : Agrees (go_to lex_start (emit value l)) =
        Agrees-with _ _ l.tokens refl (add_value _ _ here) in
      let again : Agrees (go_to lex_value (next l)) = record { so_far = here } in
      if_intro Agrees _ at_end (if_intro Agrees _ closed again)

start-Agrees : (u : Unicode) (name s : Text) → Agrees u (initial name) (new_lexer s)
unfolding new_lexer feed
start-Agrees u name s = record {
  so_far = record { section = refl; entry = refl; newline = λ _. refl };
}

module _ (u : Unicode) (name s : Text) where
  abbrev pub last : Lexer
  last = run u (lex_fuel s) (new_lexer s)

  feed-last : Agree none (feed last.tokens (initial name))
  feed-last =
      subst (λ o. Agree o (feed last.tokens (initial name))) (lexer_halts u s)
        (run_induction u (Agrees u (initial name)) (step-Agrees u (initial name)) (lex_fuel s)
          (new_lexer s) (start-Agrees u name s)).so_far

  returned : (r : Round) → Agree none r → (p : Parsed) × (r ≡ return p) × ReportedBy p
  returned (return p) h = (p, refl, h)
  returned (continue st) h = absurd h

  -- On every input the parser returns from within its loop over the tokens, which never run out,
  -- and what it returns there is its result.
  pub parse_returns :
      (p : Parsed) × (feed last.tokens (initial name) ≡ return p) × (parse u name s ≡ p)
  unfolding parse
  parse_returns =
      let (p, e, _) = returned (feed last.tokens (initial name)) feed-last in
      (p, e, parse_tokens-feed last.tokens (initial name) ∙ ap finish e)

  -- An error of the parser is one of four messages: "unexpected EOF", "missing right bracket",
  -- "invalid key" and "newline required".
  pub parse_errors : (m : Text) → parse u name s ≡ err m → Reported m
  unfolding parse
  parse_errors m h =
      let (p, e, k) = returned (feed last.tokens (initial name)) feed-last in
      let is_p : p ≡ err m = sym (parse_tokens-feed last.tokens (initial name) ∙ ap finish e) ∙ h in
      rw is_p at k
