-- ===== src/Flb/Lex/Cursor.antt =====
-- The lexer without offsets: what is read of the next token, and what is left of the input. The
-- lexer of lex.go, with its offsets, does the same steps.
use native.Mathlib.Nat.{add_comm}
use observability.Base.{
  ℕ, zero, suc, ◌+◌, ◌-◌, ◌≤◌, ◌≡◌, refl, sym, ◌∙◌, ap, Bool, true, false, ◌||◌, List, [], ◌∷◌,
  ◌++◌, Option, none, some, inl, inr, arith, leb, ◌==◌, if◌then◌else◌, Option-cases, Text, codes,
  length, take, drop, drop-drop, take_add,
}
use observability.Flb.Utf8.{Unicode, rune, width}
use observability.Flb.Lex.{
  TokenType, error, eof, new_line, left_bracket, right_bracket, section, key, value, Token, token,
  StateFunc, lex_start, lex_eof, lex_global_white_space, lex_key_white_space, lex_new_line,
  lex_left_bracket, lex_section, lex_right_bracket, lex_key, lex_value, Lexer, new_lexer, emit,
  errorf, next, peek_next, at_eof, is_blank, is_word, slice, unexpected_eof, step, run, lex_fuel,
}
use observability.Flb.Lex.Bounds.{IsValid, step-IsValid, new_lexer-IsValid, lexer_halts}

pub record Cursor : Type 0 where
  pub tokens : List Token
  pub state : Option StateFunc
  pub lexeme : Text
  pub rest : Text

pub view : Lexer → Cursor
view l = record {
  tokens = l.tokens;
  state = l.state;
  lexeme = slice l.start l.pos l.input;
  rest = drop l.pos l.input;
}

abbrev pub is_empty : Text → Bool
is_empty [] = true
is_empty (_ ∷ _) = false

abbrev put : TokenType → StateFunc → Cursor → Cursor
put t f c = record {
  tokens = c.tokens ++ token t c.lexeme ∷ [];
  state = some f;
  lexeme = [];
  rest = c.rest;
}

abbrev stop : Text → Cursor → Cursor
stop msg c = record c { tokens = c.tokens ++ token error msg ∷ []; state = none }

-- Takes `w` bytes into the token.
abbrev read : ℕ → StateFunc → Cursor → Cursor
read w f c = record c { state = some f; lexeme = c.lexeme ++ take w c.rest; rest = drop w c.rest }

-- Passes over `w` bytes.
abbrev pass : ℕ → StateFunc → Cursor → Cursor
pass w f c = record c { state = some f; lexeme = []; rest = drop w c.rest }

abbrev start_of : ℕ → StateFunc
start_of r =
    if is_blank r
    then lex_global_white_space
    else if r == b'\n'
    then lex_new_line
    else if r == b'['
    then lex_left_bracket
    else lex_key

module _ (u : Unicode) where
  unfoldable pub cursor_step : StateFunc → Cursor → Cursor
  cursor_step lex_start c = record c {
    state = some (if is_empty c.rest then lex_eof else start_of (rune c.rest));
  }
  cursor_step lex_eof c = record (put eof lex_eof c) { state = none }
  cursor_step lex_global_white_space c = pass (width c.rest) lex_start c
  cursor_step lex_key_white_space c =
      pass (width c.rest)
        (if is_blank (rune (drop (width c.rest) c.rest)) then lex_key_white_space else lex_value) c
  cursor_step lex_new_line c = put new_line lex_start (read 1 lex_start c)
  cursor_step lex_left_bracket c = put left_bracket lex_section (read 1 lex_start c)
  cursor_step lex_right_bracket c = put right_bracket lex_start (read 1 lex_start c)
  cursor_step lex_section c =
      if is_empty c.rest
      then stop unexpected_eof c
      else if is_word u (rune c.rest)
      then read (width c.rest) lex_section c
      else if rune c.rest == b']'
      then put section lex_right_bracket c
      else stop (codes "missing right bracket") c
  cursor_step lex_key c =
      if is_empty c.rest
      then stop unexpected_eof c
      else if is_word u (rune c.rest) || rune c.rest == b'.'
      then read (width c.rest) lex_key c
      else if is_blank (rune c.rest)
      then put key lex_key_white_space c
      else stop (codes "invalid key") c
  cursor_step lex_value c =
      if is_empty c.rest
      then stop unexpected_eof c
      else if rune c.rest == b'\n'
      then put value lex_start c
      else read (width c.rest) lex_value c

at_eof_drop : (n : ℕ) (s : Text) → n ≤ length s → leb (length s) n ≡ is_empty (drop n s)
at_eof_drop zero [] h = refl
at_eof_drop zero (c ∷ s) h = ground arith
at_eof_drop (suc n) [] h = elim h [ ]
at_eof_drop (suc n) (c ∷ s) h = ground (arith, at_eof_drop n s (omega arith))

slice_self : (n : ℕ) (s : Text) → slice n n s ≡ []
slice_self n s = let e : n - n ≡ 0 = omega arith in rw e

module _ (l : Lexer) (v : IsValid l) where
  slice_add :
      (w : ℕ)
      → slice l.start (l.pos + w) l.input
        ≡ slice l.start l.pos l.input ++ take w (drop l.pos l.input)
  slice_add w =
      sym (take_add (l.pos - l.start) w (l.pos + w - l.start) (drop l.start l.input) (omega arith))
      ∙ ap (λ t. slice l.start l.pos l.input ++ take w t)
          (drop-drop l.start (l.pos - l.start) l.pos l.input (omega arith))

  drop_add : (w : ℕ) → drop (l.pos + w) l.input ≡ drop w (drop l.pos l.input)
  drop_add w = sym (drop-drop l.pos w (l.pos + w) l.input refl)

module _ (u : Unicode) where
  -- One step of the lexer is one step of the cursor.
  pub step-view :
      (f : StateFunc) (l : Lexer) → IsValid l → view (step u f l) ≡ cursor_step u f (view l)
  unfolding view step emit errorf next peek_next at_eof cursor_step
  step-view lex_start l v = ground (arith, at_eof_drop l.pos l.input)
  step-view lex_eof l v = ground (arith, slice_self l.pos l.input)
  step-view lex_new_line l v =
      ground (arith, slice_add l v 1, drop_add l v 1, slice_self (l.pos + 1) l.input)
  step-view lex_left_bracket l v =
      ground (arith, slice_add l v 1, drop_add l v 1, slice_self (l.pos + 1) l.input)
  step-view lex_right_bracket l v =
      ground (arith, slice_add l v 1, drop_add l v 1, slice_self (l.pos + 1) l.input)
  step-view lex_global_white_space l v =
      let w = width (drop l.pos l.input) in
      ground (arith, drop_add l v w, slice_self (l.pos + w) l.input)
  step-view lex_key_white_space l v =
      let w = width (drop l.pos l.input) in
      ground (arith, drop_add l v w, slice_self (l.pos + w) l.input)
  step-view _ l v =
      let w = width (drop l.pos l.input) in
      ground (
        arith,
        at_eof_drop l.pos l.input,
        slice_self l.pos l.input,
        slice_add l v w,
        drop_add l v w,
      )

  pub cursor_run : ℕ → Cursor → Cursor
  cursor_run zero c = c
  cursor_run (suc n) c = elim c.state [ none ↦ c | some f ↦ cursor_run n (cursor_step u f c) ]

  pub cursor_run_done : (n : ℕ) (c : Cursor) → c.state ≡ none → cursor_run n c ≡ c
  unfolding cursor_run
  cursor_run_done zero c e = refl
  cursor_run_done (suc n) c e = ground arith

  pub cursor_run_more :
      (n : ℕ) (c : Cursor) {f : StateFunc}
      → c.state ≡ some f
      → cursor_run (suc n) c ≡ cursor_run n (cursor_step u f c)
  unfolding cursor_run
  cursor_run_more n c e = ground arith

  run_done : (n : ℕ) (l : Lexer) → l.state ≡ none → run u n l ≡ l
  unfolding run
  run_done zero l e = refl
  run_done (suc n) l e = ground arith

  run_more :
      (n : ℕ) (l : Lexer) {f : StateFunc}
      → l.state ≡ some f
      → run u (suc n) l ≡ run u n (step u f l)
  unfolding run
  run_more n l e = ground arith

  state-view : (l : Lexer) → (view l).state ≡ l.state
  unfolding view
  state-view l = refl

  -- Any number of steps of the lexer, from a lexer whose offsets are in order and inside its input,
  -- are as many steps of the cursor.
  pub run-view : (n : ℕ) (l : Lexer) → IsValid l → view (run u n l) ≡ cursor_run n (view l)
  unfolding run cursor_run
  run-view zero l v = refl
  run-view (suc n) l v = elim (Option-cases l.state) [
    | inl e ↦
        ap view (run_done (suc n) l e) ∙ sym (cursor_run_done (suc n) (view l) (state-view l ∙ e))
    | inr (f, e) ↦
        ap view (run_more n l e)
        ∙ run-view n (step u f l) (step-IsValid u f l e v)
        ∙ ap (cursor_run n) (step-view f l v)
        ∙ sym (cursor_run_more n (view l) (state-view l ∙ e))
  ]

  cursor_run_add : (n m : ℕ) (c : Cursor) → cursor_run (m + n) c ≡ cursor_run m (cursor_run n c)
  unfolding cursor_run
  cursor_run_add zero m c = let e : m + 0 ≡ m = omega arith in rw e
  cursor_run_add (suc n) m c =
      let more : m + suc n ≡ suc (m + n) = omega arith in
      elim (Option-cases c.state) [
        | inl e ↦
            cursor_run_done (m + suc n) c e
            ∙ sym (cursor_run_done m c e)
            ∙ ap (cursor_run m) (sym (cursor_run_done (suc n) c e))
        | inr (f, e) ↦
            ap (λ k. cursor_run k c) more
            ∙ cursor_run_more (m + n) c e
            ∙ cursor_run_add n m (cursor_step u f c)
            ∙ ap (cursor_run m) (sym (cursor_run_more n c e))
      ]

  -- Some number of steps leads from `c` to `d`.
  pub record Leads (c d : Cursor) : Type 0 where
    pub steps : ℕ
    pub arrives : cursor_run steps c ≡ d

  pub Leads-refl : (c : Cursor) → Leads c c
  unfolding cursor_run
  Leads-refl c = record { steps = 0; arrives = refl }

  pub Leads-trans : {c d e : Cursor} → Leads c d → Leads d e → Leads c e
  Leads-trans {c} p q = record {
    steps = q.steps + p.steps;
    arrives = cursor_run_add p.steps q.steps c ∙ ap (cursor_run q.steps) p.arrives ∙ q.arrives;
  }

  pub Leads-step : (f : StateFunc) (c : Cursor) → c.state ≡ some f → Leads c (cursor_step u f c)
  unfolding cursor_run
  Leads-step f c e = record { steps = 1; arrives = cursor_run_more 0 c e }

  -- A run that ends reaches what the cursor is led to, if the cursor stops there.
  Leads-done :
      {c d : Cursor} (n : ℕ)
      → Leads c d
      → d.state ≡ none
      → (cursor_run n c).state ≡ none
      → cursor_run n c ≡ d
  Leads-done {c} {d} n p e stopped =
      let m = p.steps in
      sym (cursor_run_done m (cursor_run n c) stopped)
      ∙ sym (cursor_run_add n m c)
      ∙ ap (λ k. cursor_run k c) (add_comm m n)
      ∙ cursor_run_add m n c
      ∙ ap (cursor_run n) p.arrives
      ∙ cursor_run_done n d e

module _ (u : Unicode) (s : Text) where
  abbrev pub cursor_start : Cursor
  cursor_start = record { tokens = []; state = some lex_start; lexeme = []; rest = s }

  view_start : view (new_lexer s) ≡ cursor_start
  unfolding view new_lexer
  view_start = refl

  -- The tokens of the lexer are those at which the cursor stops.
  pub lexer-cursor :
      {d : Cursor}
      → Leads u cursor_start d
      → d.state ≡ none
      → (run u (lex_fuel s) (new_lexer s)).tokens ≡ d.tokens
  unfolding view
  lexer-cursor {d} h e =
      let l = run u (lex_fuel s) (new_lexer s) in
      let seen : view l ≡ cursor_run u (lex_fuel s) cursor_start =
        run-view u (lex_fuel s) (new_lexer s) (new_lexer-IsValid s)
        ∙ ap (cursor_run u (lex_fuel s)) view_start in
      let stopped = sym (ap (λ c. c.state) seen) ∙ lexer_halts u s in
      ap (λ c. c.tokens) (seen ∙ Leads-done u (lex_fuel s) h e stopped)
