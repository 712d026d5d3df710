-- ===== src/Flb/Lex/Bounds.antt =====
-- The offsets of the lexer stay within its input, so that no slice expression of lex.go panics,
-- and every run of the lexer ends.
use observability.Base.{
  ℕ, zero, suc, ◌+◌, ◌-◌, ◌*◌, ◌≤◌, ◌<◌, ◌≡◌, refl, ◌∙◌, Bool, true, false, inl, inr, [], ◌∷◌,
  Option, none, some, arith, Option-cases, Text, length, drop, length-drop,
}
use observability.Flb.Utf8.{Unicode, rune, width, decode, width_positive, width-le-length}
use observability.Flb.Lex.{
  StateFunc, lex_start, lex_global_white_space, lex_key_white_space, lex_new_line, lex_left_bracket,
  lex_section, lex_right_bracket, lex_key, lex_value, Lexer, new_lexer, emit, errorf, next,
  peek_next, at_eof, is_blank, step, run, lex_fuel,
}

-- The states whose function takes a byte without a test for the end of the input.
abbrev pub takes_byte : Option StateFunc → Bool
takes_byte (some lex_global_white_space) = true
takes_byte (some lex_key_white_space) = true
takes_byte (some lex_new_line) = true
takes_byte (some lex_left_bracket) = true
takes_byte (some lex_right_bracket) = true
takes_byte _ = false

pub record IsValid (l : Lexer) : Type 0 where
  pub ordered : l.start ≤ l.pos
  pub inside : l.pos ≤ length l.input
  pub byte_left : takes_byte l.state ≡ true → l.pos < length l.input

width-drop : (n : ℕ) (s : Text) → n < length s → 1 ≤ width (drop n s)
width-drop n [] h = elim h [ ]
width-drop zero (c ∷ s) h = width_positive c s
width-drop (suc n) (c ∷ s) h = width-drop n s (omega arith)

width-drop_le : (n : ℕ) (s : Text) → n ≤ length s → n + width (drop n s) ≤ length s
width-drop_le n s h = omega (arith, width-le-length (drop n s), length-drop n s)

-- There is no blank at the end of the input.
blank_inside : (n : ℕ) (s : Text) → n ≤ length s → is_blank (rune (drop n s)) ≡ true → n < length s
unfolding decode
blank_inside zero [] h b = ground arith
blank_inside zero (c ∷ s) h b = omega arith
blank_inside (suc n) [] h b = elim h [ ]
blank_inside (suc n) (c ∷ s) h b = omega (arith, blank_inside n s (omega arith) b)

module _ (u : Unicode) where
  pub step-IsValid :
      (f : StateFunc) (l : Lexer) → l.state ≡ some f → IsValid l → IsValid (step u f l)
  unfolding step emit errorf next peek_next at_eof
  step-IsValid lex_key_white_space l e v = ground (
    arith,
    width-drop_le l.pos l.input,
    v.byte_left,
    blank_inside (l.pos + width (drop l.pos l.input)) l.input,
  )
  step-IsValid _ l e v = ground (arith, width-drop_le l.pos l.input, v.byte_left)

  input-step : (f : StateFunc) (l : Lexer) → (step u f l).input ≡ l.input
  unfolding step emit errorf next
  input-step lex_start l = ground arith
  input-step _ l = ground arith

abbrev rank : Option StateFunc → ℕ
rank none = 0
rank (some lex_key) = 2
rank (some lex_section) = 2
rank (some lex_start) = 3
rank (some lex_value) = 4
rank (some _) = 1

abbrev measure : Lexer → ℕ
measure l = 5 * (length l.input - l.pos) + rank l.state

module _ (u : Unicode) where
  step-measure :
      (f : StateFunc) (l : Lexer) → l.state ≡ some f → IsValid l → measure (step u f l) < measure l
  unfolding step emit errorf next peek_next at_eof
  step-measure lex_key_white_space l e v =
      ground (arith, width-drop_le l.pos l.input, width-drop l.pos l.input, v.byte_left)
  step-measure _ l e v =
      ground (arith, width-drop_le l.pos l.input, width-drop l.pos l.input, v.byte_left)

  -- The rule for what every step keeps.
  pub run_induction {ℓ} :
      (P : Lexer → Type ℓ)
      → ((f : StateFunc) (l : Lexer) → l.state ≡ some f → P l → P (step u f l))
      → (n : ℕ) (l : Lexer) → P l
      → P (run u n l)
  unfolding run
  run_induction P keep zero l h = h
  run_induction P keep (suc n) l h = elim (Option-cases l.state) [
    | inl e ↦ rw (e, run) h
    | inr (f, e) ↦ rw (e, run) (run_induction P keep n (step u f l) (keep f l e h))
  ]

  pub run-IsValid : (n : ℕ) (l : Lexer) → IsValid l → IsValid (run u n l)
  run-IsValid = run_induction IsValid (step-IsValid u)

  pub input-run : (n : ℕ) (l : Lexer) → (run u n l).input ≡ l.input
  input-run n l = run_induction (λ m. m.input ≡ l.input) (λ f m _ h. input-step u f m ∙ h) n l refl

  pub run_halts : (n : ℕ) (l : Lexer) → IsValid l → measure l < n → (run u n l).state ≡ none
  unfolding run
  run_halts zero l v h = elim h [ ]
  run_halts (suc n) l v h = elim (Option-cases l.state) [
    | inl e ↦ rw (e, run) e
    | inr (f, e) ↦
        rw (e, run)
          (run_halts n (step u f l) (step-IsValid u f l e v) (omega (arith, step-measure f l e v)))
  ]

pub new_lexer-IsValid : (s : Text) → IsValid (new_lexer s)
unfolding new_lexer
new_lexer-IsValid s = ground arith

module _ (u : Unicode) (s : Text) where
  -- The lexer ends on every input, within the steps that the parser gives it.
  pub lexer_halts : (run u (lex_fuel s) (new_lexer s)).state ≡ none
  lexer_halts =
      run_halts u (lex_fuel s) (new_lexer s) (new_lexer-IsValid s) (unfold new_lexer in omega arith)

  -- After any number of steps the offsets are in order and inside the input, which is unchanged.
  pub lexer_bounds :
      (n : ℕ)
      → ((run u n (new_lexer s)).input ≡ s)
        × ((run u n (new_lexer s)).start ≤ (run u n (new_lexer s)).pos)
        × ((run u n (new_lexer s)).pos ≤ length s)
  lexer_bounds n =
      let v = run-IsValid u n (new_lexer s) (new_lexer-IsValid s) in
      let same : (run u n (new_lexer s)).input ≡ s =
        input-run u n (new_lexer s) ∙ (unfold new_lexer in refl) in
      (same, v.ordered, rw same at v.inside)
