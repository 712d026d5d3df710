-- ===== src/Flb/Document/Lexing.antt =====
-- What the lexer does on each part of a line, with any `rest` behind it.
use observability.Base.{
  ℕ, zero, suc, ◌≤◌, ◌<◌, Bool, true, false, ◌||◌, ◌≡◌, ◌≢◌, refl, List, [], ◌∷◌, ◌++◌, some, inl,
  inr, leb, ◌==◌, arith, Text, All, length, take, drop, append_assoc, append-nil, Bool-cases,
  length-drop, take-append, drop-append, take-append-drop, All-drop,
}
use observability.Flb.Utf8.{Unicode, rune, width, decode_ascii, width_positive, width-le, rune-ge}
use observability.Flb.Lex.{
  new_line, left_bracket, right_bracket, section, key, value, Token, token, StateFunc, lex_start,
  lex_global_white_space, lex_key_white_space, lex_new_line, lex_left_bracket, lex_section,
  lex_right_bracket, lex_key, lex_value, is_blank, is_word,
}
use observability.Flb.Lex.Cursor.{Cursor, cursor_step, Leads, Leads-refl, Leads-trans, Leads-step}
use observability.Flb.Document.{is_name, Blanks, Name, OneLine, begins_blank}

abbrev pub at : List Token → StateFunc → Text → Text → Cursor
at ts f x r = record { tokens = ts; state = some f; lexeme = x; rest = r }

module _ (u : Unicode) where
  -- One step, with the cursor that it makes written out.
  to :
      (f : StateFunc) (c : Cursor) {d : Cursor}
      → c.state ≡ some f
      → cursor_step u f c ≡ d
      → Leads u c d
  to f c e p = rw p at (Leads-step u f c e)

  is_word_name : (c : ℕ) → is_name c ≡ true → (c < 128) × (is_word u c ≡ true)
  unfolding is_word
  is_word_name c h = ground (arith, u.ascii_letter c, u.ascii_number c)

  pub blank_step :
      (ts : List Token) (c : ℕ) (r : Text)
      → is_blank c ≡ true
      → Leads u (at ts lex_start [] (c ∷ r)) (at ts lex_start [] r)
  unfolding cursor_step
  blank_step ts c r h =
      Leads-trans u
        (to lex_start (at ts lex_start [] (c ∷ r)) {d = at ts lex_global_white_space [] (c ∷ r)}
          refl (ground (arith, decode_ascii c r)))
        (to lex_global_white_space (at ts lex_global_white_space [] (c ∷ r)) refl
          (ground (arith, decode_ascii c r)))

  pub skip-Blanks :
      (ts : List Token) (i r : Text)
      → Blanks i
      → Leads u (at ts lex_start [] (i ++ r)) (at ts lex_start [] r)
  skip-Blanks ts [] r h = Leads-refl u _
  skip-Blanks ts (c ∷ i) r h = Leads-trans u (blank_step ts c (i ++ r) h.0) (skip-Blanks ts i r h.1)

  pub newline_step :
      (ts : List Token) (r : Text)
      → Leads u
          (at ts lex_start [] (b'\n' ∷ r))
          (at (ts ++ token new_line (b'\n' ∷ []) ∷ []) lex_start [] r)
  unfolding cursor_step
  newline_step ts r =
      Leads-trans u
        (to lex_start (at ts lex_start [] (b'\n' ∷ r)) {d = at ts lex_new_line [] (b'\n' ∷ r)} refl
          (ground (arith, decode_ascii b'\n' r)))
        (to lex_new_line (at ts lex_new_line [] (b'\n' ∷ r)) refl refl)

  pub left_bracket_lem :
      (ts : List Token) (r : Text)
      → Leads u
          (at ts lex_start [] (b'[' ∷ r))
          (at (ts ++ token left_bracket (b'[' ∷ []) ∷ []) lex_section [] r)
  unfolding cursor_step
  left_bracket_lem ts r =
      Leads-trans u
        (to lex_start (at ts lex_start [] (b'[' ∷ r)) {d = at ts lex_left_bracket [] (b'[' ∷ r)}
          refl (ground (arith, decode_ascii b'[' r)))
        (to lex_left_bracket (at ts lex_left_bracket [] (b'[' ∷ r)) refl refl)

  read-Name :
      (ts : List Token) (x n r : Text)
      → Name n
      → Leads u (at ts lex_section x (n ++ r)) (at ts lex_section (x ++ n) r)
  unfolding cursor_step
  read-Name ts x [] r h = rw append-nil (Leads-refl u _)
  read-Name ts x (c ∷ n) r h =
      let (small, word) = is_word_name c h.0 in
      Leads-trans u
        (to lex_section (at ts lex_section x (c ∷ (n ++ r)))
          {d = at ts lex_section (x ++ c ∷ []) (n ++ r)} refl
          (ground (arith, decode_ascii c (n ++ r))))
        (rw (append_assoc x (c ∷ []) n) at (read-Name ts (x ++ c ∷ []) n r h.1))

  bracket_word : is_word u b']' ≡ false
  unfolding is_word
  bracket_word = ground (arith, u.ascii_letter b']', u.ascii_number b']')

  pub close-Name :
      (ts : List Token) (n r : Text)
      → Name n
      → Leads u
          (at ts lex_section [] (n ++ b']' ∷ r))
          (at ((ts ++ token section n ∷ []) ++ token right_bracket (b']' ∷ []) ∷ []) lex_start [] r)
  unfolding cursor_step
  close-Name ts n r h = Leads-trans u (read-Name ts [] n (b']' ∷ r) h) (
      Leads-trans u
        (to lex_section (at ts lex_section n (b']' ∷ r))
          {d = at (ts ++ token section n ∷ []) lex_right_bracket [] (b']' ∷ r)} refl
          (ground (arith, decode_ascii b']' r, bracket_word)))
        (to lex_right_bracket (at (ts ++ token section n ∷ []) lex_right_bracket [] (b']' ∷ r)) refl
          refl))

  abbrev is_key : ℕ → Bool
  is_key c = is_name c || c == b'.'

  key_start :
      (ts : List Token) (c : ℕ) (r : Text)
      → is_key c ≡ true
      → Leads u (at ts lex_start [] (c ∷ r)) (at ts lex_key [] (c ∷ r))
  unfolding cursor_step
  key_start ts c r h =
      to lex_start (at ts lex_start [] (c ∷ r)) refl (ground (arith, decode_ascii c r))

  read_key :
      (ts : List Token) (x k r : Text)
      → All (λ c. is_key c ≡ true) k
      → Leads u (at ts lex_key x (k ++ r)) (at ts lex_key (x ++ k) r)
  unfolding cursor_step
  read_key ts x [] r h = rw append-nil (Leads-refl u _)
  read_key ts x (c ∷ k) r h =
      Leads-trans u
        (to lex_key (at ts lex_key x (c ∷ (k ++ r))) {d = at ts lex_key (x ++ c ∷ []) (k ++ r)} refl
          (ground (arith, decode_ascii c (k ++ r), is_word_name c)))
        (rw (append_assoc x (c ∷ []) k) at (read_key ts (x ++ c ∷ []) k r h.1))

  blank_word : (c : ℕ) → is_blank c ≡ true → is_word u c ≡ false
  unfolding is_word
  blank_word c h = ground (arith, u.ascii_letter c, u.ascii_number c)

  pub read_key_all :
      (ts : List Token) (k : Text) (g : ℕ) (r : Text)
      → k ≢ []
      → All (λ c. is_key c ≡ true) k
      → is_blank g ≡ true
      → Leads u
          (at ts lex_start [] (k ++ g ∷ r))
          (at (ts ++ token key k ∷ []) lex_key_white_space [] (g ∷ r))
  unfolding cursor_step
  read_key_all ts [] g r ne h b = absurd (ne refl)
  read_key_all ts (c ∷ k) g r ne h b = Leads-trans u (key_start ts c (k ++ g ∷ r) h.0) (
      Leads-trans u (read_key ts [] (c ∷ k) (g ∷ r) h) (
        to lex_key (at ts lex_key (c ∷ k) (g ∷ r)) refl
          (ground (arith, decode_ascii g r, blank_word g))))

  -- The white space behind a key, up to a text that begins with none.
  pub skip_gap :
      (ts : List Token) (c : ℕ) (g r : Text)
      → Blanks (c ∷ g)
      → is_blank (rune r) ≡ false
      → Leads u (at ts lex_key_white_space [] (c ∷ (g ++ r))) (at ts lex_value [] r)
  unfolding cursor_step
  skip_gap ts c [] r h n =
      to lex_key_white_space (at ts lex_key_white_space [] (c ∷ r)) refl
        (ground (arith, decode_ascii c r))
  skip_gap ts c (d ∷ g) r h n =
      Leads-trans u
        (to lex_key_white_space (at ts lex_key_white_space [] (c ∷ d ∷ (g ++ r)))
          {d = at ts lex_key_white_space [] (d ∷ (g ++ r))} refl
          (ground (arith, decode_ascii c (d ∷ (g ++ r)), decode_ascii d (g ++ r))))
        (skip_gap ts d g r h.1 n)

  rune_ne_newline : (c : ℕ) (s : Text) → c == b'\n' ≡ false → rune (c ∷ s) == b'\n' ≡ false
  rune_ne_newline c s h = elim (Bool-cases (leb 128 c)) [
    | inl big ↦ let wide = rune-ge c s (ground arith) in ground arith
    | inr small ↦ ground (arith, decode_ascii c s)
  ]

  read_value :
      (n : ℕ) (ts : List Token) (x v r : Text)
      → length v ≤ n
      → OneLine v
      → Leads u (at ts lex_value x (v ++ b'\n' ∷ r)) (at ts lex_value (x ++ v) (b'\n' ∷ r))
  unfolding cursor_step
  read_value n ts x [] r h o = rw append-nil (Leads-refl u _)
  read_value zero ts x (c ∷ v) r h o = absurd (omega arith)
  read_value (suc n) ts x (c ∷ v) r h o =
      let s = b'\n' ∷ r in
      let w = width (c ∷ (v ++ s)) in
      let wide = width_positive c (v ++ s) in
      let short = width-le c v b'\n' r (omega arith) in
      let first : Leads u (at ts lex_value x (c ∷ (v ++ s)))
          (at ts lex_value (x ++ take w (c ∷ v)) (drop w (c ∷ v) ++ s)) =
        to lex_value (at ts lex_value x (c ∷ (v ++ s))) refl (
          ground (
            arith,
            rune_ne_newline c (v ++ s) o.0,
            take-append w (c ∷ v) s short,
            drop-append w (c ∷ v) s short,
          )) in
      let later =
        read_value n ts (x ++ take w (c ∷ v)) (drop w (c ∷ v)) r
          (omega (arith, length-drop w (c ∷ v))) (All-drop _ w (c ∷ v) o) in
      Leads-trans u first
        (rw (append_assoc x (take w (c ∷ v)) (drop w (c ∷ v)), take-append-drop w (c ∷ v)) at later)

  pub read_value_all :
      (ts : List Token) (v r : Text)
      → OneLine v
      → Leads u
          (at ts lex_value [] (v ++ b'\n' ∷ r))
          (at (ts ++ token value v ∷ []) lex_start [] (b'\n' ∷ r))
  unfolding cursor_step
  read_value_all ts v r o =
      Leads-trans u (read_value (length v) ts [] v r (omega arith) o)
        (to lex_value (at ts lex_value v (b'\n' ∷ r)) refl (ground (arith, decode_ascii b'\n' r)))

  pub rune_unblank :
      (v r : Text) → OneLine v → begins_blank v ≡ false → is_blank (rune (v ++ b'\n' ∷ r)) ≡ false
  rune_unblank [] r o b = ground (arith, decode_ascii b'\n' r)
  rune_unblank (c ∷ v) r o b = elim (Bool-cases (leb 128 c)) [
    | inl big ↦ let wide = rune-ge c (v ++ b'\n' ∷ r) (ground arith) in ground arith
    | inr small ↦ ground (arith, decode_ascii c (v ++ b'\n' ∷ r))
  ]
