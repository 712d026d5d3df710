-- ===== src/Flb/Document/Reading.antt =====
-- A well-formed document is parsed to its sections.
use observability.Base.{
  ◌≡◌, refl, ap, ◌∙◌, List, [], ◌∷◌, ◌++◌, none, Text, append_assoc, append-nil, All,
}
use observability.Flb.Utf8.{Unicode}
use observability.Flb.Lex.{
  eof, new_line, left_bracket, right_bracket, section, key, value, Token, token, lex_start, lex_eof,
  new_lexer, run, lex_fuel,
}
use observability.Flb.Lex.Cursor.{
  cursor_step, Leads, Leads-refl, Leads-trans, Leads-step, lexer-cursor,
}
use observability.Flb.Parse.{
  Section, ok, ParseState, no_section, parse_round, parse_tokens, initial, parse,
}
use observability.Flb.Document.{
  Line, blank, header, entry, render, sections_from, sections_of, WellFormed,
}
use observability.Flb.Document.Lexing.{
  at, skip-Blanks, newline_step, left_bracket_lem, close-Name, read_key_all, skip_gap,
  read_value_all, rune_unblank,
}

abbrev newline_token : Token
newline_token = token new_line (b'\n' ∷ [])

-- The tokens of a line.
abbrev line_tokens : Line → List Token
line_tokens (blank i) = newline_token ∷ []
line_tokens (header i n) =
    token left_bracket (b'[' ∷ [])
    ∷ token section n
    ∷ token right_bracket (b']' ∷ [])
    ∷ newline_token
    ∷ []
line_tokens (entry i k g v) = token key k ∷ token value v ∷ newline_token ∷ []

abbrev tokens_of : List Line → List Token
tokens_of [] = []
tokens_of (l ∷ ls) = line_tokens l ++ tokens_of ls

module _ (u : Unicode) where
  lex_line :
      (ts : List Token) (l : Line) (ls : List Line)
      → WellFormed l
      → Leads u
          (at ts lex_start [] (render (l ∷ ls)))
          (at (ts ++ line_tokens l) lex_start [] (render ls))
  unfolding render
  lex_line ts (blank i) ls h =
      Leads-trans u (skip-Blanks u ts i (b'\n' ∷ render ls) h) (newline_step u ts (render ls))
  lex_line ts (header i n) ls (hi, hn) =
      let end = b'\n' ∷ render ls in
      let open_ts = ts ++ token left_bracket (b'[' ∷ []) ∷ [] in
      let close_ts = (open_ts ++ token section n ∷ []) ++ token right_bracket (b']' ∷ []) ∷ [] in
      let all = Leads-trans u (skip-Blanks u ts i (b'[' ∷ (n ++ (b']' ∷ end))) hi) (
        Leads-trans u (left_bracket_lem u ts (n ++ (b']' ∷ end)))
          (Leads-trans u (close-Name u open_ts n end hn) (newline_step u close_ts (render ls)))) in
      simp append_assoc at all
  lex_line ts (entry i k [] v) ls (hi, hk, (hg, ng), hv) = absurd (ng refl)
  lex_line ts (entry i k (c ∷ g) v) ls (hi, hk, (hg, ng), hv) =
      let end = b'\n' ∷ render ls in
      let key_ts = ts ++ token key k ∷ [] in
      let value_ts = key_ts ++ token value v ∷ [] in
      let all = Leads-trans u (skip-Blanks u ts i (k ++ (c ∷ (g ++ (v ++ end)))) hi) (
        Leads-trans u (read_key_all u ts k c (g ++ (v ++ end)) hk.0 hk.1 hg.0) (
          Leads-trans u
            (skip_gap u key_ts c g (v ++ end) hg (rune_unblank u v (render ls) hv.0 hv.1))
            (Leads-trans u (read_value_all u key_ts v (render ls) hv.0)
              (newline_step u value_ts (render ls))))) in
      simp append_assoc at all

  lex_lines :
      (ts : List Token) (ls : List Line)
      → All WellFormed ls
      → Leads u (at ts lex_start [] (render ls)) (at (ts ++ tokens_of ls) lex_start [] [])
  lex_lines ts [] h = rw append-nil (unfold render in Leads-refl u _)
  lex_lines ts (l ∷ ls) h = Leads-trans u (lex_line ts l ls h.0) (
      rw (append_assoc ts (line_tokens l) (tokens_of ls)) at
        (lex_lines (ts ++ line_tokens l) ls h.1))

  lex_end :
      (ts : List Token)
      → Leads u
          (at ts lex_start [] [])
          (record { tokens = ts ++ token eof [] ∷ []; state = none; lexeme = []; rest = [] })
  unfolding cursor_step
  lex_end ts =
      Leads-trans u (Leads-step u lex_start (at ts lex_start [] []) refl)
        (Leads-step u lex_eof (at ts lex_eof [] []) refl)

  -- The tokens of a document.
  lexer-render :
      (ls : List Line)
      → All WellFormed ls
      → (run u (lex_fuel (render ls)) (new_lexer (render ls))).tokens
        ≡ tokens_of ls ++ token eof [] ∷ []
  lexer-render ls h =
      lexer-cursor u (render ls)
        {d = record {
          tokens = tokens_of ls ++ token eof [] ∷ [];
          state = none;
          lexeme = [];
          rest = [];
        }}
        (Leads-trans u (lex_lines [] ls h) (lex_end (tokens_of ls))) refl

abbrev reading : Text → List Section → Section → ParseState
reading name done s = record (initial name) {
  file = record { name = name; sections = done };
  section = s;
}

parse_lines :
    (name : Text) (ls : List Line) (done : List Section) (s : Section)
    → parse_tokens (tokens_of ls ++ token eof [] ∷ []) (reading name done s)
      ≡ ok (record { name = name; sections = done ++ sections_from s ls })
unfolding parse_tokens parse_round sections_from
parse_lines name [] done s = refl
parse_lines name (blank i ∷ ls) done s = parse_lines name ls done s
parse_lines name (header i n ∷ ls) done s =
    parse_lines name ls (done ++ s ∷ []) (record { name = n; key_values = [] })
    ∙ ap (λ t. ok (record { name = name; sections = t })) (append_assoc done (s ∷ []) _)
parse_lines name (entry i k g v ∷ ls) done s =
    parse_lines name ls done
      (record s { key_values = s.key_values ++ (record { key = k; value = v }) ∷ [] })

-- Every document of well-formed lines, in any layout, is parsed with no error to its sections: the
-- entries of each section in their order, under its name, behind a section with no name that holds
-- what stands in front of the first header.
pub parse-render :
    (u : Unicode) (name : Text) (ls : List Line)
    → All WellFormed ls
    → parse u name (render ls) ≡ ok (record { name = name; sections = sections_of ls })
unfolding parse
parse-render u name ls h =
    ap (λ ts. parse_tokens ts (initial name)) (lexer-render u ls h)
    ∙ parse_lines name ls [] no_section
