-- ===== src/Flb/Lex.antt =====
-- pkg/sink/flbconfig/lex.go: the lexer, a machine whose states are functions. The offsets `start`
-- and `pos` count bytes of `input`. A round of the `for` loops of `LexSection`, `LexKey` and
-- `LexValue`, which keep no variable from one round to the next, is a step that stays in its state.
pub mod Bounds
pub mod Cursor
use observability.Base.{
  ℕ, zero, suc, ◌+◌, ◌-◌, ◌*◌, Bool, ◌||◌, List, [], ◌∷◌, ◌++◌, Option, none, some, leb, ◌==◌,
  if◌then◌else◌, Text, codes, length, take, drop,
}
use observability.Flb.Utf8.{Unicode, rune, width}

pub data TokenType : Type 0 where
  error eof new_line left_bracket right_bracket section key value : TokenType

pub record Token : Type 0 where
  pub type : TokenType
  pub value : Text

-- The state functions, by name. `nil` is `none`.
pub data StateFunc : Type 0 where
  lex_start lex_eof lex_global_white_space lex_key_white_space lex_new_line : StateFunc
  lex_left_bracket lex_section lex_right_bracket lex_key lex_value : StateFunc

pub record Lexer : Type 0 where
  pub input : Text
  pub tokens : List Token
  pub state : Option StateFunc
  pub start : ℕ
  pub pos : ℕ

unfoldable pub new_lexer : Text → Lexer
new_lexer s = record { input = s; tokens = []; state = some lex_start; start = 0; pos = 0 }

-- `input[from:to]`, where `from <= to <= len(input)`; elsewhere Go panics.
abbrev pub slice : ℕ → ℕ → Text → Text
slice from to s = take (to - from) (drop from s)

abbrev pub token : TokenType → Text → Token
token t v = record { type = t; value = v }

unfoldable pub emit : TokenType → Lexer → Lexer
emit t l = record l {
  tokens = l.tokens ++ token t (slice l.start l.pos l.input) ∷ [];
  start = l.pos;
}

-- `Errorf`: the next state is `nil`.
unfoldable pub errorf : Text → Lexer → Lexer
errorf msg l = record l { tokens = l.tokens ++ token error msg ∷ []; state = none }

abbrev pub remaining : Lexer → Text
remaining l = drop l.pos l.input

-- `Next`, whose result no caller uses.
unfoldable pub next : Lexer → Lexer
next l = record l { pos = l.pos + width (remaining l) }

unfoldable pub peek_next : Lexer → ℕ
peek_next l = rune (remaining l)

unfoldable pub at_eof : Lexer → Bool
at_eof l = leb (length l.input) l.pos

-- `return f`.
abbrev pub go_to : StateFunc → Lexer → Lexer
go_to f l = record l { state = some f }

abbrev pub is_blank : ℕ → Bool
is_blank c = c == b'\t' || c == b' '

-- `l.Pos += len(string(r))` for an ASCII rune `r`.
abbrev skip_byte : Lexer → Lexer
skip_byte l = record l { pos = l.pos + 1 }

-- `l.Next(); l.Start = l.Pos`.
abbrev pub drop_rune : Lexer → Lexer
drop_rune l = let m = next l in record m { start = m.pos }

start_step : Lexer → Lexer
start_step l =
    if at_eof l
    then go_to lex_eof l
    else if is_blank (peek_next l)
    then go_to lex_global_white_space l
    else if peek_next l == b'\n'
    then go_to lex_new_line l
    else if peek_next l == b'['
    then go_to lex_left_bracket l
    else go_to lex_key l

eof_step : Lexer → Lexer
eof_step l = record (emit eof l) { state = none }

global_white_space_step : Lexer → Lexer
global_white_space_step l = go_to lex_start (drop_rune l)

key_white_space_step : Lexer → Lexer
key_white_space_step l =
    let m = drop_rune l in
    if is_blank (peek_next m) then go_to lex_key_white_space m else go_to lex_value m

new_line_step : Lexer → Lexer
new_line_step l = go_to lex_start (emit new_line (skip_byte l))

left_bracket_step : Lexer → Lexer
left_bracket_step l = go_to lex_section (emit left_bracket (skip_byte l))

right_bracket_step : Lexer → Lexer
right_bracket_step l = go_to lex_start (emit right_bracket (skip_byte l))

abbrev pub unexpected_eof : Text
unexpected_eof = codes "unexpected EOF"

value_step : Lexer → Lexer
value_step l =
    if at_eof l
    then errorf unexpected_eof l
    else if peek_next l == b'\n'
    then go_to lex_start (emit value l)
    else go_to lex_value (next l)

module _ (u : Unicode) where
  -- The runes of a section's name, and those of a key.
  unfoldable pub is_word : ℕ → Bool
  is_word c = u.is_letter c || u.is_number c

  section_step : Lexer → Lexer
  section_step l =
      if at_eof l
      then errorf unexpected_eof l
      else if is_word (peek_next l)
      then go_to lex_section (next l)
      else if peek_next l == b']'
      then go_to lex_right_bracket (emit section l)
      else errorf (codes "missing right bracket") l

  key_step : Lexer → Lexer
  key_step l =
      if at_eof l
      then errorf unexpected_eof l
      else if is_word (peek_next l) || peek_next l == b'.'
      then go_to lex_key (next l)
      else if is_blank (peek_next l)
      then go_to lex_key_white_space (emit key l)
      else errorf (codes "invalid key") l

  -- `l.State(l)`.
  unfoldable pub step : StateFunc → Lexer → Lexer
  unfolding start_step eof_step global_white_space_step key_white_space_step new_line_step
      left_bracket_step section_step right_bracket_step key_step value_step
  step lex_start l = start_step l
  step lex_eof l = eof_step l
  step lex_global_white_space l = global_white_space_step l
  step lex_key_white_space l = key_white_space_step l
  step lex_new_line l = new_line_step l
  step lex_left_bracket l = left_bracket_step l
  step lex_section l = section_step l
  step lex_right_bracket l = right_bracket_step l
  step lex_key l = key_step l
  step lex_value l = value_step l

  -- `Run`, for at most the given number of steps.
  unfoldable pub run : ℕ → Lexer → Lexer
  run zero l = l
  run (suc n) l = elim l.state [ none ↦ l | some f ↦ run n (step f l) ]

-- Steps enough for every input of this length.
abbrev pub lex_fuel : Text → ℕ
lex_fuel s = 5 * length s + 5
