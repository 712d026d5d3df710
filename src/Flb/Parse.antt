-- ===== src/Flb/Parse.antt =====
-- pkg/sink/flbconfig/parse.go: the parser, a loop over the tokens.
pub mod Errors
use observability.Base.{
  Bool, true, false, not, ◌||◌, List, [], ◌∷◌, ◌++◌, if◌then◌else◌, Text, codes,
}
use observability.Flb.Utf8.{Unicode}
use observability.Flb.Lex.{
  TokenType, error, eof, new_line, left_bracket, right_bracket, section, key, value, Token,
  new_lexer, emit, errorf, next, peek_next, at_eof, step, run, lex_fuel, unexpected_eof,
}

pub record KeyValue : Type 0 where
  pub key : Text
  pub value : Text

pub record Section : Type 0 where
  pub name : Text
  pub key_values : List KeyValue

pub record File : Type 0 where
  pub name : Text
  pub sections : List Section

-- `(File, error)`: where there is an error the file is the zero `File{}`.
pub data Parsed : Type 0 where
  ok : File → Parsed
  err : Text → Parsed

-- The local variables of `Parse`.
pub record ParseState : Type 0 where
  pub file : File
  pub require_newline : Bool
  pub processing_section : Bool
  pub section : Section
  pub processing_kv : Bool
  pub key : Text

-- What one round of the loop does.
pub data Round : Type 0 where
  return : Parsed → Round
  continue : ParseState → Round

abbrev pub no_section : Section
no_section = record { name = []; key_values = [] }

abbrev pub close_section : ParseState → File
close_section st = record st.file { sections = st.file.sections ++ st.section ∷ [] }

abbrev busy : ParseState → Bool
busy st = st.processing_kv || st.processing_section

abbrev fail : Text → Round
fail msg = return (err msg)

-- The `switch`.
parse_token : TokenType → Text → ParseState → Round
parse_token error v st = fail v
parse_token eof v st = if busy st then fail unexpected_eof else return (ok (close_section st))
parse_token new_line v st = if busy st then fail (codes "unexpected newline") else continue st
parse_token left_bracket v st =
    if busy st
    then fail (codes "unexpected left bracket")
    else continue
        (record st { file = close_section st; processing_section = true; section = no_section })
parse_token section v st =
    if not st.processing_section
    then fail (codes "unexpected section")
    else continue (record st { section = record st.section { name = v } })
parse_token right_bracket v st =
    if not st.processing_section
    then fail (codes "unexpected right bracket")
    else continue (record st { processing_section = false; require_newline = true })
parse_token key v st =
    if busy st
    then fail (codes "unexpected key")
    else continue (record st { processing_kv = true; key = v })
parse_token value v st =
    if not st.processing_kv
    then fail (codes "unexpected value")
    else continue (record st {
      section = record st.section {
        key_values = st.section.key_values ++ (record { key = st.key; value = v }) ∷ [];
      };
      processing_kv = false;
      key = [];
    })

is_new_line : TokenType → Bool
is_new_line new_line = true
is_new_line _ = false

unfoldable pub parse_round : Token → ParseState → Round
unfolding parse_token is_new_line
parse_round t st =
    if st.require_newline
    then if not (is_new_line t.type)
      then fail (codes "newline required")
      else continue (record st { require_newline = false })
    else parse_token t.type t.value st

-- The loop, and the `return f, nil` behind it.
unfoldable pub parse_tokens : List Token → ParseState → Parsed
parse_tokens [] st = ok st.file
parse_tokens (t ∷ ts) st = elim (parse_round t st) [
  | return r ↦ r
  | continue st' ↦ parse_tokens ts st'
]

abbrev pub initial : Text → ParseState
initial name = record {
  file = record { name = name; sections = [] };
  require_newline = false;
  processing_section = false;
  section = no_section;
  processing_kv = false;
  key = [];
}

module _ (u : Unicode) where
  unfoldable pub parse : Text → Text → Parsed
  unfolding parse_tokens parse_round run step new_lexer emit errorf next peek_next at_eof
  parse name input = parse_tokens (run u (lex_fuel input) (new_lexer input)).tokens (initial name)
