-- ===== src/Flb/Document.antt =====
-- An independent description of the configuration format of fluent-bit: a document is a list of
-- lines, it is written with any layout that keeps the lines apart, and it is read section by section.
pub mod Lexing
pub mod Checks
pub mod Reading
use observability.Base.{
  ℕ, Bool, true, false, not, ◌&&◌, ◌||◌, ◌≡◌, ◌≢◌, List, [], ◌∷◌, ◌++◌, leb, ◌==◌, Text, All,
}
use observability.Flb.Lex.{is_blank}
use observability.Flb.Parse.{KeyValue, Section, no_section}

-- A blank line has its white space; a header its indentation and its name; an entry its
-- indentation, its key, the white space behind the key, and its value.
pub data Line : Type 0 where
  blank : Text → Line
  header : Text → Text → Line
  entry : Text → Text → Text → Text → Line

-- The text of the lines, each with its newline.
unfoldable pub render : List Line → Text
render [] = []
render (blank i ∷ ls) = i ++ b'\n' ∷ render ls
render (header i n ∷ ls) = i ++ (b'[' ∷ (n ++ (b']' ∷ b'\n' ∷ render ls)))
render (entry i k g v ∷ ls) = i ++ (k ++ (g ++ (v ++ b'\n' ∷ render ls)))

-- The sections of the lines, from a section that is being read.
unfoldable pub sections_from : Section → List Line → List Section
sections_from s [] = s ∷ []
sections_from s (blank i ∷ ls) = sections_from s ls
sections_from s (header i n ∷ ls) = s ∷ sections_from (record { name = n; key_values = [] }) ls
sections_from s (entry i k g v ∷ ls) =
    sections_from (record s { key_values = s.key_values ++ (record { key = k; value = v }) ∷ [] })
      ls

-- What stands in front of the first header is a section with no name.
abbrev pub sections_of : List Line → List Section
sections_of ls = sections_from no_section ls

abbrev pub is_name : ℕ → Bool
is_name c = leb b'A' c && leb c b'Z' || leb b'a' c && leb c b'z' || leb b'0' c && leb c b'9'

abbrev pub Blanks : Text → Type 0
Blanks = All (λ c. is_blank c ≡ true)

abbrev pub Name : Text → Type 0
Name = All (λ c. is_name c ≡ true)

abbrev pub Key : Text → Type 0
Key k = (k ≢ []) × All (λ c. (is_name c || c == b'.') ≡ true) k

abbrev pub OneLine : Text → Type 0
OneLine = All (λ c. c == b'\n' ≡ false)

abbrev pub begins_blank : Text → Bool
begins_blank [] = false
begins_blank (c ∷ _) = is_blank c

-- A value is any bytes without a newline that do not begin with white space.
abbrev pub WellFormed : Line → Type 0
WellFormed (blank i) = Blanks i
WellFormed (header i n) = Blanks i × Name n
WellFormed (entry i k g v) =
    Blanks i × Key k × (Blanks g × (g ≢ [])) × (OneLine v × (begins_blank v ≡ false))
