-- ===== src/Flb/Utf8.antt =====
-- What the lexer takes from Go's `unicode` and `unicode/utf8`: the decoding of the first rune of a
-- byte string, and the two character classes. The tables of the classes depend on the release of
-- Go, so they are a parameter with the part of them that the configuration format relies on.
use observability.Base.{
  ℕ, suc, ◌+◌, ◌*◌, ◌%◌, ◌≤◌, ◌<◌, ◌≡◌, Bool, false, ◌&&◌, ◌||◌, [], ◌∷◌, ◌++◌, arith, ltb, leb,
  ◌==◌, if◌then◌else◌, Text, length,
}

-- U+FFFD, which stands for a byte that begins no rune, and for the end of the input.
abbrev pub rune_error : ℕ
rune_error = 65533

-- A rune and its width in bytes.
abbrev pub Decoded : Type 0
Decoded = ℕ × ℕ

abbrev within : ℕ → ℕ → ℕ → Bool
within lo hi b = leb lo b && leb b hi

abbrev continues : ℕ → Bool
continues b = within 0x80 0xBF b

abbrev invalid : Decoded
invalid = (rune_error, 1)

decode_two : ℕ → Text → Decoded
decode_two b [] = invalid
decode_two b (c ∷ _) = if continues c then (b % 32 * 64 + c % 64, 2) else invalid

-- After 0xE0 and 0xED the second byte has a narrower range: no overlong form and no surrogate.
second_of_three : ℕ → ℕ → Bool
second_of_three b c =
    if b == 0xE0 then within 0xA0 0xBF c else if b == 0xED then within 0x80 0x9F c else continues c

decode_three : ℕ → Text → Decoded
decode_three b [] = invalid
decode_three b (c ∷ []) = invalid
decode_three b (c ∷ d ∷ _) =
    if second_of_three b c && continues d
    then ((b % 16 * 64 + c % 64) * 64 + d % 64, 3)
    else invalid

-- After 0xF0 no overlong form, after 0xF4 nothing past U+10FFFF.
second_of_four : ℕ → ℕ → Bool
second_of_four b c =
    if b == 0xF0 then within 0x90 0xBF c else if b == 0xF4 then within 0x80 0x8F c else continues c

decode_four : ℕ → Text → Decoded
decode_four b [] = invalid
decode_four b (c ∷ []) = invalid
decode_four b (c ∷ d ∷ []) = invalid
decode_four b (c ∷ d ∷ e ∷ _) =
    if second_of_four b c && (continues d && continues e)
    then (((b % 8 * 64 + c % 64) * 64 + d % 64) * 64 + e % 64, 4)
    else invalid

decode_first : ℕ → Text → Decoded
decode_first b rest =
    if ltb b 0x80
    then (b, 1)
    else if within 0xC2 0xDF b
    then decode_two b rest
    else if within 0xE0 0xEF b
    then decode_three b rest
    else if within 0xF0 0xF4 b
    then decode_four b rest
    else invalid

-- `utf8.DecodeRuneInString`.
unfoldable pub decode : Text → Decoded
unfolding decode_first decode_two decode_three decode_four second_of_three second_of_four
decode [] = (rune_error, 0)
decode (b ∷ rest) = decode_first b rest

abbrev pub rune : Text → ℕ
rune s = (decode s).0

abbrev pub width : Text → ℕ
width s = (decode s).1

-- `unicode.IsLetter` and `unicode.IsNumber`, with the ASCII part of their tables. U+FFFD is a symbol.
pub record Unicode : Type 0 where
  pub is_letter : ℕ → Bool
  pub is_number : ℕ → Bool
  pub ascii_letter :
      (c : ℕ) → c < 128 → is_letter c ≡ (leb b'A' c && leb c b'Z' || leb b'a' c && leb c b'z')
  pub ascii_number : (c : ℕ) → c < 128 → is_number c ≡ (leb b'0' c && leb c b'9')
  pub error_letter : is_letter rune_error ≡ false
  pub error_number : is_number rune_error ≡ false

pub decode_ascii : (c : ℕ) (s : Text) → c < 128 → decode (c ∷ s) ≡ (c, 1)
unfolding decode
decode_ascii c s h = ground arith

pub width_positive : (c : ℕ) (s : Text) → 1 ≤ width (c ∷ s)
unfolding decode
width_positive c [] = ground arith
width_positive c (d ∷ []) = ground arith
width_positive c (d ∷ e ∷ []) = ground arith
width_positive c (d ∷ e ∷ f ∷ s) = ground arith

-- The bytes of a rune behind its first are no ASCII: the rune ends before an ASCII byte `a`.
pub width-le :
    (c : ℕ) (v : Text) (a : ℕ) (s : Text) → a < 128 → width (c ∷ (v ++ a ∷ s)) ≤ suc (length v)
unfolding decode
width-le c [] a [] h = ground arith
width-le c [] a (x ∷ []) h = ground arith
width-le c [] a (x ∷ y ∷ s) h = ground arith
width-le c (d ∷ []) a [] h = ground arith
width-le c (d ∷ []) a (x ∷ s) h = ground arith
width-le c (d ∷ e ∷ []) a s h = ground arith
width-le c (d ∷ e ∷ f ∷ v) a s h = ground arith

pub width-le-length : (s : Text) → width s ≤ length s
unfolding decode
width-le-length [] = ground arith
width-le-length (c ∷ []) = ground arith
width-le-length (c ∷ d ∷ []) = ground arith
width-le-length (c ∷ d ∷ e ∷ []) = ground arith
width-le-length (c ∷ d ∷ e ∷ f ∷ s) = ground arith

-- A longer rune is no ASCII: the overlong forms are refused.
decode_two-ge : (b : ℕ) (s : Text) → 0xC2 ≤ b → b ≤ 0xDF → 128 ≤ (decode_two b s).0
unfolding decode_two
decode_two-ge b [] h k = omega arith
decode_two-ge b (c ∷ s) h k = ground arith

decode_three-ge : (b : ℕ) (s : Text) → 0xE0 ≤ b → b ≤ 0xEF → 128 ≤ (decode_three b s).0
unfolding decode_three second_of_three
decode_three-ge b [] h k = omega arith
decode_three-ge b (c ∷ []) h k = omega arith
decode_three-ge b (c ∷ d ∷ s) h k = ground arith

decode_four-ge : (b : ℕ) (s : Text) → 0xF0 ≤ b → b ≤ 0xF4 → 128 ≤ (decode_four b s).0
unfolding decode_four second_of_four
decode_four-ge b [] h k = omega arith
decode_four-ge b (c ∷ []) h k = omega arith
decode_four-ge b (c ∷ d ∷ []) h k = omega arith
decode_four-ge b (c ∷ d ∷ e ∷ s) h k = ground arith

-- A byte that is no ASCII begins no ASCII rune.
decode_first-ge : (c : ℕ) (s : Text) → 128 ≤ c → 128 ≤ (decode_first c s).0
unfolding decode_first
decode_first-ge c s h = ground (arith, decode_two-ge c s, decode_three-ge c s, decode_four-ge c s)

pub rune-ge : (c : ℕ) (s : Text) → 128 ≤ c → 128 ≤ rune (c ∷ s)
unfolding decode
rune-ge c s h = decode_first-ge c s h
