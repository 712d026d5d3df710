-- ===== src/Flb/Document/Checks.antt =====
-- Literal parts of a document are well formed by evaluation.
use observability.Base.{
  ℕ, Bool, true, false, not, ◌&&◌, ◌||◌, ◌≡◌, refl, List, [], ◌∷◌, arith, ◌==◌, Text, All,
}
use observability.Flb.Lex.{is_blank}
use observability.Flb.Document.{
  Line, blank, header, entry, is_name, Key, OneLine, begins_blank, WellFormed,
}

-- A text that can stand as a value: one line, with no white space in front.
abbrev pub Clean : Text → Type 0
Clean t = OneLine t × (begins_blank t ≡ false)

-- Literal keys and values, checked by evaluation.
abbrev all_of : (ℕ → Bool) → Text → Bool
all_of p [] = true
all_of p (c ∷ t) = p c && all_of p t

all_of_sound : (p : ℕ → Bool) (t : Text) → all_of p t ≡ true → All (λ c. p c ≡ true) t
all_of_sound p [] h = tt
all_of_sound p (c ∷ t) h = (ground arith, all_of_sound p t (ground arith))

none_of_sound :
    (p : ℕ → Bool) (t : Text) → all_of (λ c. not (p c)) t ≡ true → All (λ c. p c ≡ false) t
none_of_sound p [] h = tt
none_of_sound p (c ∷ t) h = (ground arith, none_of_sound p t (ground arith))

pub literal-Key :
    (c : ℕ) (k : Text) → all_of (λ c. is_name c || c == b'.') (c ∷ k) ≡ true → Key (c ∷ k)
literal-Key c k h = ((λ e. cc e), all_of_sound (λ c. is_name c || c == b'.') (c ∷ k) h)

pub literal_value :
    (v : Text) → (all_of (λ c. not (c == b'\n')) v && not (begins_blank v)) ≡ true → Clean v
literal_value v h = (none_of_sound (λ c. c == b'\n') v (ground arith), ground arith)

abbrev line_ok : Line → Bool
line_ok (blank i) = all_of is_blank i
line_ok (header i n) = all_of is_blank i && all_of is_name n
line_ok (entry i [] g v) = false
line_ok (entry i (c ∷ k) [] v) = false
line_ok (entry i (c ∷ k) (d ∷ g) v) =
    all_of is_blank i
    && (all_of (λ c. is_name c || c == b'.') (c ∷ k)
        && (all_of is_blank (d ∷ g) && (all_of (λ c. not (c == b'\n')) v && not (begins_blank v))))

abbrev lines_ok : List Line → Bool
lines_ok [] = true
lines_ok (l ∷ ls) = line_ok l && lines_ok ls

and_left : (a b : Bool) → (a && b) ≡ true → a ≡ true
and_left true b h = refl
and_left false b h = h

and_right : (a b : Bool) → (a && b) ≡ true → b ≡ true
and_right true b h = h
and_right false b h = cc

line_ok_sound : (l : Line) → line_ok l ≡ true → WellFormed l
line_ok_sound (blank i) h = all_of_sound is_blank i h
line_ok_sound (header i n) h = (
  all_of_sound is_blank i (and_left _ _ h),
  all_of_sound is_name n (and_right (all_of is_blank i) _ h),
)
line_ok_sound (entry i [] g v) h = cc
line_ok_sound (entry i (c ∷ k) [] v) h = cc
line_ok_sound (entry i (c ∷ k) (d ∷ g) v) h =
    let h1 = and_right (all_of is_blank i) _ h in
    let h2 = and_right (all_of (λ c. is_name c || c == b'.') (c ∷ k)) _ h1 in
    (
      all_of_sound is_blank i (and_left _ _ h),
      literal-Key c k (and_left _ _ h1),
      (all_of_sound is_blank (d ∷ g) (and_left _ _ h2), (λ e. cc e)),
      literal_value v (and_right (all_of is_blank (d ∷ g)) _ h2),
    )

pub lines_check : (ls : List Line) → lines_ok ls ≡ true → All WellFormed ls
lines_check [] h = tt
lines_check (l ∷ ls) h =
    (line_ok_sound l (and_left _ _ h), lines_check ls (and_right (line_ok l) _ h))
