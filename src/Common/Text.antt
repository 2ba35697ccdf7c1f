-- ===== src/Common/Text.antt =====
-- Texts as code points, for what the source does with header values: the methods of `str` on Latin-1
-- characters, the ones that an HTTP header may hold.
use Prim.Native.Char.{code}
use llm_router.Common.{
  ℕ, List, [], ◌∷◌, ◌++◌, String, Bool, true, false, Option, none, some, leb, all, map, ◌&&◌, ◌||◌,
  ◌==◌, nat_eq, not, if◌then◌else◌, ◌+◌, ◌*◌, ◌-◌, Eq, ◌≡◌, ◌↔◌, arith, refl,
}

abbrev pub Text : Type 0
Text = List ℕ

unfoldable pub codes : String → Text
codes String.[] = []
codes (String.◌∷◌ c s) = code c ∷ codes s

abbrev pub text_beq : Text → Text → Bool
text_beq [] [] = true
text_beq (x ∷ xs) (y ∷ ys) = x == y && text_beq xs ys
text_beq _ _ = false

pub text_beq_iff : (s t : Text) → (text_beq s t ≡ true) ↔ (s ≡ t)
text_beq_iff [] [] = ((λ h. refl), (λ h. refl))
text_beq_iff [] (y ∷ ys) = ((λ h. cc), (λ h. cc))
text_beq_iff (x ∷ xs) [] = ((λ h. cc), (λ h. cc))
text_beq_iff (x ∷ xs) (y ∷ ys) = ground (arith, text_beq_iff xs ys)

instance abbrev pub text_eq : Eq Text
text_eq = record { beq = text_beq; beq_iff = text_beq_iff }

-- `c.isspace()`
unfoldable pub is_blank_code : ℕ → Bool
is_blank_code c = c == 32 || (leb 9 c && leb c 13) || (leb 28 c && leb c 31) || c == 133 || c == 160

strip_left : Text → Text
unfolding is_blank_code
strip_left [] = []
strip_left (c ∷ cs) = let rest = strip_left cs in if is_blank_code c then rest else c ∷ cs

unfoldable pub reversed : Text → Text
reversed [] = []
reversed (c ∷ cs) = reversed cs ++ (c ∷ [])

-- `text.strip()`
unfoldable pub strip : Text → Text
unfolding strip_left reversed
strip s = reversed (strip_left (reversed (strip_left s)))

-- `c.lower()`
lower_code : ℕ → ℕ
lower_code c =
    if (leb 65 c && leb c 90) || (leb 192 c && leb c 222 && not (c == 215)) then c + 32 else c

-- `text.lower()`
unfoldable pub lower : Text → Text
unfolding lower_code
lower s = map lower_code s

-- `text.split(";", 1)[0]`
unfoldable pub before_semicolon : Text → Text
before_semicolon [] = []
before_semicolon (c ∷ cs) = let rest = before_semicolon cs in if c == 59 then [] else c ∷ rest

-- The digits of `isdigit` have the superscripts 1, 2 and 3 among them.
abbrev pub is_decimal : ℕ → Bool
is_decimal c = leb 48 c && leb c 57

is_digit : ℕ → Bool
is_digit c = is_decimal c || c == 178 || c == 179 || c == 185

-- `text.isdigit()`
unfoldable pub isdigit : Text → Bool
unfolding is_digit all
isdigit [] = false
isdigit (c ∷ cs) = is_digit c && all is_digit cs

decimal_from : ℕ → Text → Option ℕ
decimal_from n [] = some n
decimal_from n (c ∷ cs) =
    let rest = decimal_from (n * 10 + (c - 48)) cs in if is_decimal c then rest else none

-- `float(text)` of a text of digits: `none` is `ValueError`.
unfoldable pub float : Text → Option ℕ
unfolding decimal_from
float s = decimal_from 0 s
