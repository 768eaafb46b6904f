-- ===== src/Text/Trim.antt =====
-- Characters, comparison, `trim`, `trim_matches`, `strip_prefix`, `replace`.
use Prim.Native.Char.{code}
use osubot_rs.Prelude.{
  ℕ, ◌-◌, Bool, true, false, ◌&&◌, ◌||◌, List, [], ◌∷◌, Option, none, some, String, leb, ◌==◌,
  if◌then◌else◌,
}

abbrev pub Text : Type 0
Text = List ℕ

-- A literal of the source.
abbrev pub codes : String → Text
codes String.[] = []
codes (String.◌∷◌ c s) = code c ∷ codes s

-- `char::is_whitespace`, Unicode's White_Space.
unfoldable pub is_whitespace : ℕ → Bool
is_whitespace c =
    (leb 9 c && leb c 13)
    || c == 32
    || c == 0x85
    || c == 0xa0
    || c == 0x1680
    || (leb 0x2000 c && leb c 0x200a)
    || c == 0x2028
    || c == 0x2029
    || c == 0x202f
    || c == 0x205f
    || c == 0x3000

abbrev pub is_digit : ℕ → Bool
is_digit c = leb b'0' c && leb c b'9'

abbrev pub is_ascii_alphabetic : ℕ → Bool
is_ascii_alphabetic c = (leb b'a' c && leb c b'z') || (leb b'A' c && leb c b'Z')

-- `to_uppercase` on an ASCII letter.
abbrev pub to_upper : ℕ → ℕ
to_upper c = if leb b'a' c && leb c b'z' then c - 32 else c

-- `==` on `str`.
unfoldable pub text_eq : Text → Text → Bool
text_eq [] [] = true
text_eq (c ∷ s) (d ∷ t) = c == d && text_eq s t
text_eq _ _ = false

-- `trim_start_matches` with a predicate.
unfoldable pub trim_start_by : (ℕ → Bool) → Text → Text
trim_start_by p [] = []
trim_start_by p (c ∷ s) = if p c then trim_start_by p s else c ∷ s

-- One character before a text whose end is already trimmed.
abbrev pub keep_end : (ℕ → Bool) → ℕ → Text → Text
keep_end p c [] = if p c then [] else c ∷ []
keep_end p c (d ∷ s) = c ∷ d ∷ s

-- `trim_end_matches` with a predicate.
unfoldable pub trim_end_by : (ℕ → Bool) → Text → Text
trim_end_by p [] = []
trim_end_by p (c ∷ s) = keep_end p c (trim_end_by p s)

-- `trim_start_matches` and `trim_end_matches` with a character.
abbrev pub trim_start_matches : ℕ → Text → Text
trim_start_matches k = trim_start_by (λ c. c == k)

abbrev pub trim_end_matches : ℕ → Text → Text
trim_end_matches k = trim_end_by (λ c. c == k)

unfoldable pub trim : Text → Text
unfolding trim_start_by trim_end_by is_whitespace
trim s = trim_end_by is_whitespace (trim_start_by is_whitespace s)

-- `s.strip_prefix(p)`, the pattern first.
unfoldable pub strip_prefix : Text → Text → Option Text
strip_prefix [] s = some s
strip_prefix (c ∷ p) [] = none
strip_prefix (c ∷ p) (d ∷ s) = if c == d then strip_prefix p s else none

abbrev pub is_some_text : Option Text → Bool
is_some_text none = false
is_some_text (some s) = true

abbrev pub starts_with : Text → Text → Bool
starts_with p s = is_some_text (strip_prefix p s)

-- `replace` of one character by another.
unfoldable pub replace : ℕ → ℕ → Text → Text
replace a b [] = []
replace a b (c ∷ s) = (if c == a then b else c) ∷ replace a b s
