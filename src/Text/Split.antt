-- ===== src/Text/Split.antt =====
-- `split`, `split_whitespace`, `split_once` (a slice up to `find` and one behind it), `rsplit_once`
-- (the same with `rfind`), `contains`, `join`.
use osubot_rs.Prelude.{
  ℕ, ◌+◌, Bool, false, ◌||◌, List, [], ◌∷◌, ◌++◌, Option, none, some, ◌==◌, ltb, if◌then◌else◌,
  is_some,
}
use osubot_rs.Text.Trim.{Text, is_whitespace, strip_prefix, text_eq}

-- One character before the first piece.
abbrev pub push_first : ℕ → List Text → List Text
push_first c [] = (c ∷ []) ∷ []
push_first c (w ∷ ws) = (c ∷ w) ∷ ws

-- `split` with a predicate: one piece more than separators.
unfoldable pub split_by : (ℕ → Bool) → Text → List Text
split_by p [] = [] ∷ []
split_by p (c ∷ s) = let rest = split_by p s in if p c then [] ∷ rest else push_first c rest

abbrev pub split : ℕ → Text → List Text
split k = split_by (λ c. c == k)

abbrev pub add_nonempty : Text → List Text → List Text
add_nonempty [] ws = ws
add_nonempty (c ∷ s) ws = (c ∷ s) ∷ ws

unfoldable pub nonempty : List Text → List Text
nonempty [] = []
nonempty (w ∷ ws) = add_nonempty w (nonempty ws)

unfoldable pub split_whitespace : Text → List Text
unfolding nonempty split_by is_whitespace
split_whitespace s = nonempty (split_by is_whitespace s)

abbrev pub push_before : ℕ → Option (Text × Text) → Option (Text × Text)
push_before c none = none
push_before c (some (a, b)) = some (c ∷ a, b)

-- The texts before and behind the first occurrence of a character.
unfoldable pub split_once : ℕ → Text → Option (Text × Text)
split_once k [] = none
split_once k (c ∷ s) =
    let rest = split_once k s in if c == k then some ([], s) else push_before c rest

abbrev pub rsplit_step : ℕ → ℕ → Text → Option (Text × Text) → Option (Text × Text)
rsplit_step k c s (some (a, b)) = some (c ∷ a, b)
rsplit_step k c s none = if c == k then some ([], s) else none

-- The texts before and behind the last occurrence of a character.
unfoldable pub rsplit_once : ℕ → Text → Option (Text × Text)
rsplit_once k [] = none
rsplit_once k (c ∷ s) = rsplit_step k c s (rsplit_once k s)

abbrev pub or_push : ℕ → Option Text → Option (Text × Text) → Option (Text × Text)
or_push c (some r) rest = some ([], r)
or_push c none rest = push_before c rest

abbrev at_end : Option Text → Option (Text × Text)
at_end none = none
at_end (some r) = some ([], r)

-- The texts before and behind the first occurrence of a text.
unfoldable pub split_at : Text → Text → Option (Text × Text)
unfolding strip_prefix
split_at p [] = at_end (strip_prefix p [])
split_at p (c ∷ s) = or_push c (strip_prefix p (c ∷ s)) (split_at p s)

abbrev pub contains : Text → Text → Bool
contains p s = is_some (split_at p s)

abbrev pub contains_char : ℕ → Text → Bool
contains_char k s = is_some (split_once k s)

-- `contains` of a list of texts.
unfoldable pub member : Text → List Text → Bool
unfolding text_eq
member s [] = false
member s (w ∷ ws) = text_eq s w || member s ws

abbrev pub join_step : Text → Text → List Text → Text → Text
join_step sep w [] rest = w
join_step sep w (v ∷ ws) rest = w ++ (sep ++ rest)

-- `join`.
unfoldable pub join : Text → List Text → Text
join sep [] = []
join sep (w ∷ ws) = join_step sep w ws (join sep ws)

-- `str::len`, the number of UTF-8 bytes.
abbrev pub utf8_width : ℕ → ℕ
utf8_width c = if ltb c 0x80 then 1 else if ltb c 0x800 then 2 else if ltb c 0x10000 then 3 else 4

unfoldable pub byte_len : Text → ℕ
byte_len [] = 0
byte_len (c ∷ s) = utf8_width c + byte_len s
