-- ===== src/ScoreFilter/Mods.antt =====
-- What a filter on mods accepts.
use osubot_rs.Prelude.{
  suc, ◌≤◌, ◌≡◌, ◌↔◌, refl, Bool, true, false, not, ◌&&◌, List, [], ◌∷◌, some, if◌then◌else◌, arith,
  ap, length,
}
use osubot_rs.Text.{Text, text_eq, member}
use osubot_rs.Text.Laws.{text_eq_iff}
use osubot_rs.ScoreFilter.{FilterOp, all_member, parse_mod_filter, apply_mod_filter}

text_eq-sym : (s t : Text) → text_eq s t ≡ text_eq t s
unfolding text_eq
text_eq-sym [] [] = refl
text_eq-sym (c ∷ s) (d ∷ t) = ground (arith, text_eq-sym s t)
text_eq-sym [] (d ∷ t) = refl
text_eq-sym (c ∷ s) [] = refl

text_eq-same : (s t u : Text) → text_eq s t ≡ true → text_eq s u ≡ text_eq t u
text_eq-same s t u h = ap (λ z. text_eq z u) ((text_eq_iff s t).0 h)

-- No text of the list is there twice.
abbrev pub no_repeat : List Text → Bool
unfolding member
no_repeat [] = true
no_repeat (w ∷ ws) = not (member w ws) && no_repeat ws

-- The list without the first occurrence of a text.
remove : Text → List Text → List Text
unfolding text_eq
remove x [] = []
remove x (y ∷ ys) = let rest = remove x ys in if text_eq x y then ys else y ∷ rest

member-remove :
    (z x : Text) (ys : List Text)
    → text_eq x z ≡ false
    → member z ys ≡ true
    → member z (remove x ys) ≡ true
unfolding remove member
member-remove z x [] n h = h
member-remove z x (y ∷ ys) n h =
    ground (arith, member-remove z x ys n, text_eq-sym z y, text_eq-same x y z)

length-remove :
    (x : Text) (ys : List Text) → member x ys ≡ true → suc (length (remove x ys)) ≡ length ys
unfolding remove member
length-remove x [] h = ground arith
length-remove x (y ∷ ys) h = ground (arith, length-remove x ys)

all_member-remove :
    (x : Text) (xs ys : List Text)
    → member x xs ≡ false
    → all_member xs ys ≡ true
    → all_member xs (remove x ys) ≡ true
unfolding all_member member
all_member-remove x [] ys n h = refl
all_member-remove x (z ∷ zs) ys n h =
    ground (arith, all_member-remove x zs ys, member-remove z x ys)

all_member-more :
    (x : Text) (ys xs : List Text) → all_member ys xs ≡ true → all_member ys (x ∷ xs) ≡ true
unfolding all_member member
all_member-more x [] xs h = refl
all_member-more x (y ∷ ys) xs h = ground (arith, all_member-more x ys xs)

-- A list all of whose texts but one are in `xs`.
all_member-back :
    (x : Text) (xs ys : List Text)
    → all_member (remove x ys) xs ≡ true
    → all_member ys (x ∷ xs) ≡ true
unfolding all_member member remove
all_member-back x xs [] h = refl
all_member-back x xs (y ∷ ys) h =
    ground (arith, all_member-back x xs ys, all_member-more x ys xs, text_eq-sym x y)

-- A list without repetition lies in another that is not longer: then the other lies in it.
all_member-full :
    (xs ys : List Text)
    → no_repeat xs ≡ true
    → all_member xs ys ≡ true
    → length ys ≤ length xs
    → all_member ys xs ≡ true
unfolding all_member
all_member-full [] [] r h l = refl
all_member-full [] (y ∷ ys) r h l = absurd (omega arith)
all_member-full (x ∷ xs) ys r h l = all_member-back x xs ys (
    ground (arith, all_member-full xs (remove x ys), all_member-remove x xs ys, length-remove x ys))

length-all_member :
    (xs ys : List Text) → no_repeat xs ≡ true → all_member xs ys ≡ true → length xs ≤ length ys
unfolding all_member
length-all_member [] ys r h = omega arith
length-all_member (x ∷ xs) ys r h =
    ground
      (arith, length-all_member xs (remove x ys), all_member-remove x xs ys, length-remove x ys)

-- `mod==…` on a value that names no mod twice, for a score that has no mod twice: the filter accepts
-- the score exactly when every mod of the value is one of the score's, and every mod of the score
-- one of the value's.
pub apply_mod_filter_exact :
    (to_uppercase : Text → Text) (present required : List Text) (value : Text)
    → parse_mod_filter to_uppercase value ≡ some required
    → no_repeat required ≡ true
    → no_repeat present ≡ true
    → (apply_mod_filter to_uppercase present FilterOp.eq_eq value ≡ true)
      ↔ ((all_member required present ≡ true) × (all_member present required ≡ true))
unfolding apply_mod_filter
apply_mod_filter_exact to_uppercase present required value e r p = rw (e) (
  (λ h. (ground arith, ground (arith, all_member-full required present r))),
  (λ h. ground (arith, length-all_member required present r, length-all_member present required p)),
)
