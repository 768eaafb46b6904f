-- ===== src/Text/Laws.antt =====
-- Laws of the text operations.
use osubot_rs.Prelude.{
  ℕ, ◌≡◌, ◌↔◌, refl, Bool, true, false, not, ◌&&◌, [], ◌∷◌, ◌++◌, none, some, ap, ◌∙◌, arith, ◌==◌,
}
use osubot_rs.Text.Trim.{
  Text, text_eq, strip_prefix, is_whitespace, trim_start_by, trim_end_by, trim, keep_end,
}
use osubot_rs.Text.Split.{rsplit_once}

pub text_eq_iff : (s t : Text) → (text_eq s t ≡ true) ↔ (s ≡ t)
unfolding text_eq
text_eq_iff [] [] = ground arith
text_eq_iff (c ∷ s) (d ∷ t) = ground (arith, text_eq_iff s t)
text_eq_iff _ _ = ground arith

pub strip_prefix-append : (p s : Text) → strip_prefix p (p ++ s) ≡ some s
unfolding strip_prefix
strip_prefix-append [] s = refl
strip_prefix-append (c ∷ p) s = ground (arith, strip_prefix-append p s)

-- No character of the text meets the test.
abbrev pub free_of : (ℕ → Bool) → Text → Bool
free_of p [] = true
free_of p (c ∷ s) = not (p c) && free_of p s

pub free_of-append :
    (p : ℕ → Bool) (s t : Text)
    → free_of p s ≡ true
    → free_of p t ≡ true
    → free_of p (s ++ t) ≡ true
free_of-append p [] t h k = k
free_of-append p (c ∷ s) t h k = ground (arith, free_of-append p s t)

pub trim_start_by_free : (p : ℕ → Bool) (s : Text) → free_of p s ≡ true → trim_start_by p s ≡ s
unfolding trim_start_by
trim_start_by_free p [] h = refl
trim_start_by_free p (c ∷ s) h = ground arith

keep_end_free : (p : ℕ → Bool) (c : ℕ) (s : Text) → p c ≡ false → keep_end p c s ≡ c ∷ s
keep_end_free p c [] h = ground arith
keep_end_free p c (d ∷ s) h = refl

pub trim_end_by_free : (p : ℕ → Bool) (s : Text) → free_of p s ≡ true → trim_end_by p s ≡ s
unfolding trim_end_by
trim_end_by_free p [] h = refl
trim_end_by_free p (c ∷ s) h = ground (arith, trim_end_by_free p s, keep_end_free p c s)

pub trim_free : (s : Text) → free_of is_whitespace s ≡ true → trim s ≡ s
trim_free s h =
    unfold trim in
    ap (trim_end_by is_whitespace) (trim_start_by_free is_whitespace s h)
    ∙ trim_end_by_free is_whitespace s h

-- The last occurrence of a character is found where none follows.
pub rsplit_once_free : (k : ℕ) (s : Text) → free_of (λ c. c == k) s ≡ true → rsplit_once k s ≡ none
unfolding rsplit_once
rsplit_once_free k [] h = refl
rsplit_once_free k (c ∷ s) h = ground (arith, rsplit_once_free k s)

pub rsplit_once-append :
    (k : ℕ) (a b : Text)
    → free_of (λ c. c == k) b ≡ true
    → rsplit_once k (a ++ (k ∷ b)) ≡ some (a, b)
unfolding rsplit_once
rsplit_once-append k [] b h = ground (arith, rsplit_once_free k b h)
rsplit_once-append k (c ∷ a) b h = ground (arith, rsplit_once-append k a b h)
