-- ===== src/Text/Words.antt =====
-- Words, and texts in which a character does not occur.
use osubot_rs.Prelude.{
  ℕ, ◌≡◌, refl, Bool, true, false, [], ◌∷◌, ◌++◌, none, some, ap, ◌∙◌, arith, ◌==◌,
}
use osubot_rs.Text.Trim.{
  Text, is_whitespace, strip_prefix, trim_start_by, trim_end_by, trim, keep_end,
}
use osubot_rs.Text.Split.{split_by, nonempty, split_whitespace, split_once, split_at}
use osubot_rs.Text.Laws.{free_of, trim_end_by_free}

split_by_word : (p : ℕ → Bool) (w : Text) → free_of p w ≡ true → split_by p w ≡ w ∷ []
unfolding split_by
split_by_word p [] h = refl
split_by_word p (c ∷ w) h = ground (arith, split_by_word p w)

split_by_words :
    (p : ℕ → Bool) (v : Text) (k : ℕ) (w : Text)
    → free_of p v ≡ true
    → p k ≡ true
    → split_by p (v ++ (k ∷ w)) ≡ v ∷ split_by p w
unfolding split_by
split_by_words p [] k w h q = rw (q) refl
split_by_words p (c ∷ v) k w h q = ground (arith, split_by_words p v k w)

-- Two words with a space between them.
pub split_whitespace-words :
    (c : ℕ) (v : Text) (d : ℕ) (w : Text)
    → free_of is_whitespace (c ∷ v) ≡ true
    → free_of is_whitespace (d ∷ w) ≡ true
    → split_whitespace ((c ∷ v) ++ (b' ' ∷ d ∷ w)) ≡ (c ∷ v) ∷ (d ∷ w) ∷ []
unfolding split_whitespace nonempty is_whitespace
split_whitespace-words c v d w h k = ap nonempty (
    split_by_words is_whitespace (c ∷ v) b' ' (d ∷ w) h refl
    ∙ ap (λ ws. (c ∷ v) ∷ ws) (split_by_word is_whitespace (d ∷ w) k))

pub split_once_free : (k : ℕ) (s : Text) → free_of (λ c. c == k) s ≡ true → split_once k s ≡ none
unfolding split_once
split_once_free k [] h = refl
split_once_free k (c ∷ s) h = ground (arith, split_once_free k s)

pub split_once-append :
    (k : ℕ) (a b : Text)
    → free_of (λ c. c == k) a ≡ true
    → split_once k (a ++ (k ∷ b)) ≡ some (a, b)
unfolding split_once
split_once-append k [] b h = ground arith
split_once-append k (c ∷ a) b h = ground (arith, split_once-append k a b)

pub split_at_free :
    (k : ℕ) (p s : Text) → free_of (λ c. c == k) s ≡ true → split_at (k ∷ p) s ≡ none
unfolding split_at strip_prefix
split_at_free k p [] h = refl
split_at_free k p (c ∷ s) h = ground (arith, split_at_free k p s)

keep_end-before :
    (p : ℕ → Bool) (c : ℕ) (s : Text) (k : ℕ) (w : Text)
    → keep_end p c (s ++ (k ∷ w)) ≡ c ∷ (s ++ (k ∷ w))
keep_end-before p c [] k w = refl
keep_end-before p c (e ∷ s) k w = refl

trim_end_by-append :
    (p : ℕ → Bool) (s : Text) (k d : ℕ) (w : Text)
    → free_of p (d ∷ w) ≡ true
    → trim_end_by p (s ++ (k ∷ d ∷ w)) ≡ s ++ (k ∷ d ∷ w)
unfolding trim_end_by
trim_end_by-append p [] k d w h = rw (trim_end_by_free p (d ∷ w) h) refl
trim_end_by-append p (c ∷ s) k d w h =
    rw (trim_end_by-append p s k d w h) (keep_end-before p c s k (d ∷ w))

-- Between two words there may be anything.
pub trim_words :
    (c : ℕ) (v : Text) (k d : ℕ) (w : Text)
    → is_whitespace c ≡ false
    → free_of is_whitespace (d ∷ w) ≡ true
    → trim ((c ∷ v) ++ (k ∷ d ∷ w)) ≡ (c ∷ v) ++ (k ∷ d ∷ w)
unfolding trim trim_start_by
trim_words c v k d w q h = rw (q) (trim_end_by-append is_whitespace (c ∷ v) k d w h)
