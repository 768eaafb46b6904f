-- ===== src/Commands/Panics.antt =====
-- Where parsing a message panics (`extract_mode` of osubot-core/src/commands/common.rs slices by the
-- byte length of the mode token, counted from the colon), and where it does not.
use osubot_rs.Prelude.{
  ℕ, ◌+◌, ◌-◌, ◌≤◌, ◌<◌, ◌≡◌, refl, ◌∙◌, Bool, true, [], ◌∷◌, ◌++◌, ap, arith, panicked, ◌==◌,
}
use osubot_rs.Text.{Text, is_whitespace, split_whitespace, split_by, nonempty, byte_len, utf8_width}
use osubot_rs.Text.Laws.{free_of, rsplit_once-append}
use osubot_rs.Commands.Args.{drop_bytes, first_or_empty, mode_token, extract_mode}

-- The bytes of a word that ends in `c`.
byte_len-push : (w : Text) (c : ℕ) → byte_len (w ++ (c ∷ [])) ≡ byte_len w + utf8_width c
unfolding byte_len
byte_len-push [] c = omega arith
byte_len-push (d ∷ w) c = omega (arith, byte_len-push w c)

-- A cut inside the last character of a word is a panic.
drop_bytes_inside :
    (w : Text) (c n : ℕ)
    → byte_len w < n
    → n < byte_len w + utf8_width c
    → drop_bytes n (w ++ (c ∷ [])) ≡ panicked
unfolding drop_bytes byte_len
drop_bytes_inside [] c n l h = ground arith
drop_bytes_inside (d ∷ w) c n l h = ground (arith, drop_bytes_inside w c (n - utf8_width d))

split_by_free_lem : (p : ℕ → Bool) (w : Text) → free_of p w ≡ true → split_by p w ≡ w ∷ []
unfolding split_by
split_by_free_lem p [] h = refl
split_by_free_lem p (c ∷ w) h = ground (arith, split_by_free_lem p w)

split_by-space : (s : Text) → split_by is_whitespace (b' ' ∷ s) ≡ [] ∷ split_by is_whitespace s
unfolding split_by is_whitespace
split_by-space s = refl

nonempty-word : (w : Text) (c : ℕ) → nonempty ([] ∷ (w ++ (c ∷ [])) ∷ []) ≡ (w ++ (c ∷ [])) ∷ []
unfolding nonempty
nonempty-word [] c = refl
nonempty-word (d ∷ w) c = refl

split_whitespace-word :
    (w : Text) (c : ℕ)
    → free_of is_whitespace (w ++ (c ∷ [])) ≡ true
    → split_whitespace (b' ' ∷ (w ++ (c ∷ []))) ≡ (w ++ (c ∷ [])) ∷ []
unfolding split_whitespace
split_whitespace-word w c h =
    ap nonempty (
      split_by-space (w ++ (c ∷ []))
      ∙ ap (λ ws. [] ∷ ws) (split_by_free_lem is_whitespace (w ++ (c ∷ [])) h))
    ∙ nonempty-word w c

-- One word behind a space is the mode token.
mode_token-space :
    (w : Text) (c : ℕ)
    → free_of is_whitespace (w ++ (c ∷ [])) ≡ true
    → mode_token (b' ' ∷ (w ++ (c ∷ []))) ≡ w ++ (c ∷ [])
mode_token-space w c h = ap first_or_empty (split_whitespace-word w c h)

-- A cut that is one byte short of the end of the word falls inside its last character.
drop_bytes-space :
    (w : Text) (c : ℕ)
    → 128 ≤ c
    → drop_bytes (byte_len (w ++ (c ∷ []))) (b' ' ∷ (w ++ (c ∷ []))) ≡ panicked
unfolding drop_bytes
drop_bytes-space w c h =
    ground (arith, byte_len-push w c, drop_bytes_inside w c (byte_len (w ++ (c ∷ [])) - 1))

-- A colon, a space, and a word with no colon or space in it that ends in a character outside ASCII:
-- the mode is looked for there, and the slice behind the mode token panics.
pub extract_mode_panics :
    (before w : Text) (c : ℕ)
    → free_of is_whitespace (w ++ (c ∷ [])) ≡ true
    → free_of (λ k. k == b':') (w ++ (c ∷ [])) ≡ true
    → 128 ≤ c
    → extract_mode (before ++ (b':' ∷ b' ' ∷ (w ++ (c ∷ [])))) ≡ panicked
unfolding extract_mode
extract_mode_panics before w c no_space no_colon h =
    rw (rsplit_once-append b':' before (b' ' ∷ (w ++ (c ∷ []))) no_colon, extract_mode)
      (rw (mode_token-space w c no_space) (rw (drop_bytes-space w c h) refl))
