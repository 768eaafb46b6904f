-- ===== src/ScoreFilter/Tokens.antt =====
-- The printed form of a filter.
use osubot_rs.Prelude.{
  ℕ, ◌≡◌, refl, Bool, true, false, ◌||◌, [], ◌∷◌, ◌++◌, map, none, some, ◌==◌, arith, ap, ◌∙◌,
  or_else,
}
use osubot_rs.Text.{Text, split_at, split_once, strip_prefix}
use osubot_rs.Text.Laws.{free_of}
use osubot_rs.ScoreFilter.{
  FilterOp, FilterToken, normal, two_char_ops, one_char_ops, returned_token, parse_filter_token,
}

-- A character of an operator, in either width.
abbrev pub is_op : ℕ → Bool
is_op c =
    (c == b'!')
    || (c == b'=')
    || (c == b'>')
    || (c == b'<')
    || (c == 0xff01)
    || (c == 0xff1d)
    || (c == 0xff1e)
    || (c == 0xff1c)

abbrev pub op_text : FilterOp → Text
op_text FilterOp.eq = b'=' ∷ []
op_text FilterOp.eq_eq = b'=' ∷ b'=' ∷ []
op_text FilterOp.not_eq = b'!' ∷ b'=' ∷ []
op_text FilterOp.lt = b'<' ∷ []
op_text FilterOp.lt_eq = b'<' ∷ b'=' ∷ []
op_text FilterOp.gt = b'>' ∷ []
op_text FilterOp.gt_eq = b'>' ∷ b'=' ∷ []

normal-free : (s : Text) → free_of is_op s ≡ true → map normal s ≡ s
normal-free [] h = refl
normal-free (c ∷ s) h = ground (arith, normal-free s)

map-append : (s t : Text) → map normal (s ++ t) ≡ map normal s ++ map normal t
map-append [] t = refl
map-append (c ∷ s) t = ap (λ z. normal c ∷ z) (map-append s t)

module _ (p q : ℕ) (is_op-p : is_op p ≡ true) where
  split_at_free : (s : Text) → free_of is_op s ≡ true → split_at (p ∷ q ∷ []) s ≡ none
  unfolding split_at strip_prefix
  split_at_free [] h = refl
  split_at_free (c ∷ s) h = ground (arith, split_at_free s)

  -- A text without operators in front is passed over.
  split_at_skips :
      (s t : Text)
      → free_of is_op s ≡ true
      → split_at (p ∷ q ∷ []) t ≡ none
      → split_at (p ∷ q ∷ []) (s ++ t) ≡ none
  unfolding split_at strip_prefix
  split_at_skips [] t h n = n
  split_at_skips (c ∷ s) t h n = ground (arith, split_at_skips s t)

  split_at_finds :
      (s t : Text) → free_of is_op s ≡ true → split_at (p ∷ q ∷ []) (s ++ (p ∷ q ∷ t)) ≡ some (s, t)
  unfolding split_at strip_prefix
  split_at_finds [] t h = ground arith
  split_at_finds (c ∷ s) t h = ground (arith, split_at_finds s t)

module _ (k : ℕ) (is_op-k : is_op k ≡ true) where
  split_once_free : (s : Text) → free_of is_op s ≡ true → split_once k s ≡ none
  unfolding split_once
  split_once_free [] h = refl
  split_once_free (c ∷ s) h = ground (arith, split_once_free s)

  split_once_skips :
      (s t : Text) → free_of is_op s ≡ true → split_once k t ≡ none → split_once k (s ++ t) ≡ none
  unfolding split_once
  split_once_skips [] t h n = n
  split_once_skips (c ∷ s) t h n = ground (arith, split_once_skips s t)

  split_once_finds :
      (s t : Text) → free_of is_op s ≡ true → split_once k (s ++ (k ∷ t)) ≡ some (s, t)
  unfolding split_once
  split_once_finds [] t h = ground arith
  split_once_finds (c ∷ s) t h = ground (arith, split_once_finds s t)

-- No operator of two characters begins in the value of a token.
lone :
    (p o v : ℕ) (value : Text)
    → is_op p ≡ true
    → free_of is_op (v ∷ value) ≡ true
    → split_at (p ∷ b'=' ∷ []) (o ∷ v ∷ value) ≡ none
unfolding split_at strip_prefix
lone p o v value i h = ground (arith, split_at_free p b'=' i (v ∷ value) h)

pair :
    (p o v : ℕ) (value : Text)
    → is_op p ≡ true
    → (p == o) ≡ false
    → free_of is_op (v ∷ value) ≡ true
    → split_at (p ∷ b'=' ∷ []) (o ∷ b'=' ∷ v ∷ value) ≡ none
unfolding split_at strip_prefix
pair p o v value i n h = ground (arith, lone p b'=' v value i h)

lone_char :
    (p o v : ℕ) (value : Text)
    → is_op p ≡ true
    → (o == p) ≡ false
    → free_of is_op (v ∷ value) ≡ true
    → split_once p (o ∷ v ∷ value) ≡ none
unfolding split_once
lone_char p o v value i n h = ground (arith, split_once_free p i (v ∷ value) h)

module _ (k : ℕ) (key : Text) (v : ℕ) (value : Text) where
  abbrev token : FilterOp → FilterToken
  token op = record { key = k ∷ key; op = op; value = v ∷ value }

  abbrev printed : FilterOp → Text
  printed op = (k ∷ key) ++ (op_text op ++ (v ∷ value))

  -- What the search for operators of one character finds, at those.
  abbrev ScannedOne : FilterOp → Type 0
  ScannedOne FilterOp.eq = one_char_ops (printed FilterOp.eq) ≡ some (some (token FilterOp.eq))
  ScannedOne FilterOp.gt = one_char_ops (printed FilterOp.gt) ≡ some (some (token FilterOp.gt))
  ScannedOne FilterOp.lt = one_char_ops (printed FilterOp.lt) ≡ some (some (token FilterOp.lt))
  ScannedOne _ = Unit

  module _ (hk : free_of is_op (k ∷ key) ≡ true) (hv : free_of is_op (v ∷ value) ≡ true) where
    no_pair_lone :
        (p o : ℕ) → is_op p ≡ true → split_at (p ∷ b'=' ∷ []) ((k ∷ key) ++ (o ∷ v ∷ value)) ≡ none
    no_pair_lone p o i =
        split_at_skips p b'=' i (k ∷ key) (o ∷ v ∷ value) hk (lone p o v value i hv)

    no_pair :
        (p o : ℕ)
        → is_op p ≡ true
        → (p == o) ≡ false
        → split_at (p ∷ b'=' ∷ []) ((k ∷ key) ++ (o ∷ b'=' ∷ v ∷ value)) ≡ none
    no_pair p o i n =
        split_at_skips p b'=' i (k ∷ key) (o ∷ b'=' ∷ v ∷ value) hk (pair p o v value i n hv)

    has_pair :
        (p : ℕ)
        → is_op p ≡ true
        → split_at (p ∷ b'=' ∷ []) ((k ∷ key) ++ (p ∷ b'=' ∷ v ∷ value)) ≡ some (k ∷ key, v ∷ value)
    has_pair p i = split_at_finds p b'=' i (k ∷ key) (v ∷ value) hk

    no_two_char_ops : (o : ℕ) → two_char_ops ((k ∷ key) ++ (o ∷ v ∷ value)) ≡ none
    unfolding two_char_ops
    no_two_char_ops o =
        rw
          (
            no_pair_lone b'=' o refl,
            no_pair_lone b'>' o refl,
            no_pair_lone b'<' o refl,
            no_pair_lone b'!' o refl,
          )
          refl

    no_char :
        (p o : ℕ)
        → is_op p ≡ true
        → (o == p) ≡ false
        → split_once p ((k ∷ key) ++ (o ∷ v ∷ value)) ≡ none
    no_char p o i n =
        split_once_skips p i (k ∷ key) (o ∷ v ∷ value) hk (lone_char p o v value i n hv)

    has_char :
        (p : ℕ)
        → is_op p ≡ true
        → split_once p ((k ∷ key) ++ (p ∷ v ∷ value)) ≡ some (k ∷ key, v ∷ value)
    has_char p i = split_once_finds p i (k ∷ key) (v ∷ value) hk

    scanned_one : (op : FilterOp) → ScannedOne op
    unfolding one_char_ops
    scanned_one FilterOp.eq = rw (has_char b'=' refl) refl
    scanned_one FilterOp.gt = rw (no_char b'=' b'>' refl refl, has_char b'>' refl) refl
    scanned_one FilterOp.lt =
        rw (no_char b'=' b'<' refl refl, no_char b'>' b'<' refl refl, has_char b'<' refl) refl
    scanned_one _ = tt

    scanned :
        (op : FilterOp)
        → returned_token (or_else (two_char_ops (printed op)) (one_char_ops (printed op)))
          ≡ some (token op)
    unfolding two_char_ops
    scanned FilterOp.eq_eq = rw (has_pair b'=' refl) refl
    scanned FilterOp.gt_eq = rw (no_pair b'=' b'>' refl refl, has_pair b'>' refl) refl
    scanned FilterOp.lt_eq =
        rw (no_pair b'=' b'<' refl refl, no_pair b'>' b'<' refl refl, has_pair b'<' refl) refl
    scanned FilterOp.not_eq =
        rw
          (
            no_pair b'=' b'!' refl refl,
            no_pair b'>' b'!' refl refl,
            no_pair b'<' b'!' refl refl,
            has_pair b'!' refl,
          )
          refl
    scanned FilterOp.eq = rw (no_two_char_ops b'=') (ap returned_token (scanned_one FilterOp.eq))
    scanned FilterOp.lt = rw (no_two_char_ops b'<') (ap returned_token (scanned_one FilterOp.lt))
    scanned FilterOp.gt = rw (no_two_char_ops b'>') (ap returned_token (scanned_one FilterOp.gt))

    normal-value :
        (op : FilterOp) → map normal (op_text op ++ (v ∷ value)) ≡ op_text op ++ (v ∷ value)
    normal-value FilterOp.eq = ap (λ z. b'=' ∷ z) (normal-free (v ∷ value) hv)
    normal-value FilterOp.eq_eq = ap (λ z. b'=' ∷ b'=' ∷ z) (normal-free (v ∷ value) hv)
    normal-value FilterOp.not_eq = ap (λ z. b'!' ∷ b'=' ∷ z) (normal-free (v ∷ value) hv)
    normal-value FilterOp.lt = ap (λ z. b'<' ∷ z) (normal-free (v ∷ value) hv)
    normal-value FilterOp.lt_eq = ap (λ z. b'<' ∷ b'=' ∷ z) (normal-free (v ∷ value) hv)
    normal-value FilterOp.gt = ap (λ z. b'>' ∷ z) (normal-free (v ∷ value) hv)
    normal-value FilterOp.gt_eq = ap (λ z. b'>' ∷ b'=' ∷ z) (normal-free (v ∷ value) hv)

    normal-printed : (op : FilterOp) → map normal (printed op) ≡ printed op
    normal-printed op =
        map-append (k ∷ key) (op_text op ++ (v ∷ value))
        ∙ ap (λ z. z ++ map normal (op_text op ++ (v ∷ value))) (normal-free (k ∷ key) hk)
        ∙ ap (λ z. (k ∷ key) ++ z) (normal-value op)

-- A key and a value that are not empty and have no character of an operator, in either width, are
-- read back from their text with any of the seven operators between them.
pub parse_filter_token-printed :
    (k : ℕ) (key : Text) (op : FilterOp) (v : ℕ) (value : Text)
    → free_of is_op (k ∷ key) ≡ true
    → free_of is_op (v ∷ value) ≡ true
    → parse_filter_token ((k ∷ key) ++ (op_text op ++ (v ∷ value)))
      ≡ some (record { key = k ∷ key; op = op; value = v ∷ value })
parse_filter_token-printed k key op v value hk hv =
    unfold parse_filter_token in
    ap (λ z. returned_token (or_else (two_char_ops z) (one_char_ops z)))
      (normal-printed k key v value hk hv op)
    ∙ scanned k key v value hk hv op
