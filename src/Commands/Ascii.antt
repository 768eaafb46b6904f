-- ===== src/Commands/Ascii.antt =====
-- ASCII texts: the parts that the parser takes of them, and byte offsets.
use osubot_rs.Prelude.{
  ℕ, ◌-◌, ◌≤◌, ◌<◌, ◌≡◌, suc, refl, Bool, List, [], ◌∷◌, Option, none, some, arith, All, All-append,
  length, Holds, Total,
}
use osubot_rs.Text.{
  Text, trim, trim_start_by, trim_end_by, keep_end, is_whitespace, replace, strip_prefix, split_by,
  push_first, nonempty, split_whitespace, rsplit_once, rsplit_step, join, byte_len,
}
use osubot_rs.Commands.Args.{drop_bytes}

abbrev pub Ascii : Text → Type 0
Ascii s = All (λ c. c < 128) s

abbrev pub AllAscii : List Text → Type 0
AllAscii ws = All Ascii ws

abbrev pub BothAscii : Text × Text → Type 0
BothAscii p = Ascii p.0 × Ascii p.1

pub trim_start_by-Ascii : (p : ℕ → Bool) (s : Text) → Ascii s → Ascii (trim_start_by p s)
unfolding trim_start_by
trim_start_by-Ascii p [] h = tt
trim_start_by-Ascii p (c ∷ s) h = ground (arith, trim_start_by-Ascii p s h.1)

keep_end-Ascii : (p : ℕ → Bool) (c : ℕ) (s : Text) → c < 128 → Ascii s → Ascii (keep_end p c s)
keep_end-Ascii p c [] h k = ground arith
keep_end-Ascii p c (d ∷ s) h k = (h, k)

pub trim_end_by-Ascii : (p : ℕ → Bool) (s : Text) → Ascii s → Ascii (trim_end_by p s)
unfolding trim_end_by
trim_end_by-Ascii p [] h = tt
trim_end_by-Ascii p (c ∷ s) h = keep_end-Ascii p c (trim_end_by p s) h.0 (trim_end_by-Ascii p s h.1)

pub trim-Ascii : (s : Text) → Ascii s → Ascii (trim s)
trim-Ascii s h =
    unfold trim in
    trim_end_by-Ascii is_whitespace (trim_start_by is_whitespace s)
      (trim_start_by-Ascii is_whitespace s h)

pub replace-Ascii : (a b : ℕ) (s : Text) → b < 128 → Ascii s → Ascii (replace a b s)
unfolding replace
replace-Ascii a b [] l h = tt
replace-Ascii a b (c ∷ s) l h = (ground arith, replace-Ascii a b s l h.1)

pub strip_prefix-Ascii : (p s : Text) → Ascii s → Holds Ascii (strip_prefix p s)
unfolding strip_prefix
strip_prefix-Ascii [] s h = h
strip_prefix-Ascii (c ∷ p) [] h = tt
strip_prefix-Ascii (c ∷ p) (d ∷ s) h = ground (arith, strip_prefix-Ascii p s h.1)

push_first-AllAscii : (c : ℕ) (ws : List Text) → c < 128 → AllAscii ws → AllAscii (push_first c ws)
push_first-AllAscii c [] l h = ((l, tt), tt)
push_first-AllAscii c (w ∷ ws) l h = ((l, h.0), h.1)

pub split_by-AllAscii : (p : ℕ → Bool) (s : Text) → Ascii s → AllAscii (split_by p s)
unfolding split_by
split_by-AllAscii p [] h = (tt, tt)
split_by-AllAscii p (c ∷ s) h = ground (
  arith,
  push_first-AllAscii c (split_by p s) h.0 (split_by-AllAscii p s h.1),
  split_by-AllAscii p s h.1,
)

nonempty-AllAscii : (ws : List Text) → AllAscii ws → AllAscii (nonempty ws)
unfolding nonempty
nonempty-AllAscii [] h = tt
nonempty-AllAscii ([] ∷ ws) h = nonempty-AllAscii ws h.1
nonempty-AllAscii ((c ∷ w) ∷ ws) h = (h.0, nonempty-AllAscii ws h.1)

pub split_whitespace-AllAscii : (s : Text) → Ascii s → AllAscii (split_whitespace s)
split_whitespace-AllAscii s h =
    unfold split_whitespace in
    nonempty-AllAscii (split_by is_whitespace s) (split_by-AllAscii is_whitespace s h)

rsplit_step-BothAscii :
    (k c : ℕ) (s : Text) (r : Option (Text × Text))
    → c < 128
    → Ascii s
    → Holds BothAscii r
    → Holds BothAscii (rsplit_step k c s r)
rsplit_step-BothAscii k c s none l h r = ground arith
rsplit_step-BothAscii k c s (some (a, b)) l h r = ((l, r.0), r.1)

pub rsplit_once-BothAscii : (k : ℕ) (s : Text) → Ascii s → Holds BothAscii (rsplit_once k s)
unfolding rsplit_once
rsplit_once-BothAscii k [] h = tt
rsplit_once-BothAscii k (c ∷ s) h =
    rsplit_step-BothAscii k c s (rsplit_once k s) h.0 h.1 (rsplit_once-BothAscii k s h.1)

pub join-Ascii : (sep : Text) (ws : List Text) → Ascii sep → AllAscii ws → Ascii (join sep ws)
unfolding join
join-Ascii sep [] l h = tt
join-Ascii sep (w ∷ []) l h = h.0
join-Ascii sep (w ∷ v ∷ ws) l h =
    All-append (λ c. c < 128) w _ h.0
      (All-append (λ c. c < 128) sep _ l (join-Ascii sep (v ∷ ws) l h.1))

-- Dropping as many bytes as an ASCII text has characters at most is no panic.
pub drop_bytes-Ascii : (n : ℕ) (s : Text) → n ≤ length s → Ascii s → Total Ascii (drop_bytes n s)
unfolding drop_bytes
drop_bytes-Ascii n [] l h = ground arith
drop_bytes-Ascii n (c ∷ s) l h = ground (arith, drop_bytes-Ascii (n - 1) s)

pub byte_len-Ascii : (s : Text) → Ascii s → byte_len s ≡ length s
unfolding byte_len
byte_len-Ascii [] h = refl
byte_len-Ascii (c ∷ s) h = ground (arith, byte_len-Ascii s h.1)

-- A piece is no longer than the whole.
abbrev AllShort : ℕ → List Text → Type 0
AllShort n ws = All (λ w. length w ≤ n) ws

AllShort-weaken : (n m : ℕ) (ws : List Text) → n ≤ m → AllShort n ws → AllShort m ws
AllShort-weaken n m [] l h = tt
AllShort-weaken n m (w ∷ ws) l h = (omega arith, AllShort-weaken n m ws l h.1)

push_first-AllShort :
    (c n : ℕ) (ws : List Text) → AllShort n ws → AllShort (suc n) (push_first c ws)
push_first-AllShort c n [] h = (omega arith, tt)
push_first-AllShort c n (w ∷ ws) h = (omega arith, AllShort-weaken n (suc n) ws (omega arith) h.1)

split_by-AllShort : (p : ℕ → Bool) (s : Text) → AllShort (length s) (split_by p s)
unfolding split_by
split_by-AllShort p [] = (omega arith, tt)
split_by-AllShort p (c ∷ s) = ground (
  arith,
  push_first-AllShort c (length s) (split_by p s) (split_by-AllShort p s),
  AllShort-weaken (length s) (suc (length s)) (split_by p s),
  split_by-AllShort p s,
)

nonempty-AllShort : (n : ℕ) (ws : List Text) → AllShort n ws → AllShort n (nonempty ws)
unfolding nonempty
nonempty-AllShort n [] h = tt
nonempty-AllShort n ([] ∷ ws) h = nonempty-AllShort n ws h.1
nonempty-AllShort n ((c ∷ w) ∷ ws) h = (h.0, nonempty-AllShort n ws h.1)

pub split_whitespace-AllShort : (s : Text) → AllShort (length s) (split_whitespace s)
split_whitespace-AllShort s =
    unfold split_whitespace in
    nonempty-AllShort (length s) (split_by is_whitespace s) (split_by-AllShort is_whitespace s)
