-- ===== src/LastBeatmap/History.antt =====
-- What `get` gives after any calls of `set` and `get`.
use osubot_rs.Prelude.{
  ℕ, ◌≤◌, ◌≡◌, refl, false, List, [], ◌∷◌, Option, none, some, ℤ, eq_i64, eq_i64_same,
  if◌then◌else◌, arith, inl, inr, Bool-cases, sym, ap, ◌∙◌, subst,
}
use osubot_rs.LastBeatmap.{LastBeatmapCache, with_ttl, is_fresh, get_found, get, set}

pub data Call : Type 0 where
  got : ℤ → ℕ → Call
  was_set : ℤ → ℕ → ℕ → Call

unfoldable pub call : Call → LastBeatmapCache → LastBeatmapCache
unfolding get set
call (got id now) cache = (get cache id now).1
call (was_set id bid now) cache = set cache id bid now

abbrev pub time_of : Call → ℕ
time_of (got id now) = now
time_of (was_set id bid now) = now

-- The cache after some calls, the latest call first.
abbrev pub after_calls : ℕ → List Call → LastBeatmapCache
after_calls ttl [] = with_ttl ttl
after_calls ttl (x ∷ xs) = call x (after_calls ttl xs)

-- The calls were made one after the other, the latest not after `now`.
abbrev pub InOrder : ℕ → List Call → Type 0
InOrder now [] = Unit
InOrder now (x ∷ xs) = (time_of x ≤ now) × InOrder (time_of x) xs

-- The beatmap of a group that was set last, and when: no call of `get` matters.
abbrev pub last_set : ℤ → List Call → Option (ℕ × ℕ)
last_set id [] = none
last_set id (got j now ∷ xs) = last_set id xs
last_set id (was_set j bid now ∷ xs) = if eq_i64 j id then some (bid, now) else last_set id xs

-- The beatmap, if it is fresh.
abbrev pub if_fresh : ℕ → ℕ → Option (ℕ × ℕ) → Option ℕ
if_fresh ttl now none = none
if_fresh ttl now (some (bid, time)) = if is_fresh ttl now time then some bid else none

-- The map holds what was set last, or it holds nothing and what was set last has expired.
abbrev Agree : ℕ → ℕ → Option (ℕ × ℕ) → Option (ℕ × ℕ) → Type 0
Agree ttl now none none = Unit
Agree ttl now none (some (bid, time)) = is_fresh ttl now time ≡ false
Agree ttl now (some x) o = some x ≡ o

get_found-ttl :
    (cache : LastBeatmapCache) (id : ℤ) (now : ℕ) (o : Option (ℕ × ℕ))
    → (get_found cache id now o).1.ttl ≡ cache.ttl
get_found-ttl cache id now none = refl
get_found-ttl cache id now (some (bid, time)) = ground arith

ttl-kept : (ttl : ℕ) (xs : List Call) → (after_calls ttl xs).ttl ≡ ttl
unfolding call
ttl-kept ttl [] = refl
ttl-kept ttl (got id now ∷ xs) =
    get_found-ttl (after_calls ttl xs) id now ((after_calls ttl xs).inner id) ∙ ttl-kept ttl xs
ttl-kept ttl (was_set id bid now ∷ xs) = ttl-kept ttl xs

Agree-later :
    (ttl now later : ℕ) (o p : Option (ℕ × ℕ))
    → now ≤ later
    → Agree ttl now o p
    → Agree ttl later o p
Agree-later ttl now later none none l h = tt
Agree-later ttl now later none (some (bid, time)) l h = ground arith
Agree-later ttl now later (some x) p l h = h

expired-Agree :
    (ttl now bid time : ℕ) (o p : Option (ℕ × ℕ))
    → o ≡ some (bid, time)
    → is_fresh ttl now time ≡ false
    → Agree ttl now o p
    → Agree ttl now none p
expired-Agree ttl now bid time none p e f h = absurd (ground arith)
expired-Agree ttl now bid time (some x) none e f h = tt
expired-Agree ttl now bid time (some x) (some (b, t)) e f h = ground arith

get_found-Agree :
    (cache : LastBeatmapCache) (id j : ℤ) (now : ℕ) (o p : Option (ℕ × ℕ))
    → cache.inner id ≡ o
    → Agree cache.ttl now (cache.inner j) p
    → Agree cache.ttl now ((get_found cache id now o).1.inner j) p
get_found-Agree cache id j now none p e h = h
get_found-Agree cache id j now (some (bid, time)) p e h =
    elim (Bool-cases (is_fresh cache.ttl now time)) [
      | inl f ↦ rw (f) h
      | inr f ↦ rw (f) (elim (Bool-cases (eq_i64 id j)) [
        | inl q ↦ rw (q) (
            expired-Agree cache.ttl now bid time (cache.inner j) p
              (ap cache.inner (sym (eq_i64_same id j q)) ∙ e) f h)
        | inr q ↦ rw (q) h
      ])
    ]

if_fresh-Agree :
    (cache : LastBeatmapCache) (id : ℤ) (now : ℕ) (o p : Option (ℕ × ℕ))
    → Agree cache.ttl now o p
    → (get_found cache id now o).0 ≡ if_fresh cache.ttl now p
if_fresh-Agree cache id now none none h = refl
if_fresh-Agree cache id now none (some (bid, time)) h = ground arith
if_fresh-Agree cache id now (some (bid, time)) p h = ground arith

after_calls-Agree :
    (ttl now : ℕ) (id : ℤ) (xs : List Call)
    → InOrder now xs
    → Agree ttl now ((after_calls ttl xs).inner id) (last_set id xs)
unfolding call get set
after_calls-Agree ttl now id [] h = tt
after_calls-Agree ttl now id (got j time ∷ xs) h =
    let cache = after_calls ttl xs in
    Agree-later ttl time now ((get_found cache j time (cache.inner j)).1.inner id) (last_set id xs)
      h.0
      (subst
        (λ z. Agree z time ((get_found cache j time (cache.inner j)).1.inner id) (last_set id xs))
        (ttl-kept ttl xs)
        (get_found-Agree cache j id time (cache.inner j) (last_set id xs) refl (
          subst (λ z. Agree z time (cache.inner id) (last_set id xs)) (sym (ttl-kept ttl xs))
            (after_calls-Agree ttl time id xs h.1))))
after_calls-Agree ttl now id (was_set j bid time ∷ xs) h = elim (Bool-cases (eq_i64 j id)) [
  | inl q ↦ rw (q) refl
  | inr q ↦
      let cache = after_calls ttl xs in
      rw (q) (
        Agree-later ttl time now (cache.inner id) (last_set id xs) h.0
          (after_calls-Agree ttl time id xs h.1))
]

-- After any calls of `set` and `get`, in the order of their times: `get` gives the beatmap that was
-- set last for the group if that was less than the time to live ago, and nothing otherwise.
pub get-last_set :
    (ttl now : ℕ) (id : ℤ) (xs : List Call)
    → InOrder now xs
    → (get (after_calls ttl xs) id now).0 ≡ if_fresh ttl now (last_set id xs)
unfolding get
get-last_set ttl now id xs h =
    let cache = after_calls ttl xs in
    if_fresh-Agree cache id now (cache.inner id) (last_set id xs) (
      subst (λ z. Agree z now (cache.inner id) (last_set id xs)) (sym (ttl-kept ttl xs))
        (after_calls-Agree ttl now id xs h))
    ∙ ap (λ z. if_fresh z now (last_set id xs)) (ttl-kept ttl xs)
