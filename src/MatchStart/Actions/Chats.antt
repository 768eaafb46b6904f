-- ===== src/MatchStart/Actions/Chats.antt =====
-- The keys of chats in the table of listeners, and the two ways to count the listeners of one
-- (osubot/src/command/match_listen.rs).
use osubot_rs.Prelude.{
  ℕ, zero, suc, ◌-◌, ◌≤◌, ◌≡◌, refl, Bool, true, false, ◌&&◌, Option, none, some, ℤ, pos, negsuc,
  eq_i64, lt_i64, arith, All, [], ◌∷◌,
}
use osubot_rs.MatchStart.{i64_bound}
use osubot_rs.MatchStart.Actions.{Table, counted, group_or_private_key}
use osubot_rs.Database.Table.{count_where}
use osubot_rs.Database.Table.Counts.{count-where-le}
use osubot_rs.Database.Listeners.{
  MatchListener, is_user, is_private, is_running, runs_in_group, runs_for_user,
  count_active_match_listeners_in_group, count_active_match_listeners_for_user,
}

-- The key of a chat: a group, or the negated number of a user.
abbrev pub KeyedAs : Option ℤ → Bool → ℤ → Type 0
KeyedAs none false (pos g) = Unit
KeyedAs (some (pos (suc u))) true (negsuc v) = u ≡ v
KeyedAs _ _ _ = ⊥

abbrev pub Keyed : MatchListener → Type 0
Keyed l = KeyedAs l.user_id (is_private l) l.group_id

-- Groups and users have positive numbers below 2 ^ 63.
abbrev pub IsChat : Option ℤ → ℤ → Type 0
IsChat none (pos (suc u)) = suc u ≤ i64_bound - 1
IsChat (some (pos g)) user_id = Unit
IsChat _ _ = ⊥

abbrev pub NotAfter : ℤ → ℤ → Type 0
NotAfter a b = lt_i64 b a ≡ false

pub NotAfter-trans : (a b c : ℤ) → NotAfter a b → NotAfter b c → NotAfter a c
NotAfter-trans (pos a) (pos b) (pos c) h k = ground arith
NotAfter-trans (pos a) (pos b) (negsuc c) h k = ground arith
NotAfter-trans (pos a) (negsuc b) c h k = ground arith
NotAfter-trans (negsuc a) (pos b) (pos c) h k = ground arith
NotAfter-trans (negsuc a) (pos b) (negsuc c) h k = ground arith
NotAfter-trans (negsuc a) (negsuc b) (pos c) h k = ground arith
NotAfter-trans (negsuc a) (negsuc b) (negsuc c) h k = ground arith

-- What still runs ran before.
pub ran_before :
    (l : MatchListener) (a b : ℤ) → NotAfter a b → is_running b l ≡ true → is_running a l ≡ true
ran_before l a b h r = ground (arith, NotAfter-trans a b l.expires_at)

pub later :
    (key a b : ℤ) (rows : Table)
    → NotAfter a b
    → count_where (runs_in_group key b) rows ≤ count_where (runs_in_group key a) rows
later key a b rows h =
    count-where-le (runs_in_group key b) (runs_in_group key a) rows
      (λ l r. ground (arith, ran_before l a b h))

pub same_chat :
    (u : ℕ) (t : ℤ) (l : MatchListener)
    → Keyed l
    → runs_for_user (pos (suc u)) t l ≡ runs_in_group (negsuc u) t l
same_chat u t l k = same_chat_at u l.user_id (is_private l) l.group_id (is_running t l) k
  where
    same_chat_at :
        (u : ℕ) (user : Option ℤ) (p : Bool) (g : ℤ) (r : Bool)
        → KeyedAs user p g
        → (is_user user (pos (suc u)) && p && r) ≡ (eq_i64 g (negsuc u) && r)
    same_chat_at u none false (pos g) r k = refl
    same_chat_at u none false (negsuc g) r k = ground arith
    same_chat_at u none true g r k = ground arith
    same_chat_at u (some (pos (suc v))) true (negsuc w) r k = ground arith
    same_chat_at u (some (pos (suc v))) true (pos w) r k = ground arith
    same_chat_at u (some (pos (suc v))) false w r k = ground arith
    same_chat_at u (some (pos zero)) p w r k = ground arith
    same_chat_at u (some (negsuc v)) p w r k = ground arith

pub count_chat :
    (u : ℕ) (t : ℤ) (rows : Table)
    → All Keyed rows
    → count_where (runs_for_user (pos (suc u)) t) rows
      ≡ count_where (runs_in_group (negsuc u) t) rows
unfolding count_where
count_chat u t [] k = refl
count_chat u t (l ∷ rows) (k, ks) = rw (same_chat u t l k, count_chat u t rows ks) refl

-- What `!ml start` counts are the listeners with the key of the chat.
pub counted_key :
    (t : ℤ) (g : Option ℤ) (u : ℤ) (rows : Table)
    → IsChat g u
    → All Keyed rows
    → counted t g u rows ≡ count_where (runs_in_group (group_or_private_key g u) t) rows
unfolding counted count_active_match_listeners_in_group count_active_match_listeners_for_user
counted_key t none (pos (suc u)) rows c k = count_chat u t rows k
counted_key t none (pos zero) rows c k = elim c [ ]
counted_key t none (negsuc u) rows c k = elim c [ ]
counted_key t (some g) u rows c k = refl
