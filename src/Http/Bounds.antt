-- ===== src/Http/Bounds.antt =====
-- How many requests a call makes, and how long it sleeps (osubot-core/src/api/http.rs and oauth.rs).
use osubot_rs.Prelude.{
  ℕ, zero, suc, ◌+◌, ◌*◌, ◌/◌, ◌^◌, ◌≤◌, Bool, not, ◌&&◌, Option, none, some, ltb, leb, ◌==◌,
  if◌then◌else◌, Result, ok, err, arith, if_both,
}
use osubot_rs.Http.{
  ApiError, http, not_found, invalid_response, server_error, deserialization, missing_api_key,
  oauth_error, client_rate_limited, io, rate_limited, at_most, clamp_retry_after,
  classify_http_error, RetryConfig, api_default, compute_backoff, State, TokenAnswer, token_failed,
  token_unreadable, token_status, token, HttpAnswer, send_failed, answered, HttpOutside, sleep,
  requested, invalidate, is_valid, on_token, get_token, checked_answer, with_token, send,
  is_oauth_error, retry_on_401, delay_of, transient_action, is_transient, action_of, or_end,
  retry_with_backoff, retry_on_transient, authenticated_get,
}

-- The random part of a delay lies in its range.
abbrev pub InRange : HttpOutside → Type 0
InRange o = (n range : ℕ) → o.random n range ≤ range

-- From a state to a later one: at most `a` requests, and at most `b` milliseconds.
abbrev pub Spends : ℕ → ℕ → State → State → Type 0
Spends a b s s' = (s'.requests ≤ s.requests + a) × (s'.slept ≤ s.slept + b)

-- A server can ask for a wait of 300 seconds at most.
abbrev pub Clamped : Result ℕ ApiError → Type 0
Clamped (err (rate_limited (some secs))) = secs ≤ 300
Clamped r = Unit

abbrev pub Within : ℕ → ℕ → State → Result ℕ ApiError × State → Type 0
Within a b s r = Spends a b s r.1 × Clamped r.0

at_most_le : (a b c : ℕ) → b ≤ c → at_most a b ≤ c
at_most_le a b c k = ground arith

backoff_le :
    (random : ℕ → ℕ) (attempt : ℕ) (cfg : RetryConfig)
    → ((range : ℕ) → random range ≤ range)
    → cfg.max_backoff ≤ 30000
    → compute_backoff random attempt cfg ≤ 37500
unfolding compute_backoff
backoff_le random attempt cfg h m =
    bounded (at_most (cfg.initial_backoff * 2 ^ at_most attempt 5) cfg.max_backoff)
      (at_most_le _ _ _ m)
  where
    bounded :
        (ms : ℕ) → ms ≤ 30000 → ms * 3 / 4 + (if ltb 0 (ms / 2) then random (ms / 2) else 0) ≤ 37500
    bounded ms k =
        if_both (λ x. ms * 3 / 4 + x ≤ 37500) (ltb 0 (ms / 2)) (let low = h (ms / 2) in omega arith)
          (omega arith)

at_most_suc : (v : ℕ) → at_most v 300 ≤ 300
at_most_suc v = ground arith

ErrorClamped : Option ApiError → Type 0
ErrorClamped none = Unit
ErrorClamped (some e) = Clamped (err e)

limited-Clamped :
    (retry_after : Option ℕ) → Clamped (err (rate_limited (clamp_retry_after retry_after)))
limited-Clamped none = tt
limited-Clamped (some v) = at_most_suc v

classify_http_error-Clamped :
    (status : ℕ) (retry_after : Option ℕ) → ErrorClamped (classify_http_error status retry_after)
unfolding classify_http_error ErrorClamped
classify_http_error-Clamped status retry_after =
    if_both ErrorClamped (status == 429) (limited-Clamped retry_after) (
      if_both ErrorClamped (leb 500 status && ltb status 600) tt
        (if_both ErrorClamped (not (leb 200 status && ltb status 300)) tt tt))

or_ok-Clamped :
    (status : ℕ) (c : Option ApiError)
    → ErrorClamped c
    → Clamped (elim c as (λ x. Result ℕ ApiError) [ none ↦ ok status | some e ↦ err e ])
unfolding ErrorClamped
or_ok-Clamped status none h = tt
or_ok-Clamped status (some e) h = h

checked_answer-Clamped : (a : HttpAnswer) → Clamped (checked_answer a)
unfolding checked_answer
checked_answer-Clamped send_failed = tt
checked_answer-Clamped (answered status retry_after) =
    if_both Clamped (status == 404) tt
      (or_ok-Clamped status _ (classify_http_error-Clamped status retry_after))

with_token-Within :
    (o : HttpOutside) (s : State) (t : Option ApiError × State)
    → Spends 1 0 s t.1
    → ErrorClamped t.0
    → Within 2 0 s (with_token o t)
unfolding ErrorClamped with_token
with_token-Within o s (none, s') h c =
    ((omega arith, omega arith), checked_answer-Clamped (o.answer s'.requests))
with_token-Within o s (some e, s') h c = ((omega arith, omega arith), c)

on_token-Clamped : (o : HttpOutside) (a : TokenAnswer) (s : State) → ErrorClamped (on_token o a s).0
unfolding ErrorClamped
on_token-Clamped o token_failed s = tt
on_token-Clamped o token_unreadable s = tt
on_token-Clamped o (token_status status) s = tt
on_token-Clamped o (token expires_in) s = tt

on_token-Spends :
    (o : HttpOutside) (a : TokenAnswer) (s : State) → Spends 1 0 s (on_token o a (requested s)).1
on_token-Spends o token_failed s = (omega arith, omega arith)
on_token-Spends o token_unreadable s = (omega arith, omega arith)
on_token-Spends o (token_status status) s = (omega arith, omega arith)
on_token-Spends o (token expires_in) s = (omega arith, omega arith)

send-Within : (o : HttpOutside) (s : State) → Within 2 0 s (send o s)
unfolding send get_token ErrorClamped
send-Within o s =
    if_both (λ t. Within 2 0 s (with_token o t)) (is_valid (o.now s.requests) s.cached)
      (with_token-Within o s (none, s) (omega arith, omega arith) tt)
      (with_token-Within o s _ (on_token-Spends o _ s) (on_token-Clamped o _ _))

-- A round that spends `a` and `b`, a sleep, and the rest.
round_and_rest :
    (a b c d ms : ℕ) (s s' : State) (r : Result ℕ ApiError × State)
    → Spends a b s s'
    → Within c d (sleep ms s') r
    → Within (a + c) (b + ms + d) s r
round_and_rest a b c d ms s s' r h k = ((omega arith, omega arith), k.1)

widened :
    (a b c d : ℕ) (s : State) (r : Result ℕ ApiError × State)
    → a ≤ c
    → b ≤ d
    → Within a b s r
    → Within c d s r
widened a b c d s r h k w = ((omega arith, omega arith), w.1)

retry_on_401-Within :
    (o : HttpOutside) (attempt left : ℕ) (s : State)
    → InRange o
    → Within (2 * (left + 1)) (37500 * left) s (retry_on_401 o attempt left s)
unfolding retry_on_401
retry_on_401-Within o attempt zero s h = send-Within o s
retry_on_401-Within o attempt (suc left) s h =
    let r = send o s in
    let ms = compute_backoff (o.random r.1.requests) attempt api_default in
    let le = backoff_le (o.random r.1.requests) attempt api_default (h _) (omega arith) in
    let again = retry_on_401 o (suc attempt) left (sleep ms (invalidate r.1)) in
    if_both (Within (2 * (suc left + 1)) (37500 * suc left) s) (is_oauth_error r.0)
      (widened _ _ _ _ s again (omega arith) (omega arith) (
        round_and_rest 2 0 (2 * (left + 1)) (37500 * left) ms s (invalidate r.1) again
          (send-Within o s).0
          (retry_on_401-Within o (suc attempt) left (sleep ms (invalidate r.1)) h)))
      (widened _ _ _ _ s r (omega arith) (omega arith) (send-Within o s))

DelayBounded : Option ℕ → Type 0
DelayBounded none = Unit
DelayBounded (some ms) = ms ≤ 300000

delay_of-transient_action :
    (ms : ℕ) (e : ApiError)
    → ms ≤ 37500
    → Clamped (err e)
    → DelayBounded (delay_of ms (transient_action e))
unfolding DelayBounded transient_action is_transient
delay_of-transient_action ms (rate_limited (some secs)) h k = omega arith
delay_of-transient_action ms (rate_limited none) h k = omega arith
delay_of-transient_action ms http h k = omega arith
delay_of-transient_action ms (server_error n) h k = omega arith
delay_of-transient_action ms not_found h k = tt
delay_of-transient_action ms invalid_response h k = tt
delay_of-transient_action ms deserialization h k = tt
delay_of-transient_action ms missing_api_key h k = tt
delay_of-transient_action ms oauth_error h k = tt
delay_of-transient_action ms client_rate_limited h k = tt
delay_of-transient_action ms io h k = tt

delay_of-action_of :
    (ms : ℕ) (r : Result ℕ ApiError)
    → ms ≤ 37500
    → Clamped r
    → DelayBounded (delay_of ms (action_of r))
unfolding DelayBounded
delay_of-action_of ms (ok v) h k = tt
delay_of-action_of ms (err e) h k = delay_of-transient_action ms e h k

-- The rest of the repetitions is in its bounds after a sleep of any length that is allowed.
or_end-Within :
    (a b c d : ℕ) (s : State) (delay : Option ℕ) (r : Result ℕ ApiError × State)
    (again : ℕ → Result ℕ ApiError × State)
    → DelayBounded delay
    → Within a b s r
    → ((ms : ℕ) → Within c d (sleep ms r.1) (again ms))
    → Within (a + c) (b + 300000 + d) s (or_end delay r again)
unfolding DelayBounded
or_end-Within a b c d s none r again h k rest = widened a b _ _ s r (omega arith) (omega arith) k
or_end-Within a b c d s (some ms) r again h k rest =
    widened _ _ _ _ s (again ms) (omega arith) (omega arith)
      (round_and_rest a b c d ms s r.1 (again ms) k.0 (rest ms))

retry_with_backoff-Within :
    (o : HttpOutside) (cfg : RetryConfig) (operation : State → Result ℕ ApiError × State)
    (a b attempt left : ℕ) (s : State)
    → InRange o
    → cfg.max_backoff ≤ 30000
    → ((s : State) → Within a b s (operation s))
    → Within
        (a * (left + 1))
        (b * (left + 1) + 300000 * left)
        s
        (retry_with_backoff o cfg operation attempt left s)
unfolding retry_with_backoff
retry_with_backoff-Within o cfg operation a b attempt zero s h m each =
    widened a b _ _ s (operation s) (omega arith) (omega arith) (each s)
retry_with_backoff-Within o cfg operation a b attempt (suc left) s h m each =
    let r = operation s in
    let ms = compute_backoff (o.random r.1.requests) attempt cfg in
    let delay = delay_of ms (action_of r.0) in
    let again = λ (ms : ℕ). retry_with_backoff o cfg operation (suc attempt) left (sleep ms r.1) in
    widened _ _ _ _ s (or_end delay r again) (omega arith) (omega arith) (
      or_end-Within a b (a * (left + 1)) (b * (left + 1) + 300000 * left) s delay r again
        (delay_of-action_of ms r.0 (backoff_le _ attempt cfg (h r.1.requests) m) (each s).1)
        (each s)
        (λ ms.
          retry_with_backoff-Within o cfg operation a b (suc attempt) left (sleep ms r.1) h m each))

-- A call of `authenticated_get` sends at most 60 requests, of tokens and of data, and sleeps for at most
-- 2137500 milliseconds, whatever is answered, if each random part of a delay lies in its range; and no
-- answer makes it return a wait of more than 300 seconds.
pub authenticated_get-Within :
    (o : HttpOutside) (acquired : Bool) (s : State)
    → InRange o
    → Within 60 2137500 s (authenticated_get o acquired s)
unfolding authenticated_get retry_on_transient
authenticated_get-Within o acquired s h =
    if_both (Within 60 2137500 s) (not acquired) ((omega arith, omega arith), tt)
      (retry_with_backoff-Within o (record api_default { max_retries = 4 }) (retry_on_401 o 0 5) 12
        187500 0 4 s h (omega arith) (λ s. retry_on_401-Within o 0 5 s h))
