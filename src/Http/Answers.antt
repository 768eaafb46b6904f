-- ===== src/Http/Answers.antt =====
-- Which answer a call returns while the cached token is valid (osubot-core/src/api/http.rs and oauth.rs).
use osubot_rs.Prelude.{
  ℕ, zero, suc, ◌+◌, ◌≤◌, ◌<◌, ◌≡◌, refl, Bool, true, false, not, ◌&&◌, Option, none, some, ltb,
  leb, ◌==◌, Result, ok, err, arith, if_both, Bool-cases, is_some, ◌⊎◌, inl, inr,
}
use osubot_rs.Http.{
  ApiError, http, not_found, invalid_response, server_error, deserialization, missing_api_key,
  oauth_error, client_rate_limited, io, rate_limited, RetryConfig, api_default, State, HttpAnswer,
  send_failed, answered, HttpOutside, sleep, requested, is_valid, get_token, checked_answer, send,
  is_oauth_error, retry_on_401, delay_of, transient_action, is_transient, action_of, or_end,
  retry_with_backoff, retry_on_transient, authenticated_get, classify_http_error,
}

-- The token stays valid for as long as the call lasts.
abbrev pub StaysValid : HttpOutside → Option ℕ → Type 0
StaysValid o cached = (n : ℕ) → is_valid (o.now n) cached ≡ true

unfoldable pub transient : Result ℕ ApiError → Bool
unfolding is_transient
transient (ok v) = false
transient (err e) = is_transient e

-- A call that ends with `r`, after `n` requests in all, and keeps the cached token.
abbrev pub Ends : Result ℕ ApiError → ℕ → Option ℕ → Result ℕ ApiError × State → Type 0
Ends r n cached x = (x.0 ≡ r) × (x.1.requests ≡ n) × (x.1.cached ≡ cached)

classify_http_error-oauth :
    (P : Option ApiError → Type 0) (status : ℕ) (retry_after : Option ℕ)
    → ((s : Option ℕ) → P (some (rate_limited s)))
    → P (some (server_error status))
    → P (some invalid_response)
    → P none
    → P (classify_http_error status retry_after)
unfolding classify_http_error
classify_http_error-oauth P status retry_after a b c d = if_both P (status == 429) (a _) (
    if_both P (leb 500 status && ltb status 600) b
      (if_both P (not (leb 200 status && ltb status 300)) c d))

-- The status 401 is not an `oauth_error`.
checked_answer-oauth : (a : HttpAnswer) → is_oauth_error (checked_answer a) ≡ false
unfolding checked_answer
checked_answer-oauth send_failed = refl
checked_answer-oauth (answered status retry_after) =
    if_both (λ r. is_oauth_error r ≡ false) (status == 404) refl
      (classify_http_error-oauth
        (λ c.
          is_oauth_error (elim c as (λ x. Result ℕ ApiError) [ none ↦ ok status | some e ↦ err e ])
          ≡ false)
        status retry_after (λ s. refl) refl refl refl)

send_valid :
    (o : HttpOutside) (s : State)
    → StaysValid o s.cached
    → send o s ≡ (checked_answer (o.answer s.requests), requested s)
unfolding send get_token
send_valid o s h = rw (h s.requests) refl

retry_on_401_valid :
    (o : HttpOutside) (attempt left : ℕ) (s : State)
    → StaysValid o s.cached
    → retry_on_401 o attempt left s ≡ (checked_answer (o.answer s.requests), requested s)
unfolding retry_on_401
retry_on_401_valid o attempt zero s h = send_valid o s h
retry_on_401_valid o attempt (suc left) s h =
    rw (send_valid o s h) (rw (checked_answer-oauth (o.answer s.requests)) refl)

-- The delay is there exactly for the transient errors.
abbrev DelayIf : Bool → Option ℕ → Type 0
DelayIf b delay = is_some delay ≡ b

delay_of-transient :
    (ms : ℕ) (r : Result ℕ ApiError) → DelayIf (transient r) (delay_of ms (action_of r))
unfolding transient_action transient is_transient
delay_of-transient ms (ok v) = refl
delay_of-transient ms (err (rate_limited (some secs))) = refl
delay_of-transient ms (err (rate_limited none)) = refl
delay_of-transient ms (err http) = refl
delay_of-transient ms (err (server_error n)) = refl
delay_of-transient ms (err not_found) = refl
delay_of-transient ms (err invalid_response) = refl
delay_of-transient ms (err deserialization) = refl
delay_of-transient ms (err missing_api_key) = refl
delay_of-transient ms (err oauth_error) = refl
delay_of-transient ms (err client_rate_limited) = refl
delay_of-transient ms (err io) = refl

or_end_some :
    (P : Result ℕ ApiError × State → Type 0) (delay : Option ℕ) (x : Result ℕ ApiError × State)
    (again : ℕ → Result ℕ ApiError × State)
    → is_some delay ≡ true
    → ((ms : ℕ) → P (again ms))
    → P (or_end delay x again)
or_end_some P none x again h k = absurd (ground arith)
or_end_some P (some ms) x again h k = k ms

or_end_none :
    (delay : Option ℕ) (x : Result ℕ ApiError × State) (again : ℕ → Result ℕ ApiError × State)
    → is_some delay ≡ false
    → or_end delay x again ≡ x
or_end_none none x again h = refl
or_end_none (some ms) x again h = absurd (ground arith)

-- The answer `n` is the first one that is not transient, of the answers after the first `from`.
abbrev pub FirstFinal : HttpOutside → (from n : ℕ) → Type 0
FirstFinal o from n =
    ((i : ℕ) → from ≤ i → i < n → transient (checked_answer (o.answer i)) ≡ true)
    × (transient (checked_answer (o.answer n)) ≡ false)

last_answer :
    (o : HttpOutside) (s : State) (n : ℕ)
    → s.requests ≡ n
    → Ends
        (checked_answer (o.answer n))
        (suc n)
        s.cached
        (checked_answer (o.answer s.requests), requested s)
last_answer o s n e = (rw e refl, omega arith, refl)

same_or_later : (m n : ℕ) → m ≤ n → (m ≡ n) ⊎ (m < n)
same_or_later m n h = elim (Bool-cases (leb n m)) [
  | inl q ↦ inl (ground arith)
  | inr q ↦ inr (ground arith)
]

-- A round whose answer is the one with the number `s.requests`.
one_round :
    (o : HttpOutside) (s : State) (n ms : ℕ) (again : ℕ → Result ℕ ApiError × State)
    → s.requests ≤ n
    → FirstFinal o s.requests n
    → (s.requests < n → (ms : ℕ) → Ends (checked_answer (o.answer n)) (suc n) s.cached (again ms))
    → Ends (checked_answer (o.answer n)) (suc n) s.cached (
        or_end
          (delay_of ms (action_of (checked_answer (o.answer s.requests))))
          (checked_answer (o.answer s.requests), requested s)
          again)
one_round o s n ms again h f k =
    let delay = delay_of ms (action_of (checked_answer (o.answer s.requests))) in
    let x : Result ℕ ApiError × State = (checked_answer (o.answer s.requests), requested s) in
    elim (same_or_later s.requests n h) [
      | inl e ↦
          rw
            (or_end_none delay x again
              (rw (delay_of-transient ms (checked_answer (o.answer s.requests))) (rw e f.1)))
            (last_answer o s n e)
      | inr l ↦
          or_end_some (Ends (checked_answer (o.answer n)) (suc n) s.cached) delay x again
            (rw (delay_of-transient ms (checked_answer (o.answer s.requests)))
              (f.0 s.requests (omega arith) l))
            (k l)
    ]

rounds_end :
    (o : HttpOutside) (cfg : RetryConfig) (attempt left : ℕ) (s : State) (n : ℕ)
    → s.requests ≤ n
    → n ≤ s.requests + left
    → StaysValid o s.cached
    → FirstFinal o s.requests n
    → Ends
        (checked_answer (o.answer n))
        (suc n)
        s.cached
        (retry_with_backoff o cfg (retry_on_401 o 0 5) attempt left s)
unfolding retry_with_backoff
rounds_end o cfg attempt zero s n h k v f =
    rw (retry_on_401_valid o 0 5 s v) (last_answer o s n (omega arith))
rounds_end o cfg attempt (suc left) s n h k v f = rw (retry_on_401_valid o 0 5 s v) (
    one_round o s n _
      (λ ms.
        retry_with_backoff o cfg (retry_on_401 o 0 5) (suc attempt) left (sleep ms (requested s)))
      h f
      (λ l ms.
        rounds_end o cfg (suc attempt) left (sleep ms (requested s)) n l (omega arith) v
          ((λ i q. f.0 i (omega arith)), f.1)))

-- While the cached token is valid, a call that the rate limiter lets pass returns the first answer that
-- is not transient, if it is among the next five: it makes no request after it, none for a token, and
-- keeps the cached token. A status of 401 is such an answer: it is neither asked for again nor does it
-- drop the token.
pub authenticated_get_final :
    (o : HttpOutside) (s : State) (n : ℕ)
    → s.requests ≤ n
    → n ≤ s.requests + 4
    → StaysValid o s.cached
    → FirstFinal o s.requests n
    → Ends (checked_answer (o.answer n)) (suc n) s.cached (authenticated_get o true s)
unfolding authenticated_get retry_on_transient
authenticated_get_final o s n = rounds_end o (record api_default { max_retries = 4 }) 0 4 s n
