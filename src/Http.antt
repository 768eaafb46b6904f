-- ===== src/Http.antt =====
-- Requests to the API of osu!: the classes of errors, the delays and the repetitions
-- (osubot-core/src/api/http.rs, mod.rs and oauth.rs). Times are milliseconds. What the outside gives is
-- told by the number of requests made before: the answers, the time, and the random part of a delay.
pub mod Bounds
pub mod Answers
use osubot_rs.Prelude.{
  ℕ, zero, suc, ◌+◌, ◌-◌, ◌*◌, ◌/◌, ◌^◌, Bool, true, false, not, ◌&&◌, List, Option, none, some,
  ltb, leb, ◌==◌, if◌then◌else◌, Result, ok, err,
}

pub data ApiError : Type 0 where
  http not_found invalid_response : ApiError
  server_error : ℕ → ApiError
  deserialization missing_api_key oauth_error : ApiError
  rate_limited : Option ℕ → ApiError
  client_rate_limited io : ApiError

unfoldable pub is_transient : ApiError → Bool
is_transient http = true
is_transient (server_error n) = true
is_transient (rate_limited s) = true
is_transient _ = false

abbrev pub at_most : ℕ → ℕ → ℕ
at_most a b = if leb a b then a else b

-- Seconds.
abbrev pub max_retry_after : ℕ
max_retry_after = 300

abbrev pub clamp_retry_after : Option ℕ → Option ℕ
clamp_retry_after none = none
clamp_retry_after (some v) = some (at_most v max_retry_after)

-- `retry_after` is the header, where it can be read as a `u64`; `none` is `Ok(())`.
unfoldable pub classify_http_error : (status : ℕ) → (retry_after : Option ℕ) → Option ApiError
classify_http_error status retry_after =
    if status == 429
    then some (rate_limited (clamp_retry_after retry_after))
    else if leb 500 status && ltb status 600
    then some (server_error status)
    else if not (leb 200 status && ltb status 300)
    then some invalid_response
    else none

pub record RetryConfig : Type 0 where
  pub max_retries : ℕ
  pub initial_backoff : ℕ
  pub max_backoff : ℕ

abbrev pub api_default : RetryConfig
api_default = record { max_retries = 4; initial_backoff = 500; max_backoff = 30000 }

pub data RetryAction : Type 0 where
  backoff : RetryAction
  wait : ℕ → RetryAction
  abort : RetryAction

-- `random` gives a number from 0 to its argument.
unfoldable pub compute_backoff : (ℕ → ℕ) → ℕ → RetryConfig → ℕ
compute_backoff random attempt cfg =
    let ms = at_most (cfg.initial_backoff * 2 ^ at_most attempt 5) cfg.max_backoff in
    let range_ms = ms / 2 in ms * 3 / 4 + (if ltb 0 range_ms then random range_ms else 0)

-- What a call leaves: the time at which the cached token expires, the requests that were made, and how
-- long the call has slept.
pub record State : Type 0 where
  pub cached : Option ℕ
  pub requests : ℕ
  pub slept : ℕ

pub data TokenAnswer : Type 0 where
  token_failed token_unreadable : TokenAnswer
  token_status : ℕ → TokenAnswer
  token : (expires_in : ℕ) → TokenAnswer

pub data HttpAnswer : Type 0 where
  send_failed : HttpAnswer
  answered : (status : ℕ) → (retry_after : Option ℕ) → HttpAnswer

pub record HttpOutside : Type 0 where
  pub now : ℕ → ℕ
  pub token_answer : ℕ → TokenAnswer
  pub answer : ℕ → HttpAnswer
  pub random : ℕ → ℕ → ℕ

abbrev pub sleep : ℕ → State → State
sleep ms s = record s { slept = s.slept + ms }

abbrev pub requested : State → State
requested s = record s { requests = suc s.requests }

abbrev pub invalidate : State → State
invalidate s = record s { cached = none }

-- Milliseconds.
abbrev pub refresh_safety_margin : ℕ
refresh_safety_margin = 60000

abbrev pub fallback_expires_in : ℕ
fallback_expires_in = 300000

abbrev pub lifetime : ℕ → ℕ
lifetime expires_in =
    let ttl =
      (if expires_in == 0 then fallback_expires_in else expires_in * 1000)
      - refresh_safety_margin in
    if ttl == 0 then 1000 else ttl

abbrev pub is_valid : ℕ → Option ℕ → Bool
is_valid now none = false
is_valid now (some expires_at) = ltb now expires_at

-- `some` is the error of `get_token`.
abbrev pub on_token : HttpOutside → TokenAnswer → State → Option ApiError × State
on_token o token_failed s = (some http, s)
on_token o token_unreadable s = (some deserialization, s)
on_token o (token_status status) s = (some oauth_error, s)
on_token o (token expires_in) s =
    (none, record s { cached = some (o.now s.requests + lifetime expires_in) })

unfoldable pub get_token : HttpOutside → State → Option ApiError × State
get_token o s =
    if is_valid (o.now s.requests) s.cached
    then (none, s)
    else on_token o (o.token_answer s.requests) (requested s)

-- The status of the response, or the error.
unfoldable pub checked_answer : HttpAnswer → Result ℕ ApiError
unfolding classify_http_error
checked_answer send_failed = err http
checked_answer (answered status retry_after) =
    if status == 404
    then err not_found
    else elim (classify_http_error status retry_after) [ none ↦ ok status | some e ↦ err e ]

unfoldable pub with_token : HttpOutside → Option ApiError × State → Result ℕ ApiError × State
unfolding checked_answer
with_token o (some e, s) = (err e, s)
with_token o (none, s) = (checked_answer (o.answer s.requests), requested s)

unfoldable pub send : HttpOutside → State → Result ℕ ApiError × State
unfolding get_token with_token
send o s = with_token o (get_token o s)

-- A round of `retry_on_401`: `left` repetitions remain after `attempt` of them.
abbrev pub is_oauth_error : Result ℕ ApiError → Bool
is_oauth_error (err oauth_error) = true
is_oauth_error r = false

unfoldable pub retry_on_401 : HttpOutside → (attempt left : ℕ) → State → Result ℕ ApiError × State
unfolding send compute_backoff
retry_on_401 o attempt zero s = send o s
retry_on_401 o attempt (suc left) s =
    let r = send o s in
    let delay = compute_backoff (o.random r.1.requests) attempt api_default in
    let again = retry_on_401 o (suc attempt) left (sleep delay (invalidate r.1)) in
    if is_oauth_error r.0 then again else r

-- `Option` is the time to sleep; `none` is the end.
abbrev pub delay_of : ℕ → RetryAction → Option ℕ
delay_of backoff_ms backoff = some backoff_ms
delay_of backoff_ms (wait secs) = some (secs * 1000)
delay_of backoff_ms abort = none

-- The class of an error in `retry_on_transient`.
unfoldable pub transient_action : ApiError → RetryAction
unfolding is_transient
transient_action (rate_limited (some secs)) = wait secs
transient_action (rate_limited none) = wait 60
transient_action e = if is_transient e then backoff else abort

abbrev pub action_of : Result ℕ ApiError → RetryAction
action_of (ok v) = abort
action_of (err e) = transient_action e

abbrev pub or_end :
    Option ℕ
    → Result ℕ ApiError × State
    → (ℕ → Result ℕ ApiError × State)
    → Result ℕ ApiError × State
or_end none r again = r
or_end (some ms) r again = again ms

-- `retry_with_backoff` of the operation, with the classes of `retry_on_transient`.
unfoldable pub retry_with_backoff :
    HttpOutside
    → RetryConfig
    → (State → Result ℕ ApiError × State)
    → (attempt left : ℕ) → State
    → Result ℕ ApiError × State
unfolding compute_backoff transient_action
retry_with_backoff o cfg operation attempt zero s = operation s
retry_with_backoff o cfg operation attempt (suc left) s =
    let r = operation s in
    let delay = delay_of (compute_backoff (o.random r.1.requests) attempt cfg) (action_of r.0) in
    or_end delay r (λ ms. retry_with_backoff o cfg operation (suc attempt) left (sleep ms r.1))

unfoldable pub retry_on_transient :
    HttpOutside → ℕ → (State → Result ℕ ApiError × State) → State → Result ℕ ApiError × State
unfolding retry_with_backoff
retry_on_transient o max_retries operation s =
    retry_with_backoff o (record api_default { max_retries = max_retries }) operation 0
      (at_most max_retries 30) s

unfoldable pub authenticated_get :
    HttpOutside → (acquired : Bool) → State → Result ℕ ApiError × State
unfolding retry_on_transient retry_on_401
authenticated_get o acquired s =
    if not acquired
    then (err client_rate_limited, s)
    else retry_on_transient o 4 (retry_on_401 o 0 5) s
