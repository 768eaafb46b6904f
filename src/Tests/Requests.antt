-- ===== src/Tests/Requests.antt =====
-- A server that fails twice and then refuses the token.
use osubot_rs.Prelude.{ℕ, zero, suc, ◌≤◌, ◌<◌, ◌≡◌, refl, true, none, some, err, arith}
use osubot_rs.Http.{
  invalid_response, State, token, HttpAnswer, answered, checked_answer, HttpOutside, is_transient,
  classify_http_error, retry_on_transient, retry_with_backoff, retry_on_401, compute_backoff,
  transient_action, send, with_token, get_token, authenticated_get,
}
use osubot_rs.Http.Bounds.{InRange, Within, authenticated_get-Within}
use osubot_rs.Http.Answers.{Ends, FirstFinal, transient, authenticated_get_final}

abbrev server_answer : ℕ → HttpAnswer
server_answer zero = answered 503 none
server_answer (suc zero) = answered 429 (some 7)
server_answer (suc (suc n)) = answered 401 none

abbrev outside : HttpOutside
outside = record {
  now = λ n. 1000;
  token_answer = λ n. token 86400;
  answer = server_answer;
  random = λ n range. range;
}

outside-InRange : InRange outside
outside-InRange n range = omega arith

abbrev fresh : State
fresh = record { cached = some 90000; requests = 0; slept = 0 }

abbrev without_token : State
without_token = record { cached = none; requests = 0; slept = 0 }

authenticated_get-Within_example :
    Within 60 2137500 without_token (authenticated_get outside true without_token)
authenticated_get-Within_example =
    authenticated_get-Within outside true without_token outside-InRange

two_failures : FirstFinal outside 0 2
unfolding transient checked_answer is_transient classify_http_error
two_failures = (asked_again, refl)
  where
    asked_again : (i : ℕ) → 0 ≤ i → i < 2 → transient (checked_answer (server_answer i)) ≡ true
    asked_again zero h k = refl
    asked_again (suc zero) h k = refl
    asked_again (suc (suc i)) h k = absurd (omega arith)

authenticated_get_final_example :
    Ends (err invalid_response) 3 (some 90000) (authenticated_get outside true fresh)
unfolding checked_answer classify_http_error
authenticated_get_final_example =
    authenticated_get_final outside fresh 2 (omega arith) (omega arith) (λ n. refl) two_failures

-- One and a half times 500 milliseconds at most, less a quarter, and seven seconds.
slept_example : (authenticated_get outside true fresh).1.slept ≡ 7625
unfolding authenticated_get retry_on_transient retry_with_backoff retry_on_401 compute_backoff
    transient_action is_transient send with_token get_token checked_answer classify_http_error
slept_example = refl
