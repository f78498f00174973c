-- ===== src/Agent/Client.antt =====
-- internal/agent/client.go: how the answer to a POST is classified.
use hoptrail.Common.{ℕ, ◌&&◌, ltb, leb, ◌==◌, if◌then◌else◌}

pub data Outcome : Type 0 where
  outcome_ok outcome_retry outcome_drop outcome_unauthorized : Outcome

-- What the HTTP library gives back: no request, no answer, or a status code.
pub data Response : Type 0 where
  no_request no_answer : Response
  status : ℕ → Response

unfoldable pub classify : Response → Outcome
classify no_request = outcome_retry
classify no_answer = outcome_retry
classify (status code) =
    if leb 200 code && ltb code 300
    then outcome_ok
    else if code == 401
    then outcome_unauthorized
    else if leb 400 code && ltb code 500
    then outcome_drop
    else outcome_retry
