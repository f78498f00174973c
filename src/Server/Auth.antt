-- ===== src/Server/Auth.antt =====
-- internal/server/ingest.go: who may post as which probe, the checks that every ingest endpoint makes
-- before it looks at its body.
use hoptrail.Common.{
  ℕ, Bool, true, false, not, ◌&&◌, ◌||◌, Option, none, some, List, [], ◌∷◌, length, leb, ◌==◌,
  if◌then◌else◌,
}
use hoptrail.Storage.Tokens.{TokenBinding}
use hoptrail.Common.Text.{Text, codes, text_eq, is_blank, has_prefix, trim_prefix}

abbrev pub is_alphanumeric : ℕ → Bool
is_alphanumeric c = (leb b'a' c && leb c b'z') || (leb b'0' c && leb c b'9')

unfoldable pub all_kebab : Text → Bool
all_kebab [] = true
all_kebab (c ∷ s) = (is_alphanumeric c || c == b'-') && all_kebab s

-- `^[a-z0-9][a-z0-9-]{1,31}$`
unfoldable pub matches_probe_id : Text → Bool
matches_probe_id [] = false
matches_probe_id (c ∷ s) = is_alphanumeric c && all_kebab s && leb 1 (length s) && leb (length s) 31

unfoldable pub valid_probe_id : Text → Bool
unfolding matches_probe_id all_kebab text_eq
valid_probe_id id =
    if not (matches_probe_id id)
    then false
    else not (text_eq id (codes "local") || text_eq id (codes "all"))

unfoldable pub find_binding : Text → List TokenBinding → Option Text
find_binding token [] = none
find_binding token (b ∷ bs) =
    let rest = find_binding token bs in if text_eq token b.token then some b.name else rest

unfoldable pub has_token : Text → List Text → Bool
has_token token [] = false
has_token token (w ∷ ws) = let rest = has_token token ws in if text_eq token w then true else rest

-- A request is denied with a status, or its token and the probe that it is bound to, empty for none.
pub data Auth : Type 0 where
  denied : ℕ → Auth
  allowed : Text → Text → Auth

abbrev pub matched : Option Text → Bool → Text → Auth
matched (some name) listed token = allowed token name
matched none listed token = if listed then allowed token [] else denied 401

abbrev pub match_token : List TokenBinding → List Text → Text → Auth
match_token bindings agent_tokens token =
    matched (find_binding token bindings) (has_token token agent_tokens) token

-- `bindings` is none where the lookup fails; `header` is the Authorization header.
unfoldable pub auth_agent : Option (List TokenBinding) → List Text → Text → Auth
auth_agent none agent_tokens header = denied 500
auth_agent (some bindings) agent_tokens header =
    if length bindings == 0 && length agent_tokens == 0
    then denied 401
    else if not (has_prefix header (codes "Bearer "))
    then denied 401
    else if is_blank (trim_prefix header (codes "Bearer "))
    then denied 401
    else match_token bindings agent_tokens (trim_prefix header (codes "Bearer "))

abbrev pub require_probe_binding : Text → Text → Bool
require_probe_binding bound probe_id = is_blank bound || text_eq bound probe_id

pub record HttpRequest (B : Type 0) : Type 0 where
  pub is_post : Bool
  pub authorization : Text
  pub body : Option B

-- The status of a refused request, or the acknowledged batch.
pub data Reply : Type 0 where
  status : ℕ → Reply
  acked : Text → Reply

-- What the server knows beside the request: the tokens, and its clock in milliseconds.
pub record Central : Type 0 where
  pub bindings : Option (List TokenBinding)
  pub agent_tokens : List Text
  pub now : ℕ

-- The checks that every endpoint makes first; they end in the request or in a status.
pub data Admitted {ℓ} (B : Type ℓ) : Type ℓ where
  turned_away : ℕ → Admitted B
  admitted : B → Admitted B

abbrev pub admit_probe {ℓ} : {B : Type ℓ} → (B → Text) → Text → B → Admitted B
admit_probe probe_of bound req =
    if not (valid_probe_id (probe_of req))
    then turned_away 400
    else if not (require_probe_binding bound (probe_of req))
    then turned_away 403
    else admitted req

abbrev pub admit_body {ℓ} : {B : Type ℓ} → (B → Text) → Option B → Auth → Admitted B
admit_body probe_of body (denied code) = turned_away code
admit_body probe_of none (allowed token bound) = turned_away 400
admit_body probe_of (some req) (allowed token bound) = admit_probe probe_of bound req

unfoldable pub admit : {B : Type 0} → (B → Text) → Central → HttpRequest B → Admitted B
admit probe_of c r =
    if not r.is_post
    then turned_away 405
    else admit_body probe_of r.body (auth_agent c.bindings c.agent_tokens r.authorization)
