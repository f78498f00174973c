-- ===== src/Server/Tokens.antt =====
-- internal/server/probetokens.go: the endpoints that mint and revoke the tokens of remote probes. The
-- bodies of the answers are left out, but for the token that a creation gives away; `entropy` is what
-- `generateProbeToken` makes of 32 random bytes, none for an error of the source.
use hoptrail.Common.{ℕ, Bool, true, false, not, Option, none, some, if◌then◌else◌}
use hoptrail.Common.Text.{Text}
use hoptrail.Storage.Tokens.{TokenTable, insert_probe_token, delete_probe_token}
use hoptrail.Server.Auth.{valid_probe_id}

-- A status, or 200 with the new row's id and its token.
pub data TokenReply : Type 0 where
  token_status : ℕ → TokenReply
  created : ℕ → Text → Text → TokenReply

abbrev pub created_reply : Text → Text → TokenTable × Option ℕ → TokenTable × TokenReply
created_reply name token (t, none) = (t, token_status 500)
created_reply name token (t, some id) = (t, created id name token)

abbrev pub create_generated : Bool → ℕ → Text → TokenTable → Option Text → TokenTable × TokenReply
create_generated fails now name t none = (t, token_status 500)
create_generated fails now name t (some token) =
    created_reply name token (insert_probe_token fails t token name now)

-- The POST of `handleProbeTokens`; the body is none where the decoder fails.
abbrev pub create_decoded :
    Bool → ℕ → Option Text → TokenTable → Option Text → TokenTable × TokenReply
create_decoded fails now entropy t none = (t, token_status 400)
create_decoded fails now entropy t (some name) =
    if not (valid_probe_id name)
    then (t, token_status 400)
    else create_generated fails now name t entropy

unfoldable pub handle_probe_tokens_post :
    Bool → ℕ → Option Text → TokenTable → Option Text → TokenTable × TokenReply
unfolding valid_probe_id insert_probe_token
handle_probe_tokens_post fails now entropy t body = create_decoded fails now entropy t body

abbrev pub deleted_status : TokenTable × Option Bool → TokenTable × ℕ
deleted_status (t, none) = (t, 500)
deleted_status (t, some true) = (t, 204)
deleted_status (t, some false) = (t, 404)

-- The id of the path is none where it is no integer, or empty, or holds a slash.
abbrev pub delete_by_path : Bool → Bool → TokenTable → Option ℕ → TokenTable × ℕ
delete_by_path fails is_delete t none = (t, 400)
delete_by_path fails is_delete t (some id) =
    if not is_delete then (t, 405) else deleted_status (delete_probe_token fails t id)

unfoldable pub handle_probe_token_by_path : Bool → Bool → TokenTable → Option ℕ → TokenTable × ℕ
unfolding delete_probe_token
handle_probe_token_by_path fails is_delete t id = delete_by_path fails is_delete t id
