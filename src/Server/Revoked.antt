-- ===== src/Server/Revoked.antt =====
-- From the minting of a token (internal/storage/tokens.go) to its use at the ingest endpoints
-- (internal/server/ingest.go) and its revocation.
use hoptrail.Common.{ℕ, none}
use hoptrail.Common.Text.{Text}
use hoptrail.Storage.Tokens.{ProbeToken}

module _ (token name : Text) (now : ℕ) where
  abbrev minted_row : ℕ → ProbeToken
  minted_row id = record {
    id = id;
    token = token;
    name = name;
    created_at = now;
    last_used_at = none;
  }
