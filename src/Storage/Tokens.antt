-- ===== src/Storage/Tokens.antt =====
-- internal/storage/tokens.go: the bearer tokens of the remote probes. Times are unix milliseconds.
use hoptrail.Common.{
  ℕ, ◌+◌, Bool, false, ◌&&◌, ◌||◌, Option, none, some, List, [], ◌∷◌, ◌++◌, map, ltb, ◌==◌,
  if◌then◌else◌,
}
use hoptrail.Common.Text.{Text, text_eq, is_blank}

pub record ProbeToken : Type 0 where
  pub id : ℕ
  pub token : Text
  pub name : Text
  pub created_at : ℕ
  pub last_used_at : Option ℕ

-- The rows, and the id of the next one.
pub record TokenTable : Type 0 where
  pub rows : List ProbeToken
  pub next_id : ℕ

-- A token of the table with the probe that it is bound to.
pub record TokenBinding : Type 0 where
  pub token : Text
  pub name : Text

unfoldable pub is_taken : Text → List ProbeToken → Bool
is_taken token [] = false
is_taken token (t ∷ ts) = text_eq t.token token || is_taken token ts

-- The id of the new row; none is an error, that of the UNIQUE constraint included.
unfoldable pub insert_probe_token : Bool → TokenTable → Text → Text → ℕ → TokenTable × Option ℕ
unfolding is_taken
insert_probe_token fails t token name now =
    if is_blank token || is_blank name
    then (t, none)
    else if fails || is_taken token t.rows
    then (t, none)
    else (
      record {
        rows =
            t.rows
            ++ record {
              id = t.next_id;
              token = token;
              name = name;
              created_at = now;
              last_used_at = none;
            }
              ∷ [];
        next_id = t.next_id + 1;
      },
      some t.next_id,
    )

-- `ORDER BY created_at DESC, id DESC`
abbrev pub is_newer : ProbeToken → ProbeToken → Bool
is_newer a b = ltb b.created_at a.created_at || (a.created_at == b.created_at && ltb b.id a.id)

unfoldable pub insert_newest : ProbeToken → List ProbeToken → List ProbeToken
insert_newest a [] = a ∷ []
insert_newest a (b ∷ bs) =
    let rest = insert_newest a bs in if is_newer a b then a ∷ b ∷ bs else b ∷ rest

unfoldable pub sorted_newest : List ProbeToken → List ProbeToken
unfolding insert_newest
sorted_newest [] = []
sorted_newest (t ∷ ts) = insert_newest t (sorted_newest ts)

unfoldable pub list_probe_tokens : TokenTable → List ProbeToken
list_probe_tokens t = sorted_newest t.rows

unfoldable pub without_id : ℕ → List ProbeToken → List ProbeToken
without_id id [] = []
without_id id (t ∷ ts) = let rest = without_id id ts in if t.id == id then rest else t ∷ rest

unfoldable pub has_row : ℕ → List ProbeToken → Bool
has_row id [] = false
has_row id (t ∷ ts) = t.id == id || has_row id ts

-- Whether there was such a row; none is an error.
unfoldable pub delete_probe_token : Bool → TokenTable → ℕ → TokenTable × Option Bool
unfolding without_id has_row
delete_probe_token fails t id =
    if fails
    then (t, none)
    else (record t { rows = without_id id t.rows }, some (has_row id t.rows))

abbrev pub binding_of : ProbeToken → TokenBinding
binding_of t = record { token = t.token; name = t.name }

unfoldable pub probe_token_bindings : Bool → TokenTable → Option (List TokenBinding)
probe_token_bindings fails t = if fails then none else some (map binding_of t.rows)

unfoldable pub probe_token_secrets : Bool → TokenTable → Option (List Text)
probe_token_secrets fails t =
    if fails then none else some (map (λ (r : ProbeToken). r.token) t.rows)

abbrev pub used : Text → ℕ → ProbeToken → ProbeToken
used token now t = if text_eq t.token token then record t { last_used_at = some now } else t

unfoldable pub touch_probe_token : Bool → TokenTable → Text → ℕ → TokenTable
touch_probe_token fails t token now =
    if fails then t else record t { rows = map (used token now) t.rows }
