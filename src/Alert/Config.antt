-- ===== src/Alert/Config.antt =====
-- internal/alert/config.go: the operator's configuration, its validation and the HH:MM parser.
-- Percentages and ratios are `float64`, which is the parameter `fl`. The ints are
-- from the ranges that Validate accepts, so they are not negative.
use hoptrail.Common.{
  ℕ, ◌+◌, ◌-◌, ◌*◌, Bool, ◌&&◌, Option, none, some, [], ◌∷◌, leb, ◌==◌, if◌then◌else◌,
}
use hoptrail.Common.Int.{ℤ, pos, negsuc}
use hoptrail.Common.Float.{Float}
use hoptrail.Common.Text.{Text}

pub data EventType : Type 0 where
  probe_offline target_loss latency derate capacity : EventType

pub record Config (fl : Float) : Type 0 where
  pub enabled : Bool
  pub server_url : Text
  pub topic : Text
  pub token : Text
  pub event_probe_offline : Bool
  pub event_target_loss : Bool
  pub event_latency : Bool
  pub event_derate : Bool
  pub event_capacity : Bool
  pub loss_pct : fl.F
  pub sustain_s : ℕ
  pub latency_level : Text
  pub disk_free_floor_mb : ℕ
  pub disk_free_pct_floor : fl.F
  pub headroom_threshold : fl.F
  pub cooldown_s : ℕ
  pub rate_limit_per_h : ℕ
  pub quiet_start : Text
  pub quiet_end : Text

-- `strconv.Atoi` on the digits after the sign; `none` is its error. A value too large for an int is
-- an error of Atoi and fails the range tests of its callers, so it needs no case of its own.
unfoldable pub digits_value : ℕ → Text → Option ℕ
digits_value acc [] = some acc
digits_value acc (c ∷ cs) =
    let rest = digits_value (acc * 10 + (c - b'0')) cs in
    if leb b'0' c && leb c b'9' then rest else none

abbrev pub unsigned : Text → Option ℕ
unsigned [] = none
unsigned (c ∷ cs) = digits_value 0 (c ∷ cs)

abbrev pub negated : Option ℕ → Option ℤ
negated none = none
negated (some n) = some (if n == 0 then pos 0 else negsuc (n - 1))

abbrev pub positive : Option ℕ → Option ℤ
positive none = none
positive (some n) = some (pos n)

unfoldable pub atoi : Text → Option ℤ
unfolding digits_value
atoi [] = none
atoi (c ∷ cs) =
    if c == b'-'
    then negated (unsigned cs)
    else if c == b'+'
    then positive (unsigned cs)
    else positive (unsigned (c ∷ cs))

-- `strings.SplitN(v, ":", 2)`: the text around the first colon, or `none` if there is no colon.
unfoldable pub split_colon : Text → Option (Text × Text)
split_colon [] = none
split_colon (c ∷ cs) =
    let rest = split_colon cs in
    if c == b':' then some ([], cs) else elim rest [ none ↦ none | some (a, b) ↦ some (c ∷ a, b) ]

-- A number from 0 to `hi`.
abbrev pub up_to : ℕ → Option ℤ → Option ℕ
up_to hi none = none
up_to hi (some (negsuc n)) = none
up_to hi (some (pos n)) = if leb n hi then some n else none

abbrev pub both {ℓ κ} : {A : Type ℓ} {B : Type κ} → Option A → Option B → Option (A × B)
both (some a) (some b) = some (a, b)
both (some a) none = none
both none b = none

abbrev pub parse_parts : Option (Text × Text) → Option (ℕ × ℕ)
parse_parts none = none
parse_parts (some (a, b)) = both (up_to 23 (atoi a)) (up_to 59 (atoi b))

unfoldable pub parse_hhmm : Text → Option (ℕ × ℕ)
unfolding atoi split_colon
parse_hhmm v = parse_parts (split_colon v)
