-- ===== src/Server/Guard.antt =====
-- internal/server/csrf.go: the guard in front of the endpoints. `net.SplitHostPort` (none for its
-- error), `net.ParseIP` (whether the text is an address), `strings.ToLower` and `strings.EqualFold` are
-- parameters.
use hoptrail.Common.{
  ℕ, Bool, true, false, not, ◌&&◌, ◌||◌, Option, none, some, List, [], ◌∷◌, ◌++◌, ◌==◌, drop,
  if◌then◌else◌,
}
use hoptrail.Common.Text.{Text, codes, text_eq, is_blank, has_prefix, has_suffix}

pub record Net : Type 0 where
  pub split_host_port : Text → Option (Text × Text)
  pub is_ip : Text → Bool
  pub to_lower : Text → Text
  pub equal_fold : Text → Text → Bool

pub data GuardMethod : Type 0 where
  reading options mutating : GuardMethod

-- The headers are empty where they are missing.
pub record Guarded : Type 0 where
  pub method : GuardMethod
  pub path : Text
  pub host : Text
  pub origin : Text
  pub csrf : Text

-- The request reaches its handler, or is answered with the status.
pub data Verdict : Type 0 where
  passes : Verdict
  answered : ℕ → Verdict

-- `strings.TrimSuffix(s, ".")`
unfoldable pub trim_dot : Text → Text
trim_dot [] = []
trim_dot (c ∷ []) = if c == b'.' then [] else c ∷ []
trim_dot (c ∷ d ∷ s) = c ∷ trim_dot (d ∷ s)

unfoldable pub has_dot : Text → Bool
has_dot [] = false
has_dot (c ∷ s) = c == b'.' || has_dot s

abbrev pub host_of : Option (Text × Text) → Text → Text
host_of none t = t
host_of (some (h, p)) t = h

module _ (n : Net) where
  unfoldable pub is_listed : Text → List Text → Bool
  unfolding trim_dot
  is_listed lower [] = false
  is_listed lower (a ∷ more) = text_eq lower (n.to_lower (trim_dot a)) || is_listed lower more

  abbrev pub allowed_name : List Text → Text → Bool
  allowed_name allowed host =
      if is_blank host
      then false
      else if text_eq (n.to_lower host) (codes "localhost")
      then true
      else if n.is_ip host
      then true
      else if not (has_dot (n.to_lower host)) || has_suffix (n.to_lower host) (codes ".local")
      then true
      else is_listed (n.to_lower host) allowed

  unfoldable pub host_allowed : List Text → Text → Bool
  unfolding trim_dot has_dot is_listed
  host_allowed allowed header =
      allowed_name allowed (trim_dot (host_of (n.split_host_port header) header))

  abbrev pub key_of : Text → Text → Text
  key_of host port =
      if text_eq port (codes "80") || text_eq port (codes "443") || is_blank port
      then n.to_lower (trim_dot host)
      else n.to_lower (trim_dot host) ++ codes ":" ++ port

  abbrev pub split_key : Text → Option (Text × Text) → Text
  split_key hp none = key_of hp []
  split_key hp (some (h, p)) = key_of h p

  unfoldable pub host_port_key : Text → Text
  unfolding trim_dot
  host_port_key hp = split_key hp (n.split_host_port hp)

  -- What follows the first "://", none where there is none.
  unfoldable pub after_scheme : Text → Option Text
  after_scheme [] = none
  after_scheme (c ∷ s) =
      let rest = after_scheme s in
      if has_prefix (c ∷ s) (codes "://") then some (drop 2 s) else rest

  abbrev pub same_key : Option Text → Text → Bool
  same_key none host = false
  same_key (some hp) host = n.equal_fold (host_port_key hp) (host_port_key host)

  unfoldable pub same_origin : Text → Text → Bool
  unfolding after_scheme host_port_key
  same_origin origin host = same_key (after_scheme origin) host

  abbrev pub guard_mutating : List Text → Guarded → Verdict
  guard_mutating allowed r =
      if has_prefix r.path (codes "/api/ingest/")
      then passes
      else if not (has_prefix r.path (codes "/api/"))
      then passes
      else if not (host_allowed allowed r.host)
      then answered 403
      else if not (is_blank r.origin) && not (same_origin r.origin r.host)
      then answered 403
      else if is_blank r.csrf
      then answered 403
      else passes

  abbrev pub by_guard_method : List Text → Guarded → GuardMethod → Verdict
  by_guard_method allowed r reading = passes
  by_guard_method allowed r options = answered 204
  by_guard_method allowed r mutating = guard_mutating allowed r

  unfoldable pub cross_origin_guard : List Text → Guarded → Verdict
  unfolding host_allowed same_origin
  cross_origin_guard allowed r = by_guard_method allowed r r.method
