-- ===== src/Supervisor/Resolve.antt =====
-- `resolveTarget` of cmd/hoptrail/supervisor.go.
use hoptrail.Common.{
  ℕ, ◌*◌, ◌^◌, Bool, ◌&&◌, ◌||◌, Option, none, some, List, [], ◌∷◌, ltb, leb, ◌==◌, if◌then◌else◌,
}
use hoptrail.Common.Addr.{Addr, host}
use hoptrail.Common.Text.{Text, is_blank}

-- `netip.Addr` as `netip.ParseAddr` gives it.
pub data Ip : Type 0 where
  v4 : ℕ → Ip
  v6 : ℕ → Ip

-- What the network and the clock answer: `netip.ParseAddr`, and the system's resolver, none for an
-- error.
pub record World : Type 0 where
  pub parse_addr : Text → Option Ip
  pub lookup_host : Text → Option (List Text)
  pub now : ℕ

-- 224.0.0.0/4
abbrev pub is_multicast : ℕ → Bool
is_multicast n = leb (224 * 2 ^ 24) n && ltb n (240 * 2 ^ 24)

abbrev pub usable : Ip → Option Addr
usable (v6 n) = none
usable (v4 n) = if n == 0 || is_multicast n then none else some (host n)

abbrev pub first_some {ℓ} : {A : Type ℓ} → Option A → Option A → Option A
first_some (some a) o = some a
first_some none o = o

abbrev pub usable_option : Option Ip → Option Addr
usable_option none = none
usable_option (some ip) = usable ip

-- The loop over the records of a host.
unfoldable pub first_usable : World → List Text → Option Addr
first_usable w [] = none
first_usable w (ip ∷ ips) = first_some (usable_option (w.parse_addr ip)) (first_usable w ips)

abbrev pub from_hosts : World → Option (List Text) → Option Addr
from_hosts w none = none
from_hosts w (some ips) = first_usable w ips

abbrev pub from_literal : World → Text → Option Ip → Option Addr
from_literal w typed (some ip) = usable ip
from_literal w typed none = from_hosts w (w.lookup_host typed)

-- None is an error. The identity that goes with the address is always the typed text.
unfoldable pub resolve_target : World → Text → Option Addr
unfolding first_usable
resolve_target w typed = if is_blank typed then none else from_literal w typed (w.parse_addr typed)
