-- ===== src/Supervisor/Soundness.antt =====
-- What every monitored target satisfies (cmd/hoptrail/supervisor.go).
use hoptrail.Common.{
  ◌≡◌, refl, sym, ap, ◌∙◌, inl, inr, Bool, true, false, not, ◌&&◌, ◌||◌, Option, none, some, List,
  [], ◌∷◌, All, arith, ◌==◌, if◌then◌else◌, Bool-cases, Option-cases,
}
use hoptrail.Common.Int.{ℤ, pos, ltb_ℤ, same_ℤ}
use hoptrail.Common.Addr.{Addr, invalid, host, is_valid, same}
use hoptrail.Common.Keyed.{find, put, is_some}
use hoptrail.Common.Everywhere.{put-All, found-All}
use hoptrail.Common.Text.{Text, is_blank}
use hoptrail.Storage.ActiveTargets.{ActiveTarget}
use hoptrail.Supervisor.Resolve.{
  World, Ip, v4, v6, is_multicast, usable, usable_option, first_some, first_usable, from_hosts,
  from_literal, resolve_target,
}
use hoptrail.Supervisor.Pipelines.{
  ProbeConfig, Pipeline, Supervisor, name_of, is_buildable, out_of_range, add_pipeline, given,
  rebuild_found, rebuild_pipeline, same_bool,
}
use hoptrail.Supervisor.Operations.{not_positive, not_ordered}

abbrev pub is_unicast : Addr → Bool
is_unicast invalid = false
is_unicast (host n) = not (n == 0 || is_multicast n)

abbrev pub are_bad : Option ℤ → Option ℤ → Bool
are_bad w c = not_positive w || not_positive c || not_ordered w c

-- A unicast IPv4 address, an interval between 200 ms and 60 s, and thresholds, where there are any,
-- that are positive and in order.
abbrev pub SoundPipeline : Pipeline → Type 0
SoundPipeline p =
    (is_blank p.target ≡ false)
    × (is_unicast p.addr ≡ true)
    × (out_of_range p.interval ≡ false)
    × (are_bad p.warning_ms p.critical_ms ≡ false)

abbrev pub SoundRow : ActiveTarget → Type 0
SoundRow r = are_bad r.warning_ms r.critical_ms ≡ false

abbrev pub Sound : Supervisor → Type 0
Sound s = All SoundPipeline s.pipelines × All SoundRow s.tables.active

-- The answer of the resolver is an error or a unicast address.
abbrev pub is_error_or_unicast : Option Addr → Bool
is_error_or_unicast none = true
is_error_or_unicast (some a) = is_unicast a

usable_unicast : (ip : Ip) → is_error_or_unicast (usable ip) ≡ true
usable_unicast (v6 n) = refl
usable_unicast (v4 n) = elim (Bool-cases (n == 0 || is_multicast n)) [
  | inl e ↦ rw e refl
  | inr e ↦ rw e (rw e refl)
]

usable_option_unicast : (o : Option Ip) → is_error_or_unicast (usable_option o) ≡ true
usable_option_unicast none = refl
usable_option_unicast (some ip) = usable_unicast ip

first_some_unicast :
    (o p : Option Addr)
    → is_error_or_unicast o ≡ true
    → is_error_or_unicast p ≡ true
    → is_error_or_unicast (first_some o p) ≡ true
first_some_unicast none p h k = k
first_some_unicast (some a) p h k = h

first_usable_unicast :
    (w : World) (ips : List Text) → is_error_or_unicast (first_usable w ips) ≡ true
unfolding first_usable
first_usable_unicast w [] = refl
first_usable_unicast w (ip ∷ ips) =
    first_some_unicast (usable_option (w.parse_addr ip)) (first_usable w ips)
      (usable_option_unicast (w.parse_addr ip)) (first_usable_unicast w ips)

from_hosts_unicast :
    (w : World) (o : Option (List Text)) → is_error_or_unicast (from_hosts w o) ≡ true
from_hosts_unicast w none = refl
from_hosts_unicast w (some ips) = first_usable_unicast w ips

from_literal_unicast :
    (w : World) (k : Text) (o : Option Ip) → is_error_or_unicast (from_literal w k o) ≡ true
from_literal_unicast w k (some ip) = usable_unicast ip
from_literal_unicast w k none = from_hosts_unicast w (w.lookup_host k)

else-some {ℓ} :
    {A : Type ℓ} (b : Bool) (o : Option A) (a : A)
    → (if b then none else o) ≡ some a
    → (b ≡ false) × (o ≡ some a)
else-some true o a h = absurd (ground arith)
else-some false o a h = (refl, h)

pub resolve_target_unicast :
    (w : World) (k : Text) (a : Addr)
    → resolve_target w k ≡ some a
    → (is_blank k ≡ false) × (is_unicast a ≡ true)
unfolding resolve_target
resolve_target_unicast w k a h =
    let p = else-some (is_blank k) (from_literal w k (w.parse_addr k)) a h in
    (p.0, sym (ap is_error_or_unicast p.1) ∙ from_literal_unicast w k (w.parse_addr k))

abbrev pub settled : Text → Addr → ℤ → Option ℤ → Option ℤ → Bool → Pipeline
settled k a i warning_ms critical_ms b = record {
  target = k;
  addr = a;
  interval = i;
  warning_ms = warning_ms;
  critical_ms = critical_ms;
  final_hop_only = b;
}

module _ (c : ProbeConfig) (s : Supervisor) (sound : Sound s) where
  put-Sound :
      (p : Pipeline) → SoundPipeline p → Sound (record s { pipelines = put name_of p s.pipelines })
  put-Sound p h = (put-All name_of SoundPipeline p s.pipelines h sound.0, sound.1)

  pub add_pipeline-Sound :
      (w : World) (k : Text) (i : ℤ) (warning_ms critical_ms : Option ℤ) (b : Bool)
      → are_bad warning_ms critical_ms ≡ false
      → Sound (add_pipeline c w s k i warning_ms critical_ms b).0
  unfolding add_pipeline
  add_pipeline-Sound w k i warning_ms critical_ms b h = elim (Option-cases (resolve_target w k)) [
    | inl e ↦ rw e sound
    | inr (a, e) ↦ elim (Bool-cases (out_of_range i)) [
      | inl o ↦ rw (e, o) sound
      | inr o ↦ elim (Bool-cases (is_some (find name_of k s.pipelines))) [
        | inl f ↦ rw (e, o, f) sound
        | inr f ↦ elim (Bool-cases (is_valid a && is_buildable c && ltb_ℤ (pos 0) i)) [
          | inl v ↦
              let r = resolve_target_unicast w k a e in
              rw (e, o, f, v) (put-Sound (settled k a i warning_ms critical_ms b) (r.0, r.1, o, h))
          | inr v ↦ rw (e, o, f, v) sound
        ]
      ]
    ]
  ]

  rebuild_found-Sound :
      (k : Text) (a : Addr) (i : ℤ) (b : Bool) (old : Pipeline)
      → is_blank k ≡ false
      → is_unicast a ≡ true
      → out_of_range i ≡ false
      → are_bad old.warning_ms old.critical_ms ≡ false
      → Sound (rebuild_found c s k a i b old).0
  rebuild_found-Sound k a i b old hk ha hi ht =
      elim (Bool-cases
        (same a old.addr && same_ℤ i old.interval && same_bool b old.final_hop_only)) [
          | inl e ↦ rw e sound
          | inr e ↦ elim (Bool-cases (is_valid a && is_buildable c && ltb_ℤ (pos 0) i)) [
            | inl v ↦
                rw (e, v)
                  (put-Sound (settled k a i old.warning_ms old.critical_ms b) (hk, ha, hi, ht))
            | inr v ↦ rw (e, v) sound
          ]
        ]

  given_unicast :
      (o : Option Addr) (a : Addr)
      → is_error_or_unicast o ≡ true
      → is_unicast a ≡ true
      → is_unicast (given o a) ≡ true
  given_unicast none a h k = k
  given_unicast (some b) a h k = h

  abbrev pub none_or_in_range : Option ℤ → Bool
  none_or_in_range none = true
  none_or_in_range (some i) = not (out_of_range i)

  given_in_range :
      (o : Option ℤ) (i : ℤ)
      → none_or_in_range o ≡ true
      → out_of_range i ≡ false
      → out_of_range (given o i) ≡ false
  given_in_range none i h k = k
  given_in_range (some j) i h k = ground arith

  pub rebuild_pipeline-Sound :
      (k : Text) (a : Option Addr) (i : Option ℤ) (b : Option Bool)
      → is_error_or_unicast a ≡ true
      → none_or_in_range i ≡ true
      → Sound (rebuild_pipeline c s k a i b).0
  unfolding rebuild_pipeline
  rebuild_pipeline-Sound k a i b ha hi = elim (Option-cases (find name_of k s.pipelines)) [
    | inl e ↦ rw e sound
    | inr (p, e) ↦
        let f = found-All name_of SoundPipeline k s.pipelines p e sound.0 in
        rw e (
          rebuild_found-Sound k (given a p.addr) (given i p.interval) (given b p.final_hop_only) p
            (rw (sym f.1) f.0.0) (given_unicast a p.addr ha f.0.1)
            (given_in_range i p.interval hi f.0.2) f.0.3)
  ]
