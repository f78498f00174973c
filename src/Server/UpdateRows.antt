-- ===== src/Server/UpdateRows.antt =====
-- What a heartbeat makes of the row of its probe (internal/server/probeupdate.go).
use hoptrail.Common.{
  ℕ, ◌+◌, ◌-◌, ◌≡◌, refl, ap, ◌∙◌, inl, inr, false, Option, none, some, List, [], ◌∷◌, ltb,
  if◌then◌else◌, Bool-cases,
}
use hoptrail.Common.Text.{Text, text_eq}
use hoptrail.Storage.ProbeUpdates.{
  UpdateState, pending, applying, applied, failed, ProbeUpdate, find_update, update_rows, moved,
  counted, set_probe_update_state, increment_probe_update_deliveries,
}
use hoptrail.Server.ProbeUpdate.{
  apply_timeout, max_update_deliveries, Updates, UpdateFaults, fail_probe_update, wedged, too_old,
  drive, is_applied, heartbeat_update_for, base_version,
}

abbrev pub working : UpdateFaults
working = record { lookup = false; set_state = false; increment = false; history_write = false }

-- A heartbeat: the version that the probe reports, and the time.
abbrev pub Beat : Type 0
Beat = Text × ℕ

unfoldable pub beat_all : Text → List Beat → Updates → Updates
beat_all k [] s = s
beat_all k ((v, now) ∷ bs) s = beat_all k bs (heartbeat_update_for working s k v now).0

-- What a heartbeat makes of the probe's row.
abbrev pub row_drive : UpdateState → ProbeUpdate → ℕ → ProbeUpdate
row_drive applying u now =
    if ltb apply_timeout (now - u.updated_at) then moved failed (wedged u) now u else u
row_drive pending u now =
    if ltb max_update_deliveries (u.deliveries + 1)
    then moved failed too_old now (counted now u)
    else counted now u
row_drive applied u now = u
row_drive failed u now = u

unfoldable pub row_beat : ProbeUpdate → Beat → ProbeUpdate
row_beat u (v, now) =
    if is_applied u.state
    then u
    else if text_eq (base_version v) u.target_version
    then moved applied [] now u
    else row_drive u.state u now

pub map_found : (ProbeUpdate → ProbeUpdate) → Option ProbeUpdate → Option ProbeUpdate
map_found g none = none
map_found g (some u) = some (g u)

pub find_update-update_rows :
    (g : ProbeUpdate → ProbeUpdate) (k : Text) (us : List ProbeUpdate)
    → ((u : ProbeUpdate) → (g u).probe_id ≡ u.probe_id)
    → find_update k (update_rows g k us) ≡ map_found g (find_update k us)
unfolding find_update update_rows map_found
find_update-update_rows g k [] h = refl
find_update-update_rows g k (u ∷ us) h = elim (Bool-cases (text_eq u.probe_id k)) [
  | inl e ↦ rw (e, h u, e)
  | inr e ↦ rw (e, e, find_update-update_rows g k us h)
]

pub set_state-found :
    (st : UpdateState) (msg k : Text) (now : ℕ) (us : List ProbeUpdate) (u : ProbeUpdate)
    → find_update k us ≡ some u
    → find_update k (set_probe_update_state false us k st msg now).0 ≡ some (moved st msg now u)
unfolding set_probe_update_state map_found
set_state-found st msg k now us u h =
    find_update-update_rows (moved st msg now) k us (λ x. refl)
    ∙ ap (map_found (moved st msg now)) h

pub fail-found :
    (msg k : Text) (now : ℕ) (s : Updates) (u : ProbeUpdate)
    → find_update k s.rows ≡ some u
    → find_update k (fail_probe_update working s k msg now).rows ≡ some (moved failed msg now u)
unfolding fail_probe_update
fail-found msg k now s u h =
    elim (Bool-cases (set_probe_update_state false s.rows k failed msg now).1) [
      | inl e ↦ rw e (set_state-found failed msg k now s.rows u h)
      | inr e ↦ rw e (set_state-found failed msg k now s.rows u h)
    ]

pub counted-found :
    (k : Text) (now : ℕ) (us : List ProbeUpdate) (u : ProbeUpdate)
    → find_update k us ≡ some u
    → find_update k (update_rows (counted now) k us) ≡ some (counted now u)
unfolding map_found
counted-found k now us u h =
    find_update-update_rows (counted now) k us (λ x. refl) ∙ ap (map_found (counted now)) h

pub pending-found :
    (k : Text) (now : ℕ) (s : Updates) (u v : ProbeUpdate)
    → find_update k s.rows ≡ some u
    → find_update k (drive pending working s v k now).0.rows ≡ some (row_drive pending u now)
unfolding increment_probe_update_deliveries
pending-found k now s u v h =
    let c = counted-found k now s.rows u h in
    elim (Bool-cases (ltb max_update_deliveries (u.deliveries + 1))) [
      | inl e ↦
          rw (c, e)
            (fail-found too_old k now (record s { rows = update_rows (counted now) k s.rows })
              (counted now u) c)
      | inr e ↦ rw (c, e) c
    ]

pub drive-found :
    (st : UpdateState) (k : Text) (now : ℕ) (s : Updates) (u : ProbeUpdate)
    → find_update k s.rows ≡ some u
    → find_update k (drive st working s u k now).0.rows ≡ some (row_drive st u now)
drive-found pending k now s u h = pending-found k now s u u h
drive-found applying k now s u h = elim (Bool-cases (ltb apply_timeout (now - u.updated_at))) [
  | inl e ↦ rw e (fail-found (wedged u) k now s u h)
  | inr e ↦ rw e h
]
drive-found applied k now s u h = h
drive-found failed k now s u h = h

pub beat-found :
    (k v : Text) (now : ℕ) (s : Updates) (u : ProbeUpdate)
    → find_update k s.rows ≡ some u
    → find_update k (heartbeat_update_for working s k v now).0.rows ≡ some (row_beat u (v, now))
unfolding heartbeat_update_for row_beat
beat-found k v now s u h = elim (Bool-cases (is_applied u.state)) [
  | inl a ↦ rw (h, a) h
  | inr a ↦ elim (Bool-cases (text_eq (base_version v) u.target_version)) [
    | inl e ↦ rw (h, a, e) (set_state-found applied [] k now s.rows u h)
    | inr e ↦ rw (h, a, e) (drive-found u.state k now s u h)
  ]
]

unfoldable pub row_beats : ProbeUpdate → List Beat → ProbeUpdate
row_beats u [] = u
row_beats u (b ∷ bs) = row_beats (row_beat u b) bs

pub beats-found :
    (k : Text) (bs : List Beat) (s : Updates) (u : ProbeUpdate)
    → find_update k s.rows ≡ some u
    → find_update k (beat_all k bs s).rows ≡ some (row_beats u bs)
unfolding beat_all row_beats
beats-found k [] s u h = h
beats-found k ((v, now) ∷ bs) s u h =
    beats-found k bs (heartbeat_update_for working s k v now).0 (row_beat u (v, now))
      (beat-found k v now s u h)
