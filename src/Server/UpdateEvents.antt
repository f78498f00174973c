-- ===== src/Server/UpdateEvents.antt =====
-- Runs of the heartbeats and the status reports of a probe under an update
-- (internal/server/probeupdate.go), and what they make of its row.
use hoptrail.Common.{ℕ, ◌≤◌, ◌≡◌, refl, ◌∙◌, inl, inr, some, List, [], ◌∷◌, arith, Bool-cases}
use hoptrail.Common.Text.{Text, text_eq}
use hoptrail.Storage.ProbeUpdates.{
  UpdateState, pending, applying, applied, failed, ProbeUpdate, find_update, moved,
}
use hoptrail.Server.ProbeUpdate.{
  Updates, ReportedState, is_applying, is_failed, other_state, take_status, heartbeat_update_for,
  is_applied, base_version,
}
use hoptrail.Server.UpdateRows.{
  working, row_drive, row_beat, set_state-found, fail-found, beat-found,
}

-- A heartbeat with the version that it reports, or a status report with its error text; each with
-- its time.
pub data ProbeMessage : Type 0 where
  heartbeat : Text → ℕ → ProbeMessage
  report : ReportedState → Text → ℕ → ProbeMessage

abbrev pub take : Text → ProbeMessage → Updates → Updates
take k (heartbeat v now) s = (heartbeat_update_for working s k v now).0
take k (report st error now) s = (take_status working s st k error now).0

unfoldable pub take_all : Text → List ProbeMessage → Updates → Updates
take_all k [] s = s
take_all k (e ∷ es) s = take_all k es (take k e s)

abbrev pub time_of : ProbeMessage → ℕ
time_of (heartbeat v now) = now
time_of (report st error now) = now

-- No event comes after the time.
unfoldable pub Until : ℕ → List ProbeMessage → Type 0
Until t [] = 0 ≤ t
Until t (e ∷ es) = (time_of e ≤ t) × Until t es

-- The row that the probe's row becomes.
abbrev Becomes : Text → Updates → ProbeUpdate → ℕ → Type 0
Becomes k s u t =
    (v : ProbeUpdate) × (find_update k s.rows ≡ some v)
    × (v.target_version ≡ u.target_version)
    × (v.updated_at ≤ t)

row_drive_keeps :
    (st : UpdateState) (u : ProbeUpdate) (now t : ℕ)
    → u.updated_at ≤ t
    → now ≤ t
    → ((row_drive st u now).target_version ≡ u.target_version)
      × ((row_drive st u now).updated_at ≤ t)
row_drive_keeps applying u now t h l = ground arith
row_drive_keeps pending u now t h l = ground arith
row_drive_keeps applied u now t h l = (refl, h)
row_drive_keeps failed u now t h l = (refl, h)

row_beat_keeps :
    (u : ProbeUpdate) (v : Text) (now t : ℕ)
    → u.updated_at ≤ t
    → now ≤ t
    → ((row_beat u (v, now)).target_version ≡ u.target_version)
      × ((row_beat u (v, now)).updated_at ≤ t)
unfolding row_beat
row_beat_keeps u v now t h l = elim (Bool-cases (is_applied u.state)) [
  | inl a ↦ rw a (refl, h)
  | inr a ↦ elim (Bool-cases (text_eq (base_version v) u.target_version)) [
    | inl e ↦ rw (a, e) (refl, l)
    | inr e ↦ rw (a, e) (row_drive_keeps u.state u now t h l)
  ]
]

take-Becomes :
    (k : Text) (e : ProbeMessage) (s : Updates) (u : ProbeUpdate) (t : ℕ)
    → find_update k s.rows ≡ some u
    → u.updated_at ≤ t
    → time_of e ≤ t
    → Becomes k (take k e s) u t
take-Becomes k (heartbeat v now) s u t h l m =
    let (e, b) = row_beat_keeps u v now t l m in
    (row_beat u (v, now), beat-found k v now s u h, e, b)
take-Becomes k (report is_applying error now) s u t h l m =
    (moved applying [] now u, set_state-found applying [] k now s.rows u h, refl, m)
take-Becomes k (report is_failed error now) s u t h l m =
    (moved failed _ now u, fail-found _ k now s u h, refl, m)
take-Becomes k (report other_state error now) s u t h l m = (u, h, refl, l)

-- Whatever the probe reports up to a time, its row stays, is for the same version, and was not touched
-- after that time.
pub take_all-Becomes :
    (k : Text) (es : List ProbeMessage) (s : Updates) (u : ProbeUpdate) (t : ℕ)
    → find_update k s.rows ≡ some u
    → u.updated_at ≤ t
    → Until t es
    → Becomes k (take_all k es s) u t
unfolding take_all Until
take_all-Becomes k [] s u t h l m = (u, h, refl, l)
take_all-Becomes k (e ∷ es) s u t h l (m, ms) =
    let (v, hv, ev, lv) = take-Becomes k e s u t h l m in
    let (w, hw, ew, lw) = take_all-Becomes k es (take k e s) v t hv lv ms in (w, hw, ew ∙ ev, lw)
