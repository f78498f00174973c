-- ===== src/Server/Settling.antt =====
-- Where a commanded update of a remote probe (internal/server/probeupdate.go) ends.
use hoptrail.Common.{
  ℕ, ◌+◌, ◌-◌, ◌≤◌, ◌<◌, ◌≡◌, refl, ap, ◌∙◌, inl, inr, Bool, true, false, ◌&&◌, ◌||◌, some, List,
  [], ◌∷◌, arith, length, ltb, if◌then◌else◌, Bool-cases,
}
use hoptrail.Common.Text.{Text, text_eq}
use hoptrail.Storage.ProbeUpdates.{
  UpdateState, pending, applying, applied, failed, ProbeUpdate, find_update, moved, counted,
}
use hoptrail.Server.ProbeUpdate.{
  apply_timeout, max_update_deliveries, Updates, wedged, too_old, is_applied, base_version,
}
use hoptrail.Server.UpdateEvents.{ProbeMessage, take_all, Until, take_all-Becomes}
use hoptrail.Server.UpdateRows.{Beat, beat_all, row_drive, row_beat, row_beats, beats-found}

-- Whether some heartbeat reports the version, and whether some comes after the timeout.
unfoldable pub reports : Text → List Beat → Bool
reports target [] = false
reports target ((v, now) ∷ bs) = text_eq (base_version v) target || reports target bs

unfoldable pub has_late : ℕ → List Beat → Bool
has_late since [] = false
has_late since ((v, now) ∷ bs) = ltb apply_timeout (now - since) || has_late since bs

-- Heartbeats that bring the row to an end: one more than the deliveries that are left, or one after
-- the timeout.
abbrev pub are_enough : UpdateState → ProbeUpdate → List Beat → Bool
are_enough pending u bs = ltb 0 (length bs) && ltb max_update_deliveries (u.deliveries + length bs)
are_enough applying u bs = has_late u.updated_at bs
are_enough applied u bs = false
are_enough failed u bs = true

abbrev pub end_of : Bool → UpdateState
end_of true = applied
end_of false = failed

row_beats-cons :
    (st : UpdateState) (u : ProbeUpdate) (v : Text) (now : ℕ) (bs : List Beat)
    → u.state ≡ st
    → (row_beats u ((v, now) ∷ bs)).state
      ≡ (row_beats
          (if is_applied st
            then u
            else if text_eq (base_version v) u.target_version
            then moved applied [] now u
            else row_drive st u now)
          bs).state
unfolding row_beats row_beat
row_beats-cons st u v now bs h =
    ap
      (λ x.
        (row_beats
          (if is_applied x
            then u
            else if text_eq (base_version v) u.target_version
            then moved applied [] now u
            else row_drive x u now)
          bs).state)
      h

applied_stays :
    (bs : List Beat) (u : ProbeUpdate) → u.state ≡ applied → (row_beats u bs).state ≡ applied
unfolding row_beats
applied_stays [] u h = h
applied_stays ((v, now) ∷ bs) u h = row_beats-cons applied u v now bs h ∙ applied_stays bs u h

rows_settle :
    (bs : List Beat) (st : UpdateState) (u : ProbeUpdate)
    → u.state ≡ st
    → are_enough st u bs ≡ true
    → (row_beats u bs).state ≡ end_of (reports u.target_version bs)
unfolding row_beats reports has_late
rows_settle [] pending u h k = absurd (ground arith)
rows_settle [] applying u h k = absurd (ground arith)
rows_settle bs applied u h k = absurd (ground arith)
rows_settle [] failed u h k = h
rows_settle ((v, now) ∷ bs) failed u h k =
    elim (Bool-cases (text_eq (base_version v) u.target_version)) [
      | inl e ↦
          row_beats-cons failed u v now bs h
          ∙ rw (e) (applied_stays bs (moved applied [] now u) refl)
      | inr e ↦ row_beats-cons failed u v now bs h ∙ rw (e) (rows_settle bs failed u h refl)
    ]
rows_settle ((v, now) ∷ bs) applying u h k =
    elim (Bool-cases (text_eq (base_version v) u.target_version)) [
      | inl e ↦
          row_beats-cons applying u v now bs h
          ∙ rw (e) (applied_stays bs (moved applied [] now u) refl)
      | inr e ↦ elim (Bool-cases (ltb apply_timeout (now - u.updated_at))) [
        | inl l ↦
            row_beats-cons applying u v now bs h
            ∙ rw (e, l) (rows_settle bs failed (moved failed (wedged u) now u) refl refl)
        | inr l ↦
            row_beats-cons applying u v now bs h
            ∙ rw (e, l) (rows_settle bs applying u h (ground arith))
      ]
    ]
rows_settle ((v, now) ∷ bs) pending u h k =
    elim (Bool-cases (text_eq (base_version v) u.target_version)) [
      | inl e ↦
          row_beats-cons pending u v now bs h
          ∙ rw (e) (applied_stays bs (moved applied [] now u) refl)
      | inr e ↦ elim (Bool-cases (ltb max_update_deliveries (u.deliveries + 1))) [
        | inl l ↦
            row_beats-cons pending u v now bs h
            ∙ rw (e, l) (rows_settle bs failed (moved failed too_old now (counted now u)) refl refl)
        | inr l ↦
            row_beats-cons pending u v now bs h
            ∙ rw (e, l) (rows_settle bs pending (counted now u) h (ground arith))
      ]
    ]

late_since :
    (bs : List Beat) (t since : ℕ) → since ≤ t → has_late t bs ≡ true → has_late since bs ≡ true
unfolding has_late
late_since [] t since l h = h
late_since ((v, now) ∷ bs) t since l h = ground (arith, late_since bs t since l)

-- Three heartbeats, one of them late, are enough for a row whatever its state.
row_ends :
    (bs : List Beat) (t : ℕ) (st : UpdateState) (u : ProbeUpdate)
    → u.state ≡ st
    → u.updated_at ≤ t
    → max_update_deliveries < length bs
    → has_late t bs ≡ true
    → (row_beats u bs).state ≡ end_of (is_applied st || reports u.target_version bs)
row_ends bs t pending u e l n h = rows_settle bs pending u e (ground arith)
row_ends bs t applying u e l n h = rows_settle bs applying u e (late_since bs t u.updated_at l h)
row_ends bs t applied u e l n h = applied_stays bs u e
row_ends bs t failed u e l n h = rows_settle bs failed u e refl

-- While the store works and no new command is given: for a row that was last changed by a time `t`,
-- and after any heartbeats and status reports of its probe up to `t`, at least three heartbeats
-- without a status report among them, one of which comes more than five minutes after `t`, bring
-- the update to its end. It is then applied if it was applied before these heartbeats or one of
-- them reports its version, and failed if not.
pub update_settles :
    (k : Text) (es : List ProbeMessage) (bs : List Beat) (t : ℕ) (s : Updates) (u : ProbeUpdate)
    → find_update k s.rows ≡ some u
    → u.updated_at ≤ t
    → Until t es
    → max_update_deliveries < length bs
    → has_late t bs ≡ true
    → (v w : ProbeUpdate) × (find_update k (take_all k es s).rows ≡ some v)
      × (find_update k (beat_all k bs (take_all k es s)).rows ≡ some w)
      × (w.state ≡ end_of (is_applied v.state || reports u.target_version bs))
update_settles k es bs t s u h l m n late =
    let (v, hv, ev, lv) = take_all-Becomes k es s u t h l m in
    (
      v,
      row_beats v bs,
      hv,
      beats-found k bs (take_all k es s) v hv,
      row_ends bs t v.state v refl lv n late
          ∙ ap (λ x. end_of (is_applied v.state || reports x bs)) ev,
    )
