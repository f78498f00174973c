-- ===== src/Agent/Drain.antt =====
-- What a drain of the spill buffer (internal/agent/sink.go) posts and deletes.
use hoptrail.Common.{
  ℕ, zero, suc, ◌≤◌, ◌<◌, ◌≡◌, refl, ap, ◌⊎◌, inl, inr, Bool, true, false, Option, some, List, [],
  ◌∷◌, arith, length, take, drop, Bool-cases,
}
use hoptrail.Common.Text.{Text}
use hoptrail.Agent.Buffer.{Batch}
use hoptrail.Agent.Client.{
  Outcome, outcome_ok, outcome_retry, outcome_drop, outcome_unauthorized, classify,
}
use hoptrail.Agent.Sink.{Drained, Turns, after_post, drain_buffer, posting}
use hoptrail.Agent.Table.{Table, Table-drop, remove_oldest_lem}

-- Central has taken the batch or rejected it for good.
abbrev pub is_final : Outcome → Bool
is_final outcome_ok = true
is_final outcome_drop = true
is_final outcome_retry = false
is_final outcome_unauthorized = false

unfoldable pub AllFinal : List (Text × Outcome) → Type 0
AllFinal [] = true ≡ true
AllFinal ((body, o) ∷ ps) = (is_final o ≡ true) × AllFinal ps

abbrev pub bodies : List Batch → List Text
bodies [] = []
bodies (b ∷ bs) = b.payload ∷ bodies bs

abbrev pub posted_bodies : List (Text × Outcome) → List Text
posted_bodies [] = []
posted_bodies ((body, o) ∷ ps) = body ∷ posted_bodies ps

-- The payloads posted are the oldest ones in their order; the rows deleted are the first of these,
-- all of them with a final outcome, and a healthy drain leaves none.
abbrev pub InOrder : List Batch → Drained → Type 0
InOrder rows d =
    (n : ℕ) × (d.rows ≡ drop n rows)
    × (n ≤ length d.posted)
    × AllFinal (take n d.posted)
    × (posted_bodies d.posted ≡ take (length d.posted) (bodies rows))
    × ((d.healthy ≡ false) ⊎ (d.rows ≡ []))

-- A drain that ends with this batch still in the table.
kept_back :
    (b : Batch) (bs : List Batch) (o : Outcome) (fatal : Bool)
    → InOrder
        (b ∷ bs)
        (record { rows = b ∷ bs; healthy = false; fatal = fatal; posted = (b.payload, o) ∷ [] })
unfolding AllFinal
kept_back b bs o fatal = (0, refl, omega arith, refl, refl, inl refl)

-- One that goes on behind it.
behind :
    (b : Batch) (bs : List Batch) (o : Outcome) (d : Drained)
    → is_final o ≡ true
    → InOrder bs d
    → InOrder (b ∷ bs) (record d { posted = (b.payload, o) ∷ d.posted })
unfolding AllFinal
behind b bs o d h (n, r, l, a, p, e) =
    (suc n, r, omega (arith, l), (h, a), ap (λ x. b.payload ∷ x) p, e)

abbrev pub Drains : List Batch → Option Drained → Type 0
Drains rows o = (d : Drained) × (o ≡ some d) × InOrder rows d

after_post-Drains :
    (fails : Bool) (b : Batch) (bs : List Batch) (o : Outcome) (rest : Option Drained)
    → Drains bs rest
    → Drains (b ∷ bs) (after_post fails (b ∷ bs) b.payload o rest)
after_post-Drains true b bs outcome_ok rest x = (_, refl, kept_back b bs outcome_ok false)
after_post-Drains false b bs outcome_ok rest (d, q, x) =
    (_, ap (posting b.payload outcome_ok) q, behind b bs outcome_ok d refl x)
after_post-Drains fails b bs outcome_retry rest x = (_, refl, kept_back b bs outcome_retry false)
after_post-Drains true b bs outcome_drop rest x = (_, refl, kept_back b bs outcome_drop false)
after_post-Drains false b bs outcome_drop rest (d, q, x) =
    (_, ap (posting b.payload outcome_drop) q, behind b bs outcome_drop d refl x)
after_post-Drains fails b bs outcome_unauthorized rest x =
    (_, refl, kept_back b bs outcome_unauthorized true)

drain_buffer-InOrder :
    (fuel : ℕ) (turns : Turns) (i : ℕ) (rows : List Batch)
    → Table rows
    → length rows < fuel
    → Drains rows (drain_buffer fuel turns i rows)
unfolding drain_buffer AllFinal
drain_buffer-InOrder zero turns i rows t h = absurd (omega arith)
drain_buffer-InOrder (suc fuel) turns i [] t h = elim (Bool-cases (turns.read_fails i)) [
  | inl s ↦ rw s (_, refl, (0, refl, omega arith, refl, refl, inr refl))
  | inr s ↦ rw s (_, refl, (0, refl, omega arith, refl, refl, inr refl))
]
drain_buffer-InOrder (suc fuel) turns i (b ∷ bs) t h = elim (Bool-cases (turns.read_fails i)) [
  | inl s ↦ rw s (_, refl, (0, refl, omega arith, refl, refl, inl refl))
  | inr s ↦ rw s (
      after_post-Drains (turns.delete_fails i) b bs (classify (turns.answer i b.payload)) _ (
        rw (remove_oldest_lem (b ∷ bs) t)
          (drain_buffer-InOrder fuel turns (suc i) bs (Table-drop 1 (b ∷ bs) t) (omega arith))))
]

-- On a table in its order, with fuel beyond the number of its rows, a drain returns: it posts the
-- oldest payloads in their order, the rows that it deletes are the first of those posted, each of
-- them accepted or rejected for good, and a healthy drain leaves the table empty.
pub drain_buffer_lem :
    (turns : Turns) (rows : List Batch)
    → Table rows
    → Drains rows (drain_buffer (suc (length rows)) turns 0 rows)
drain_buffer_lem turns rows t =
    drain_buffer-InOrder (suc (length rows)) turns 0 rows t (omega arith)
