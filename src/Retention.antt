-- ===== src/Retention.antt =====
-- internal/retention/worker.go and the batched deletion of internal/storage/retention.go. A table is
-- the list of its rows' times in milliseconds.
use hoptrail.Common.{
  ℕ, zero, suc, ◌+◌, ◌-◌, ◌*◌, Bool, true, false, ◌&&◌, ◌||◌, Option, none, some, List, [], ◌∷◌,
  length, ltb, leb, if◌then◌else◌,
}
use hoptrail.Common.Int.{ℤ, pos, negsuc}
use hoptrail.Common.Text.{Text}
use hoptrail.Alert.Config.{atoi}
use hoptrail.Release.{Setting, unreadable, missing, found}
pub mod Batches
pub mod Retry

-- The operator's number of days where it is from 1 to 3650, else the configured one.
abbrev pub days_or : ℕ → Option ℤ → ℕ
days_or fallback none = fallback
days_or fallback (some (negsuc n)) = fallback
days_or fallback (some (pos n)) = if leb 1 n && leb n 3650 then n else fallback

unfoldable pub effective_days : ℕ → Setting → ℕ
effective_days fallback unreadable = fallback
effective_days fallback missing = fallback
effective_days fallback (found v) = days_or fallback (atoi v)

-- One `DELETE … WHERE ts < ? LIMIT ?`: the rows left and the number deleted.
-- SQL leaves open which rows the limit picks; here it is the first ones.
unfoldable pub delete_batch : ℕ → ℕ → List ℕ → List ℕ × ℕ
delete_batch limit cutoff [] = ([], 0)
delete_batch limit cutoff (t ∷ ts) =
    let deleted = delete_batch (limit - 1) cutoff ts in
    let kept = delete_batch limit cutoff ts in
    if ltb t cutoff && ltb 0 limit then (deleted.0, suc deleted.1) else (t ∷ kept.0, kept.1)

-- The rows left, the total deleted, and whether the loop ended without an error.
pub record Deleted : Type 0 where
  pub rows : List ℕ
  pub total : ℕ
  pub ok : Bool

-- The loop of `DeleteSamplesOlderThan`; `fails i` says whether the i-th batch fails, `none` is the
-- end of the fuel.
unfoldable pub delete_samples_older_than : ℕ → (ℕ → Bool) → ℕ → ℕ → ℕ → List ℕ → ℕ → Option Deleted
delete_samples_older_than zero fails i batch_rows cutoff rows total = none
delete_samples_older_than (suc n) fails i batch_rows cutoff rows total =
    let p = delete_batch batch_rows cutoff rows in
    let rest =
      delete_samples_older_than n fails (suc i) batch_rows cutoff
        (delete_batch batch_rows cutoff rows).0 (total + (delete_batch batch_rows cutoff rows).1) in
    if fails i
    then some (record { rows = rows; total = total; ok = false })
    else if ltb p.1 batch_rows
    then some (record { rows = p.0; total = total + p.1; ok = true })
    else rest

abbrev pub after_attempt : Option ℕ → Bool → ℕ → Option ℕ × ℕ → Option ℕ × ℕ
after_attempt (some frames) cancelled attempts rest = (some frames, attempts)
after_attempt none cancelled attempts rest = if cancelled then (none, attempts) else rest

-- The retries of a checkpoint: `run i` is the outcome of the i-th attempt and `cancelled i` whether
-- the context has ended after it. The first argument is the number of retries left.
unfoldable pub retry : ℕ → (ℕ → Option ℕ) → (ℕ → Bool) → ℕ → Option ℕ × ℕ
retry zero run cancelled attempts = (run attempts, attempts)
retry (suc n) run cancelled attempts =
    let rest = retry n run cancelled (suc attempts) in
    after_attempt (run attempts) (cancelled attempts) attempts rest

unfoldable pub checkpoint_with_retry : ℕ → (ℕ → Option ℕ) → (ℕ → Bool) → Option ℕ × ℕ
unfolding retry
checkpoint_with_retry max_attempts run cancelled = retry (max_attempts - 1) run cancelled 1
