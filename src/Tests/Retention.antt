-- ===== src/Tests/Retention.antt =====
-- Tests and witnesses for internal/retention and internal/storage/retention.go.
use hoptrail.Common.{
  ℕ, ◌≡◌, refl, true, false, Option, none, some, List, [], ◌∷◌, arith, ◌==◌, if◌then◌else◌,
}
use hoptrail.Common.Text.{codes}
use hoptrail.Alert.Config.{atoi, digits_value}
use hoptrail.Release.{found}
use hoptrail.Retention.{
  effective_days, delete_batch, delete_samples_older_than, retry, checkpoint_with_retry,
}
use hoptrail.Retention.Batches.{Purged, delete_samples_older_than_lem}
use hoptrail.Retention.Retry.{Ends, checkpoint_with_retry_lem}

year : effective_days 30 (found (codes "365")) ≡ 365
unfolding effective_days atoi digits_value
year = refl

too_long : effective_days 30 (found (codes "3651")) ≡ 30
unfolding effective_days atoi digits_value
too_long = refl

abbrev times : List ℕ
times = 1 ∷ 9 ∷ 2 ∷ 3 ∷ 8 ∷ []

-- Three old rows in batches of two.
in_batches :
    delete_samples_older_than 6 (λ i. false) 0 2 5 times 0
    ≡ some (record { rows = 9 ∷ 8 ∷ []; total = 3; ok = true })
unfolding delete_samples_older_than delete_batch
in_batches = refl

delete_samples_older_than_lem_example :
    Purged 5 times 0 (delete_samples_older_than 6 (λ i. false) 0 2 5 times 0)
delete_samples_older_than_lem_example =
    delete_samples_older_than_lem (λ i. false) 2 5 times (omega arith)

abbrev third_time : ℕ → Option ℕ
third_time i = if i == 3 then some 7 else none

third : checkpoint_with_retry 5 third_time (λ i. false) ≡ (some 7, 3)
unfolding checkpoint_with_retry retry
third = refl

checkpoint_with_retry_lem_example :
    Ends 4 1 third_time (λ i. false) (checkpoint_with_retry 5 third_time (λ i. false))
checkpoint_with_retry_lem_example = checkpoint_with_retry_lem 5 third_time (λ i. false)
