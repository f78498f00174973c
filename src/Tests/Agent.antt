-- ===== src/Tests/Agent.antt =====
-- Tests and witnesses for internal/agent.
use hoptrail.Common.{
  ℕ, ◌*◌, ◌^◌, ◌≤◌, ◌≡◌, refl, true, false, [], ◌∷◌, ◌++◌, ◌==◌, if◌then◌else◌, arith, replicate,
  min,
}
use hoptrail.Common.Text.{Text, codes, text_eq, text_lt}
use hoptrail.Agent.Buffer.{
  Batch, Buffer, AddFaults, earlier, total, insert_batch, remove_id, added, evict_loop, add,
  after_add,
}
use hoptrail.Agent.Client.{status, classify, outcome_drop}
use hoptrail.Agent.Sink.{Turns, drain_buffer, flush_retry_base, flush_retry_max, delay_after}
use hoptrail.Agent.Table.{Table, Unknown, NoneBefore}
use hoptrail.Agent.Evict.{Kept, add_lem, after_add-Table}
use hoptrail.Agent.Drain.{Drains, drain_buffer_lem}
use hoptrail.Agent.Backoff.{delay_after_lem}

abbrev batch : ℕ → Text → Text → Batch
batch at id body = record { batch_id = id; created_at = at; payload = body }

abbrev spilled : Buffer
spilled = record {
  rows = batch 1 (codes "a") (codes "one") ∷ batch 2 (codes "b") (codes "two") ∷ [];
  max_bytes = 8;
}

abbrev smooth : AddFaults
smooth = record {
  begin = false;
  insert = false;
  size = λ n. false;
  evict = λ n. false;
  commit = false;
}

-- The oldest batch makes room for the new one.
add_third :
    add smooth spilled (batch 3 (codes "c") (codes "six"))
    ≡ added (batch 2 (codes "b") (codes "two") ∷ batch 3 (codes "c") (codes "six") ∷ []) 1
unfolding add evict_loop insert_batch remove_id total earlier text_eq text_lt
add_third = refl

spilled-Table : Table spilled.rows
unfolding Table Unknown NoneBefore earlier text_eq text_lt
spilled-Table = ((refl, refl), (refl, refl), (refl, refl, refl))

spilled_fits : total spilled.rows ≤ 8
unfolding total
spilled_fits = omega arith

add_lem_example :
    Kept spilled
      (batch 3 (codes "c") (codes "six"))
      (add smooth spilled (batch 3 (codes "c") (codes "six")))
add_lem_example = add_lem smooth spilled (batch 3 (codes "c") (codes "six")) spilled-Table

after_add-Table_example :
    Table (after_add spilled (add smooth spilled (batch 3 (codes "c") (codes "six")))).rows
    × (total (after_add spilled (add smooth spilled (batch 3 (codes "c") (codes "six")))).rows ≤ 8)
after_add-Table_example =
    after_add-Table smooth spilled (batch 3 (codes "c") (codes "six")) spilled-Table spilled_fits

-- Central answers the first post and is gone for the second.
abbrev turns : Turns
turns = record {
  read_fails = λ i. false;
  delete_fails = λ i. false;
  answer = λ i body. if i == 0 then status 200 else status 503;
}

drain_buffer_lem_example : Drains spilled.rows (drain_buffer 3 turns 0 spilled.rows)
drain_buffer_lem_example = drain_buffer_lem turns spilled.rows spilled-Table

skewed : classify (status 400) ≡ outcome_drop
unfolding classify
skewed = refl

delay_after_lem_example :
    delay_after ((false ∷ []) ++ true ∷ replicate 3 false) 5
    ≡ min (flush_retry_base * 2 ^ 3) flush_retry_max
delay_after_lem_example = delay_after_lem (false ∷ []) 3 5
