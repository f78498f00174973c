-- ===== src/Storage/SinkRuns.antt =====
-- Runs of the sink (internal/storage/sink.go), with flushes that fail.
use hoptrail.Common.{
  ◌≡◌, refl, inl, inr, true, false, not, ◌&&◌, ◌||◌, List, [], ◌∷◌, ◌++◌, arith, Bool-cases,
  append_assoc, append-nil,
}
use mathlib.Core.Path.{subst}
use hoptrail.Common.Addr.{Addr}
use hoptrail.Common.Text.{Text}
use hoptrail.Common.Subsequence.{ended}
use hoptrail.Probe.Events.{Sample, RouteChange}
use hoptrail.Storage.Sink.{
  BatchedSink, new_batched_sink, FlushFaults, is_empty, inserts_samples, inserts_changes, Write,
  after_writes, transact, flush, SinkEvent, engine, on_tick, signalled, drop_tick, log_dropped,
  handled, run,
}
use hoptrail.Storage.Conservation.{
  Conserved, samples_of, changes_of, after_writes-Conserved, requeue-Conserved, stored-Conserved,
}

abbrev pub writes_of : (show : Addr → Text) → SinkEvent show → List Write
writes_of show (engine ws) = ws
writes_of show (on_tick f ws) = ws
writes_of show (signalled f ws) = ws
writes_of show drop_tick = []

unfoldable pub offered_samples : (show : Addr → Text) → List (SinkEvent show) → List Sample
unfolding samples_of
offered_samples show [] = []
offered_samples show (e ∷ es) = samples_of show (writes_of show e) ++ offered_samples show es

unfoldable pub offered_changes : (show : Addr → Text) → List (SinkEvent show) → List RouteChange
unfolding changes_of
offered_changes show [] = []
offered_changes show (e ∷ es) = changes_of show (writes_of show e) ++ offered_changes show es

is_empty-nil {ℓ} : {A : Type ℓ} (xs : List A) → is_empty xs ≡ true → xs ≡ []
is_empty-nil [] h = refl
is_empty-nil (x ∷ xs) h = absurd (ground arith)

module _ (show : Addr → Text) where
  transact-Conserved :
      (f : FlushFaults) (fs : List Sample) (fc : List RouteChange) (s : BatchedSink)
      (all : List Sample) (ac : List RouteChange)
      → Conserved show fs fc s all ac
      → Conserved show [] [] (transact show f fs fc s) all ac
  transact-Conserved f fs fc s all ac h =
      let r = requeue-Conserved show all ac fs fc s h in
      elim (Bool-cases f.begin) [
        | inl e ↦ rw e r
        | inr e ↦ elim (Bool-cases (inserts_samples f fs)) [
          | inr i ↦ rw (e, i) r
          | inl i ↦ elim (Bool-cases (not (inserts_changes f fc) || f.commit)) [
            | inl c ↦ rw (e, i, c) r
            | inr c ↦ rw (e, i, c) (stored-Conserved show all ac fs fc s h)
          ]
        ]
      ]

  -- The buffers that a flush takes.
  taken-Conserved :
      (s : BatchedSink) (all : List Sample) (ac : List RouteChange)
      → Conserved show [] [] s all ac
      → Conserved show s.samples s.changes (record s { samples = []; changes = [] }) all ac
  taken-Conserved s all ac h = record {
    in_order = rw (append-nil s.samples) h.in_order;
    counted = rw (append-nil s.samples) h.counted;
    bounded = ground arith;
    all_changes = rw (append-nil s.changes) h.all_changes;
  }

  flush-Conserved :
      (f : FlushFaults) (ws : List Write) (s : BatchedSink) (all : List Sample)
      (ac : List RouteChange)
      → Conserved show [] [] s all ac
      → Conserved show [] []
          (flush show f ws s)
          (all ++ samples_of show ws)
          (ac ++ changes_of show ws)
  unfolding flush
  flush-Conserved f ws s all ac h =
      let t : BatchedSink = after_writes ws (record s { samples = []; changes = [] }) in
      let w =
        after_writes-Conserved show s.samples s.changes ws (record s { samples = []; changes = [] })
          all ac (taken-Conserved s all ac h) in
      elim (Bool-cases (is_empty s.samples && is_empty s.changes)) [
        | inr e ↦ rw e (
            transact-Conserved f s.samples s.changes t (all ++ samples_of show ws)
              (ac ++ changes_of show ws) w)
        | inl e ↦ rw e (
            subst
              (λ z. Conserved show z [] t (all ++ samples_of show ws) (ac ++ changes_of show ws))
              (is_empty-nil s.samples (ground arith))
              (subst
                (λ z.
                  Conserved show s.samples z t (all ++ samples_of show ws)
                    (ac ++ changes_of show ws))
                (is_empty-nil s.changes (ground arith)) w))
      ]

  log_dropped-Conserved :
      (s : BatchedSink) (all : List Sample) (ac : List RouteChange)
      → Conserved show [] [] s all ac
      → Conserved show [] [] (log_dropped show s) all ac
  log_dropped-Conserved s all ac h = record {
    in_order = h.in_order;
    counted = ground (arith, h.counted);
    bounded = h.bounded;
    all_changes = h.all_changes;
  }

  handled-Conserved :
      (e : SinkEvent show) (s : BatchedSink) (all : List Sample) (ac : List RouteChange)
      → Conserved show [] [] s all ac
      → Conserved show [] []
          (handled show e s)
          (all ++ samples_of show (writes_of show e))
          (ac ++ changes_of show (writes_of show e))
  unfolding samples_of changes_of
  handled-Conserved (engine ws) s all ac h = after_writes-Conserved show [] [] ws s all ac h
  handled-Conserved (on_tick f ws) s all ac h = flush-Conserved f ws s all ac h
  handled-Conserved (signalled f ws) s all ac h =
      flush-Conserved f ws (record s { flush_pending = false }) all ac
        (record {
          in_order = h.in_order;
          counted = h.counted;
          bounded = h.bounded;
          all_changes = h.all_changes;
        })
  handled-Conserved drop_tick s all ac h =
      rw (append-nil all, append-nil ac) (log_dropped-Conserved s all ac h)

  run_from-Conserved :
      (es : List (SinkEvent show)) (s : BatchedSink) (all : List Sample) (ac : List RouteChange)
      → Conserved show [] [] s all ac
      → Conserved show [] []
          (run show es s)
          (all ++ offered_samples show es)
          (ac ++ offered_changes show es)
  unfolding run offered_samples offered_changes
  run_from-Conserved [] s all ac h = rw (append-nil all, append-nil ac) h
  run_from-Conserved (e ∷ es) s all ac h =
      rw⁻¹
        (
          append_assoc all (samples_of show (writes_of show e)) (offered_samples show es),
          append_assoc ac (changes_of show (writes_of show e)) (offered_changes show es),
        )
        (run_from-Conserved es (handled show e s) (all ++ samples_of show (writes_of show e))
          (ac ++ changes_of show (writes_of show e)) (handled-Conserved e s all ac h))

  -- Whatever the engine writes, before, between and during flushes, and however the transactions fail:
  -- the rows of the samples in the table, followed by the queue, are those of samples that were written,
  -- in their order, and as many are missing as were counted as dropped; the queue never exceeds its
  -- bound; and the rows of the route changes, followed by their queue, are those of all that were
  -- written, in their order.
  pub run-Conserved :
      (es : List (SinkEvent show))
      → Conserved show [] []
          (run show es new_batched_sink)
          (offered_samples show es)
          (offered_changes show es)
  run-Conserved es =
      run_from-Conserved es new_batched_sink [] []
        (record { in_order = ended; counted = refl; bounded = ground arith; all_changes = refl })
