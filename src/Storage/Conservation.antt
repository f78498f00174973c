-- ===== src/Storage/Conservation.antt =====
-- Nothing that the sink of internal/storage/sink.go takes is lost but the samples that it counts.
use hoptrail.Common.{
  ◌+◌, ◌-◌, ◌≤◌, ◌<◌, ◌≡◌, sym, ap, inl, inr, List, [], ◌∷◌, ◌++◌, arith, length, drop, map, ltb,
  leb, Bool-cases, append_assoc, append-nil, map-append, length-append, length-drop, length-map,
}
use hoptrail.Common.Addr.{Addr}
use hoptrail.Common.Text.{Text}
use hoptrail.Common.Subsequence.{
  Subsequence, Subsequence-trans, Subsequence-snoc, drop-Subsequence, append-Subsequence,
  map-Subsequence,
}
use hoptrail.Probe.Events.{Sample, RouteChange}
use hoptrail.Storage.Sink.{
  buffer_cap, BatchedSink, make_room, queued, write_sample, write_route_change, requeue_samples,
  requeue, Write, a_sample, a_change, after_writes, sample_row, change_row, stored,
}

module _ (show : Addr → Text) where
  -- What is stored, `fs` and `fc` that a flush has in its hands, and what is queued make up all the
  -- changes `ac`, and all the samples `as` but those that are counted as dropped, in order.
  pub record Conserved (fs : List Sample) (fc : List RouteChange) (s : BatchedSink)
      (all : List Sample) (ac : List RouteChange) : Type 0 where
    pub in_order :
        Subsequence
          (s.sample_rows ++ map (sample_row show) (fs ++ s.samples))
          (map (sample_row show) all)
    pub counted :
        length s.sample_rows + length (fs ++ s.samples) + s.dropped + s.reported ≡ length all
    pub bounded : length s.samples ≤ buffer_cap
    pub all_changes :
        s.change_rows ++ map (change_row show) (fc ++ s.changes) ≡ map (change_row show) ac

  module _ (fs : List Sample) (fc : List RouteChange) where
    make_room-Conserved :
        (s : BatchedSink) (all : List Sample) (ac : List RouteChange)
        → Conserved fs fc s all ac
        → Conserved fs fc (make_room s) all ac × (length (make_room s).samples < buffer_cap)
    make_room-Conserved s all ac h = elim (Bool-cases (leb buffer_cap (length s.samples))) [
      | inr e ↦ rw e (h, ground arith)
      | inl e ↦
          let b = h.bounded in
          let l = length-drop 1 s.samples in
          rw e (
            record {
              in_order = Subsequence-trans h.in_order (
                  append-Subsequence s.sample_rows (
                    map-Subsequence (sample_row show)
                      (append-Subsequence fs (drop-Subsequence 1 s.samples))));
              counted = ground (
                arith,
                h.counted,
                length-append fs s.samples,
                length-append fs (drop 1 s.samples),
                l,
              );
              bounded = ground arith;
              all_changes = h.all_changes;
            },
            ground arith,
          )
    ]

    queued-Conserved :
        (x : Sample) (s : BatchedSink) (all : List Sample) (ac : List RouteChange)
        → Conserved fs fc s all ac
        → length s.samples < buffer_cap
        → Conserved fs fc (queued x s) (all ++ x ∷ []) ac
    queued-Conserved x s all ac h b = record {
      in_order =
          rw
            (
              sym (append_assoc fs s.samples (x ∷ [])),
              map-append (sample_row show) (fs ++ s.samples) (x ∷ []),
              sym (
                  append_assoc s.sample_rows (map (sample_row show) (fs ++ s.samples))
                    (sample_row show x ∷ [])),
              map-append (sample_row show) all (x ∷ []),
            )
            (Subsequence-snoc (sample_row show x) h.in_order);
      counted = omega (
        arith,
        h.counted,
        length-append fs s.samples,
        length-append fs (s.samples ++ x ∷ []),
        length-append s.samples (x ∷ []),
        length-append all (x ∷ []),
      );
      bounded = omega (arith, b, length-append s.samples (x ∷ []));
      all_changes = h.all_changes;
    }

    write_sample-Conserved :
        (x : Sample) (s : BatchedSink) (all : List Sample) (ac : List RouteChange)
        → Conserved fs fc s all ac
        → Conserved fs fc (write_sample x s) (all ++ x ∷ []) ac
    unfolding write_sample
    write_sample-Conserved x s all ac h =
        let m = make_room-Conserved s all ac h in queued-Conserved x (make_room s) all ac m.0 m.1

    write_route_change-Conserved :
        (x : RouteChange) (s : BatchedSink) (all : List Sample) (ac : List RouteChange)
        → Conserved fs fc s all ac
        → Conserved fs fc (write_route_change x s) all (ac ++ x ∷ [])
    unfolding write_route_change
    write_route_change-Conserved x s all ac h = record {
      in_order = h.in_order;
      counted = h.counted;
      bounded = h.bounded;
      all_changes =
          rw
            (
              sym (append_assoc fc s.changes (x ∷ [])),
              map-append (change_row show) (fc ++ s.changes) (x ∷ []),
              sym (
                  append_assoc s.change_rows (map (change_row show) (fc ++ s.changes))
                    (change_row show x ∷ [])),
              map-append (change_row show) ac (x ∷ []),
            )
            (ap (λ l. l ++ change_row show x ∷ []) h.all_changes);
    }

  -- The samples and the changes of some calls of the engine.
  unfoldable pub samples_of : List Write → List Sample
  samples_of [] = []
  samples_of (a_sample x ∷ ws) = x ∷ samples_of ws
  samples_of (a_change x ∷ ws) = samples_of ws

  unfoldable pub changes_of : List Write → List RouteChange
  changes_of [] = []
  changes_of (a_sample x ∷ ws) = changes_of ws
  changes_of (a_change x ∷ ws) = x ∷ changes_of ws

  pub after_writes-Conserved :
      (fs : List Sample) (fc : List RouteChange) (ws : List Write) (s : BatchedSink)
      (all : List Sample) (ac : List RouteChange)
      → Conserved fs fc s all ac
      → Conserved fs fc (after_writes ws s) (all ++ samples_of ws) (ac ++ changes_of ws)
  unfolding after_writes samples_of changes_of
  after_writes-Conserved fs fc [] s all ac h = rw (append-nil all, append-nil ac) h
  after_writes-Conserved fs fc (a_sample x ∷ ws) s all ac h =
      rw⁻¹ (append_assoc all (x ∷ []) (samples_of ws)) (
        after_writes-Conserved fs fc ws (write_sample x s) (all ++ x ∷ []) ac
          (write_sample-Conserved fs fc x s all ac h))
  after_writes-Conserved fs fc (a_change x ∷ ws) s all ac h =
      rw⁻¹ (append_assoc ac (x ∷ []) (changes_of ws)) (
        after_writes-Conserved fs fc ws (write_route_change x s) all (ac ++ x ∷ [])
          (write_route_change-Conserved fs fc x s all ac h))

  module _ (all : List Sample) (ac : List RouteChange) where
    requeue_samples-Conserved :
        (fs : List Sample) (fc : List RouteChange) (s : BatchedSink)
        → Conserved fs fc s all ac
        → Conserved [] fc (requeue_samples fs s) all ac
    requeue_samples-Conserved [] fc s h = h
    requeue_samples-Conserved (x ∷ xs) fc s h =
        let merged : List Sample = x ∷ (xs ++ s.samples) in
        elim (Bool-cases (ltb buffer_cap (length merged))) [
          | inr e ↦ rw e (record {
            in_order = h.in_order;
            counted = h.counted;
            bounded = ground arith;
            all_changes = h.all_changes;
          })
          | inl e ↦
              let l = length-drop (length merged - buffer_cap) merged in
              rw e (record {
                in_order = Subsequence-trans h.in_order (
                    append-Subsequence s.sample_rows (
                      map-Subsequence (sample_row show)
                        (drop-Subsequence (length merged - buffer_cap) merged)));
                counted = ground (arith, h.counted, l);
                bounded = ground (arith, l);
                all_changes = h.all_changes;
              })
        ]

    pub requeue-Conserved :
        (fs : List Sample) (fc : List RouteChange) (s : BatchedSink)
        → Conserved fs fc s all ac
        → Conserved [] [] (requeue fs fc s) all ac
    unfolding requeue
    requeue-Conserved fs [] s h = requeue_samples-Conserved fs [] s h
    requeue-Conserved fs (x ∷ xs) s h =
        let r = requeue_samples-Conserved fs (x ∷ xs) s h in
        record {
          in_order = r.in_order;
          counted = r.counted;
          bounded = r.bounded;
          all_changes = r.all_changes;
        }

    pub stored-Conserved :
        (fs : List Sample) (fc : List RouteChange) (s : BatchedSink)
        → Conserved fs fc s all ac
        → Conserved [] [] (stored show fs fc s) all ac
    stored-Conserved fs fc s h = record {
      in_order =
          rw
            (
              append_assoc s.sample_rows (map (sample_row show) fs)
                  (map (sample_row show) s.samples),
              sym (map-append (sample_row show) fs s.samples),
            )
            h.in_order;
      counted = omega (
        arith,
        h.counted,
        length-append s.sample_rows (map (sample_row show) fs),
        length-map (sample_row show) fs,
        length-append fs s.samples,
      );
      bounded = h.bounded;
      all_changes =
          rw
            (
              append_assoc s.change_rows (map (change_row show) fc)
                  (map (change_row show) s.changes),
              sym (map-append (change_row show) fc s.changes),
            )
            h.all_changes;
    }
