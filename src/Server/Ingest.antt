-- ===== src/Server/Ingest.antt =====
-- internal/server/ingest.go: the endpoints that remote probes post to. A request comes with its
-- decoded body, or none where the decoder fails; the bodies of the replies, but for the acknowledged
-- batch id, are left out. `round_us` is the rounding of milliseconds to whole microseconds.
use hoptrail.Common.{
  ℕ, ◌+◌, ◌-◌, ◌%◌, ◌^◌, Bool, ◌||◌, Option, none, some, List, [], ◌∷◌, ltb, if◌then◌else◌,
}
use hoptrail.Common.Int.{ℤ, pos, negsuc, ltb_ℤ, int64}
use hoptrail.Common.Float.{Float}
use hoptrail.Common.Text.{Text, is_blank, byte_length}
use hoptrail.Server.Auth.{
  HttpRequest, Reply, status, acked, Central, Admitted, turned_away, admitted, admit,
}
use hoptrail.Storage.Probes.{
  IngestSample, IngestRouteChange, Tables, IngestFaults, Ingested, refused, fresh, duplicate,
  ingest_batch,
}

abbrev pub sub64 : ℕ → ℕ → ℕ
sub64 a b = (a + 2 ^ 64 - b) % 2 ^ 64

abbrev pub bound_ms : ℕ
bound_ms = 86_400_000

-- Whether the timestamp is refused: `skewMs > boundMs || skewMs < -boundMs` in int64.
unfoldable pub is_skewed : ℕ → ℕ → Bool
is_skewed ts now =
    ltb_ℤ (pos bound_ms) (int64 (sub64 ts now))
    || ltb_ℤ (int64 (sub64 ts now)) (negsuc (bound_ms - 1))

abbrev pub ttl_out_of_range : ℤ → Bool
ttl_out_of_range ttl = ltb_ℤ ttl (pos 1) || ltb_ℤ (pos 64) ttl

pub record SampleJson (fl : Float) : Type 0 where
  pub target : Text
  pub ttl : ℤ
  pub ts : ℕ
  pub ip : Option Text
  pub rtt_ms : fl.F

pub record SamplesRequest (fl : Float) : Type 0 where
  pub probe_id : Text
  pub batch_id : Text
  pub samples : List (SampleJson fl)
  pub route_changes : List IngestRouteChange

abbrev pub consing {ℓ} : {A : Type ℓ} → A → Option (List A) → Option (List A)
consing x none = none
consing x (some xs) = some (x ∷ xs)

module _ (fl : Float) (round_us : fl.F → ℕ) where
  abbrev pub bad_sample : ℕ → SampleJson fl → Bool
  bad_sample now s =
      is_blank s.target
      || ttl_out_of_range s.ttl
      || fl.lt s.rtt_ms (fl.of_nat 0)
      || is_skewed s.ts now

  abbrev pub stored_sample : SampleJson fl → IngestSample
  stored_sample s = record {
    target = s.target;
    ttl = s.ttl;
    ts = s.ts;
    ip = s.ip;
    rtt_us = round_us (fl.mul s.rtt_ms (fl.of_nat 1000));
  }

  -- The loops over the rows of a batch; a bad row ends them.
  unfoldable pub check_samples : ℕ → List (SampleJson fl) → Option (List IngestSample)
  check_samples now [] = some []
  check_samples now (s ∷ ss) =
      let rest = check_samples now ss in
      if bad_sample now s then none else consing (stored_sample s) rest

  abbrev pub bad_change : ℕ → IngestRouteChange → Bool
  bad_change now rc =
      is_blank rc.target || is_blank rc.new_ip || ttl_out_of_range rc.ttl || is_skewed rc.ts now

  unfoldable pub check_changes : ℕ → List IngestRouteChange → Option (List IngestRouteChange)
  check_changes now [] = some []
  check_changes now (rc ∷ rcs) =
      let rest = check_changes now rcs in if bad_change now rc then none else consing rc rest

  abbrev pub reply_of : Text → Ingested → Reply
  reply_of batch_id refused = status 500
  reply_of batch_id fresh = acked batch_id
  reply_of batch_id duplicate = acked batch_id

  abbrev pub store_rows :
      IngestFaults
      → Tables
      → Text
      → Text
      → ℕ
      → Option (List IngestSample)
      → Option (List IngestRouteChange)
      → Tables × Reply
  store_rows f t probe_id batch_id now none changes = (t, status 400)
  store_rows f t probe_id batch_id now (some ss) none = (t, status 400)
  store_rows f t probe_id batch_id now (some ss) (some rcs) =
      let p : Tables × Ingested = ingest_batch f t probe_id batch_id now ss rcs in
      (p.0, reply_of batch_id p.1)

  abbrev pub ingest_admitted :
      IngestFaults → ℕ → Tables → Admitted (SamplesRequest fl) → Tables × Reply
  ingest_admitted f now t (turned_away code) = (t, status code)
  ingest_admitted f now t (admitted req) =
      if is_blank req.batch_id || ltb 128 (byte_length req.batch_id)
      then (t, status 400)
      else store_rows f t req.probe_id req.batch_id now (check_samples now req.samples)
          (check_changes now req.route_changes)

  unfoldable pub handle_ingest_samples :
      IngestFaults → Central → Tables → HttpRequest (SamplesRequest fl) → Tables × Reply
  unfolding admit
  handle_ingest_samples f c t r = ingest_admitted f c.now t (admit (λ req. req.probe_id) c r)
