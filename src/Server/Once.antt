-- ===== src/Server/Once.antt =====
-- What the ingest endpoint (internal/server/ingest.go, internal/storage/probes.go) stores over a run
-- of posts in which a batch may come again.
use hoptrail.Common.{
  ℕ, ◌≡◌, refl, sym, ap, ◌∙◌, ◌⊎◌, inl, inr, Bool, true, false, ◌||◌, Option, none, some, List, [],
  ◌∷◌, ◌++◌, map, arith, Bool-cases, Option-cases, some-inj, if◌then◌else◌, ltb,
}
use hoptrail.Common.Float.{Float}
use hoptrail.Common.Text.{Text, text_eq, is_blank, byte_length}
use hoptrail.Server.Auth.{
  Auth, denied, allowed, auth_agent, valid_probe_id, require_probe_binding, admit_body, HttpRequest,
  Reply, status, acked, Central, turned_away, admitted,
}
use hoptrail.Server.Ingest.{
  SamplesRequest, SampleJson, bad_sample, bad_change, stored_sample, check_samples, check_changes,
  reply_of, store_rows, ingest_admitted, handle_ingest_samples,
}
use hoptrail.Storage.Probes.{
  IngestSample, IngestRouteChange, LogRow, Tables, IngestFaults, Ingested, refused, fresh,
  duplicate, is_logged, tagged, ingest_batch,
}

-- The ids of the batches in the log.
abbrev pub ids : List LogRow → List Text
ids [] = []
ids (r ∷ rs) = r.batch_id ∷ ids rs

abbrev pub has_id : Text → List Text → Bool
has_id k [] = false
has_id k (j ∷ js) = let rest = has_id k js in if text_eq j k then true else rest

ids-append : (xs ys : List LogRow) → ids (xs ++ ys) ≡ ids xs ++ ids ys
ids-append [] ys = refl
ids-append (x ∷ xs) ys = ap (λ l. x.batch_id ∷ l) (ids-append xs ys)

is_logged-has_id : (k : Text) (rs : List LogRow) → is_logged k rs ≡ has_id k (ids rs)
unfolding is_logged
is_logged-has_id k [] = refl
is_logged-has_id k (r ∷ rs) = ground (arith, is_logged-has_id k rs)

-- A batch either changes nothing, or its rows and its id come last.
abbrev Stored :
    Tables → Text → Text → List IngestSample → List IngestRouteChange → Tables × Ingested → Type 0
Stored t probe_id k ss rcs p =
    ((p.1 ≡ refused) × (p.0 ≡ t))
    ⊎ ((p.1 ≡ duplicate) × (p.0 ≡ t) × (has_id k (ids t.ingest_log) ≡ true))
    ⊎ ((p.1 ≡ fresh)
        × (has_id k (ids t.ingest_log) ≡ false)
        × (ids p.0.ingest_log ≡ ids t.ingest_log ++ k ∷ [])
        × (p.0.samples ≡ t.samples ++ tagged probe_id ss)
        × (p.0.route_changes ≡ t.route_changes ++ tagged probe_id rcs))

ingest_batch-Stored :
    (f : IngestFaults) (t : Tables) (probe_id k : Text) (now : ℕ) (ss : List IngestSample)
    (rcs : List IngestRouteChange)
    → Stored t probe_id k ss rcs (ingest_batch f t probe_id k now ss rcs)
unfolding ingest_batch
ingest_batch-Stored f t probe_id k now ss rcs = ground (
  arith,
  is_logged-has_id k t.ingest_log,
  ids-append t.ingest_log (record { batch_id = k; probe_id = probe_id; received_at = now } ∷ []),
)

module _ (fl : Float) (round_us : fl.F → ℕ) where
  check_samples-some :
      (now : ℕ) (ss : List (SampleJson fl)) (xs : List IngestSample)
      → check_samples fl round_us now ss ≡ some xs
      → xs ≡ map (stored_sample fl round_us) ss
  unfolding check_samples
  check_samples-some now [] xs h = cc
  check_samples-some now (s ∷ ss) xs h = elim (Bool-cases (bad_sample fl round_us now s)) [
    | inl b ↦ cc (rw b at h)
    | inr b ↦ elim (Option-cases (check_samples fl round_us now ss)) [
      | inl e ↦ cc (rw (b, e) at h)
      | inr (ys, e) ↦
          sym (some-inj (rw (b, e) at h))
          ∙ ap (λ l. stored_sample fl round_us s ∷ l) (check_samples-some now ss ys e)
    ]
  ]

  check_changes-some :
      (now : ℕ) (rcs xs : List IngestRouteChange)
      → check_changes fl round_us now rcs ≡ some xs
      → xs ≡ rcs
  unfolding check_changes
  check_changes-some now [] xs h = cc
  check_changes-some now (rc ∷ rcs) xs h = elim (Bool-cases (bad_change fl round_us now rc)) [
    | inl b ↦ cc (rw b at h)
    | inr b ↦ elim (Option-cases (check_changes fl round_us now rcs)) [
      | inl e ↦ cc (rw (b, e) at h)
      | inr (ys, e) ↦
          sym (some-inj (rw (b, e) at h)) ∙ ap (λ l. rc ∷ l) (check_changes-some now rcs ys e)
    ]
  ]

  -- The rows that a decoded request asks to store.
  abbrev pub sample_rows : Option (SamplesRequest fl) → List (Text × IngestSample)
  sample_rows none = []
  sample_rows (some req) = tagged req.probe_id (map (stored_sample fl round_us) req.samples)

  abbrev pub change_rows : Option (SamplesRequest fl) → List (Text × IngestRouteChange)
  change_rows none = []
  change_rows (some req) = tagged req.probe_id req.route_changes

  -- A post is refused and changes nothing, or acknowledged: again, or as a new batch whose rows come
  -- last.
  abbrev pub Handled : Tables → Option (SamplesRequest fl) → Tables × Reply → Type 0
  Handled t body p =
      ((code : ℕ) × (p.1 ≡ status code) × (p.0 ≡ t))
      ⊎ ((k : Text) × (p.1 ≡ acked k) × (has_id k (ids t.ingest_log) ≡ true) × (p.0 ≡ t))
      ⊎ ((k : Text) × (p.1 ≡ acked k)
          × (has_id k (ids t.ingest_log) ≡ false)
          × (ids p.0.ingest_log ≡ ids t.ingest_log ++ k ∷ [])
          × (p.0.samples ≡ t.samples ++ sample_rows body)
          × (p.0.route_changes ≡ t.route_changes ++ change_rows body))

  store_rows-Handled :
      (f : IngestFaults) (t : Tables) (now : ℕ) (req : SamplesRequest fl)
      (o : Option (List IngestSample)) (u : Option (List IngestRouteChange))
      → ((xs : List IngestSample) → o ≡ some xs → xs ≡ map (stored_sample fl round_us) req.samples)
      → ((xs : List IngestRouteChange) → u ≡ some xs → xs ≡ req.route_changes)
      → Handled t (some req) (store_rows fl round_us f t req.probe_id req.batch_id now o u)
  store_rows-Handled f t now req none u h g = inl (400, refl, refl)
  store_rows-Handled f t now req (some xs) none h g = inl (400, refl, refl)
  store_rows-Handled f t now req (some xs) (some ys) h g =
      elim (ingest_batch-Stored f t req.probe_id req.batch_id now xs ys) [
        | inl (r, e) ↦ inl (500, ap (reply_of fl round_us req.batch_id) r, e)
        | inr (inl (r, e, l)) ↦
            inr (inl (req.batch_id, ap (reply_of fl round_us req.batch_id) r, l, e))
        | inr (inr (r, l, i, s, c)) ↦ inr (
            inr (
              req.batch_id,
              ap (reply_of fl round_us req.batch_id) r,
              l,
              i,
              s ∙ ap (λ z. t.samples ++ tagged req.probe_id z) (h xs refl),
              c ∙ ap (λ z. t.route_changes ++ tagged req.probe_id z) (g ys refl),
            ))
      ]

  ingest_admitted-Handled :
      (f : IngestFaults) (now : ℕ) (t : Tables) (req : SamplesRequest fl)
      → Handled t (some req) (ingest_admitted fl round_us f now t (admitted req))
  ingest_admitted-Handled f now t req =
      elim (Bool-cases (is_blank req.batch_id || ltb 128 (byte_length req.batch_id))) [
        | inl b ↦ rw b (inl (400, refl, refl))
        | inr b ↦ rw b (
            store_rows-Handled f t now req (check_samples fl round_us now req.samples)
              (check_changes fl round_us now req.route_changes) (check_samples-some now req.samples)
              (check_changes-some now req.route_changes))
      ]

  admit_body-cases :
      {B : Type 0} (probe_of : B → Text) (body : Option B) (a : Auth)
      → ((code : ℕ) × (admit_body probe_of body a ≡ turned_away code))
        ⊎ ((req : B) × (admit_body probe_of body a ≡ admitted req) × (body ≡ some req))
  admit_body-cases probe_of none (denied code) = inl (code, refl)
  admit_body-cases probe_of (some req) (denied code) = inl (code, refl)
  admit_body-cases probe_of none (allowed token bound) = inl (400, refl)
  admit_body-cases probe_of (some req) (allowed token bound) =
      elim (Bool-cases (valid_probe_id (probe_of req))) [
        | inl v ↦ elim (Bool-cases (require_probe_binding bound (probe_of req))) [
          | inl b ↦ inr (req, rw (v, b), refl)
          | inr b ↦ inl (403, rw (v, b))
        ]
        | inr v ↦ inl (400, rw v)
      ]

  pub handle_ingest_samples-Handled :
      (f : IngestFaults) (c : Central) (t : Tables) (r : HttpRequest (SamplesRequest fl))
      → Handled t r.body (handle_ingest_samples fl round_us f c t r)
  unfolding handle_ingest_samples
  handle_ingest_samples-Handled f c t r = elim (Bool-cases r.is_post) [
    | inl m ↦
        elim (admit_body-cases (λ req. req.probe_id) r.body
          (auth_agent c.bindings c.agent_tokens r.authorization)) [
            | inl (code, e) ↦ rw (m, e) (inl (code, refl, refl))
            | inr (req, e, q) ↦ rw (m, e, q) (ingest_admitted-Handled f c.now t req)
          ]
    | inr m ↦ rw m (inl (405, refl, refl))
  ]
