-- ===== src/Server/Runs.antt =====
-- Runs of posts to the ingest endpoint (internal/server/ingest.go), in which a probe may send a batch
-- again after a lost answer.
use hoptrail.Common.{
  ℕ, ◌≡◌, sym, ◌∙◌, inl, inr, Option, List, [], ◌∷◌, ◌++◌, append-nil, append_assoc, if◌then◌else◌,
}
use hoptrail.Common.Float.{Float}
use hoptrail.Common.Text.{Text}
use hoptrail.Server.Auth.{HttpRequest, Reply, status, acked, Central}
use hoptrail.Server.Ingest.{SamplesRequest, handle_ingest_samples}
use hoptrail.Server.Once.{ids, has_id, sample_rows, change_rows, handle_ingest_samples-Handled}
use hoptrail.Storage.Probes.{Tables, IngestFaults}

-- One post, with what the database and the clock do at its time.
pub record Post (fl : Float) : Type 0 where
  pub faults : IngestFaults
  pub central : Central
  pub request : HttpRequest (SamplesRequest fl)

module _ (fl : Float) (round_us : fl.F → ℕ) where
  abbrev pub post_one : Tables → Post fl → Tables × Reply
  post_one t p = handle_ingest_samples fl round_us p.faults p.central t p.request

  -- The posts one after the other, with the replies.
  unfoldable pub post_all : List (Post fl) → Tables → Tables × List Reply
  post_all [] t = (t, [])
  post_all (p ∷ ps) t = let a = post_one t p in let b = post_all ps a.0 in (b.0, a.1 ∷ b.1)

  -- The rows of the batches that were acknowledged for the first time; `seen` are the ids of the
  -- batches acknowledged before.
  unfoldable pub first_rows {ℓ} :
      {A : Type ℓ}
      → (Option (SamplesRequest fl) → List A)
      → List Text
      → List (Post fl)
      → List Reply
      → List A
  first_rows rows seen [] rs = []
  first_rows rows seen (p ∷ ps) [] = []
  first_rows rows seen (p ∷ ps) (status code ∷ rs) = first_rows rows seen ps rs
  first_rows rows seen (p ∷ ps) (acked k ∷ rs) =
      let again = first_rows rows seen ps rs in
      let new = rows p.request.body ++ first_rows rows (seen ++ k ∷ []) ps rs in
      if has_id k seen then again else new

  -- Whatever fails and however often batches are sent again, the tables hold, in the order of arrival,
  -- exactly the rows of every batch that was acknowledged, each of them once, beside what they held.
  pub post_all_lem :
      (ps : List (Post fl)) (t : Tables)
      → ((post_all ps t).0.samples
          ≡ t.samples
            ++ first_rows (sample_rows fl round_us) (ids t.ingest_log) ps (post_all ps t).1)
        × ((post_all ps t).0.route_changes
            ≡ t.route_changes
              ++ first_rows (change_rows fl round_us) (ids t.ingest_log) ps (post_all ps t).1)
  unfolding post_all first_rows
  post_all_lem [] t = (sym (append-nil t.samples), sym (append-nil t.route_changes))
  post_all_lem (p ∷ ps) t =
      let q = post_one t p in
      let (ih, ih') = post_all_lem ps q.0 in
      elim (handle_ingest_samples-Handled fl round_us p.faults p.central t p.request) [
        | inl (code, r, e) ↦ rw (r, e) (post_all_lem ps t)
        | inr (inl (k, r, l, e)) ↦ rw (r, e, l) (post_all_lem ps t)
        | inr (inr (k, r, l, i, s, c)) ↦
            rw (r, l)
              (
                ih ∙ rw (s, i) (append_assoc t.samples (sample_rows fl round_us p.request.body) _),
                ih'
                    ∙ rw (c, i)
                        (append_assoc t.route_changes (change_rows fl round_us p.request.body) _),
              )
      ]
