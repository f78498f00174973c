-- ===== src/Alert/RateLimit.antt =====
-- The sliding-hour rate limit of `deliver` (internal/alert/engine.go) over a run of deliveries.
use hoptrail.Common.{
  ℕ, ◌+◌, ◌≤◌, ◌<◌, ◌≡◌, refl, ap, ◌⊎◌, inl, inr, Bool, false, not, ◌&&◌, List, [], ◌∷◌, ◌++◌,
  arith, length, length-append, if◌then◌else◌,
}
use hoptrail.Common.Float.{Float}
use hoptrail.Common.Text.{Text}
use hoptrail.Alert.Config.{Config}
use hoptrail.Alert.Store.{Key, Faults}
use hoptrail.Alert.Engine.{Engine, recent, quiet, enqueue, gate, deliver}

-- One call of `deliver`.
pub record Notice : Type 0 where
  pub now : ℕ
  pub faults : Faults
  pub key : Key
  pub msg : Text
  pub priority : Text
  pub recovery : Bool

recent-append :
    (now t : ℕ) (ts : List ℕ)
    → length (recent now (ts ++ t ∷ [])) ≡ (length (recent now ts) + length (recent now (t ∷ [])))
unfolding recent
recent-append now t [] = ground arith
recent-append now t (u ∷ ts) = ground (arith, recent-append now t ts)

recent-recent : (now t : ℕ) (ts : List ℕ) → t ≤ now → recent now (recent t ts) ≡ recent now ts
unfolding recent
recent-recent now t [] h = refl
recent-recent now t (u ∷ ts) h = ground (arith, recent-recent now t ts h)

length-recent : (now : ℕ) (ts : List ℕ) → length (recent now ts) ≤ length ts
unfolding recent
length-recent now [] = omega arith
length-recent now (u ∷ ts) = ground (arith, length-recent now ts)

-- The accepted alerts are covered by the sent times, of which there are at most `limit`.
record Covered (limit last : ℕ) (accepted sent : List ℕ) : Type 0 where
  bounded : length sent ≤ limit
  covered : (now : ℕ) → last ≤ now → length (recent now accepted) ≤ length (recent now sent)

-- The times do not go back, from `last` to `now`.
unfoldable pub Ordered : ℕ → List Notice → ℕ → Type 0
Ordered last [] now = last ≤ now
Ordered last (n ∷ ns) now = (last ≤ n.now) × Ordered n.now ns now

module _ (fl : Float) (minute_of_day : ℕ → ℕ) (cfg : Config fl) where
  -- Whether the delivery put an alert into the queue past the rate limit.
  abbrev pub counts : Notice → Bool → Bool
  counts n accepted = accepted && not n.recovery && not (quiet fl minute_of_day cfg n.faults n.now)

  abbrev pub deliver_one : Engine → Notice → Engine × Bool
  deliver_one e n = deliver fl minute_of_day cfg n.faults n.now e n.key n.msg n.priority n.recovery

  -- The deliveries one after the other, with the times of the alerts that they queued.
  unfoldable pub deliver_all : List Notice → Engine → List ℕ → Engine × List ℕ
  deliver_all [] e accepted = (e, accepted)
  deliver_all (n ∷ ns) e accepted =
      let p = deliver_one e n in
      deliver_all ns p.0 (if counts n p.1 then accepted ++ n.now ∷ [] else accepted)

  -- What a delivery does to the sent times.
  abbrev SentAfter : Engine → Notice → Type 0
  SentAfter e n =
      ((counts n (deliver_one e n).1 ≡ false) × ((deliver_one e n).0.sent ≡ e.sent))
      ⊎ ((counts n (deliver_one e n).1 ≡ false) × ((deliver_one e n).0.sent ≡ recent n.now e.sent))
      ⊎ ((length (recent n.now e.sent) < cfg.rate_limit_per_h)
          × ((deliver_one e n).0.sent ≡ recent n.now e.sent ++ n.now ∷ []))

  SentAfter-deliver_one : (e : Engine) (n : Notice) → SentAfter e n
  unfolding deliver gate enqueue
  SentAfter-deliver_one e n = ground arith

-- The three ways in which the sent times and the accepted alerts go on.
pruned-Covered :
    (limit last t : ℕ) (accepted sent : List ℕ)
    → last ≤ t
    → Covered limit last accepted sent
    → Covered limit t accepted (recent t sent)
pruned-Covered limit last t accepted sent h c = record {
  bounded = omega (arith, c.bounded, length-recent t sent);
  covered = λ now p. rw (recent-recent now t sent p) (c.covered now (omega (arith, h, p)));
}

kept-Covered :
    (limit last t : ℕ) (accepted sent : List ℕ)
    → last ≤ t
    → Covered limit last accepted sent
    → Covered limit t accepted sent
kept-Covered limit last t accepted sent h c = record {
  bounded = c.bounded;
  covered = λ now p. c.covered now (omega (arith, h, p));
}

sent-Covered :
    (limit last t : ℕ) (accepted sent : List ℕ) (b : Bool)
    → last ≤ t
    → length (recent t sent) < limit
    → Covered limit last accepted sent
    → Covered limit t (if b then accepted ++ t ∷ [] else accepted) (recent t sent ++ t ∷ [])
sent-Covered limit last t accepted sent b h l c = record {
  bounded = omega (arith, l, length-append (recent t sent) (t ∷ []));
  covered = λ now p. ground (
    arith,
    c.covered now (omega (arith, h, p)),
    ap length (recent-recent now t sent p),
    recent-append now t accepted,
    recent-append now t (recent t sent),
  );
}

module _ (fl : Float) (minute_of_day : ℕ → ℕ) (cfg : Config fl) where
  deliver_one-Covered :
      (e : Engine) (n : Notice) (last : ℕ) (accepted : List ℕ)
      → last ≤ n.now
      → Covered cfg.rate_limit_per_h last accepted e.sent
      → Covered cfg.rate_limit_per_h n.now
          (if counts fl minute_of_day cfg n (deliver_one fl minute_of_day cfg e n).1
            then accepted ++ n.now ∷ []
            else accepted)
          (deliver_one fl minute_of_day cfg e n).0.sent
  deliver_one-Covered e n last accepted h c =
      elim (SentAfter-deliver_one fl minute_of_day cfg e n) [
        | inl (p, q) ↦ rw (p, q) (kept-Covered _ last n.now accepted e.sent h c)
        | inr (inl (p, q)) ↦ rw (p, q) (pruned-Covered _ last n.now accepted e.sent h c)
        | inr (inr (p, q)) ↦ rw q (sent-Covered _ last n.now accepted e.sent _ h p c)
      ]

  deliver_all-Covered :
      (ns : List Notice) (e : Engine) (last : ℕ) (accepted : List ℕ) (now : ℕ)
      → Ordered last ns now
      → Covered cfg.rate_limit_per_h last accepted e.sent
      → length (recent now (deliver_all fl minute_of_day cfg ns e accepted).1)
        ≤ cfg.rate_limit_per_h
  unfolding deliver_all Ordered
  deliver_all-Covered [] e last accepted now o c =
      omega (arith, o, c.covered now o, length-recent now e.sent, c.bounded)
  deliver_all-Covered (n ∷ ns) e last accepted now (p, o) c =
      deliver_all-Covered ns _ n.now _ now o (deliver_one-Covered e n last accepted p c)

  -- Over any run of deliveries whose times do not go back, from an engine that has sent nothing, the
  -- alerts that were queued outside the quiet hours within the hour before any later time are at most
  -- as many as the configured hourly limit, whichever calls of the store fail.
  pub deliver_all_rate_limited :
      (ns : List Notice) (e : Engine) (now : ℕ)
      → e.sent ≡ []
      → Ordered 0 ns now
      → length (recent now (deliver_all fl minute_of_day cfg ns e []).1) ≤ cfg.rate_limit_per_h
  unfolding recent
  deliver_all_rate_limited ns e now h o =
      deliver_all-Covered ns e 0 [] now o
        (record { bounded = rw h (omega arith); covered = λ m p. omega arith })
