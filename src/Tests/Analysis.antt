-- ===== src/Tests/Analysis.antt =====
-- Runs and instances for internal/analysis.
use hoptrail.Common.{
  ℕ, ◌-◌, ◌≡◌, ◌≢◌, ◌↔◌, refl, Bool, true, false, not, some, List, [], ◌∷◌, arith, length, take,
  replicate, reverse, get_elem?, get_or, ltb, ◌==◌, nat_zero,
}
use hoptrail.Common.Int.{pos, at_least_one}
use hoptrail.Common.Addr.{Addr, invalid, host}
use hoptrail.Analysis.RingBuffer.{
  RingBuffer, push, cap, len, new_ring_buffer, newest, oldest, newest_first, oldest_first,
}
use hoptrail.Analysis.RingBuffer.Inv.{IsValid, push-IsValid}
use hoptrail.Analysis.RingBuffer.Refine.{newest_first-push}
use hoptrail.Analysis.RingBuffer.History.{push_all, newest_first-push_all, ends_lem}
use hoptrail.Analysis.Routing.{detect_route_change, modal_ip, tally, pick, bump, get_count}
use hoptrail.Analysis.Routing.Detection.{
  sightings, detect_route_change-sightings, detect_route_change_iff,
}
use hoptrail.Analysis.Routing.Modal.{FirstBest, MostSeen, occurrences, modal_ip_lem}
use hoptrail.Analysis.Loss.{HopLossSnapshot, AttributedHopLoss, attributed_loss, persists}
use hoptrail.Analysis.Loss.Persistence.{Downstream, attributed_loss_lem, suspect_mono}
use hoptrail.Tests.Whole.{whole, whole-IsOrdered}

-- A full buffer of three values whose next write goes to index 1.
abbrev wrapped : RingBuffer ℕ
wrapped = record { buf = 30 ∷ 10 ∷ 20 ∷ []; head = 1; size = 3 }

wrapped-IsValid : IsValid wrapped
wrapped-IsValid = omega arith

newest_first-wrapped : newest_first wrapped ≡ 30 ∷ 20 ∷ 10 ∷ []
unfolding newest_first
newest_first-wrapped = refl

oldest_first-push : oldest_first (push wrapped 40) ≡ 20 ∷ 30 ∷ 40 ∷ []
unfolding oldest_first push
oldest_first-push = refl

push-IsValid_example : IsValid (push wrapped 40)
push-IsValid_example = push-IsValid wrapped 40 wrapped-IsValid

newest_first-push_example :
    newest_first (push wrapped 40) ≡ take (cap wrapped) (40 ∷ newest_first wrapped)
newest_first-push_example = newest_first-push wrapped 40 wrapped-IsValid

newest_first-push_all_example :
    newest_first (push_all (new_ring_buffer {A = ℕ} (pos 2)) (1 ∷ 2 ∷ 3 ∷ []))
    ≡ take (at_least_one (pos 2)) (reverse (1 ∷ 2 ∷ 3 ∷ []))
newest_first-push_all_example = newest_first-push_all (pos 2) (1 ∷ 2 ∷ 3 ∷ [])

ends_lem_example :
    (newest wrapped ≡ (get_or (newest_first wrapped) 0 0, not (len wrapped == 0)))
    × (oldest wrapped ≡ (get_or (newest_first wrapped) (len wrapped - 1) 0, not (len wrapped == 0)))
    × (length (newest_first wrapped) ≡ len wrapped)
ends_lem_example = ends_lem wrapped wrapped-IsValid

-- Newest first: the address 2 three times, with one anonymous entry between, then the address 1.
abbrev changing : List Addr
changing = host 2 ∷ invalid ∷ host 2 ∷ host 2 ∷ host 1 ∷ []

abbrev flapping : List Addr
flapping = host 2 ∷ host 1 ∷ host 2 ∷ host 1 ∷ host 2 ∷ host 1 ∷ []

changing_detected : detect_route_change changing (host 1) (pos 3) ≡ (true, host 2)
unfolding detect_route_change
changing_detected = refl

flapping_quiet : detect_route_change flapping (host 1) (pos 2) ≡ (false, invalid)
unfolding detect_route_change
flapping_quiet = refl

detect_route_change_iff_example :
    (detect_route_change changing (host 1) (pos 3) ≡ (true, host 2))
    ↔ ((take 3 (sightings changing) ≡ replicate 3 (host 2)) × (host 2 ≢ host 1))
detect_route_change_iff_example = detect_route_change_iff changing (host 1) (pos 3) 2

detect_route_change-sightings_example :
    detect_route_change (sightings changing) (host 1) (pos 3)
    ≡ detect_route_change changing (host 1) (pos 3)
detect_route_change-sightings_example = detect_route_change-sightings changing (host 1) (pos 3)

modal_flapping : modal_ip flapping ≡ (host 2, true)
unfolding modal_ip tally pick bump get_count
modal_flapping = refl

modal_ip_lem_example :
    (((modal_ip flapping).1 ≡ false) ↔ (sightings flapping ≡ []))
    × ((m : Addr)
        → modal_ip flapping ≡ (m, true)
        → FirstBest (occurrences flapping) m flapping × MostSeen (occurrences flapping) m flapping)
modal_ip_lem_example = modal_ip_lem flapping

-- Hop 2 drops replies that the hops after it do not; hop 4 drops packets.
abbrev window : List (HopLossSnapshot whole)
window =
    record { ttl = 1; loss = 0 }
    ∷ record { ttl = 2; loss = 40 }
    ∷ record { ttl = 3; loss = 0 }
    ∷ record { ttl = 4; loss = 12 }
    ∷ record { ttl = 5; loss = 9 }
    ∷ []

abbrev suspects : List (AttributedHopLoss whole) → List Bool
suspects [] = []
suspects (a ∷ as') = a.suspect ∷ suspects as'

suspects-window :
    suspects (attributed_loss whole window 5) ≡ false ∷ false ∷ false ∷ true ∷ true ∷ []
unfolding attributed_loss persists
suspects-window = refl

attributed_loss_lem_example :
    (length (attributed_loss whole window 5) ≡ 5)
    × ((i : ℕ) (hop : HopLossSnapshot whole)
        → get_elem? window i ≡ some hop
        → (a : AttributedHopLoss whole) × (get_elem? (attributed_loss whole window 5) i ≡ some a)
          × (a.ttl ≡ hop.ttl)
          × (a.loss ≡ hop.loss)
          × ((a.suspect ≡ true) ↔ ((ltb 0 hop.loss ≡ true) × Downstream whole 5 hop.loss window i)))
attributed_loss_lem_example = attributed_loss_lem whole window 5

abbrev fourth : AttributedHopLoss whole
fourth = record { ttl = 4; loss = 12; suspect = true }

suspect_mono_example : fourth.suspect ≡ true
unfolding attributed_loss persists
suspect_mono_example =
    suspect_mono whole whole-IsOrdered window 5 30 (λ i g e. refl) refl refl refl 3 fourth fourth
      refl refl refl
