-- ===== src/Tests/LogRing.antt =====
-- Tests for internal/logring.
use hoptrail.Common.{ℕ, ◌≡◌, refl, [], ◌∷◌, map}
use hoptrail.Common.Int.{pos, negsuc}
use hoptrail.LogRing.{Entry, Ring, new_ring, append_entry, since, read_entries}

abbrev line : ℕ → Entry
line n = record { seq = 0; ts = n; level = []; msg = []; attrs = [] }

abbrev three_of_two : Ring
three_of_two =
    append_entry (append_entry (append_entry (new_ring (pos 2)) (line 7)) (line 8)) (line 9)

-- The oldest of three entries has gone from a ring of two.
wrapped_ring : map (λ (e : Entry). e.ts) (since three_of_two (negsuc 0) (pos 10)).0 ≡ 8 ∷ 9 ∷ []
unfolding since new_ring append_entry read_entries
wrapped_ring = refl

-- The newest entry wins against the limit.
limited : map (λ (e : Entry). e.ts) (since three_of_two (negsuc 0) (pos 1)).0 ≡ 9 ∷ []
unfolding since new_ring append_entry read_entries
limited = refl
