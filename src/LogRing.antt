-- ===== src/LogRing.antt =====
-- internal/logring/logring.go: the bounded ring of recent log records. Sequence numbers count from 0; the
-- ones that a client sends, and its limit, are ints. The handler that formats records is left out.
use hoptrail.Common.{
  ℕ, zero, suc, ◌+◌, ◌-◌, ◌%◌, ◌||◌, List, [], ◌∷◌, ◌++◌, length, get_or, set, ltb, leb, ◌==◌,
  if◌then◌else◌,
}
use hoptrail.Common.Int.{ℤ, pos, negsuc, pos_part, ltb_ℤ, sub_ℕ, wrap64}
use hoptrail.Common.Text.{Text}

pub record Entry : Type 0 where
  pub seq : ℕ
  pub ts : ℕ
  pub level : Text
  pub msg : Text
  pub attrs : Text

pub record Ring : Type 0 where
  pub buf : List Entry
  pub bound : ℕ
  pub next : ℕ

unfoldable pub new_ring : ℤ → Ring
new_ring capacity = record {
  buf = [];
  bound = if ltb_ℤ capacity (pos 1) then 1 else pos_part capacity;
  next = 0;
}

unfoldable pub append_entry : Ring → Entry → Ring
append_entry r e =
    let stamped : Entry = record e { seq = r.next } in
    record r {
      buf =
          if ltb (length r.buf) r.bound
          then r.buf ++ stamped ∷ []
          else set r.buf (r.next % r.bound) stamped;
      next = r.next + 1;
    }

abbrev pub succ_ℤ : ℤ → ℤ
succ_ℤ (pos n) = pos (suc n)
succ_ℤ (negsuc n) = sub_ℕ 0 n

-- The entries of `count` sequence numbers from `start` on.
unfoldable pub read_entries : Ring → ℕ → ℕ → List Entry
read_entries r start zero = []
read_entries r start (suc count) =
    get_or r.buf (start % r.bound) (record { seq = 0; ts = 0; level = []; msg = []; attrs = [] })
    ∷ read_entries r (start + 1) count

-- The first sequence number after `after` that is still there.
abbrev pub start_of : Ring → ℤ → ℕ
start_of r after =
    if ltb_ℤ (wrap64 (succ_ℤ after)) (pos (r.next - length r.buf))
    then r.next - length r.buf
    else pos_part (wrap64 (succ_ℤ after))

-- The newest of them, at most `limit`.
abbrev pub read_tail : Ring → ℕ → ℕ → List Entry
read_tail r start limit =
    if leb r.next start
    then []
    else if ltb limit (r.next - start)
    then read_entries r (r.next - limit) limit
    else read_entries r start (r.next - start)

unfoldable pub since : Ring → ℤ → ℤ → List Entry × ℤ
unfolding read_entries
since r after limit =
    if ltb_ℤ limit (pos 1) || length r.buf == 0
    then ([], sub_ℕ r.next 1)
    else (read_tail r (start_of r after) (pos_part limit), sub_ℕ r.next 1)
