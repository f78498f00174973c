-- ===== src/Alert/Summary.antt =====
-- internal/alert/engine.go: the one message that coalesces the events of the quiet hours
-- (`flushSummary`). `clock` prints a time as "15:04" and `decimal` a number. The store reads its own
-- rows back, so the buffer is never corrupt.
use hoptrail.Common.{
  ℕ, Bool, true, false, Option, none, some, List, [], ◌∷◌, ◌++◌, length, if◌then◌else◌,
}
use hoptrail.Common.Int.{ℤ, pos}
use hoptrail.Common.Text.{Text, codes, text_lt}
use hoptrail.Alert.Store.{Key, same_key, SummaryEntry, Store, Faults, enqueue_alert}
use hoptrail.Alert.Engine.{unix_milli, sanitize_latin1}

-- The first raise and the last recovery of an incident.
pub record Pair : Type 0 where
  pub key : Key
  pub raised : Option SummaryEntry
  pub recovery : Option SummaryEntry

abbrev pub add_entry : SummaryEntry → Pair → Pair
add_entry en p =
    if en.recovery
    then record p { recovery = some en }
    else record p { raised = elim p.raised [ none ↦ some en | some first ↦ some first ] }

-- The pairs in the order in which their incidents first occur.
unfoldable pub add_to : SummaryEntry → List Pair → List Pair
add_to en [] = add_entry en (record { key = en.key; raised = none; recovery = none }) ∷ []
add_to en (p ∷ ps) =
    let rest = add_to en ps in if same_key p.key en.key then add_entry en p ∷ ps else p ∷ rest

unfoldable pub fold_pairs : List SummaryEntry → List Pair → List Pair
fold_pairs [] ps = ps
fold_pairs (en ∷ ens) ps = fold_pairs ens (add_to en ps)

unfoldable pub insert_line : Text → List Text → List Text
insert_line s [] = s ∷ []
insert_line s (t ∷ ts) = let rest = insert_line s ts in if text_lt t s then t ∷ rest else s ∷ t ∷ ts

unfoldable pub sort_lines : List Text → List Text
sort_lines [] = []
sort_lines (s ∷ ss) = insert_line s (sort_lines ss)

unfoldable pub join_lines : List Text → Text
join_lines [] = []
join_lines (s ∷ []) = s
join_lines (s ∷ t ∷ ts) = s ++ codes "\n" ++ join_lines (t ∷ ts)

module _ (clock : ℕ → Text) (decimal : ℤ → Text) (f : Faults) (now : ℕ) where
  abbrev pub line_of : Option SummaryEntry → Option SummaryEntry → List Text
  line_of (some a) (some b) =
      (clock a.ts ++ codes " " ++ a.msg ++ codes " — recovered " ++ clock b.ts) ∷ []
  line_of (some a) none = (clock a.ts ++ codes " " ++ a.msg ++ codes " — STILL ACTIVE") ∷ []
  line_of none (some b) = (clock b.ts ++ codes " " ++ b.msg) ∷ []
  line_of none none = []

  unfoldable pub lines_of : List Pair → List Text
  lines_of [] = []
  lines_of (p ∷ ps) = line_of p.raised p.recovery ++ lines_of ps

  -- The summary of a non-empty buffer. The buffer is deleted once the message is queued; the
  -- second result is false where the call returns an error.
  unfoldable pub send_summary : Store → List SummaryEntry → Store × Bool
  send_summary db entries =
      let order : List Pair = fold_pairs entries [] in
      let q : Store × Bool = enqueue_alert f db record {
        created_at = unix_milli now;
        title = sanitize_latin1 (
            codes "hoptrail: "
            ++ decimal (pos (length order))
            ++ codes " alert(s) during quiet hours");
        body = join_lines (sort_lines (lines_of order));
        priority = codes "default";
      } in
      if q.1
      then if f.summary_delete then (q.0, false) else (record q.0 { summary = [] }, true)
      else (q.0, false)

  unfoldable pub flush_summary : Store → Store × Bool
  flush_summary db =
      if f.summary_read
      then (db, false)
      else elim db.summary [ [] ↦ (db, true) | en ∷ ens ↦ send_summary db db.summary ]
