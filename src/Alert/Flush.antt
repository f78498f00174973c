-- ===== src/Alert/Flush.antt =====
-- The message that the quiet hours end with (`flushSummary`, internal/alert/engine.go).
use mathlib.Core.List.{Perm}
use mathlib.Core.Path.{subst}
use hoptrail.Common.{
  ℕ, suc, ◌≡◌, refl, ap, ◌∙◌, Bool, true, false, ◌&&◌, Option, none, some, List, [], ◌∷◌, ◌++◌, map,
  arith, length, if◌then◌else◌,
}
use hoptrail.Common.Int.{ℤ, pos}
use hoptrail.Common.Text.{Text, codes}
use hoptrail.Alert.Store.{Key, SummaryEntry, Store, Faults, enqueue_alert}
use hoptrail.Alert.Keys.{same_key_refl}
use hoptrail.Alert.Engine.{unix_milli, sanitize_latin1}
use hoptrail.Alert.Summary.{
  fold_pairs, sort_lines, join_lines, line_of, lines_of, send_summary, flush_summary,
}
use hoptrail.Alert.Incidents.{
  first_raise, last_recovery, without, incidents, pair_of, fold_pairs-incidents,
}
use hoptrail.Alert.Sorting.{Sorted, sort_lines-Sorted, sort_lines-Perm}

-- What the message says of an incident with the first raise and the last recovery.
abbrev pub line_text : (ℕ → Text) → Option SummaryEntry → Option SummaryEntry → Text
line_text clock (some a) (some b) =
    clock a.ts ++ codes " " ++ a.msg ++ codes " — recovered " ++ clock b.ts
line_text clock (some a) none = clock a.ts ++ codes " " ++ a.msg ++ codes " — STILL ACTIVE"
line_text clock none (some b) = clock b.ts ++ codes " " ++ b.msg
line_text clock none none = []

abbrev pub line : (ℕ → Text) → List SummaryEntry → Key → Text
line clock ens k = line_text clock (first_raise k ens) (last_recovery k ens)

abbrev has_entry : Option SummaryEntry → Option SummaryEntry → Bool
has_entry none none = false
has_entry (some a) o = true
has_entry none (some b) = true

-- Every incident of the list has an entry.
unfoldable are_named : List SummaryEntry → List Key → Bool
are_named ens [] = true
are_named ens (k ∷ ks) = has_entry (first_raise k ens) (last_recovery k ens) && are_named ens ks

has_entry-cons :
    (en : SummaryEntry) (ens : List SummaryEntry) (k : Key)
    → has_entry (first_raise k ens) (last_recovery k ens) ≡ true
    → has_entry (first_raise k (en ∷ ens)) (last_recovery k (en ∷ ens)) ≡ true
unfolding first_raise last_recovery
has_entry-cons en ens k h = ground arith

has_entry_self :
    (en : SummaryEntry) (ens : List SummaryEntry)
    → has_entry (first_raise en.key (en ∷ ens)) (last_recovery en.key (en ∷ ens)) ≡ true
unfolding first_raise last_recovery
has_entry_self en ens = ground (arith, same_key_refl en.key)

are_named-cons :
    (en : SummaryEntry) (ens : List SummaryEntry) (ks : List Key)
    → are_named ens ks ≡ true
    → are_named (en ∷ ens) ks ≡ true
unfolding are_named
are_named-cons en ens [] h = refl
are_named-cons en ens (k ∷ ks) h = ground (arith, has_entry-cons en ens k, are_named-cons en ens ks)

are_named-without :
    (ens : List SummaryEntry) (k : Key) (ks : List Key)
    → are_named ens ks ≡ true
    → are_named ens (without k ks) ≡ true
unfolding are_named without
are_named-without ens k [] h = refl
are_named-without ens k (j ∷ js) h = ground (arith, are_named-without ens k js)

are_named-incidents : (ens : List SummaryEntry) → are_named ens (incidents ens) ≡ true
unfolding are_named incidents
are_named-incidents [] = refl
are_named-incidents (en ∷ ens) = rw (has_entry_self en ens) (
    are_named-without (en ∷ ens) en.key (incidents ens)
      (are_named-cons en ens (incidents ens) (are_named-incidents ens)))

length-map : {A B : Type 0} (g : A → B) (xs : List A) → length (map g xs) ≡ length xs
length-map g [] = refl
length-map g (x ∷ xs) = ap suc (length-map g xs)

module _ (clock : ℕ → Text) (decimal : ℤ → Text) (f : Faults) (now : ℕ) where
  line_of-line_text :
      (a b : Option SummaryEntry)
      → has_entry a b ≡ true
      → line_of clock decimal f now a b ≡ line_text clock a b ∷ []
  line_of-line_text (some a) (some b) h = refl
  line_of-line_text (some a) none h = refl
  line_of-line_text none (some b) h = refl
  line_of-line_text none none h = cc

  lines_of-map :
      (ens : List SummaryEntry) (ks : List Key)
      → are_named ens ks ≡ true
      → lines_of clock decimal f now (map (pair_of ens) ks) ≡ map (line clock ens) ks
  unfolding lines_of are_named
  lines_of-map ens [] h = refl
  lines_of-map ens (k ∷ ks) h =
      rw (line_of-line_text (first_raise k ens) (last_recovery k ens) (ground arith))
        (ap (λ ls. line clock ens k ∷ ls) (lines_of-map ens ks (ground arith)))

  lines_of-pairs :
      (ens : List SummaryEntry)
      → lines_of clock decimal f now (fold_pairs ens []) ≡ map (line clock ens) (incidents ens)
  lines_of-pairs ens =
      ap (lines_of clock decimal f now) (fold_pairs-incidents ens)
      ∙ lines_of-map ens (incidents ens) (are_named-incidents ens)

  length-order : (ens : List SummaryEntry) → length (fold_pairs ens []) ≡ length (incidents ens)
  length-order ens = ap length (fold_pairs-incidents ens) ∙ length-map (pair_of ens) (incidents ens)

  send_summary_works :
      (db : Store) (ens : List SummaryEntry)
      → f.enqueue ≡ false
      → f.summary_delete ≡ false
      → send_summary clock decimal f now db ens ≡ (
        record db {
          summary = [];
          queue =
              db.queue
              ++ record {
                created_at = unix_milli now;
                title = sanitize_latin1 (
                    codes "hoptrail: "
                    ++ decimal (pos (length (incidents ens)))
                    ++ codes " alert(s) during quiet hours");
                body = join_lines (sort_lines (lines_of clock decimal f now (fold_pairs ens [])));
                priority = codes "default";
              }
                ∷ [];
        },
        true,
      )
  unfolding send_summary enqueue_alert
  send_summary_works db ens q d = rw (q, d, length-order ens) refl

  flush_sends :
      (db : Store) (en : SummaryEntry) (ens : List SummaryEntry)
      → f.summary_read ≡ false
      → db.summary ≡ en ∷ ens
      → flush_summary clock decimal f now db ≡ send_summary clock decimal f now db (en ∷ ens)
  unfolding flush_summary
  flush_sends db en ens r h =
      let send : Store × Bool = send_summary clock decimal f now db db.summary in
      ap (λ b. if b then (db, false) else elim db.summary [ [] ↦ (db, true) | x ∷ xs ↦ send ]) r
      ∙ ap (λ ys. elim ys [ [] ↦ (db, true) | x ∷ xs ↦ send ]) h
      ∙ ap (send_summary clock decimal f now db) h

  -- When the buffer of the quiet hours can be read, and is not empty, and the writes work, one message
  -- is queued and the buffer deleted. The title announces as many alerts as there are incidents that
  -- the entries name, each counted once. The body's lines are in order, and are a permutation of one
  -- line for each of these incidents, which tells its first raise and its last recovery.
  pub flush_summary_lem :
      (db : Store) (en : SummaryEntry) (ens : List SummaryEntry)
      → f.summary_read ≡ false
      → f.enqueue ≡ false
      → f.summary_delete ≡ false
      → db.summary ≡ en ∷ ens
      → (ls : List Text) × (flush_summary clock decimal f now db ≡ (
        record db {
          summary = [];
          queue =
              db.queue
              ++ record {
                created_at = unix_milli now;
                title = sanitize_latin1 (
                    codes "hoptrail: "
                    ++ decimal (pos (length (incidents (en ∷ ens))))
                    ++ codes " alert(s) during quiet hours");
                body = join_lines ls;
                priority = codes "default";
              }
                ∷ [];
        },
        true,
      ))
        × Sorted ls
        × Perm ls (map (line clock (en ∷ ens)) (incidents (en ∷ ens)))
  flush_summary_lem db en ens r q d h = (
    sort_lines (lines_of clock decimal f now (fold_pairs (en ∷ ens) [])),
    flush_sends db en ens r h ∙ send_summary_works db (en ∷ ens) q d,
    sort_lines-Sorted (lines_of clock decimal f now (fold_pairs (en ∷ ens) [])),
    subst (λ ls. Perm (sort_lines (lines_of clock decimal f now (fold_pairs (en ∷ ens) []))) ls)
        (lines_of-pairs (en ∷ ens))
        (sort_lines-Perm (lines_of clock decimal f now (fold_pairs (en ∷ ens) []))),
  )
