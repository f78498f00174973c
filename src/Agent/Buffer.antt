-- ===== src/Agent/Buffer.antt =====
-- internal/agent/buffer.go: the spill buffer. The table `pending_batches` is the list of its rows in
-- the order of `ORDER BY created_at, batch_id`; `AddFaults` says which statement of a transaction
-- fails, the ones in the eviction loop by the number of rows evicted before.
use hoptrail.Common.{
  ℕ, zero, suc, ◌+◌, ◌*◌, Bool, not, true, false, ◌||◌, Option, none, some, List, [], ◌∷◌, length,
  ltb, leb, if◌then◌else◌,
}
use hoptrail.Common.Int.{ℤ, pos, negsuc}
use hoptrail.Common.Text.{Text, text_eq, text_lt}

pub record Batch : Type 0 where
  pub batch_id : Text
  pub created_at : ℕ
  pub payload : Text

pub record Buffer : Type 0 where
  pub rows : List Batch
  pub max_bytes : ℕ

pub record AddFaults : Type 0 where
  pub begin : Bool
  pub insert : Bool
  pub size : ℕ → Bool
  pub evict : ℕ → Bool
  pub commit : Bool

-- `none` is the error on a bound below 1 MB, or of a file that does not open. The rows are those that
-- the file held.
unfoldable pub open_buffer : Bool → List Batch → ℤ → Option Buffer
open_buffer opens rows (negsuc n) = none
open_buffer opens rows (pos n) =
    if ltb n 1 || not opens then none else some (record { rows = rows; max_bytes = n * 1_048_576 })

unfoldable pub earlier : Batch → Batch → Bool
earlier a b =
    if ltb a.created_at b.created_at
    then true
    else if ltb b.created_at a.created_at
    then false
    else text_lt a.batch_id b.batch_id

unfoldable pub total : List Batch → ℕ
total [] = 0
total (b ∷ bs) = length b.payload + total bs

unfoldable pub insert_batch : Batch → List Batch → List Batch
insert_batch a [] = a ∷ []
insert_batch a (b ∷ bs) =
    let rest = insert_batch a bs in if earlier b a then b ∷ rest else a ∷ b ∷ bs

unfoldable pub remove_id : Text → List Batch → List Batch
remove_id k [] = []
remove_id k (b ∷ bs) = let rest = remove_id k bs in if text_eq b.batch_id k then rest else b ∷ rest

-- `DELETE … WHERE batch_id = (SELECT … LIMIT 1)`
abbrev pub remove_oldest : List Batch → List Batch
remove_oldest [] = []
remove_oldest (b ∷ bs) = remove_id b.batch_id (b ∷ bs)

-- The error of an `Add` carries the number of evictions too; `stuck` is the end of the fuel.
pub data Added : Type 0 where
  added : List Batch → ℕ → Added
  failed : ℕ → Added
  stuck : Added

unfoldable pub evict_loop : ℕ → AddFaults → ℕ → List Batch → ℕ → Added
evict_loop zero f max_bytes rows evicted = stuck
evict_loop (suc n) f max_bytes rows evicted =
    let rest = evict_loop n f max_bytes (remove_oldest rows) (suc evicted) in
    if f.size evicted
    then failed evicted
    else if leb (total rows) max_bytes
    then added rows evicted
    else if f.evict evicted
    then failed evicted
    else rest

-- `INSERT OR REPLACE`
abbrev pub store_batch : Batch → List Batch → List Batch
store_batch a rows = insert_batch a (remove_id a.batch_id rows)

abbrev pub commit_add : AddFaults → Added → Added
commit_add f (added rows n) = if f.commit then failed n else added rows n
commit_add f (failed n) = failed n
commit_add f stuck = stuck

-- Each row that the loop deletes takes one unit of the fuel.
unfoldable pub add : AddFaults → Buffer → Batch → Added
add f b a =
    if ltb b.max_bytes (length a.payload)
    then failed 0
    else if f.begin || f.insert
    then failed 0
    else (let stored = store_batch a b.rows in
        commit_add f (evict_loop (suc (length stored)) f b.max_bytes stored 0))

-- The buffer that an `Add` leaves: a failing transaction is rolled back.
abbrev pub after_add : Buffer → Added → Buffer
after_add b (added rows n) = record b { rows = rows }
after_add b (failed n) = b
after_add b stuck = b

unfoldable pub oldest_batch : Buffer → Option (Text × Text)
oldest_batch b = elim b.rows [ [] ↦ none | r ∷ rs ↦ some (r.batch_id, r.payload) ]

unfoldable pub delete : Buffer → Text → Buffer
delete b k = record b { rows = remove_id k b.rows }

unfoldable pub count : Buffer → ℕ
count b = length b.rows
