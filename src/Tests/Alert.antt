-- ===== src/Tests/Alert.antt =====
-- Tests and witnesses for internal/alert.
use mathlib.Core.List.{Perm}
use hoptrail.Common.{
  ℕ, ◌+◌, ◌-◌, ◌%◌, ◌≤◌, ◌≡◌, ◌↔◌, ◌⊎◌, refl, Bool, true, false, none, some, List, [], ◌∷◌, ◌++◌,
  length, ltb, map, arith,
}
use hoptrail.Common.Int.{ℤ, pos, negsuc}
use hoptrail.Common.Text.{Text, codes, text_eq}
use hoptrail.Alert.Config.{Config, target_loss, parse_hhmm}
use hoptrail.Alert.Store.{
  raising, active, Key, AlertState, recovered, Faults, SummaryEntry, Store, AlertQueueItem,
  enqueue_alert,
}
use hoptrail.Alert.Engine.{
  Engine, sanitize_latin1, recent, in_minutes, unix_milli, cooling, lookup_raised, transition,
  deliver, gate, enqueue, in_quiet_window,
}
use hoptrail.Alert.Summary.{join_lines, flush_summary}
use hoptrail.Alert.Quiet.{in_minutes_lem}
use hoptrail.Alert.RateLimit.{Notice, deliver_all, Ordered, deliver_all_rate_limited}
use hoptrail.Alert.Cooldown.{Raise, Before, raise_one, raise_all, raise_all_cooled}
use hoptrail.Alert.History.{transition_history}
use hoptrail.Alert.Incidents.{incidents, without}
use hoptrail.Alert.Sorting.{Sorted}
use hoptrail.Alert.Flush.{line, flush_summary_lem}
use hoptrail.Alert.Tick.{Format, Providers, absent, exists_in, sweep}
use hoptrail.Alert.Orphans.{Gone, sweep_lem}
use hoptrail.Alert.Swept.{Listed}
use hoptrail.Alert.Store.{find_state, same_key, delete_alert_state, append_alert_history}
use hoptrail.Tests.Whole.{whole}

-- "22:00" to "07:00" holds 23:30 and 06:59, and not 07:00.
in_minutes_lem_example :
    in_minutes 1410 1320 420 ≡ ltb ((1410 + 1440 - 1320) % 1440) ((420 + 1440 - 1320) % 1440)
in_minutes_lem_example = in_minutes_lem 1410 1320 420 (omega arith) (omega arith) (omega arith)

hhmm : parse_hhmm (codes "07:30") ≡ some (7, 30)
unfolding parse_hhmm
hhmm = refl

overnight : in_quiet_window 419 (codes "22:00") (codes "07:00") ≡ true
unfolding in_quiet_window in_minutes parse_hhmm
overnight = refl

morning : in_quiet_window 420 (codes "22:00") (codes "07:00") ≡ false
unfolding in_quiet_window in_minutes parse_hhmm
morning = refl

abbrev settings : Config whole
settings = record {
  enabled = true;
  server_url = codes "http://ntfy";
  topic = codes "net";
  token = [];
  event_probe_offline = true;
  event_target_loss = true;
  event_latency = false;
  event_derate = true;
  event_capacity = true;
  loss_pct = 20;
  sustain_s = 120;
  latency_level = codes "critical";
  disk_free_floor_mb = 1024;
  disk_free_pct_floor = 0;
  headroom_threshold = 1;
  cooldown_s = 1800;
  rate_limit_per_h = 2;
  quiet_start = [];
  quiet_end = [];
}

abbrev no_faults : Faults
no_faults = record {
  history_write = false;
  summary_read = false;
  summary_write = false;
  summary_delete = false;
  enqueue = false;
  state_write = false;
  state_delete = false;
}

abbrev loss_at : Text → Key
loss_at subject = record { event = target_loss; subject = subject }

abbrev fresh : Engine
fresh = record {
  db = record { states = []; history = []; queue = []; summary = [] };
  last_raised = [];
  sent = [];
}

abbrev noon : ℕ → ℕ
noon t = 720

abbrev notice : ℕ → Notice
notice now = record {
  now = now;
  faults = no_faults;
  key = loss_at (codes "a");
  msg = codes "down";
  priority = codes "high";
  recovery = false;
}

abbrev three : List Notice
three = notice 5 ∷ notice 6 ∷ notice 7 ∷ []

-- The third alert within the hour is dropped.
two_of_three : (deliver_all whole noon settings three fresh []).1 ≡ 5 ∷ 6 ∷ []
unfolding deliver_all deliver recent in_quiet_window gate enqueue enqueue_alert
two_of_three = refl

three-Ordered : Ordered 0 three 9
unfolding Ordered
three-Ordered = (omega arith, (omega arith, (omega arith, omega arith)))

deliver_all_rate_limited_example :
    length (recent 9 (deliver_all whole noon settings three fresh []).1) ≤ 2
deliver_all_rate_limited_example =
    deliver_all_rate_limited whole noon settings three fresh 9 refl three-Ordered

abbrev row : Text → AlertState
row subject = record { key = loss_at subject; state = raising; since = 0; notified_at = none }

abbrev attempt : ℕ → Text → Raise
attempt now subject = record {
  now = now;
  faults = record no_faults { enqueue = true; state_write = true };
  row = row subject;
  key = loss_at subject;
  msg = codes "down";
  priority = codes "high";
}

first_attempt :
    cooling whole noon settings no_faults 5 (lookup_raised (loss_at (codes "a")) []) ≡ false
unfolding lookup_raised
first_attempt = refl

between-Before : Before whole noon settings 5 (attempt 6 (codes "b") ∷ [])
unfolding Before
between-Before = (omega arith, omega arith)

raise_all_cooled_example :
    raise_one whole noon settings
      (raise_all whole noon settings
        (attempt 6 (codes "b") ∷ [])
        (raise_one whole noon settings fresh (attempt 5 (codes "a"))).0)
      (attempt 7 (codes "a"))
    ≡ (
      raise_all whole noon settings
          (attempt 6 (codes "b") ∷ [])
          (raise_one whole noon settings fresh (attempt 5 (codes "a"))).0,
      record (row (codes "a")) { state = active },
    )
raise_all_cooled_example =
    raise_all_cooled whole noon settings fresh (attempt 5 (codes "a")) (attempt 6 (codes "b") ∷ [])
      (attempt 7 (codes "a")) first_attempt between-Before refl (omega arith)

abbrev notified : AlertState
notified = record (row (codes "a")) { state = active; notified_at = some 0 }

transition_history_example :
    (transition whole noon settings no_faults 9 fresh
      (some notified)
      (loss_at (codes "a"))
      false
      0
      (codes "down")
      (codes "up")
      (codes "high")).0.db.history
    ≡ []
      ++ record {
        ts = unix_milli 9;
        key = loss_at (codes "a");
        kind = recovered;
        message = codes "up";
      }
        ∷ []
transition_history_example =
    transition_history whole noon settings no_faults 9 fresh (some notified) (loss_at (codes "a"))
      false 0 (codes "down") (codes "up") (codes "high") refl

abbrev entry : ℕ → Text → Bool → SummaryEntry
entry ts subject recovery = record {
  ts = ts;
  key = loss_at subject;
  msg = subject;
  recovery = recovery;
}

abbrev night : List SummaryEntry
night = entry 1 (codes "a") false ∷ entry 2 (codes "b") false ∷ entry 3 (codes "a") true ∷ []

abbrev clock : ℕ → Text
clock t = t ∷ []

abbrev decimal : ℤ → Text
decimal (pos n) = n ∷ []
decimal (negsuc n) = []

abbrev slept : Store
slept = record { states = []; history = []; queue = []; summary = night }

-- Three entries, two incidents.
two_incidents : incidents night ≡ loss_at (codes "a") ∷ loss_at (codes "b") ∷ []
unfolding incidents without same_key text_eq
two_incidents = refl

abbrev summary_message : List Text → AlertQueueItem
summary_message ls = record {
  created_at = unix_milli 9;
  title = sanitize_latin1 (
      codes "hoptrail: "
      ++ decimal (pos (length (incidents night)))
      ++ codes " alert(s) during quiet hours");
  body = join_lines ls;
  priority = codes "default";
}

flush_summary_lem_example :
    (ls : List Text) × (flush_summary clock decimal no_faults 9 slept
      ≡ (record slept { summary = []; queue = [] ++ summary_message ls ∷ [] }, true))
    × Sorted ls
    × Perm ls (map (line clock night) (incidents night))
flush_summary_lem_example =
    flush_summary_lem clock decimal no_faults 9 slept (entry 1 (codes "a") false)
      (entry 2 (codes "b") false ∷ entry 3 (codes "a") true ∷ []) refl refl refl refl

abbrev format : Format whole
format = record { clock = clock; percent = λ x. x ∷ []; duration = λ d. d ∷ []; decimal = decimal }

-- Only the target "b" is still monitored.
abbrev one_target : Providers
one_target = record {
  probes = absent;
  targets = some ((codes "b", record { warning_ms = none; critical_ms = none }) ∷ []);
  derate_active = absent;
  window_stats = none;
  capacity_verdict = λ a. absent;
}

abbrev two_rows : Engine
two_rows = record fresh {
  db = record { states = notified ∷ row (codes "b") ∷ []; history = []; queue = []; summary = [] };
}

abbrev swept : Engine
swept = sweep whole format noon settings no_faults 9 one_target none two_rows.db.states two_rows

-- The orphaned incident of "a" is cleared, that of "b" stays.
cleared_row : find_state (loss_at (codes "a")) swept.db.states ≡ none
unfolding find_state sweep exists_in delete_alert_state append_alert_history text_eq same_key
cleared_row = refl

kept_row : find_state (loss_at (codes "b")) swept.db.states ≡ some (row (codes "b"))
unfolding find_state sweep exists_in delete_alert_state append_alert_history text_eq same_key
kept_row = refl

sweep_lem_example :
    (d : Engine) × (swept ≡ d)
    × ((find_state (loss_at (codes "a")) d.db.states ≡ none) ↔ (
        (find_state (loss_at (codes "a")) two_rows.db.states ≡ none)
        ⊎ (Listed (loss_at (codes "a")) two_rows.db.states
            × Gone whole format noon settings no_faults 9 one_target none (loss_at (codes "a")))))
    × ((find_state (loss_at (codes "a")) d.db.states ≡ none)
        ⊎ (find_state (loss_at (codes "a")) d.db.states
            ≡ find_state (loss_at (codes "a")) two_rows.db.states))
    × ((lookup_raised (loss_at (codes "a")) d.last_raised ≡ none) ↔ (
        (lookup_raised (loss_at (codes "a")) two_rows.last_raised ≡ none)
        ⊎ (Listed (loss_at (codes "a")) two_rows.db.states
            × Gone whole format noon settings no_faults 9 one_target none (loss_at (codes "a")))))
    × ((lookup_raised (loss_at (codes "a")) d.last_raised ≡ none)
        ⊎ (lookup_raised (loss_at (codes "a")) d.last_raised
            ≡ lookup_raised (loss_at (codes "a")) two_rows.last_raised))
sweep_lem_example =
    sweep_lem whole format noon settings no_faults 9 one_target none two_rows.db.states two_rows
      (loss_at (codes "a")) refl
