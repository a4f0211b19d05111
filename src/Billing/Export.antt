-- ===== src/Billing/Export.antt =====
-- internal/billing/export_worker.go with the task table of internal/dal: the export queue, its two
-- workers, the semaphores of the users and the rows of `billing_export_tasks`. The database may refuse
-- a write: each event says whether it does.
mod Types
pub mod Enqueue
pub mod Slots
pub mod Rows
pub mod Cancel
pub mod Drain
pub use Types.*
use Prim.Native.String
use mathlib.Core.Option.{get_or}
use api_ops.Common.{
  ℕ, zero, suc, ◌+◌, ◌-◌, ◌≡◌, Bool, true, false, ◌&&◌, Option, none, some, List, [], ◌∷◌, ◌++◌,
  String, lookup, insert, delete, String_discrete, ℕ_discrete, ltb, leb, ◌==◌, ite, if◌then◌else◌,
  length,
}

abbrev pub max_concurrent_per_user : ℕ
max_concurrent_per_user = 2

abbrev pub task_queue_size : ℕ
task_queue_size = 100

unfoldable pub new_world : World
new_world = record { rows = []; queue = []; sems = []; first = idle; second = idle }

-- `CountBillingExportTasksRunningByUser`.
unfoldable pub count_running : ℕ → List (String × Task) → ℕ
count_running user [] = 0
count_running user ((k, t) ∷ rows) =
    (ite (ℕ_discrete t.user_id user) (if is_running t.status then 1 else 0) 0)
    + count_running user rows

-- The row that is written: an empty kind is a customer's.
unfoldable pub new_task : String → Request → Task
new_task id r = record {
  task_id = id;
  user_id = r.user_id;
  username = r.username;
  period = r.period;
  period_start = r.period_start;
  period_end = r.period_end;
  formats = r.formats;
  kind = ite (String_discrete r.kind "") "customer" r.kind;
  vendor_code = r.vendor_code;
  status = pending;
  progress = 0;
  file_path = "";
  file_size = 0;
  error_msg = "";
  started_at = none;
  finished_at = none;
  operator = r.operator;
}

-- `EnqueueExportTask`; `id` is what `newTaskID` drew, and `counts`, `creates` say that the two
-- statements succeed.
unfoldable pub enqueue : String → Request → Bool → Bool → World → World × Reply
unfolding count_running
enqueue id r counts creates w =
    let t = new_task id r in
    let w' = record w { rows = insert String_discrete id t w.rows } in
    if counts
    then (if leb max_concurrent_per_user (count_running r.user_id w.rows)
        then (w, too_many)
        else if creates
        then (if ltb (length w.queue) task_queue_size
            then (record w' { queue = w.queue ++ t ∷ [] }, created id)
            else (w', queue_full))
        else (w, create_failed))
    else (w, count_failed)

-- `CancelPendingBillingExportTask`: the number of rows that changed is 1 or 0.
cancel_row : String → String → ℕ → Task → List (String × Task) → List (String × Task) × ℕ
cancel_row id operator now t rows =
    if is_pending t.status
    then (
      insert String_discrete id
          (record t {
            status = cancelled;
            finished_at = some now;
            error_msg = String.◌++◌ "cancelled by " operator;
          })
          rows,
      1,
    )
    else (rows, 0)

unfoldable pub cancel : String → String → ℕ → World → World × ℕ
unfolding cancel_row
cancel id operator now w = elim (lookup String_discrete id w.rows) [
  | none ↦ (w, 0)
  | some t ↦ let (rows, n) = cancel_row id operator now t w.rows in (record w { rows = rows }, n)
]

-- How many places of a user's semaphore are taken; one that was not made yet is empty.
abbrev pub taken : ℕ → World → ℕ
taken user w = get_or (lookup ℕ_discrete user w.sems) 0

-- `UpdateBillingExportTask` writes every column of the task, or fails and changes nothing.
abbrev pub save : Bool → Task → List (String × Task) → List (String × Task)
save saved t rows = if saved then insert String_discrete t.task_id t rows else rows

pub data Worker : Type 0 where
  one two : Worker

abbrev pub job : Worker → World → Job
job one w = w.first
job two w = w.second

abbrev pub set_job : Worker → Job → World → World
set_job one j w = record w { first = j }
set_job two j w = record w { second = j }

-- `case task := <-exportQueue` and `processOneTask` up to the generator. The worker waits, and nothing
-- happens, while the user's semaphore is full.
begin : Worker → Bool → ℕ → Task → List Task → World → World
begin i saved now t rest w =
    let t' = record t { status = running; started_at = some now; progress = 0 } in
    if ltb (taken t.user_id w) max_concurrent_per_user
    then set_job i (busy t') (record w {
      queue = rest;
      sems = insert ℕ_discrete t.user_id (taken t.user_id w + 1) w.sems;
      rows = save saved t' w.rows;
    })
    else w

unfoldable pub start : Worker → Bool → ℕ → World → World
unfolding begin
start i saved now w = elim (job i w) [
  | busy _ ↦ w
  | idle ↦ elim w.queue [ [] ↦ w | t ∷ rest ↦ begin i saved now t rest w ]
]

-- What `generateStatement` came to.
pub data Generated : Type 0 where
  file : String → ℕ → Generated
  error : String → Generated

-- The task in its final state.
unfoldable pub finished : Generated → ℕ → Task → Task
finished (error msg) now t = record t {
  finished_at = some now;
  status = failed;
  error_msg = msg;
  progress = 0;
}
finished (file path size) now t = record t {
  finished_at = some now;
  status = success;
  progress = 100;
  file_path = path;
  file_size = size;
}

-- The rest of `processOneTask`, with the deferred release of the semaphore.
unfoldable pub finish : Worker → Generated → Bool → ℕ → World → World
finish i g saved now w = elim (job i w) [
  | idle ↦ w
  | busy t ↦ set_job i idle (record w {
    rows = save saved (finished g now t) w.rows;
    sems = insert ℕ_discrete t.user_id (taken t.user_id w - 1) w.sems;
  })
]

-- `CleanupUserSem`.
unfoldable pub cleanup_user_sem : ℕ → World → World
cleanup_user_sem user w =
    if taken user w == 0 then record w { sems = delete ℕ_discrete user w.sems } else w

-- The rows whose task is not among the old ones.
unfoldable pub young_rows : (String → Bool) → List (String × Task) → List (String × Task)
young_rows old [] = []
young_rows old ((id, t) ∷ rows) =
    let rest = young_rows old rows in if old id then rest else (id, t) ∷ rest

-- `PruneExpiredBillingExportTasks`: `old` says which tasks were created more than thirty days ago, and
-- `deletes` that both statements succeed. The status of a task is not asked for.
unfoldable pub prune_expired : (String → Bool) → Bool → World → World
unfolding young_rows
prune_expired old deletes w = if deletes then record w { rows = young_rows old w.rows } else w

-- `cleans` is a call of `CleanupUserSem`, which nothing in the program makes.
pub data Event : Type 0 where
  enqueues : String → Request → Bool → Bool → Event
  cancels : String → String → ℕ → Event
  starts : Worker → Bool → ℕ → Event
  finishes : Worker → Generated → Bool → ℕ → Event
  cleans : ℕ → Event
  prunes : (String → Bool) → Bool → Event

unfoldable pub step : Event → World → World
step (enqueues id r counts creates) w = (enqueue id r counts creates w).0
step (cancels id operator now) w = (cancel id operator now w).0
step (starts i saved now) w = start i saved now w
step (finishes i g saved now) w = finish i g saved now w
step (cleans user) w = cleanup_user_sem user w
step (prunes old deletes) w = prune_expired old deletes w

unfoldable pub run : List Event → World → World
unfolding step
run [] w = w
run (e ∷ es) w = run es (step e w)
