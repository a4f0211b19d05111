-- ===== src/Billing/Export/Cancel.antt =====
-- One task through a worker, and what a cancellation is worth on the way.
use Prim.Native.String
use api_ops.Common.{
  ℕ, ◌<◌, ◌≡◌, refl, true, Option, none, some, List, ◌∷◌, String, lookup, String_discrete, arith,
  lookup-insert, ◌∙◌,
}
use api_ops.Billing.Export.Rows.{finished_id}
use api_ops.Billing.Export.{
  Task, Status, World, Worker, one, two, Generated, file, error, idle, busy, job, pending, running,
  success, failed, cancelled, cancel, begin, start, finish, finished, taken,
  max_concurrent_per_user,
}

-- The status of a row.
abbrev pub status_of : String → World → Option Status
status_of id w = elim (lookup String_discrete id w.rows) [ none ↦ none | some t ↦ some t.status ]

abbrev pub started : ℕ → Task → Task
started now t = record t { status = running; started_at = some now; progress = 0 }

abbrev pub final : Generated → Status
final (file path size) = success
final (error msg) = failed

finished_status : (g : Generated) (now : ℕ) (t : Task) → (finished g now t).status ≡ final g
unfolding finished
finished_status (file path size) now t = refl
finished_status (error msg) now t = refl

cancel_pending :
    (w : World) (i : Worker) (id : String) (row : Task) (operator : String) (at : ℕ)
    → lookup String_discrete id w.rows ≡ some row
    → row.status ≡ pending
    → let c = cancel id operator at w in
      (c.1 ≡ 1)
      × (status_of id c.0 ≡ some cancelled)
      × (c.0.queue ≡ w.queue)
      × (job i c.0 ≡ job i w)
      × (c.0.sems ≡ w.sems)
unfolding cancel
cancel_pending w one id row operator at r p = ground (
  arith,
  lookup-insert String_discrete id id
      (record row {
        status = cancelled;
        finished_at = some at;
        error_msg = String.◌++◌ "cancelled by " operator;
      })
      w.rows,
)
cancel_pending w two id row operator at r p = ground (
  arith,
  lookup-insert String_discrete id id
      (record row {
        status = cancelled;
        finished_at = some at;
        error_msg = String.◌++◌ "cancelled by " operator;
      })
      w.rows,
)

pub start_saves :
    (w : World) (i : Worker) (t : Task) (rest : List Task) (now : ℕ)
    → job i w ≡ idle
    → w.queue ≡ t ∷ rest
    → taken t.user_id w < max_concurrent_per_user
    → (lookup String_discrete t.task_id (start i true now w).rows ≡ some (started now t))
      × (job i (start i true now w) ≡ busy (started now t))
unfolding start begin
start_saves w one t rest now e q s =
    rw (e, q, start)
      (ground (arith, lookup-insert String_discrete t.task_id t.task_id (started now t) w.rows))
start_saves w two t rest now e q s =
    rw (e, q, start)
      (ground (arith, lookup-insert String_discrete t.task_id t.task_id (started now t) w.rows))

pub finish_saves :
    (w : World) (i : Worker) (t : Task) (g : Generated) (now : ℕ)
    → job i w ≡ busy t
    → lookup String_discrete t.task_id (finish i g true now w).rows ≡ some (finished g now t)
unfolding finish
finish_saves w one t g now e =
    rw (e, finish)
      (ground (
        arith,
        finished_id g now t,
        lookup-insert String_discrete (finished g now t).task_id t.task_id (finished g now t)
            w.rows,
      ))
finish_saves w two t g now e =
    rw (e, finish)
      (ground (
        arith,
        finished_id g now t,
        lookup-insert String_discrete (finished g now t).task_id t.task_id (finished g now t)
            w.rows,
      ))

-- A task that is cancelled while it waits in the queue is run all the same: the worker that comes to it
-- writes `running` over `cancelled`, and its outcome afterwards.
pub cancel_is_overrun :
    (w : World) (i : Worker) (t row : Task) (rest : List Task) (operator : String)
    (at now after : ℕ) (g : Generated)
    → job i w ≡ idle
    → w.queue ≡ t ∷ rest
    → taken t.user_id w < max_concurrent_per_user
    → lookup String_discrete t.task_id w.rows ≡ some row
    → row.status ≡ pending
    → let c = cancel t.task_id operator at w in
      let b = start i true now c.0 in
      (c.1 ≡ 1)
      × (status_of t.task_id c.0 ≡ some cancelled)
      × (status_of t.task_id b ≡ some running)
      × (status_of t.task_id (finish i g true after b) ≡ some (final g))
cancel_is_overrun w i t row rest operator at now after g e q s r p =
    let c = cancel t.task_id operator at w in
    let (count, gone, queue, job_kept, sems) = cancel_pending w i t.task_id row operator at r p in
    let (begun, held) =
      start_saves c.0 i t rest now (job_kept ∙ e) (queue ∙ q) (ground (arith, sems)) in
    let ended = finish_saves (start i true now c.0) i _ g after held in
    (
      count,
      ground (arith, gone),
      ground (arith, begun),
      ground (arith, ended, finished_status g after (started now t)),
    )
