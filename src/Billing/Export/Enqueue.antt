-- ===== src/Billing/Export/Enqueue.antt =====
-- Every answer of `EnqueueExportTask`, and the bound of the queue.
use api_ops.Common.{
  ◌≤◌, ◌<◌, ◌≡◌, refl, Bool, true, false, some, List, [], ◌∷◌, ◌++◌, String, lookup,
  String_discrete, arith, lookup-insert, insert, leb, ltb, ltb→lt, Bool-cases, inl, inr, length,
  length-append,
}
use api_ops.Billing.Export.{
  Task, Request, Reply, created, count_failed, too_many, create_failed, queue_full, World,
  count_running, new_task, enqueue, max_concurrent_per_user, task_queue_size,
}

-- What each answer says of the world before and after.
abbrev pub Answered : String → Request → World → World → Reply → Type 0
Answered id r w w' (created i) =
    (i ≡ id)
    × (count_running r.user_id w.rows < max_concurrent_per_user)
    × (w'.queue ≡ w.queue ++ new_task id r ∷ [])
    × (length w'.queue ≤ task_queue_size)
    × (lookup String_discrete id w'.rows ≡ some (new_task id r))
Answered id r w w' too_many = (max_concurrent_per_user ≤ count_running r.user_id w.rows) × (w' ≡ w)
Answered id r w w' queue_full =
    (task_queue_size ≤ length w.queue)
    × (w'.queue ≡ w.queue)
    × (lookup String_discrete id w'.rows ≡ some (new_task id r))
Answered id r w w' count_failed = w' ≡ w
Answered id r w w' create_failed = w' ≡ w

stored :
    (id : String) (t : Task) (rows : List (String × Task))
    → lookup String_discrete id (insert String_discrete id t rows) ≡ some t
stored id t rows = ground (arith, lookup-insert String_discrete id id t rows)

-- A task is created and put last in the queue only while fewer than two of the user's rows are
-- running and the queue has room. A refusal changes nothing, but for a full queue: then the row is
-- written all the same.
pub enqueue_answers :
    (id : String) (r : Request) (counts creates : Bool) (w : World)
    → Answered id r w (enqueue id r counts creates w).0 (enqueue id r counts creates w).1
unfolding enqueue
enqueue_answers id r false creates w = refl
enqueue_answers id r true creates w =
    elim (Bool-cases (leb max_concurrent_per_user (count_running r.user_id w.rows))) [
      | inl many ↦ rw (many, enqueue) (ground arith, refl)
      | inr few ↦ admitted creates few
    ]
  where
    few_running :
        leb max_concurrent_per_user (count_running r.user_id w.rows) ≡ false
        → count_running r.user_id w.rows < max_concurrent_per_user
    few_running few = ground arith

    admitted :
        (creates : Bool)
        → leb max_concurrent_per_user (count_running r.user_id w.rows) ≡ false
        → Answered id r w (enqueue id r true creates w).0 (enqueue id r true creates w).1
    admitted false few = rw (few, enqueue) refl
    admitted true few = elim (Bool-cases (ltb (length w.queue) task_queue_size)) [
      | inl room ↦
          rw (few, room, enqueue)
            (
              refl,
              few_running few,
              refl,
              omega (arith, ltb→lt _ _ room, length-append w.queue (new_task id r ∷ [])),
              stored id (new_task id r) w.rows,
            )
      | inr full ↦ rw (few, full, enqueue) (ground arith, refl, stored id (new_task id r) w.rows)
    ]
