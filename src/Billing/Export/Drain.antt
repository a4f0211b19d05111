-- ===== src/Billing/Export/Drain.antt =====
-- The queue is served: one worker is enough to bring every waiting task to its end.
use api_ops.Common.{
  ℕ, ◌<◌, ◌≡◌, ◌≢◌, refl, true, some, List, [], ◌∷◌, ◌++◌, String, lookup, String_discrete, arith,
  lookup-insert, ◌∙◌, sym, All,
}
use api_ops.Billing.Export.{
  Task, World, one, Event, Generated, starts, finishes, idle, busy, begin, start, finish, finished,
  step, run, new_world, taken, max_concurrent_per_user,
}
use api_ops.Billing.Export.Slots.{Inv, held, run-Inv, new_world-Inv}
use api_ops.Billing.Export.Rows.{finished_id}
use api_ops.Billing.Export.Cancel.{start_saves, finish_saves, started}

-- One round of the first worker over a task, with what the generator makes of it.
abbrev pub round : (Task → Generated) → ℕ → Task → List Event
round gen now t = starts one true now ∷ finishes one (gen (started now t)) true now ∷ []

abbrev pub ended : (Task → Generated) → ℕ → Task → Task
ended gen now t = finished (gen (started now t)) now (started now t)

pub rounds : (Task → Generated) → ℕ → List Task → List Event
rounds gen now [] = []
rounds gen now (t ∷ ts) = round gen now t ++ rounds gen now ts

-- The ids differ.
abbrev pub DistinctIds : List Task → Type 0
DistinctIds [] = Unit
DistinctIds (t ∷ ts) = All (λ u. u.task_id ≢ t.task_id) ts × DistinctIds ts

record Round (gen : Task → Generated) (now : ℕ) (t : Task) (rest : List Task) (w w' : World)
    : Type 0 where
  queue : w'.queue ≡ rest
  ready : w'.first ≡ idle
  inv : Inv w'
  row : lookup String_discrete t.task_id w'.rows ≡ some (ended gen now t)
  others :
      (id : String)
      → id ≢ t.task_id
      → lookup String_discrete id w'.rows ≡ lookup String_discrete id w.rows

start_queue :
    (w : World) (t : Task) (rest : List Task) (now : ℕ)
    → w.first ≡ idle
    → w.queue ≡ t ∷ rest
    → taken t.user_id w < max_concurrent_per_user
    → ((start one true now w).queue ≡ rest)
      × ((id : String)
          → id ≢ t.task_id
          → lookup String_discrete id (start one true now w).rows
            ≡ lookup String_discrete id w.rows)
unfolding start begin
start_queue w t rest now e q s =
    rw (e, q, start)
      (
        ground arith,
        λ id h. ground (arith, lookup-insert String_discrete t.task_id id (started now t) w.rows),
      )

finish_queue :
    (w : World) (t : Task) (g : Generated) (now : ℕ)
    → w.first ≡ busy t
    → ((finish one g true now w).queue ≡ w.queue)
      × ((finish one g true now w).first ≡ idle)
      × ((id : String)
          → id ≢ t.task_id
          → lookup String_discrete id (finish one g true now w).rows
            ≡ lookup String_discrete id w.rows)
unfolding finish
finish_queue w t g now e =
    rw (e, finish)
      (
        refl,
        refl,
        λ id h. ground (
          arith,
          finished_id g now t,
          lookup-insert String_discrete (finished g now t).task_id id (finished g now t) w.rows,
        ),
      )

one_round :
    (gen : Task → Generated) (now : ℕ) (t : Task) (rest : List Task) (w : World)
    → w.first ≡ idle
    → w.queue ≡ t ∷ rest
    → Inv w
    → Round gen now t rest w (run (round gen now t) w)
unfolding run
one_round gen now t rest w e q v =
    let room : taken t.user_id w < max_concurrent_per_user = ground (arith, v t.user_id) in
    let (_, held) = start_saves w one t rest now e q room in
    let (waits, kept) = start_queue w t rest now e q room in
    let b = start one true now w in
    let (queue, ready, same) = finish_queue b (started now t) (gen (started now t)) now held in
    record {
      queue = queue ∙ waits;
      ready = ready;
      inv = run-Inv (round gen now t) w v;
      row = finish_saves b one (started now t) (gen (started now t)) now held;
      others = λ id h. same id h ∙ kept id h;
    }

run-append : (es fs : List Event) (w : World) → run (es ++ fs) w ≡ run fs (run es w)
unfolding run
run-append [] fs w = refl
run-append (e ∷ es) fs w = run-append es fs (step e w)

rounds_keep :
    (gen : Task → Generated) (now : ℕ) (ts : List Task) (id : String) (w : World)
    → w.first ≡ idle
    → w.queue ≡ ts
    → Inv w
    → All (λ u. u.task_id ≢ id) ts
    → lookup String_discrete id (run (rounds gen now ts) w).rows ≡ lookup String_discrete id w.rows
unfolding rounds run
rounds_keep gen now [] id w e q v h = refl
rounds_keep gen now (t ∷ ts) id w e q v h =
    let r = one_round gen now t ts w e q v in
    rounds_keep gen now ts id (run (round gen now t) w) r.ready r.queue r.inv h.1
    ∙ r.others id (λ p. h.0 (sym p))

rounds_end :
    (gen : Task → Generated) (now : ℕ) (ts : List Task) (w : World)
    → w.first ≡ idle
    → w.queue ≡ ts
    → Inv w
    → DistinctIds ts
    → let w' = run (rounds gen now ts) w in
      (w'.queue ≡ [])
      × All (λ t. lookup String_discrete t.task_id w'.rows ≡ some (ended gen now t)) ts
unfolding rounds run
rounds_end gen now [] w e q v d = (q, tt)
rounds_end gen now (t ∷ ts) w e q v d =
    let w' = run (round gen now t) w in
    let r = one_round gen now t ts w e q v in
    let (empty, rows) = rounds_end gen now ts w' r.ready r.queue r.inv d.1 in
    (empty, (rounds_keep gen now ts t.task_id w' r.ready r.queue r.inv d.0 ∙ r.row, rows))

-- If the first worker is idle and its writes succeed, then one round for each waiting task empties the
-- queue, oldest first, and leaves every task's row in the final state that the generator gave it.
pub queue_drains :
    (es : List Event) (gen : Task → Generated) (now : ℕ)
    → (run es new_world).first ≡ idle
    → DistinctIds (run es new_world).queue
    → let w = run es new_world in
      let w' = run (rounds gen now w.queue) w in
      (w'.queue ≡ [])
      × All (λ t. lookup String_discrete t.task_id w'.rows ≡ some (ended gen now t)) w.queue
queue_drains es gen now e d =
    rounds_end gen now (run es new_world).queue (run es new_world) e refl
      (run-Inv es new_world new_world-Inv) d
