-- ===== src/Billing/Tests.antt =====
-- Export tasks on concrete requests.
use text.Mathlib.TextEquality.{eq_iff}
use api_ops.Common.{
  ite, false, ℕ, zero, suc, ◌≤◌, ◌≡◌, ◌≢◌, refl, true, some, List, [], ◌∷◌, ◌++◌, String_discrete,
  ℕ_discrete, lookup, insert, arith, All,
}
use api_ops.Billing.Export.{
  Task, Request, World, Event, one, two, enqueues, Generated, file, error, created, starts, prunes,
  finishes, running, idle, taken, new_task, enqueue, cancel, start, run, new_world, count_running,
}
use api_ops.Billing.Export.Enqueue.{Answered, enqueue_answers}
use api_ops.Billing.Export.Slots.{slots_exact}
use api_ops.Billing.Export.Rows.{full_queue_orphans}
use api_ops.Billing.Export.Cancel.{status_of, cancel_is_overrun}
use api_ops.Billing.Export.Drain.{queue_drains, rounds}

abbrev june : Request
june = record {
  user_id = 7;
  username = "ann";
  period = "2026-06";
  formats = "html";
  kind = "";
  vendor_code = "";
  operator = "ops";
  period_start = 0;
  period_end = 0;
}

abbrev two_asked : List Event
two_asked = enqueues "a" june true true ∷ enqueues "b" june true true ∷ []

abbrev made : Task → Generated
made t = file t.task_id 10

enqueue_answers_example :
    Answered "c" june
      (run two_asked new_world)
      (enqueue "c" june true true (run two_asked new_world)).0
      (created "c")
unfolding run enqueue new_world count_running new_task ℕ_discrete insert String_discrete
enqueue_answers_example = enqueue_answers "c" june true true (run two_asked new_world)

slots_exact_example :
    taken 7 (run (two_asked ++ starts one true 1 ∷ starts two true 2 ∷ []) new_world) ≤ 2
slots_exact_example = (slots_exact (two_asked ++ starts one true 1 ∷ starts two true 2 ∷ []) 7).1

queue_drains_example :
    (run (rounds made 9 (run two_asked new_world).queue) (run two_asked new_world)).queue ≡ []
unfolding run enqueue new_world count_running new_task ℕ_discrete insert String_discrete
queue_drains_example =
    (queue_drains two_asked made 9 refl ((ground (arith, eq_iff "b" "a"), tt), (tt, tt))).0

-- A hundred tasks of another user wait.
abbrev others : ℕ → List Task
others zero = []
others (suc n) = new_task "x" june ∷ others n

abbrev full : World
full = record { rows = []; queue = others 100; sems = []; first = idle; second = idle }

others_IsForgotten : (n : ℕ) → All (λ t. t.task_id ≢ "late") (others n)
unfolding new_task
others_IsForgotten zero = tt
others_IsForgotten (suc n) = (ground (arith, eq_iff "x" "late"), others_IsForgotten n)

full_queue_orphans_example :
    lookup String_discrete "late"
      (run
        (starts one true 1
          ∷ finishes one (error "no database") true 2
          ∷ prunes (λ id. ite (String_discrete id "x") true false) true
          ∷ [])
        (enqueue "late" june true true full).0).rows
    ≡ some (new_task "late" june)
unfolding enqueue count_running String_discrete
full_queue_orphans_example =
    (full_queue_orphans "late" june full
      (starts one true 1
        ∷ finishes one (error "no database") true 2
        ∷ prunes (λ id. ite (String_discrete id "x") true false) true
        ∷ [])
      (record { queued = others_IsForgotten 100; by_first = tt; by_second = tt }) refl
      (tt, (tt, (refl, tt)))).0

abbrev asked : World
asked = run (enqueues "a" june true true ∷ []) new_world

cancel_is_overrun_example :
    status_of "a" (start one true 3 (cancel "a" "ops" 2 asked).0) ≡ some running
unfolding run enqueue new_world count_running new_task lookup insert String_discrete
cancel_is_overrun_example =
    (cancel_is_overrun asked one (new_task "a" june) (new_task "a" june) [] "ops" 2 3 4
      (file "a.zip" 10) refl refl (omega arith) refl refl).2
