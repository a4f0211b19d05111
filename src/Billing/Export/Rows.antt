-- ===== src/Billing/Export/Rows.antt =====
-- What becomes of the rows of `billing_export_tasks`: rows that no worker will see, and cancelled ones.
use Prim.Native.String
use api_ops.Common.{
  ℕ, ◌≡◌, ◌≢◌, refl, sym, ap, ◌∙◌, Bool, true, false, Option, none, some, List, [], ◌∷◌, ◌++◌,
  String, lookup, String_discrete, arith, lookup-insert, All,
}
use api_ops.Billing.Export.{
  Task, Request, queue_full, World, Worker, one, two, Event, Generated, file, error, enqueues,
  cancels, starts, finishes, cleans, prunes, young_rows, prune_expired, Job, idle, busy, job,
  running, cancelled, new_task, enqueue, cancel, begin, start, finish, finished, cleanup_user_sem,
  step, run, save,
}

-- The task is another one.
abbrev IsOther : String → Task → Type 0
IsOther id t = t.task_id ≢ id

abbrev IsOtherJob : String → Job → Type 0
IsOtherJob id idle = Unit
IsOtherJob id (busy t) = IsOther id t

-- Neither the queue nor a worker holds the task.
pub record IsForgotten (id : String) (w : World) : Type 0 where
  pub queued : All (IsOther id) w.queue
  pub by_first : IsOtherJob id w.first
  pub by_second : IsOtherJob id w.second

-- The event does not create or cancel the task, and takes it for no old one.
abbrev pub IsAside : String → Event → Type 0
IsAside id (enqueues i r counts creates) = i ≢ id
IsAside id (cancels i operator now) = i ≢ id
IsAside id (starts i saved now) = Unit
IsAside id (finishes i g saved now) = Unit
IsAside id (cleans user) = Unit
IsAside id (prunes old deletes) = old id ≡ false

-- The task is forgotten and its row is `t`.
record IsStuck (id : String) (t : Task) (w : World) : Type 0 where
  forgotten : IsForgotten id w
  row : lookup String_discrete id w.rows ≡ some t

All-snoc {ℓ} :
    {A : Type ℓ} (P : A → Type 0) (xs : List A) (x : A) → All P xs → P x → All P (xs ++ x ∷ [])
All-snoc P [] x h p = (p, tt)
All-snoc P (y ∷ xs) x h p = (h.0, All-snoc P xs x h.1 p)

pub save_aside :
    (saved : Bool) (id : String) (t : Task) (rows : List (String × Task))
    → t.task_id ≢ id
    → lookup String_discrete id (save saved t rows) ≡ lookup String_discrete id rows
save_aside saved id t rows h = ground (arith, lookup-insert String_discrete t.task_id id t rows)

begin-IsStuck :
    (i : Worker) (saved : Bool) (now : ℕ) (t u : Task) (rest : List Task) (id : String) (w : World)
    → All (IsOther id) (t ∷ rest)
    → IsStuck id u w
    → IsStuck id u (begin i saved now t rest w)
unfolding begin
begin-IsStuck one saved now t u rest id w h s = record {
  forgotten = record {
    queued = ground (arith, s.forgotten, h);
    by_first = ground (arith, s.forgotten, h.0);
    by_second = ground (arith, s.forgotten);
  };
  row = ground (
    arith,
    s.row,
    save_aside saved id (record t { status = running; started_at = some now; progress = 0 }) w.rows
        h.0,
  );
}
begin-IsStuck two saved now t u rest id w h s = record {
  forgotten = record {
    queued = ground (arith, s.forgotten, h);
    by_first = ground (arith, s.forgotten);
    by_second = ground (arith, s.forgotten, h.0);
  };
  row = ground (
    arith,
    s.row,
    save_aside saved id (record t { status = running; started_at = some now; progress = 0 }) w.rows
        h.0,
  );
}

start-IsStuck :
    (i : Worker) (saved : Bool) (now : ℕ) (u : Task) (q : List Task) (j : Job) (id : String)
    (w : World)
    → w.queue ≡ q
    → job i w ≡ j
    → IsStuck id u w
    → IsStuck id u (start i saved now w)
unfolding start
start-IsStuck i saved now u q (busy t) id w e f s = rw (f, start) s
start-IsStuck i saved now u [] idle id w e f s = rw (f, e, start) s
start-IsStuck i saved now u (t ∷ rest) idle id w e f s =
    rw (f, e, start) (begin-IsStuck i saved now t u rest id w (rw e at s.forgotten.queued) s)

pub finished_id : (g : Generated) (now : ℕ) (t : Task) → (finished g now t).task_id ≡ t.task_id
unfolding finished
finished_id (error msg) now t = refl
finished_id (file path size) now t = refl

finish-IsStuck :
    (i : Worker) (g : Generated) (saved : Bool) (now : ℕ) (u : Task) (j : Job) (id : String)
    (w : World)
    → job i w ≡ j
    → IsStuck id u w
    → IsStuck id u (finish i g saved now w)
unfolding finish
finish-IsStuck i g saved now u idle id w f s = rw (f, finish) s
finish-IsStuck one g saved now u (busy t) id w f s = record {
  forgotten = record {
    queued = ground (arith, s.forgotten);
    by_first = ground (arith, s.forgotten);
    by_second = ground (arith, s.forgotten);
  };
  row = ground (
    arith,
    s.row,
    s.forgotten,
    finished_id g now t,
    save_aside saved id (finished g now t) w.rows,
  );
}
finish-IsStuck two g saved now u (busy t) id w f s = record {
  forgotten = record {
    queued = ground (arith, s.forgotten);
    by_first = ground (arith, s.forgotten);
    by_second = ground (arith, s.forgotten);
  };
  row = ground (
    arith,
    s.row,
    s.forgotten,
    finished_id g now t,
    save_aside saved id (finished g now t) w.rows,
  );
}

enqueue-IsStuck :
    (i : String) (r : Request) (counts creates : Bool) (u : Task) (id : String) (w : World)
    → i ≢ id
    → IsStuck id u w
    → IsStuck id u (enqueue i r counts creates w).0
unfolding enqueue
enqueue-IsStuck i r counts creates u id w h s = record {
  forgotten = record {
    queued = ground (
      arith,
      s.forgotten.queued,
      All-snoc (IsOther id) w.queue (new_task i r) s.forgotten.queued (unfold new_task in h),
    );
    by_first = ground (arith, s.forgotten);
    by_second = ground (arith, s.forgotten);
  };
  row = ground (arith, s.row, lookup-insert String_discrete i id (new_task i r) w.rows);
}

cancel-IsStuck :
    (i operator : String) (now : ℕ) (u : Task) (id : String) (o : Option Task) (w : World)
    → lookup String_discrete i w.rows ≡ o
    → i ≢ id
    → IsStuck id u w
    → IsStuck id u (cancel i operator now w).0
unfolding cancel
cancel-IsStuck i operator now u id none w e h s = rw (e, cancel) s
cancel-IsStuck i operator now u id (some t) w e h s =
    rw (e, cancel)
      (record {
        forgotten = record {
          queued = s.forgotten.queued;
          by_first = s.forgotten.by_first;
          by_second = s.forgotten.by_second;
        };
        row = ground (
          arith,
          s.row,
          lookup-insert String_discrete i id
              (record t {
                status = cancelled;
                finished_at = some now;
                error_msg = String.◌++◌ "cancelled by " operator;
              })
              w.rows,
        );
      })

-- A row that is no old one stays.
lookup-young_rows :
    (old : String → Bool) (id : String) (rows : List (String × Task))
    → old id ≡ false
    → lookup String_discrete id (young_rows old rows) ≡ lookup String_discrete id rows
unfolding young_rows lookup
lookup-young_rows old id [] h = refl
lookup-young_rows old id ((k, t) ∷ rows) h = elim (String_discrete id k) [
  | yes e ↦
      let young : old k ≡ false = ap old (sym e) ∙ h in
      ground (arith, young, e, lookup-young_rows old id rows h)
  | no n ↦ ground (arith, n, lookup-young_rows old id rows h)
]

prune-IsStuck :
    (old : String → Bool) (deletes : Bool) (u : Task) (id : String) (w : World)
    → old id ≡ false
    → IsStuck id u w
    → IsStuck id u (prune_expired old deletes w)
unfolding prune_expired
prune-IsStuck old true u id w h s = record {
  forgotten = record {
    queued = s.forgotten.queued;
    by_first = s.forgotten.by_first;
    by_second = s.forgotten.by_second;
  };
  row = lookup-young_rows old id w.rows h ∙ s.row;
}
prune-IsStuck old false u id w h s = s

step-IsStuck :
    (e : Event) (u : Task) (id : String) (w : World)
    → IsAside id e
    → IsStuck id u w
    → IsStuck id u (step e w)
unfolding step cleanup_user_sem
step-IsStuck (enqueues i r counts creates) u id w h s =
    enqueue-IsStuck i r counts creates u id w h s
step-IsStuck (cancels i operator now) u id w h s =
    cancel-IsStuck i operator now u id (lookup String_discrete i w.rows) w refl h s
step-IsStuck (starts i saved now) u id w h s =
    start-IsStuck i saved now u w.queue (job i w) id w refl refl s
step-IsStuck (finishes i g saved now) u id w h s =
    finish-IsStuck i g saved now u (job i w) id w refl s
step-IsStuck (cleans user) u id w h s = ground (arith, s)
step-IsStuck (prunes old deletes) u id w h s = prune-IsStuck old deletes u id w h s

run-IsStuck :
    (es : List Event) (u : Task) (id : String) (w : World)
    → All (IsAside id) es
    → IsStuck id u w
    → IsStuck id u (run es w)
unfolding run
run-IsStuck [] u id w h s = s
run-IsStuck (e ∷ es) u id w h s = run-IsStuck es u id (step e w) h.1 (step-IsStuck e u id w h.0 s)

-- A task that is refused for a full queue, while neither the queue nor a worker holds its id, is never run:
-- whatever the workers do and whatever else is queued, cancelled or pruned, neither the queue nor a worker
-- holds it, and its row is there and says `pending`, up to the first event that cancels it, creates its id
-- anew, or prunes it for its age, which the prune does after thirty days.
pub full_queue_orphans :
    (id : String) (r : Request) (w : World) (es : List Event)
    → IsForgotten id w
    → (enqueue id r true true w).1 ≡ queue_full
    → All (IsAside id) es
    → (lookup String_discrete id (run es (enqueue id r true true w).0).rows ≡ some (new_task id r))
      × IsForgotten id (run es (enqueue id r true true w).0)
full_queue_orphans id r w es f e h =
    let refused : IsStuck id (new_task id r) (enqueue id r true true w).0 = record {
      forgotten =
          unfold enqueue in
          record {
            queued = ground (arith, f.queued);
            by_first = ground (arith, f.by_first);
            by_second = ground (arith, f.by_second);
          };
      row =
          unfold enqueue in
          ground (arith, lookup-insert String_discrete id id (new_task id r) w.rows);
    } in
    let stuck = run-IsStuck es (new_task id r) id (enqueue id r true true w).0 h refused in
    (stuck.row, stuck.forgotten)
