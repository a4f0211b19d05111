-- ===== src/Billing/Export/Slots.antt =====
-- The semaphores of export_worker.go against the workers that hold them.
use api_ops.Common.{
  ℕ, ◌+◌, ◌-◌, ◌≤◌, ◌≡◌, refl, Bool, some, List, [], ◌∷◌, lookup, ℕ_discrete, ite, arith,
  lookup-insert, lookup-delete,
}
use api_ops.Billing.Export.{
  Task, Job, idle, busy, World, Worker, one, two, job, Event, Generated, enqueues, cancels, starts,
  finishes, cleans, prunes, prune_expired, running, begin, enqueue, cancel, start, finish,
  cleanup_user_sem, new_world, step, run, taken, max_concurrent_per_user,
}

-- The places of a user's semaphore that a worker holds.
abbrev pub held : ℕ → Job → ℕ
held user idle = 0
held user (busy t) = ite (ℕ_discrete user t.user_id) 1 0

-- Each semaphore is taken once for every worker inside a task of its user.
abbrev pub Inv : World → Type 0
Inv w = (user : ℕ) → taken user w ≡ held user w.first + held user w.second

begin-Inv :
    (i : Worker) (saved : Bool) (now : ℕ) (t : Task) (rest : List Task) (w : World)
    → job i w ≡ idle
    → Inv w
    → Inv (begin i saved now t rest w)
unfolding begin
begin-Inv one saved now t rest w e v user =
    ground (arith, v user, lookup-insert ℕ_discrete t.user_id user (taken t.user_id w + 1) w.sems)
begin-Inv two saved now t rest w e v user =
    ground (arith, v user, lookup-insert ℕ_discrete t.user_id user (taken t.user_id w + 1) w.sems)

start_from :
    (i : Worker) (saved : Bool) (now : ℕ) (q : List Task) (j : Job) (w : World)
    → w.queue ≡ q
    → job i w ≡ j
    → Inv w
    → Inv (start i saved now w)
unfolding start
start_from i saved now q (busy t) w e f v = rw (f, start) v
start_from i saved now [] idle w e f v = rw (f, e, start) v
start_from i saved now (t ∷ rest) idle w e f v =
    rw (f, e, start) (begin-Inv i saved now t rest w f v)

finish_from :
    (i : Worker) (g : Generated) (saved : Bool) (now : ℕ) (j : Job) (w : World)
    → job i w ≡ j
    → Inv w
    → Inv (finish i g saved now w)
unfolding finish
finish_from i g saved now idle w f v user = rw (f, finish) (v user)
finish_from one g saved now (busy t) w f v user =
    ground (arith, v user, lookup-insert ℕ_discrete t.user_id user (taken t.user_id w - 1) w.sems)
finish_from two g saved now (busy t) w f v user =
    ground (arith, v user, lookup-insert ℕ_discrete t.user_id user (taken t.user_id w - 1) w.sems)

step-Inv : (e : Event) (w : World) → Inv w → Inv (step e w)
unfolding step enqueue cancel cleanup_user_sem prune_expired
step-Inv (enqueues id r counts creates) w v user = ground (arith, v user)
step-Inv (cancels id operator now) w v user = ground (arith, v user)
step-Inv (starts i saved now) w v user = start_from i saved now w.queue (job i w) w refl refl v user
step-Inv (finishes i g saved now) w v user = finish_from i g saved now (job i w) w refl v user
step-Inv (cleans u) w v user = ground (arith, v user, v u, lookup-delete ℕ_discrete u user w.sems)
step-Inv (prunes old deletes) w v user = ground (arith, v user)

pub run-Inv : (es : List Event) (w : World) → Inv w → Inv (run es w)
unfolding run
run-Inv [] w v = v
run-Inv (e ∷ es) w v = run-Inv es (step e w) (step-Inv e w v)

pub new_world-Inv : Inv new_world
unfolding new_world lookup
new_world-Inv user = refl

-- After any events, whichever database writes fail: a user's semaphore is taken once for each worker
-- inside a task of the user, so twice at most.
pub slots_exact :
    (es : List Event) (user : ℕ)
    → let w = run es new_world in
      (taken user w ≡ held user w.first + held user w.second)
      × (taken user w ≤ max_concurrent_per_user)
slots_exact es user = let v = run-Inv es new_world new_world-Inv user in (v, ground (arith, v))

start_takes :
    (i : Worker) (saved : Bool) (now : ℕ) (t : Task) (rest : List Task) (w : World)
    → Inv w
    → job i w ≡ idle
    → w.queue ≡ t ∷ rest
    → (job i (start i saved now w)
        ≡ busy (record t { status = running; started_at = some now; progress = 0 }))
      × ((start i saved now w).queue ≡ rest)
unfolding start begin
start_takes one saved now t rest w v e q = rw (e, q, start) (ground (arith, v t.user_id))
start_takes two saved now t rest w v e q = rw (e, q, start) (ground (arith, v t.user_id))

-- A worker never waits for a semaphore: after any events, an idle worker takes the oldest task of the
-- queue at once.
start_never_waits :
    (es : List Event) (i : Worker) (saved : Bool) (now : ℕ) (t : Task) (rest : List Task)
    → job i (run es new_world) ≡ idle
    → (run es new_world).queue ≡ t ∷ rest
    → let w = start i saved now (run es new_world) in
      (job i w ≡ busy (record t { status = running; started_at = some now; progress = 0 }))
      × (w.queue ≡ rest)
start_never_waits es i saved now t rest =
    start_takes i saved now t rest (run es new_world) (run-Inv es new_world new_world-Inv)
