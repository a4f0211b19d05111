-- ===== src/Realtime/Hub/Race.antt =====
-- Interleavings that the locks of hub.go leave open.
use api_ops.Common.{
  ℕ, ◌≡◌, ◌≢◌, refl, ap, ◌∙◌, inl, inr, Bool, true, false, not, List, [], ◌∷◌, if◌then◌else◌,
  ℕ_discrete, has-add, arith, Bool-cases,
}
use api_ops.Realtime.Hub.{
  Hub, Bytes, running, panic, post, on_register, on_unregister, send_raw, send_unlocked,
}
use api_ops.Realtime.Hub.Sending.{
  Owner, locked_by, CloseAt, Thread, sender, closer, Shared, SendAt, unlocked, nobody, waiting,
  panicked, returned, holding, starting, closing, finished, at_start, lock_for, send_turn,
  close_turn, turn, interleave, outcome, outcome_at,
}
use api_ops.Realtime.Hub.Index.{Inv, in_set}

if_true : {A : Type 0} (t : Bool) (x y : A) → t ≡ true → (if t then x else y) ≡ x
if_true true x y e = refl
if_true false x y e = cc e

if_false : {A : Type 0} (t : Bool) (x y : A) → t ≡ false → (if t then x else y) ≡ y
if_false true x y e = cc e
if_false false x y e = refl

-- The sender has found the client open and unlocked the mutex.
abbrev passed : Hub → Shared
passed h = record { hub = h; mu = nobody; send_at = unlocked; close_at = waiting }

sender_passes :
    (b : Bytes) (c : ℕ) (ts : List Thread) (h : Hub)
    → (h.heap c).closed ≡ false
    → interleave b c (sender ∷ sender ∷ ts) (at_start h) ≡ interleave b c ts (passed h)
unfolding interleave turn send_turn lock_for
sender_passes b c ts h live = ap (interleave b c ts) (if_false (h.heap c).closed _ (passed h) live)

closed_behind :
    (c : ℕ) (h : Hub) → in_set c h.clients ≡ true → ((on_unregister c h).heap c).closed ≡ true
unfolding on_unregister
closed_behind c h m = ground arith

closer_comes_between :
    (b : Bytes) (c : ℕ) (h : Hub)
    → in_set c h.clients ≡ true
    → outcome (interleave b c (closer ∷ closer ∷ sender ∷ []) (passed h)) ≡ panic
unfolding outcome outcome_at interleave turn send_turn close_turn lock_for
closer_comes_between b c h m =
    ap outcome (if_true ((on_unregister c h).heap c).closed _ _ (closed_behind c h m))

-- With nobody in between, the three steps are `send_raw`.
alone-send_raw :
    (b : Bytes) (c : ℕ) (h : Hub)
    → outcome (interleave b c (sender ∷ sender ∷ sender ∷ []) (at_start h)) ≡ send_raw b c h
unfolding outcome outcome_at interleave turn send_turn lock_for send_raw send_unlocked
alone-send_raw b c h = elim (Bool-cases (h.heap c).closed) [
  | inl shut ↦ ground (arith, shut)
  | inr live ↦ ground (arith, live)
]

-- While the index is right, a frame for a registered client goes into its channel, or asks for its
-- unregistration, without a panic where the steps of `sendRaw` follow one another; but the Run loop, which
-- takes the same mutex to close the client, can have its turns so that the send panics, since `sendRaw` holds
-- the mutex for the test of `closed` and not for the send.
pub send_races_close :
    (b : Bytes) (c : ℕ) (h : Hub)
    → Inv h
    → in_set c h.clients ≡ true
    → (outcome (interleave b c (sender ∷ sender ∷ sender ∷ []) (at_start h)) ≡ running (post b c h))
      × ((turns : List Thread) × (outcome (interleave b c turns (at_start h)) ≡ panic))
unfolding send_raw send_unlocked
send_races_close b c h v m =
    let live = v.open_clients c m in
    (
      alone-send_raw b c h ∙ ground (arith, live),
      (
        sender ∷ sender ∷ closer ∷ closer ∷ sender ∷ [],
        ap outcome (sender_passes b c (closer ∷ closer ∷ sender ∷ []) h live)
            ∙ closer_comes_between b c h m,
      ),
    )

-- The Run loop has no turn between the two halves of `sendRaw`.
abbrev Quiet : Bytes → ℕ → List Thread → Shared → Type 0
Quiet b c [] s = Unit
Quiet b c (sender ∷ ts) s = Quiet b c ts (turn b c sender s)
Quiet b c (closer ∷ ts) s = (s.send_at ≢ unlocked) × Quiet b c ts (turn b c closer s)

-- The sender has not panicked, and will not at its next turn.
calm : SendAt → Bool → Bool
calm starting shut = true
calm holding shut = true
calm unlocked shut = not shut
calm returned shut = true
calm panicked shut = false

abbrev IsCalm : ℕ → Shared → Type 0
IsCalm c s = calm s.send_at (s.hub.heap c).closed ≡ true

lock-IsCalm :
    (c : ℕ) (t : Thread) (o : Owner) (s s' : Shared)
    → IsCalm c s
    → IsCalm c s'
    → IsCalm c (lock_for t o s s')
unfolding lock_for
lock-IsCalm c t nobody s s' p q = q
lock-IsCalm c t (locked_by u) s s' p q = p

if-IsCalm :
    (c : ℕ) (t : Bool) (s s' : Shared)
    → (t ≡ true → IsCalm c s)
    → (t ≡ false → IsCalm c s')
    → IsCalm c (if t then s else s')
if-IsCalm c true s s' p q = p refl
if-IsCalm c false s s' p q = q refl

send_turn-IsCalm :
    (b : Bytes) (c : ℕ) (p : SendAt) (s : Shared)
    → s.send_at ≡ p
    → IsCalm c s
    → IsCalm c (send_turn p b c s)
unfolding send_turn calm
send_turn-IsCalm b c starting s e q = lock-IsCalm c sender s.mu s _ q refl
send_turn-IsCalm b c holding s e q =
    if-IsCalm c (s.hub.heap c).closed _ _ (λ shut. refl) (λ live. ap not live)
send_turn-IsCalm b c unlocked s e q =
    if-IsCalm c (s.hub.heap c).closed _ _ (λ shut. ground (arith, shut, e, q)) (λ live. refl)
send_turn-IsCalm b c returned s e q = q
send_turn-IsCalm b c panicked s e q = q

still : (p : SendAt) (shut shut' : Bool) → p ≢ unlocked → calm p shut ≡ true → calm p shut' ≡ true
unfolding calm
still starting shut shut' n q = refl
still holding shut shut' n q = refl
still unlocked shut shut' n q = absurd (n refl)
still returned shut shut' n q = refl
still panicked shut shut' n q = cc q

close_turn-IsCalm :
    (c : ℕ) (p : CloseAt) (s : Shared)
    → s.send_at ≢ unlocked
    → IsCalm c s
    → IsCalm c (close_turn p c s)
unfolding close_turn
close_turn-IsCalm c waiting s n q = lock-IsCalm c closer s.mu s _ q q
close_turn-IsCalm c closing s n q =
    still s.send_at (s.hub.heap c).closed ((on_unregister c s.hub).heap c).closed n q
close_turn-IsCalm c finished s n q = q

-- Where the Run loop keeps quiet between the two halves, no order of the turns makes the send panic.
Quiet-IsCalm :
    (b : Bytes) (c : ℕ) (ts : List Thread) (s : Shared)
    → Quiet b c ts s
    → IsCalm c s
    → IsCalm c (interleave b c ts s)
unfolding interleave turn
Quiet-IsCalm b c [] s q p = p
Quiet-IsCalm b c (sender ∷ ts) s q p =
    Quiet-IsCalm b c ts _ q (send_turn-IsCalm b c s.send_at s refl p)
Quiet-IsCalm b c (closer ∷ ts) s (n, q) p =
    Quiet-IsCalm b c ts _ q (close_turn-IsCalm c s.close_at s n p)

-- A client that leaves before the hub has taken it from `register` stays registered for good: its
-- `unregister` does nothing, and the `register` behind it puts the client in.
late_register_stays :
    (c : ℕ) (h : Hub)
    → in_set c h.clients ≡ false
    → (on_unregister c h ≡ h) × (in_set c (on_register c (on_unregister c h)).clients ≡ true)
unfolding on_register on_unregister
late_register_stays c h m = (rw m, ground (arith, has-add ℕ_discrete c c h.clients))
