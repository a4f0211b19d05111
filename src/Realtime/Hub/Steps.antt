-- ===== src/Realtime/Hub/Steps.antt =====
-- All interleavings of the Run loop, of the connections' goroutines and of the senders.
use api_ops.Common.{
  ℕ, suc, ◌≤◌, ◌≡◌, refl, true, false, List, [], ◌∷◌, String, lookup, ℕ_discrete, has, has-append,
  has-add, has-remove, snoc-Distinct, arith, Distinct, inl, inr, Bool-cases,
}
use api_ops.Realtime.Limiter.{Limiter}
use api_ops.Realtime.Hub.{
  Hub, Bytes, running, post, post_all, send_unlocked, on_register, on_unregister, on_broadcast,
  new_hub,
}
use api_ops.Realtime.Hub.Index.{Inv, in_set, on_register-Inv, on_unregister-Inv}
use api_ops.Realtime.Hub.Serve.{enter, leave, write_one}

-- Any other change of the limiter is `limited`; the frames of broadcasts and greetings are `sent`.
pub data Step (h : Hub) : Hub → Type 0 where
  registered :
      (c : ℕ) (rest : List ℕ)
      → h.register ≡ c ∷ rest
      → Step h (on_register c (record h { register = rest }))
  unregistered :
      (c : ℕ) (rest : List ℕ)
      → h.unregister ≡ c ∷ rest
      → Step h (on_unregister c (record h { unregister = rest }))
  broadcasted :
      (b : Bytes) (rest : List Bytes)
      → h.broadcast ≡ b ∷ rest
      → Step h (on_broadcast b (record h { broadcast = rest }))
  entered : (ip : String) (topics : List String) → Step h (enter ip topics h)
  limited : (l : Limiter) → Step h (record h { limiter = l })
  left : (c : ℕ) → Step h (leave c h)
  written : (c : ℕ) → Step h (write_one c h)
  sent : (b : Bytes) (c : ℕ) (h' : Hub) → send_unlocked b c h ≡ running h' → Step h h'

pub data Reach (h : Hub) : Hub → Type 0 where
  here : Reach h h
  next : {h' h'' : Hub} → Reach h h' → Step h' h'' → Reach h h''

-- The index is right, and the clients that wait for their registration are new and open.
pub record IsSafe (h : Hub) : Type 0 where
  pub inv : Inv h
  pub waiting :
      (c : ℕ)
      → in_set c h.register ≡ true
      → (in_set c h.clients ≡ false) × ((h.heap c).closed ≡ false) × (c ≤ h.next_id)
  pub queued_once : Distinct ℕ_discrete h.register
  pub known : (c : ℕ) → in_set c h.clients ≡ true → c ≤ h.next_id

-- What `IsSafe` reads of a hub.
record IsSame (h h' : Hub) : Type 0 where
  clients : h'.clients ≡ h.clients
  by_topic : h'.by_topic ≡ h.by_topic
  register : h'.register ≡ h.register
  next_id : h'.next_id ≡ h.next_id
  closed : (c : ℕ) → (h'.heap c).closed ≡ (h.heap c).closed
  topics : (c : ℕ) → (h'.heap c).topics ≡ (h.heap c).topics

IsSame-Inv : (h h' : Hub) → IsSame h h' → Inv h → Inv h'
IsSame-Inv h h' e v = record {
  exact = λ t c. ground (arith, v.exact t c, e.clients, e.by_topic, e.topics c);
  inhabited = λ t. ground (arith, v.inhabited t, e.by_topic);
  once = λ t. rw e.by_topic (v.once t);
  distinct = rw e.clients v.distinct;
  open_clients = λ c m. ground (arith, v.open_clients c, e.clients, e.closed c);
}

IsSame-IsSafe : (h h' : Hub) → IsSame h h' → IsSafe h → IsSafe h'
IsSame-IsSafe h h' e s = record {
  inv = IsSame-Inv h h' e s.inv;
  waiting = λ c m. ground (arith, s.waiting c, e.clients, e.register, e.next_id, e.closed c);
  queued_once = rw e.register s.queued_once;
  known = λ c m. ground (arith, s.known c, e.clients, e.next_id);
}

post-IsSame : (b : Bytes) (c : ℕ) (h : Hub) → IsSame h (post b c h)
unfolding post
post-IsSame b c h = record {
  clients = ground arith;
  by_topic = ground arith;
  register = ground arith;
  next_id = ground arith;
  closed = λ j. ground arith;
  topics = λ j. ground arith;
}

post_all-IsSafe : (b : Bytes) (cs : List ℕ) (h : Hub) → IsSafe h → IsSafe (post_all b cs h)
unfolding post_all
post_all-IsSafe b [] h s = s
post_all-IsSafe b (c ∷ cs) h s =
    post_all-IsSafe b cs (post b c h) (IsSame-IsSafe h (post b c h) (post-IsSame b c h) s)

-- Fields that `IsSafe` does not read.
aside :
    (h : Hub) (broadcast : List Bytes) (unregister : List ℕ) (l : Limiter)
    → IsSafe h
    → IsSafe (record h { broadcast = broadcast; unregister = unregister; limiter = l })
aside h broadcast unregister l s =
    IsSame-IsSafe h _
      (record {
        clients = refl;
        by_topic = refl;
        register = refl;
        next_id = refl;
        closed = λ j. refl;
        topics = λ j. refl;
      })
      s

registered-IsSafe :
    (c : ℕ) (rest : List ℕ) (h : Hub)
    → h.register ≡ c ∷ rest
    → IsSafe h
    → IsSafe (on_register c (record h { register = rest }))
unfolding has on_register
registered-IsSafe c rest h e s = record {
  inv =
      unfold on_register in
      on_register-Inv c (record h { register = rest }) (ground (arith, s.waiting c))
        (record {
          exact = s.inv.exact;
          inhabited = s.inv.inhabited;
          once = s.inv.once;
          distinct = s.inv.distinct;
          open_clients = s.inv.open_clients;
        });
  waiting = λ j m. ground (arith, s.waiting j, s.queued_once, has-add ℕ_discrete c j h.clients);
  queued_once = ground (arith, s.queued_once);
  known = λ j m. ground (arith, s.known j, s.waiting c, has-add ℕ_discrete c j h.clients);
}

on_unregister-IsSafe : (c : ℕ) (h : Hub) → IsSafe h → IsSafe (on_unregister c h)
unfolding on_unregister
on_unregister-IsSafe c h s = record {
  inv = on_unregister-Inv c h s.inv;
  waiting = λ j m. ground (arith, s.waiting j, has-remove ℕ_discrete c j h.clients);
  queued_once = ground (arith, s.queued_once);
  known = λ j m. ground (arith, s.known j, has-remove ℕ_discrete c j h.clients);
}

new-id_unused :
    (h : Hub)
    → IsSafe h
    → (in_set (suc h.next_id) h.clients ≡ false) × (in_set (suc h.next_id) h.register ≡ false)
new-id_unused h s = ground (arith, s.known (suc h.next_id), s.waiting (suc h.next_id))

enter-IsSafe :
    (ip : String) (topics : List String) (h : Hub) → IsSafe h → IsSafe (enter ip topics h)
unfolding enter has
enter-IsSafe ip topics h s =
    let id = suc h.next_id in
    record {
      inv = record {
        exact = λ t c. ground (arith, s.inv.exact t c, new-id_unused h s);
        inhabited = s.inv.inhabited;
        once = s.inv.once;
        distinct = s.inv.distinct;
        open_clients = λ c m. ground (arith, s.inv.open_clients c);
      };
      waiting = λ c m.
          ground
            (arith, s.waiting c, new-id_unused h s, has-append ℕ_discrete c h.register (id ∷ []));
      queued_once = snoc-Distinct ℕ_discrete id h.register (new-id_unused h s).1 s.queued_once;
      known = λ c m. ground (arith, s.known c);
    }

write_one-IsSame : (c : ℕ) (h : Hub) → IsSame h (write_one c h)
unfolding write_one
write_one-IsSame c h = record {
  clients = refl;
  by_topic = refl;
  register = refl;
  next_id = refl;
  closed = λ j. ground arith;
  topics = λ j. ground arith;
}

sent-IsSafe :
    (b : Bytes) (c : ℕ) (h h' : Hub) → send_unlocked b c h ≡ running h' → IsSafe h → IsSafe h'
sent-IsSafe b c h h' e s = elim (Bool-cases (h.heap c).closed) [
  | inl shut ↦ unfold send_unlocked in ground arith
  | inr live ↦
      let same : post b c h ≡ h' = unfold send_unlocked in ground arith in
      rw same at (IsSame-IsSafe h (post b c h) (post-IsSame b c h) s)
]

-- Every step keeps the topic index right, also a send whose test of `closed` is out of date.
step-IsSafe : {h h' : Hub} → Step h h' → IsSafe h → IsSafe h'
step-IsSafe {h} (registered c rest e) s = registered-IsSafe c rest h e s
step-IsSafe {h} (unregistered c rest e) s =
    on_unregister-IsSafe c _ (aside h h.broadcast rest h.limiter s)
step-IsSafe {h} (broadcasted b rest e) s =
    unfold on_broadcast in post_all-IsSafe b h.clients _ (aside h rest h.unregister h.limiter s)
step-IsSafe {h} (entered ip topics) s = enter-IsSafe ip topics h s
step-IsSafe {h} (limited l) s = aside h h.broadcast h.unregister l s
step-IsSafe {h} (left c) s = unfold leave in aside h h.broadcast _ _ s
step-IsSafe {h} (written c) s = IsSame-IsSafe h (write_one c h) (write_one-IsSame c h) s
step-IsSafe {h} (sent b c h' e) s = sent-IsSafe b c h h' e s

Reach-IsSafe : {h h' : Hub} → Reach h h' → IsSafe h → IsSafe h'
Reach-IsSafe here s = s
Reach-IsSafe (next r st) s = step-IsSafe st (Reach-IsSafe r s)

new_hub-IsSafe : IsSafe new_hub
unfolding new_hub has lookup
new_hub-IsSafe = record {
  inv = record {
    exact = λ t c. refl;
    inhabited = λ t. ground arith;
    once = λ t. tt;
    distinct = tt;
    open_clients = λ c m. cc;
  };
  waiting = λ c m. cc;
  queued_once = tt;
  known = λ c m. cc;
}

-- Whatever the Run loop, the connections and the senders do, and in any order, the hub stays safe.
pub Reach-new_hub-IsSafe : {h : Hub} → Reach new_hub h → IsSafe h
Reach-new_hub-IsSafe r = Reach-IsSafe r new_hub-IsSafe
