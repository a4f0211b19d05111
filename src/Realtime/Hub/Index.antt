-- ===== src/Realtime/Hub/Index.antt =====
-- The topic index of the hub: `by_topic` against the clients and what they subscribed to.
use api_ops.Common.{
  inl, inr, ℕ, ◌≡◌, ◌≢◌, Bool, true, false, not, ◌&&◌, ◌||◌, some, List, [], ◌∷◌, String, lookup,
  insert, String_discrete, ℕ_discrete, has, add, remove, ite, arith, lookup-insert, lookup-delete,
  has-add, has-remove, Distinct, add-Distinct, remove-Distinct, Bool-cases,
}
use api_ops.Realtime.Hub.{
  Hub, subs, index_topics, drop_empty, drop_topic, drop_topics, on_register, on_unregister,
}

abbrev pub in_set : ℕ → List ℕ → Bool
in_set = has ℕ_discrete

abbrev pub wants : String → List String → Bool
wants = has String_discrete

-- The subscribers after the register loop: the client joins each of its topics.
has-index_topics :
    (c j : ℕ) (t : String) (ts : List String) (m : List (String × List ℕ))
    → in_set j (subs t (index_topics c ts m))
      ≡ (in_set j (subs t m) || ite (ℕ_discrete j c) (wants t ts) false)
unfolding index_topics has
has-index_topics c j t [] m = ground arith
has-index_topics c j t (s ∷ ts) m = ground (
  arith,
  has-index_topics c j t ts (insert String_discrete s (add ℕ_discrete c (subs s m)) m),
  lookup-insert String_discrete s t (add ℕ_discrete c (subs s m)) m,
  has-add ℕ_discrete c j (subs s m),
)

has-drop_empty :
    (j : ℕ) (s t : String) (cs : List ℕ) (m : List (String × List ℕ))
    → in_set j (subs t (drop_empty s cs m))
      ≡ ite (String_discrete t s) (in_set j cs) (in_set j (subs t m))
unfolding drop_empty has
has-drop_empty j s t [] m = ground (arith, lookup-delete String_discrete s t m)
has-drop_empty j s t (c ∷ cs) m = ground (arith, lookup-insert String_discrete s t (c ∷ cs) m)

has-drop_topic :
    (c j : ℕ) (s t : String) (m : List (String × List ℕ))
    → in_set j (subs t (drop_topic c s m)) ≡ (
        in_set j (subs t m)
        && not (ite (ℕ_discrete j c) (ite (String_discrete t s) true false) false))
unfolding drop_topic has
has-drop_topic c j s t m = ground (
  arith,
  has-drop_empty j s t (remove ℕ_discrete c (subs s m)) m,
  has-remove ℕ_discrete c j (subs s m),
)

has-drop_topics :
    (c j : ℕ) (t : String) (ts : List String) (m : List (String × List ℕ))
    → in_set j (subs t (drop_topics c ts m))
      ≡ (in_set j (subs t m) && not (ite (ℕ_discrete j c) (wants t ts) false))
unfolding drop_topics has
has-drop_topics c j t [] m = ground arith
has-drop_topics c j t (s ∷ ts) m =
    ground (arith, has-drop_topics c j t ts (drop_topic c s m), has-drop_topic c j s t m)

-- Each topic's subscribers are the registered clients that asked for it, once each; no topic is kept
-- without subscribers; and a registered client is open.
pub record Inv (h : Hub) : Type 0 where
  pub exact :
      (t : String) (c : ℕ)
      → in_set c (subs t h.by_topic) ≡ (in_set c h.clients && wants t (h.heap c).topics)
  pub inhabited : (t : String) → lookup String_discrete t h.by_topic ≢ some []
  pub once : (t : String) → Distinct ℕ_discrete (subs t h.by_topic)
  pub distinct : Distinct ℕ_discrete h.clients
  pub open_clients : (c : ℕ) → in_set c h.clients ≡ true → (h.heap c).closed ≡ false

add-ne-nil : (c : ℕ) (s : List ℕ) → add ℕ_discrete c s ≢ []
unfolding add
add-ne-nil c [] = λ e. cc
add-ne-nil c (x ∷ s) = ground arith

index_topics-inhabited :
    (c : ℕ) (ts : List String) (m : List (String × List ℕ))
    → ((t : String) → lookup String_discrete t m ≢ some [])
    → (t : String) → lookup String_discrete t (index_topics c ts m) ≢ some []
unfolding index_topics
index_topics-inhabited c [] m h t = h t
index_topics-inhabited c (s ∷ ts) m h t =
    index_topics-inhabited c ts _
      (λ u. ground (
        arith,
        h u,
        add-ne-nil c (subs s m),
        lookup-insert String_discrete s u (add ℕ_discrete c (subs s m)) m,
      ))
      t

index_topics-once :
    (c : ℕ) (ts : List String) (m : List (String × List ℕ))
    → ((t : String) → Distinct ℕ_discrete (subs t m))
    → (t : String) → Distinct ℕ_discrete (subs t (index_topics c ts m))
unfolding index_topics
index_topics-once c [] m h t = h t
index_topics-once c (s ∷ ts) m h t =
    index_topics-once c ts _
      (λ u. ground (
        arith,
        h u,
        add-Distinct ℕ_discrete c (subs s m) (h s),
        lookup-insert String_discrete s u (add ℕ_discrete c (subs s m)) m,
      ))
      t

drop_empty-inhabited :
    (s t : String) (cs : List ℕ) (m : List (String × List ℕ))
    → lookup String_discrete t m ≢ some []
    → lookup String_discrete t (drop_empty s cs m) ≢ some []
unfolding drop_empty
drop_empty-inhabited s t [] m h = ground (arith, lookup-delete String_discrete s t m)
drop_empty-inhabited s t (c ∷ cs) m h = ground (arith, lookup-insert String_discrete s t (c ∷ cs) m)

drop_empty-once :
    (s t : String) (cs : List ℕ) (m : List (String × List ℕ))
    → Distinct ℕ_discrete cs
    → Distinct ℕ_discrete (subs t m)
    → Distinct ℕ_discrete (subs t (drop_empty s cs m))
unfolding drop_empty
drop_empty-once s t [] m d h = ground (arith, lookup-delete String_discrete s t m)
drop_empty-once s t (c ∷ cs) m d h = ground (arith, lookup-insert String_discrete s t (c ∷ cs) m)

drop_topics-inhabited :
    (c : ℕ) (ts : List String) (m : List (String × List ℕ))
    → ((t : String) → lookup String_discrete t m ≢ some [])
    → (t : String) → lookup String_discrete t (drop_topics c ts m) ≢ some []
unfolding drop_topics drop_topic
drop_topics-inhabited c [] m h t = h t
drop_topics-inhabited c (s ∷ ts) m h t =
    drop_topics-inhabited c ts _
      (λ u. ground (arith, h u, drop_empty-inhabited s u (remove ℕ_discrete c (subs s m)) m)) t

drop_topics-once :
    (c : ℕ) (ts : List String) (m : List (String × List ℕ))
    → ((t : String) → Distinct ℕ_discrete (subs t m))
    → (t : String) → Distinct ℕ_discrete (subs t (drop_topics c ts m))
unfolding drop_topics drop_topic
drop_topics-once c [] m h t = h t
drop_topics-once c (s ∷ ts) m h t =
    drop_topics-once c ts _
      (λ u. ground (
        arith,
        h u,
        remove-Distinct ℕ_discrete c (subs s m) (h s),
        drop_empty-once s u (remove ℕ_discrete c (subs s m)) m,
      ))
      t

-- Registering an open client keeps the index.
pub on_register-Inv : (c : ℕ) (h : Hub) → (h.heap c).closed ≡ false → Inv h → Inv (on_register c h)
unfolding on_register
on_register-Inv c h o v = record {
  exact = λ t j. ground (
    arith,
    v.exact t j,
    has-index_topics c j t (h.heap c).topics h.by_topic,
    has-add ℕ_discrete c j h.clients,
  );
  inhabited = index_topics-inhabited c (h.heap c).topics h.by_topic v.inhabited;
  once = index_topics-once c (h.heap c).topics h.by_topic v.once;
  distinct = add-Distinct ℕ_discrete c h.clients v.distinct;
  open_clients = λ j m. ground (arith, v.open_clients j, has-add ℕ_discrete c j h.clients);
}

-- So does unregistering any client at all.
pub on_unregister-Inv : (c : ℕ) (h : Hub) → Inv h → Inv (on_unregister c h)
on_unregister-Inv c h v = elim (Bool-cases (in_set c h.clients)) [
  | inl here ↦ record {
    exact = λ t j.
        unfold on_unregister in
        ground (
          arith,
          v.exact t j,
          has-drop_topics c j t (h.heap c).topics h.by_topic,
          has-remove ℕ_discrete c j h.clients,
        );
    inhabited =
        unfold on_unregister in
        rw here (drop_topics-inhabited c (h.heap c).topics h.by_topic v.inhabited);
    once = unfold on_unregister in rw here (drop_topics-once c (h.heap c).topics h.by_topic v.once);
    distinct = unfold on_unregister in rw here (remove-Distinct ℕ_discrete c h.clients v.distinct);
    open_clients = λ j m.
        unfold on_unregister in
        ground (arith, v.open_clients j, has-remove ℕ_discrete c j h.clients);
  }
  | inr gone ↦ unfold on_unregister in rw gone v
]
