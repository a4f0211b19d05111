-- ===== src/Realtime/Hub.antt =====
-- internal/realtime/hub.go and the connection handler of server.go. A client's address is its id, and
-- the heap is a function of it. A Go channel with the senders that wait at it is a list, oldest first:
-- only the 64 places of `send`, which is used without waiting, are counted.
pub mod Index
pub mod Delivery
pub mod Sending
pub mod Race
pub mod Serve
pub mod Steps
use api_ops.Common.{
  ℕ, suc, ◌+◌, ◌≡◌, Bool, true, false, not, ◌&&◌, Option, none, some, List, [], ◌∷◌, ◌++◌, String,
  lookup, insert, delete, String_discrete, ℕ_discrete, has, add, remove, ltb, ite, if◌then◌else◌,
  length,
}
use mathlib.Core.Option.{get_or}
use api_ops.Realtime.Limiter.{
  Limiter, new_limiter, allow_conn_local, release_conn_local, allow_msg_local,
}

-- An encoded frame, as `json.Marshal` gives it.
abbrev pub Bytes : Type 0
Bytes = List ℕ

pub record Client : Type 0 where
  pub send : List Bytes
  pub topics : List String
  pub ip : String
  pub closed : Bool

pub record Hub : Type 0 where
  pub heap : ℕ → Client
  pub clients : List ℕ
  pub by_topic : List (String × List ℕ)
  pub broadcast : List Bytes
  pub register : List ℕ
  pub unregister : List ℕ
  pub next_id : ℕ
  pub limiter : Limiter

abbrev pub send_cap : ℕ
send_cap = 64

abbrev no_client : Client
no_client = record { send = []; topics = []; ip = ""; closed = false }

unfoldable pub new_hub : Hub
unfolding new_limiter
new_hub = record {
  heap = λ _. no_client;
  clients = [];
  by_topic = [];
  broadcast = [];
  register = [];
  unregister = [];
  next_id = 0;
  limiter = new_limiter;
}

abbrev pub update : (ℕ → Client) → ℕ → Client → ℕ → Client
update heap c v j = ite (ℕ_discrete j c) v (heap j)

abbrev pub subs : String → List (String × List ℕ) → List ℕ
subs t m = get_or (lookup String_discrete t m) []

-- `case c := <-h.register`: the loop over the client's topics.
unfoldable pub index_topics : ℕ → List String → List (String × List ℕ) → List (String × List ℕ)
index_topics c [] m = m
index_topics c (t ∷ ts) m =
    index_topics c ts (insert String_discrete t (add ℕ_discrete c (subs t m)) m)

unfoldable pub on_register : ℕ → Hub → Hub
on_register c h = record h {
  clients = add ℕ_discrete c h.clients;
  by_topic = index_topics c (h.heap c).topics h.by_topic;
}

-- What is left of a topic's subscribers: an empty set is taken out of the map.
unfoldable pub drop_empty : String → List ℕ → List (String × List ℕ) → List (String × List ℕ)
drop_empty t [] m = delete String_discrete t m
drop_empty t (c ∷ cs) m = insert String_discrete t (c ∷ cs) m

-- `if subs, ok := h.byTopic[t]; ok { … }`
unfoldable pub drop_topic : ℕ → String → List (String × List ℕ) → List (String × List ℕ)
unfolding drop_empty
drop_topic c t m = elim (lookup String_discrete t m) [
  | none ↦ m
  | some cs ↦ drop_empty t (remove ℕ_discrete c cs) m
]

-- `case c := <-h.unregister`: the loop over the client's topics.
unfoldable pub drop_topics : ℕ → List String → List (String × List ℕ) → List (String × List ℕ)
drop_topics c [] m = m
drop_topics c (t ∷ ts) m = drop_topics c ts (drop_topic c t m)

-- `closeOnce`: a client that is closed already stays as it is.
close_once : Client → Client
close_once c = if c.closed then c else record c { closed = true }

unfoldable pub on_unregister : ℕ → Hub → Hub
unfolding close_once
on_unregister c h =
    if has ℕ_discrete c h.clients
    then record h {
      clients = remove ℕ_discrete c h.clients;
      by_topic = drop_topics c (h.heap c).topics h.by_topic;
      heap = update h.heap c (close_once (h.heap c));
    }
    else h

-- `select { case c.send <- b: default: … }` on an open channel: a full one puts the client into
-- `unregister` instead.
unfoldable pub post : Bytes → ℕ → Hub → Hub
post b c h =
    if ltb (length (h.heap c).send) send_cap
    then record h {
      heap = update h.heap c (record (h.heap c) { send = (h.heap c).send ++ b ∷ [] });
    }
    else record h { unregister = h.unregister ++ c ∷ [] }

-- `case msg := <-h.broadcast`, whose loop goes over the clients.
unfoldable pub post_all : Bytes → List ℕ → Hub → Hub
post_all b [] h = h
post_all b (c ∷ cs) h = post_all b cs (post b c h)

unfoldable pub on_broadcast : Bytes → Hub → Hub
unfolding post_all
on_broadcast b h = post_all b h.clients h

-- A send on a closed channel panics, also under `select`.
pub data Outcome : Type 0 where
  running : Hub → Outcome
  panic : Outcome

infixl 5 ◌>>=◌
abbrev pub ◌>>=◌ : Outcome → (Hub → Outcome) → Outcome
running h >>= f = f h
panic >>= f = panic

-- The second half of `sendRaw`, behind its `Unlock`.
unfoldable pub send_unlocked : Bytes → ℕ → Hub → Outcome
unfolding post
send_unlocked b c h = if (h.heap c).closed then panic else running (post b c h)

-- `sendRaw` with nothing in between its halves; Hub/Sending.antt has it step by step.
unfoldable pub send_raw : Bytes → ℕ → Hub → Outcome
unfolding send_unlocked
send_raw b c h = if (h.heap c).closed then running h else send_unlocked b c h

-- The loop of `broadcastTo`.
unfoldable pub send_each : Bytes → List ℕ → Hub → Outcome
send_each b [] h = running h
send_each b (c ∷ cs) h = do h' ← send_raw b c h; send_each b cs h'

pub record AlertPayload : Type 0 where
  pub rule_id : ℕ
  pub rule_name : String
  pub severity : String
  pub subject_type : String
  pub subject_id : String
  pub subject_name : String
  pub message : String

-- `T` is the type of `TickPayload`; `fields` is what `ginH` builds.
pub data Payload (T : Type 0) : Type 0 where
  tick : T → Payload T
  alert : AlertPayload → Payload T
  fields : List (String × String) → Payload T

pub record Frame (T : Type 0) : Type 0 where
  pub kind : String
  pub channel : String
  pub payload : Payload T
  pub ts : ℕ

-- `marshal` is `json.Marshal` of a frame, which fails on a float that is no number.
module _ {T : Type 0} (marshal : Frame T → Option Bytes) where
  -- `clients` is nil for the global broadcast, and then the hub's clients are taken.
  unfoldable pub broadcast_to : Frame T → Option (List ℕ) → Hub → Outcome
  broadcast_to frame clients h = elim (marshal frame) [
    | none ↦ running h
    | some b ↦ send_each b (get_or clients h.clients) h
  ]

  -- The slice of a topic's subscribers is never nil.
  unfoldable pub broadcast_tick : String → Payload T → ℕ → Hub → Outcome
  broadcast_tick topic payload ts h =
      broadcast_to (record { kind = "tick"; channel = topic; payload = payload; ts = ts })
        (some (subs topic h.by_topic)) h

  unfoldable pub broadcast_global : Payload T → ℕ → Hub → Outcome
  broadcast_global payload ts h =
      broadcast_to (record { kind = "tick"; channel = "global"; payload = payload; ts = ts }) none h

  unfoldable pub broadcast_alert : AlertPayload → ℕ → Hub → Outcome
  broadcast_alert a now h = do
    h' ←
        broadcast_to (record { kind = "alert"; channel = "global"; payload = alert a; ts = now })
          none h
    broadcast_tick "errors"
        (fields (
          ("subject_type", a.subject_type)
          ∷ ("subject_id", a.subject_id)
          ∷ ("message", a.message)
          ∷ []))
        now h'
