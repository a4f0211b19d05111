-- ===== src/Realtime/Hub/Serve.antt =====
-- internal/realtime/server.go: the handler of a new connection and the two pumps of a client. The hub's
-- limiter is the one without Redis; `upgraded` is what the WebSocket library's upgrade came to.
use mathlib.Core.List.{tail, foldl}
use api_ops.Common.{
  ℕ, suc, Bool, false, Option, none, some, List, [], ◌∷◌, ◌++◌, String, String_discrete, add,
  if◌then◌else◌,
}
use api_ops.Realtime.Limiter.{allow_conn_local, release_conn_local, allow_msg_local}
use api_ops.Realtime.Hub.{Hub, Client, Bytes, Outcome, running, update, send_raw}

-- `Subscribe`, for each topic in turn.
unfoldable pub subscribe_all : List String → List String
subscribe_all ts = foldl (λ s t. add String_discrete t s) [] ts

-- `SendFrame`: `frame` is the encoded frame, unless `json.Marshal` failed.
unfoldable pub send_frame : Option Bytes → ℕ → ℕ → Hub → Outcome
send_frame frame c now h =
    let (l, pass) = allow_msg_local (h.heap c).ip now h.limiter in
    let h' = record h { limiter = l } in
    let sent : Outcome = elim frame [ none ↦ running h' | some b ↦ send_raw b c h' ] in
    if pass then sent else running h'

-- The client that `serveTopic` makes, under a new id, and its place in `register`.
unfoldable pub enter : String → List String → Hub → Hub
enter ip topics h =
    let id = suc h.next_id in
    let client : Client = record {
      send = [];
      topics = subscribe_all topics;
      ip = ip;
      closed = false;
    } in
    record h { next_id = id; heap = update h.heap id client; register = h.register ++ id ∷ [] }

-- `serveTopic`.
unfoldable pub serve_topic : String → List String → Bool → ℕ → Option Bytes → Hub → Outcome
serve_topic ip topics upgraded now hello h =
    let (l, admitted) = allow_conn_local ip now h.limiter in
    let h' = record h { limiter = l } in
    if admitted
    then (if upgraded
        then send_frame hello (suc h.next_id) now (enter ip topics h')
        else running (record h' { limiter = release_conn_local ip l }))
    else running h'

-- The end of `readPump`.
unfoldable pub leave : ℕ → Hub → Hub
leave c h = record h {
  unregister = h.unregister ++ c ∷ [];
  limiter = release_conn_local (h.heap c).ip h.limiter;
}

-- `writePump` takes the oldest frame out of `send`.
unfoldable pub write_one : ℕ → Hub → Hub
write_one c h = record h {
  heap = update h.heap c (record (h.heap c) { send = tail (h.heap c).send });
}
