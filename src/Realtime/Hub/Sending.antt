-- ===== src/Realtime/Hub/Sending.antt =====
-- sendRaw and closeOnce of hub.go in steps that other goroutines can come between: one sender of a frame to a
-- client, and the Run loop in the case that unregisters the client. `c.mu` is the mutex of the client.
use api_ops.Common.{ℕ, List, [], ◌∷◌, if◌then◌else◌}
use api_ops.Realtime.Hub.{Hub, Bytes, Outcome, running, panic, post, on_unregister}

pub data Thread : Type 0 where
  sender closer : Thread

-- Who has locked `c.mu`.
pub data Owner : Type 0 where
  nobody : Owner
  locked_by : Thread → Owner

-- Where sendRaw stands: before `Lock`, behind it, behind the `Unlock` that follows the test of `closed`, or
-- at its end.
pub data SendAt : Type 0 where
  starting holding unlocked returned panicked : SendAt

-- Where closeOnce stands.
pub data CloseAt : Type 0 where
  waiting closing finished : CloseAt

pub record Shared : Type 0 where
  pub hub : Hub
  pub mu : Owner
  pub send_at : SendAt
  pub close_at : CloseAt

abbrev pub at_start : Hub → Shared
at_start h = record { hub = h; mu = nobody; send_at = starting; close_at = waiting }

-- A thread that waits for the mutex stays where it is.
unfoldable pub lock_for : Thread → Owner → Shared → Shared → Shared
lock_for t nobody s s' = record s' { mu = locked_by t }
lock_for t (locked_by u) s s' = s

unfoldable pub send_turn : SendAt → Bytes → ℕ → Shared → Shared
unfolding lock_for post
send_turn starting b c s = lock_for sender s.mu s (record s { send_at = holding })
send_turn holding b c s =
    if (s.hub.heap c).closed
    then record s { mu = nobody; send_at = returned }
    else record s { mu = nobody; send_at = unlocked }
send_turn unlocked b c s =
    if (s.hub.heap c).closed
    then record s { send_at = panicked }
    else record s { hub = post b c s.hub; send_at = returned }
send_turn returned b c s = s
send_turn panicked b c s = s

-- The case for a registered client. What it does before closeOnce is not seen by the sender, and is done with
-- the close.
unfoldable pub close_turn : CloseAt → ℕ → Shared → Shared
unfolding lock_for on_unregister
close_turn waiting c s = lock_for closer s.mu s (record s { close_at = closing })
close_turn closing c s = record s { hub = on_unregister c s.hub; mu = nobody; close_at = finished }
close_turn finished c s = s

unfoldable pub turn : Bytes → ℕ → Thread → Shared → Shared
unfolding send_turn close_turn
turn b c sender s = send_turn s.send_at b c s
turn b c closer s = close_turn s.close_at c s

unfoldable pub interleave : Bytes → ℕ → List Thread → Shared → Shared
unfolding turn
interleave b c [] s = s
interleave b c (t ∷ ts) s = interleave b c ts (turn b c t s)

-- What the sender leaves behind.
unfoldable pub outcome_at : SendAt → Hub → Outcome
outcome_at starting h = running h
outcome_at holding h = running h
outcome_at unlocked h = running h
outcome_at returned h = running h
outcome_at panicked h = panic

unfoldable pub outcome : Shared → Outcome
unfolding outcome_at
outcome s = outcome_at s.send_at s.hub
