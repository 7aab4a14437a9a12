-- ===== src/Control/Examples/Links.antt =====
-- The theorem on the calls over a websocket (controller/data/wsconnection.go) at two concurrent calls.
use my_raft.Base.{ℕ, ◌≤◌, ◌≡◌, refl, true, some, none, Option, List, [], ◌∷◌, Bytes}
use my_raft.Control.Connection.{
  WsConnection, new_ws_connection, connections, Method, write_and_receive, ws_read, ws_write,
}
use my_raft.Control.Connection.Link.{
  Link, Event, calls, left_writes, right_writes, left_reads, right_reads, returns, waiter,
  link_step, link_steps,
}
use my_raft.Control.Connection.Link.Tracks.{AllAnswered, in_flight, one_if}
use my_raft.Control.Connection.Link.Answers.{IsIdle, AllFresh, FreshAfter, link_steps-AllAnswered}
use my_raft.Base.{replicate}

abbrev end : WsConnection
unfolding new_ws_connection
end = record (new_ws_connection Method.no_value) { grpc_mode = true }

abbrev idle : Link
idle = record {
  left = end;
  right = end;
  to_right = [];
  to_left = [];
  waiting = replicate connections none;
  finished = [];
}

idle-IsIdle : IsIdle idle
unfolding new_ws_connection
idle-IsIdle = record {
  waiting = refl;
  still_open = refl;
  unwritten = refl;
  unanswered = refl;
  to_right = refl;
  to_left = refl;
  replies = refl;
  finished = refl;
}

abbrev echo : Bytes → Option Bytes
echo args = some args

-- The second call returns before the first.
abbrev events : List Event
events =
    calls (b'a' ∷ []) []
    ∷ calls (b'b' ∷ []) []
    ∷ left_writes
    ∷ right_reads
    ∷ left_writes
    ∷ right_writes
    ∷ right_reads
    ∷ right_writes
    ∷ left_reads
    ∷ left_reads
    ∷ returns 2
    ∷ returns 1
    ∷ []

events-AllFresh : AllFresh echo echo idle events
unfolding new_ws_connection link_step write_and_receive ws_read ws_write FreshAfter
events-AllFresh = (refl, (refl, (tt, (tt, (tt, (tt, (tt, (tt, (tt, (tt, (tt, (tt, tt))))))))))))

-- Both calls have returned at the end.
two_answers :
    link_steps echo echo idle events
    ≡ some (record idle {
      left = record end { running = 2 };
      finished =
          (record { args = b'a' ∷ []; value = [] }, b'a' ∷ [])
          ∷ (record { args = b'b' ∷ []; value = [] }, b'b' ∷ [])
          ∷ [];
    })
unfolding new_ws_connection link_step link_steps write_and_receive ws_read ws_write
two_answers = refl

link_steps-AllAnswered_example :
    (k' : Link) × (link_steps echo echo idle events ≡ some k')
    × AllAnswered echo k'.finished
    × ((i : ℕ) → in_flight k' i ≤ one_if (waiter k' i))
link_steps-AllAnswered_example =
    link_steps-AllAnswered echo echo events idle idle-IsIdle events-AllFresh
