-- ===== src/Lib.antt =====
-- A model of a Raft key-value store in Go, and theorems about it.
--
-- The program has Raft servers (raft/), key-value servers on top of them (kvraft/), a client library
-- (raftclient/), and controllers that set the processes up and watch them (controller/). A client's
-- `Clerk` calls `RaftKV.Get` and `RaftKV.PutAppend`; the key-value server hands the command to
-- `Raft.Agree` of its Raft server, which replicates it by `Raft.HeartBeat`; committed entries go to
-- `RaftKV.Apply` of each key-value server.
--
-- Base holds what all parts share: signed integers with 32-bit wrap-around (Base/Int), slices and
-- panics (Base/Go), lists, maps as association lists (Base/Assoc), `strings.Split` (Base/Split), and
-- counting of a majority (Base/Quorum).
--
-- Raft is raft/raft.go and raft/data/rpc_data.go.
--   Raft/Data, Raft/State   the messages and the struct `Raft`; `persist`, `readPersist`, `Make`
--   Raft/Vote               `RequestVote`, as `request_vote`
--   Raft/Election           the election goroutine: `begin_election`, `count_vote`, `become_leader`,
--                           and a peer's reply, `receive_vote`
--   Raft/Append             `HeartBeat`, as `heart_beat`, with the parts it is made of
--   Raft/Leader             `Start`, `Agree`, the ticker (`heart_beat_tick`), the job channel
--                           (`poll_jobs`), a request to a peer (`prepare`), its reply (`receive_append`)
--   Raft/Commit             the goroutine of the commit index (`update_commit`), over many reports in
--                           `update_commits`
--   Raft/Loop               the goroutine "raft loops" with the election timer: one turn (`turn`)
--   Raft/Stop               `Kill`, and how the goroutines end (`move`)
--   Raft/Ticker             when the heartbeat ticker runs (`ticker_on`)
--   Raft/Exchange           a request to a peer with its `HeartBeat` and its reply (`exchange`), which may be lost
--                           (`Delivery`), heartbeats in a row (`rounds`) and to all peers (`all_rounds`)
--   Raft/Log                well-formed logs
--   Raft/Persister          raft/persister.go
--   Raft/Server             one server as a step relation, with the ballots it has cast
--   Raft/Cluster            all servers together, in any order of steps
-- Kv is kvraft/ and raftclient/.
--   Kv/Command              the texts of the commands: `parseCmd`, `splitPutAppendCmd`
--   Kv/Server               `RaftKV`: the goroutine that applies (`apply`), `Get` and `PutAppend`, each
--                           in two parts, up to its wait on a channel and behind it
--   Kv/Clerk                `Clerk`, with a round of each of its loops
--   Kv/Calls                the handlers as a whole, and the loops of a clerk with the servers that answer
--   Kv/Committed            the way from an election to the map: heartbeats, commit index, key-value server
-- Control is controller/ with common/data/atomic_data.go.
--   Control/Metrics         controller/metricontroller.go
--   Control/Connection      controller/data/wsconnection.go, with two ends of a websocket against each other in
--                           Connection/Link
--   Control/Peers           controller/raft_controller.go and controller/data/rclient.go
--   Control/Registry        controller/controller.go, with the stop and the start of a server in Registry/Switch
--   Control/Mesh            the websockets between all Raft controllers: `StartWebsocket` at one end,
--                           `API_WSInitPeerConn` at the other, in the order of the master's calls
--   Control/Urls            URLs, `BoundMethods` and routes of all controllers (Urls/Tables), and which handler a
--                           call reaches
--   Control/Services        controller/service/service.go, with `APIFunction` of controller/common/common.go
--   Control/Calls           `QuickCall` and `Call` of controller/common/common.go
--   Control/KvController    controller/kvraft_controller.go
--   Control/ClientController
--                           controller/clientcontroller.go
-- The Examples modules hold concrete servers, requests and runs.
--
-- How Go is modelled. A result in `Option` is `none` where the code panics on an index out of
-- range. A handler or the body of a loop is one step: the locks and the interleavings within one
-- are not modelled, and a send on a channel that would wait is a queue's end. What a server hands
-- to other parts of the process is a list of effects, newest first. Reslicing beyond the length of
-- a slice counts as a panic, and the capacity of `rf.logs`, where the code writes through an
-- alias, is a parameter of `prepare`. An `int32` is an integer whose sums wrap; numbers of servers
-- and counters are natural numbers; a text is the list of its bytes. A command that went through
-- JSON is nothing, an object with two texts, or another text. The gob coder, JSON, HTTP,
-- `url.Parse` with `URL.String` and the success of dials and calls are parameters; what reflection
-- shows of a value is data (Control/Services). A number of a port is not negative. In a link of two websocket ends the unbuffered channel of
-- a call holds the replies that were sent to it, so a reader goes on where the code's waits: each
-- order of steps of the code is one of the model. The loops of
-- the code are structural recursion on a list or an index, and those of the clerk run on the list
-- of the outcomes of their calls; the polls that empty the job channel are counted by the jobs in
-- it, and the heartbeats that bring a peer's log up to the leader's by the peer's next index,
-- since each answered one that finds a gap lowers it.
--
-- Requests with new entries and heartbeats are made by one function (`prepare`), but runs of many
-- calls are put together from heartbeats only, after the entries of `Start` are in the leader's
-- log.
--
-- Not modelled: the binding of a request by reflection, the start of the HTTP servers, timers but
-- that of the election loop (they are steps that may happen at any time), random numbers (what is
-- drawn is a parameter), snapshots (never used), process start and configuration.
pub mod Base
pub mod Raft
pub mod Kv
pub mod Control
