-- ===== src/Control/Examples/Stops.antt =====
-- The theorem on a key-value server that is taken off the network (controller/) at a fresh one.
use my_raft.Base.{true, some, Option, [], pos, ◌≡◌}
use my_raft.Raft.Data.{StateReply, AgreeReply}
use my_raft.Kv.Server.{Op, Err, PutAppendArgs, replied, put_reply, start_kv_server}
use my_raft.Control.KvController.{
  RaftClient, KvController, running, api_stop, api_start, api_get, api_put_append, refused_get,
  api_stop-refuses,
}

abbrev raft_client : RaftClient
raft_client = record { bound = []; is_blocked = 0 }

abbrev fresh_server : KvController
fresh_server = running 1 start_kv_server raft_client

api_stop-refuses_example :
    ((state : Option StateReply) (agreed : Option AgreeReply) (op : Op)
      → api_get state agreed op (api_stop fresh_server)
        ≡ some (api_stop fresh_server, replied refused_get))
    × ((state : Option StateReply) (agreed : Option AgreeReply) (args : PutAppendArgs)
        → api_put_append state agreed args (api_stop fresh_server)
          ≡ some (api_stop fresh_server, replied (put_reply true Err.none_yet (pos 0))))
    × (raft_client.is_blocked ≡ 0 → api_start (api_stop fresh_server) ≡ fresh_server)
api_stop-refuses_example = api_stop-refuses 1 start_kv_server raft_client
