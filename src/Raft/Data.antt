-- ===== src/Raft/Data.antt =====
-- raft/data/rpc_data.go and RPCArgs of controller/data/metric.go: what travels between the servers.
use my_raft.Base.{ℤ, Bool, List, Option, Bytes}

-- A command is an `interface{}` that was decoded from JSON: nothing, an object with the fields
-- `Cmd` and `ContextId` (`none` where the field is no text), or anything else.
pub data Command : Type 0 where
  null : Command
  object : Option Bytes → Option Bytes → Command
  other : Bytes → Command

pub record RaftLog : Type 0 where
  pub index : ℤ
  pub term : ℤ
  pub cmd : Command

pub record AppendEntriesArgs : Type 0 where
  pub term : ℤ
  pub leader_id : ℤ
  pub prev_log : RaftLog
  pub entries : List RaftLog
  pub leader_commit_idx : ℤ

pub record AppendEntriesReply : Type 0 where
  pub term : ℤ
  pub success : Bool
  pub last_entry : RaftLog

pub record RequestVoteArgs : Type 0 where
  pub term : ℤ
  pub id : ℤ
  pub log : RaftLog

pub record RequestVoteReply : Type 0 where
  pub term : ℤ
  pub voted : Bool

-- `UseSnapshot` is always false and `Snapshot` always nil.
pub record ApplyMsg : Type 0 where
  pub index : ℤ
  pub command : Command

pub record AgreeArgs : Type 0 where
  pub cmd : Command

pub record AgreeReply : Type 0 where
  pub term : ℤ
  pub index : ℤ
  pub is_leader : Bool

pub record StateReply : Type 0 where
  pub term : ℤ
  pub is_leader : Bool

-- The texts that the servers put into `Type`.
pub data MetricKind : Type 0 where
  hb election logs success_hb unknown : MetricKind

pub record RpcArgs : Type 0 where
  pub idx : ℤ
  pub rpc_from_idx : ℤ
  pub logs : List RaftLog
  pub kind : MetricKind
  pub voted_for : ℤ
  pub leader_idx : ℤ
