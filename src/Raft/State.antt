-- ===== src/Raft/State.antt =====
-- The struct `Raft` of raft/raft.go, with `GetState`, `ReturnState`, `persist` and `readPersist`.
use my_raft.Base.{
  ℕ, ◌-◌, ℤ, pos, negsuc, int32, ltb, if◌then◌else◌, Bool, false, Option, none, some, List, [], ◌∷◌,
  length, replicate,
}
use my_raft.Raft.Data.{RaftLog, AppendEntriesArgs, ApplyMsg, RpcArgs, StateReply, Command}

-- What a goroutine of the server hands to the rest of the process: a signal on `rpcChnl`, a value
-- on `heartBeatTimerReset`, a call of `SendMetrics`, a call of `RaftKV.Apply`.
pub data Effect : Type 0 where
  rpc_signal : Effect
  timer_reset : Bool → Effect
  metrics : RpcArgs → Effect
  apply : ApplyMsg → Effect

-- What `persist` hands to the gob encoder.
pub record Saved : Type 0 where
  pub term : ℤ
  pub voted_for : ℤ
  pub logs : List RaftLog

pub record Raft : Type 0 where
  pub me : ℕ
  pub peers : ℕ  -- len(rf.peers)
  pub saved : Option Saved  -- the state in rf.persister
  pub jobs_chnl : List RaftLog
  pub rdy_chnl : List (List AppendEntriesArgs)
  pub commit_idx_chnl : List ℤ
  pub logidx : ℤ
  pub is_leader : Bool
  pub current_term : ℤ
  pub voted_for : ℤ
  pub logs : List RaftLog
  pub commit_idx : ℤ
  pub last_applied : ℤ
  pub next_index : List ℤ
  pub match_index : List ℤ
  pub effects : List Effect  -- newest first

abbrev pub emit : Effect → Raft → Raft
emit e rf = record rf { effects = e ∷ rf.effects }

unfoldable pub get_state : Raft → ℤ × Bool
get_state rf = (rf.current_term, rf.is_leader)

unfoldable pub return_state : Raft → StateReply
return_state rf = record { term = rf.current_term; is_leader = rf.is_leader }

unfoldable pub persist : Raft → Raft
persist rf = record rf {
  saved = some (record { term = rf.current_term; voted_for = rf.voted_for; logs = rf.logs });
}

-- What the gob decoder yields for each of the three values; `none` where it fails, and then the
-- variable keeps its value.
pub record Decoded : Type 0 where
  pub term : Option ℤ
  pub voted_for : Option ℤ
  pub logs : Option (List RaftLog)

abbrev or_keep {ℓ} : {A : Type ℓ} → Option A → A → A
or_keep none a = a
or_keep (some b) a = b

-- `int32(len(logs) - 1)`
abbrev last_idx : List RaftLog → ℤ
last_idx logs = if ltb 0 (length logs) then int32 (length logs - 1) else negsuc 0

unfoldable pub read_persist : Decoded → Raft → Raft
read_persist d rf =
    let logs = or_keep d.logs rf.logs in
    record rf {
      voted_for = or_keep d.voted_for rf.voted_for;
      logs = logs;
      current_term = or_keep d.term (pos 0);
      logidx = last_idx logs;
    }

abbrev pub zero_log : RaftLog
zero_log = record { index = pos 0; term = pos 0; cmd = Command.null }

-- The fields that `Make` fills, before it reads the persisted state.
abbrev blank : ℕ → ℕ → Option Saved → Raft
blank peers me saved = record {
  me = me;
  peers = peers;
  saved = saved;
  jobs_chnl = [];
  rdy_chnl = replicate peers [];
  commit_idx_chnl = [];
  logidx = pos 0;
  is_leader = false;
  current_term = pos 0;
  voted_for = negsuc 0;
  logs = zero_log ∷ [];
  commit_idx = pos 0;
  last_applied = pos 0;
  next_index = replicate peers (pos 0);
  match_index = replicate peers (pos 0);
  effects = [];
}

-- `Make`, but for its goroutines: `decode` is the gob decoder on the bytes in the persister.
unfoldable pub make : (Option Saved → Decoded) → ℕ → ℕ → Option Saved → Raft
unfolding read_persist
make decode peers me saved = read_persist (decode saved) (blank peers me saved)
