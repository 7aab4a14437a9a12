-- ===== src/Kv/Committed.antt =====
-- The whole way from an election in raft/raft.go to the map of the leader's server in kvraft/server.go.
use my_raft.Base.{
  ℕ, suc, ◌-◌, ◌/◌, ◌≤◌, ◌<◌, pos, false, none, ◌<ℤ◌, ◌≡◌, ◌≢◌, ap, subst, ◌∙◌, some, List, ◌++◌,
  map, drop, take, take-length, length, get_elem?, arith,
}
use my_raft.Raft.Data.{RaftLog}
use my_raft.Raft.State.{Raft}
use my_raft.Raft.Log.{IsLog}
use my_raft.Raft.Append.{apply_msg}
use my_raft.Raft.Append.Finish.{IsSettled}
use my_raft.Raft.Election.{Campaign, become_leader}
use my_raft.Raft.Commit.{Tracker, reports, update_commits}
use my_raft.Raft.Commit.Settles.{handed, between, between-split}
use my_raft.Raft.Exchange.{Delivery, all_rounds}
use my_raft.Raft.Exchange.Linked.{IsFollower}
use my_raft.Raft.Exchange.Tally.{passing}
use my_raft.Raft.Exchange.Everyone.{Aimed}
use my_raft.Raft.Exchange.Commits.{votes_in, update_commits-all_rounds}
use my_raft.Kv.Server.{Kv, start_kv_server, apply_msgs}
use my_raft.Kv.Server.Refines
use my_raft.Kv.Server.Refines.{
  Store, deliver_all, messages, ArePlain, Implements, apply_msgs-Implements,
  start_kv_server-Implements,
}

abbrev pub empty_store : Store
empty_store = record { taken = λ i. false; value = λ k. none }

between-all :
    (logs : List RaftLog) (a : ℕ)
    → a < length logs
    → between logs 0 a ++ map apply_msg (drop (suc a) logs) ≡ map apply_msg (drop 1 logs)
between-all logs a lt =
    let all : take (suc (length logs - 1)) logs ≡ logs =
      take-length logs (suc (length logs - 1)) (omega arith) in
    let split = between-split logs 0 a (length logs - 1) (omega arith) (omega (arith, lt)) in
    subst (λ l. between logs 0 a ++ map apply_msg (drop (suc a) l) ≡ map apply_msg (drop 1 l)) all
      split

module _ (capacity me a : ℕ) (rf : Raft) (peers : List Raft) (c : Campaign) (t : Tracker)
    (w : IsLog rf.logs) (s : IsSettled rf a) (low : a < length rf.logs) (first : RaftLog)
    (at_first : get_elem? rf.logs 0 ≡ some first) (old : first.term <ℤ rf.current_term)
    (le : length peers ≤ rf.peers)
    (follow : (j : ℕ)
      → j < length peers
      → j ≢ me
      → (peer : Raft) × (get_elem? peers j ≡ some peer) × (a : ℕ) × IsFollower rf peer a)
    (brief : (j : ℕ) (peer : Raft)
      → j ≢ me
      → get_elem? peers j ≡ some peer
      → length peer.logs ≤ length rf.logs)
    (ds : List (ℕ × Delivery)) (aimed : Aimed me (length peers) ds) (two : 2 ≤ rf.peers)
    (fresh : reports t (pos (length rf.logs - 1)) ≡ 0)
    (half : rf.peers / 2 ≤ passing (votes_in me (length rf.logs) ds) (length peers)) where
  -- An election, the heartbeats behind it and the handling of the commit channel as in the run that
  -- commits the whole log: if what the server has handed over before is the entries of its log up to the
  -- index that it has applied, and the entries of its log but the first are puts, appends and gets without
  -- separators, then a new key-value server that applies all the messages handed over does not panic and
  -- has the map and the used indices that these requests give in the order of the log.
  pub all_rounds-Implements :
      (requests : List Refines.Delivery)
      → handed rf.effects ≡ between rf.logs 0 a
      → map apply_msg (drop 1 rf.logs) ≡ messages requests
      → ArePlain requests
      → (rf' rf'' : Raft) × (peers' : List Raft) × (t' : Tracker) × (kv : Kv) × (all_rounds ds
            capacity
            (become_leader rf c)
            peers
          ≡ some (rf', peers'))
        × (update_commits rf' t rf'.commit_idx_chnl ≡ some (rf'', t'))
        × (rf''.logs ≡ rf.logs)
        × (apply_msgs start_kv_server (handed rf''.effects) ≡ some kv)
        × Implements kv (deliver_all empty_store requests)
  all_rounds-Implements requests before entries plain =
      let (rf', rf'', peers', t', e, e2, logs, commit, hands) =
        update_commits-all_rounds capacity me a rf peers c t w s low first at_first old le follow
          brief ds aimed two fresh half in
      let (kv, runs, holds) =
        apply_msgs-Implements start_kv_server empty_store requests start_kv_server-Implements
          plain in
      let all : handed rf''.effects ≡ messages requests =
        hands
        ∙ ap (λ h. h ++ map apply_msg (drop (suc a) rf.logs)) before
        ∙ between-all rf.logs a low
        ∙ entries in
      (rf', rf'', peers', t', kv, e, e2, logs, ap (apply_msgs start_kv_server) all ∙ runs, holds)
