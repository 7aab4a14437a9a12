-- ===== src/Raft/Exchange/Commits.antt =====
-- From an election in raft/raft.go to the entries that are handed to `RaftKV.Apply`: the heartbeats, the
-- reports of the match indices, and the "Commit index updater" that reads them.
use my_raft.Base.{
  ℕ, suc, ◌-◌, ◌/◌, ◌==◌, ==_iff, leb, not, ◌&&◌, Bool, true, ◌≤◌, ◌<◌, ℤ, pos, ◌<ℤ◌, ◌≤ℤ◌, ◌≡◌,
  ◌≢◌, inl, inr, ap, ◌∙◌, some, List, ◌++◌, map, drop, take, take-length, length, get_elem?, arith,
  dec_lt,
}
use my_raft.Raft.Data.{RaftLog}
use my_raft.Raft.State.{Raft}
use my_raft.Raft.Log.{IsLog}
use my_raft.Raft.Append.{apply_msg}
use my_raft.Raft.Append.Finish.{IsSettled}
use my_raft.Raft.Election.{Campaign, become_leader}
use my_raft.Raft.Commit.{Tracker, reports, update_commits}
use my_raft.Raft.Commit.Settles.{handed, times, Awaits, update_commits-Commits}
use my_raft.Raft.Exchange.{Delivery, all_rounds}
use my_raft.Raft.Exchange.Linked.{IsFollower}
use my_raft.Raft.Exchange.Reply.{SameLead}
use my_raft.Raft.Exchange.Tally.{passing, passing-reached, reached-replicate, Tallied}
use my_raft.Raft.Exchange.Catches.{answers, HasCaught}
use my_raft.Raft.Exchange.Everyone.{to, Aimed}
use my_raft.Raft.Exchange.Elected.{elected-Run}

-- The server is another one, and it answers as often as the leader's log is long.
abbrev pub votes_in : ℕ → ℕ → List (ℕ × Delivery) → ℕ → Bool
votes_in me size ds j = not (j == me) && leb size (answers (to j ds))

module _ (capacity me a : ℕ) (rf : Raft) (peers : List Raft) (c : Campaign) (t : Tracker)
    (w : IsLog rf.logs) (s : IsSettled rf a) (low : a < length rf.logs) (first : RaftLog)
    (at_first : get_elem? rf.logs 0 ≡ some first) (old : first.term <ℤ rf.current_term)
    (le : length peers ≤ rf.peers)
    (follow : (j : ℕ)
      → j < length peers
      → j ≢ me
      → (peer : Raft) × (get_elem? peers j ≡ some peer) × (a : ℕ) × IsFollower rf peer a)
    (brief : (j : ℕ) (peer : Raft)
      → j ≢ me
      → get_elem? peers j ≡ some peer
      → length peer.logs ≤ length rf.logs)
    (ds : List (ℕ × Delivery)) where
  abbrev top : ℕ
  top = length rf.logs - 1

  -- The reports of the last index that come out of the heartbeats.
  enough_reports :
      (rf' : Raft)
      → SameLead (become_leader rf c) rf'
      → Tallied (become_leader rf c) rf'
      → ((j : ℕ)
          → j < length peers
          → votes_in me (length rf.logs) ds j ≡ true
          → (m : ℤ) × (get_elem? rf'.match_index j ≡ some m) × (pos top ≤ℤ m))
      → 0 < top
      → passing (votes_in me (length rf.logs) ds) (length peers)
        ≤ times (pos top) rf'.commit_idx_chnl
  unfolding become_leader
  enough_reports rf' same tally caught above = omega (
    arith,
    tally,
    reached-replicate top rf.peers above,
    passing-reached (votes_in me (length rf.logs) ds) top (length peers) rf'.match_index caught,
  )

  IsSettled-still : (rf' : Raft) → SameLead (become_leader rf c) rf' → IsSettled rf' a
  unfolding become_leader
  IsSettled-still rf' same = record {
    applied_to = same.applied ∙ s.applied_to;
    committed_to = same.commit ∙ s.committed_to;
  }

  caught_at :
      (rf' : Raft) (peers' : List Raft)
      → rf'.logs ≡ rf.logs
      → ((j : ℕ)
          → j < length peers
          → j ≢ me
          → (peer : Raft) × (get_elem? peers' j ≡ some peer)
            × (length rf.logs ≤ answers (to j ds) → HasCaught rf' peer j))
      → (j : ℕ) → j < length peers
      → votes_in me (length rf.logs) ds j ≡ true
      → (m : ℤ) × (get_elem? rf'.match_index j ≡ some m) × (pos top ≤ℤ m)
  caught_at rf' peers' same done j lt ok =
      let ne : j ≢ me = ground (arith, ==_iff j me) in
      let (peer, at, caught) = done j lt ne in
      let (_, (m, at_m, high)) = caught (ground arith) in (m, at_m, rw same at high)

  awaited :
      (rf' : Raft)
      → SameLead (become_leader rf c) rf'
      → 2 ≤ rf.peers
      → reports t (pos top) ≡ 0
      → rf.peers / 2 ≤ passing (votes_in me (length rf.logs) ds) (length peers)
      → (0 < top
          → passing (votes_in me (length rf.logs) ds) (length peers)
            ≤ times (pos top) rf'.commit_idx_chnl)
      → Awaits rf' t a top rf'.commit_idx_chnl
  unfolding become_leader
  awaited rf' same two fresh half enough = elim (dec_lt 0 top) [
    | yes above ↦ inr (rw same.peers (omega (arith, enough above)))
    | no zero_top ↦ inl (omega arith)
  ]

  -- A server of two or more becomes leader; its log is well formed, begins with an entry of an older
  -- term and has the index that it has applied, which is its commit index; no report of the last
  -- index of its log was counted before. Every other server has a well-formed log that matches the
  -- leader's, begins with an entry of the same term and is no longer than the leader's, a commit index that is
  -- the index that it has applied, and no newer term. Heartbeats to these servers in any order, each
  -- lost, not answered or answered, of which half of the servers, rounded down, answer as many as
  -- the leader's log is long, and then the handling of all indices that stand in the commit channel,
  -- return without a panic; the leader's log is as it was, all of it is committed, and what was handed to
  -- `RaftKV.Apply` is what was handed before and then the entries behind the index that was
  -- applied, each once and in order.
  pub update_commits-all_rounds :
      Aimed me (length peers) ds
      → 2 ≤ rf.peers
      → reports t (pos top) ≡ 0
      → rf.peers / 2 ≤ passing (votes_in me (length rf.logs) ds) (length peers)
      → (rf' rf'' : Raft) × (peers' : List Raft) × (t' : Tracker) × (all_rounds ds capacity
            (become_leader rf c)
            peers
          ≡ some (rf', peers'))
        × (update_commits rf' t rf'.commit_idx_chnl ≡ some (rf'', t'))
        × (rf''.logs ≡ rf.logs)
        × (rf''.commit_idx ≡ pos (length rf.logs - 1))
        × (handed rf''.effects ≡ handed rf.effects ++ map apply_msg (drop (suc a) rf.logs))
  unfolding become_leader
  update_commits-all_rounds aimed two fresh half =
      let (rf', peers', e, same, done, tally) =
        elected-Run capacity me rf peers c w first at_first old le follow Unit (λ b. brief) ds
          aimed in
      let caught = caught_at rf' peers' same.logs done in
      let wait = awaited rf' same two fresh half (enough_reports rf' same (tally tt) caught) in
      let (rf'', t', b, e2, k, commits) =
        update_commits-Commits rf'.commit_idx_chnl rf' t a (rw same.logs w)
          (IsSettled-still rf' same) in
      let high : top ≤ b = commits top (rw same.logs (omega arith)) wait in
      let inside : b < length rf.logs = rw same.logs at (k.within (rw same.logs low)) in
      let at_top : b ≡ top = omega arith in
      let all : take (suc b) rf.logs ≡ rf.logs = take-length rf.logs (suc b) (omega arith) in
      (
        rf',
        rf'',
        peers',
        t',
        e,
        e2,
        k.logs ∙ same.logs,
        k.settled.committed_to ∙ ap pos at_top,
        k.hands
            ∙ ap (λ h. h ++ map apply_msg (drop (suc a) (take (suc b) rf'.logs))) same.hands
            ∙ ap (λ l. handed rf.effects ++ map apply_msg (drop (suc a) (take (suc b) l))) same.logs
            ∙ ap (λ l. handed rf.effects ++ map apply_msg (drop (suc a) l)) all,
      )
