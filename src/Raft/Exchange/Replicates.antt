-- ===== src/Raft/Exchange/Replicates.antt =====
-- From `Start` on a leader to the log of a peer (raft/raft.go): the job channel, the leader's log, the
-- heartbeats.
use my_raft.Base.{
  ℕ, zero, suc, ◌+◌, ◌-◌, ◌^◌, ◌≤◌, ◌<◌, ℤ, pos, ◌≤ℤ◌, ◌≡◌, ◌≢◌, refl, sym, ap, subst, ◌∙◌, true,
  some, List, [], ◌∷◌, ◌++◌, length, get_elem?, get_elem?-lt, get_elem?-append_left,
  get_elem?-append_right, dec_lt, arith,
}
use mathlib.Core.Option.{some-injective}
use my_raft.Raft.Data.{RaftLog, Command}
use my_raft.Raft.State.{Raft, persist}
use my_raft.Raft.Log.{IsLog}
use my_raft.Raft.Leader.{start, poll_jobs, batch}
use my_raft.Raft.Leader.Jobs.{IsQueued}
use my_raft.Raft.Leader.Accepted.{
  poll_jobs-Polls, poll_times, poll_times-drains, start-accepts, accepted_job, start-IsQueued,
  start-pending, length-start,
}
use my_raft.Raft.Exchange.{Delivery, rounds}
use my_raft.Raft.Exchange.Linked.{IsSender, IsFollower, Matching}
use my_raft.Raft.Exchange.Catches.{answers, rounds-HasCaught}

-- What polls leave alone.
record SamePeers (rf rf' : Raft) : Type 0 where
  leads : rf'.is_leader ≡ rf.is_leader
  term : rf'.current_term ≡ rf.current_term
  next : rf'.next_index ≡ rf.next_index
  matches : rf'.match_index ≡ rf.match_index

poll_jobs-SamePeers : (rf rf' : Raft) → poll_jobs rf ≡ some rf' → SamePeers rf rf'
unfolding poll_jobs batch persist
poll_jobs-SamePeers rf rf' h = ground arith

SamePeers-trans : (a b c : Raft) → SamePeers a b → SamePeers b c → SamePeers a c
SamePeers-trans a b c k l = record {
  leads = l.leads ∙ k.leads;
  term = l.term ∙ k.term;
  next = l.next ∙ k.next;
  matches = l.matches ∙ k.matches;
}

poll_times-IsQueued :
    (k : ℕ) (rf : Raft)
    → IsQueued rf
    → (rf' : Raft) × (poll_times k rf ≡ some rf') × IsQueued rf' × SamePeers rf rf'
unfolding poll_times
poll_times-IsQueued zero rf v =
    (rf, refl, v, record { leads = refl; term = refl; next = refl; matches = refl })
poll_times-IsQueued (suc k) rf v =
    let (rf1, e, p) = poll_jobs-Polls rf v in
    let (rf2, e2, v2, same) = poll_times-IsQueued k rf1 p.queued in
    (rf2, rw e e2, v2, SamePeers-trans rf rf1 rf2 (poll_jobs-SamePeers rf rf1 e) same)

-- Every entry is of the term.
abbrev pub AllOf : ℤ → List RaftLog → Type 0
AllOf t l = (i : ℕ) (d : RaftLog) → get_elem? l i ≡ some d → d.term ≡ t

-- From a position on, no entry is of the term.
abbrev pub NoneFrom : ℤ → ℕ → List RaftLog → Type 0
NoneFrom t k l = (i : ℕ) (d : RaftLog) → k ≤ i → get_elem? l i ≡ some d → d.term ≢ t

module _ (logs js : List RaftLog) where
  from_logs :
      (i : ℕ) (e : RaftLog)
      → i < length logs
      → get_elem? (logs ++ js) i ≡ some e
      → get_elem? logs i ≡ some e
  from_logs i e lt g = sym (get_elem?-append_left logs js i lt) ∙ g

  from_js :
      (i : ℕ) (e : RaftLog)
      → length logs ≤ i
      → get_elem? (logs ++ js) i ≡ some e
      → get_elem? js (i - length logs) ≡ some e
  from_js i e ge g =
      let n : length logs + (i - length logs) ≡ i = omega arith in
      sym (get_elem?-append_right logs js (i - length logs)) ∙ ap (get_elem? (logs ++ js)) n ∙ g

  -- New entries of a term that the other log does not have behind the old ones.
  Matching-append :
      (theirs : List RaftLog) (t : ℤ)
      → Matching logs theirs
      → AllOf t js
      → NoneFrom t (length logs) theirs
      → Matching (logs ++ js) theirs
  Matching-append theirs t m all none_of i j e d e' d' le at_e at_d same at_e' at_d' =
      elim (dec_lt i (length logs)) [
        | yes lt ↦
            m i j e d e' d' le (from_logs i e lt at_e) at_d same
              (from_logs j e' (omega arith) at_e') at_d'
        | no ge ↦ absurd (
            none_of i d (omega arith) at_d
              (same ∙ all (i - length logs) e (from_js i e (omega arith) at_e)))
      ]

AllOf-append :
    (t : ℤ) (xs : List RaftLog) (e : RaftLog) → AllOf t xs → e.term ≡ t → AllOf t (xs ++ e ∷ [])
AllOf-append t [] e all same zero d g =
    ap (λ (x : RaftLog). x.term) (sym (some-injective _ _ g)) ∙ same
AllOf-append t [] e all same (suc i) d g = cc
AllOf-append t (x ∷ xs) e all same zero d g = all zero d g
AllOf-append t (x ∷ xs) e all same (suc i) d g =
    AllOf-append t xs e (λ k c h. all (suc k) c h) same i d g

start-SamePeers : (rf : Raft) (command : Command) → SamePeers rf (start rf command).0
unfolding start
start-SamePeers rf command = ground arith

module _ (capacity server n a : ℕ) (rf peer : Raft) (command : Command) (s : IsSender rf server n)
    (f : IsFollower rf peer a) (v : IsQueued rf)
    (room : length rf.logs + length rf.jobs_chnl + 1 < 2 ^ 31)
    (jobs : AllOf rf.current_term rf.jobs_chnl)
    (behind : NoneFrom rf.current_term (length rf.logs) peer.logs) where
  abbrev job : RaftLog
  job = accepted_job rf command s.leads v room

  abbrev new : List RaftLog
  new = rf.jobs_chnl ++ job ∷ []

  -- The leader with the new entries, for the peer.
  grown-IsSender :
      (rf' : Raft)
      → rf'.logs ≡ rf.logs ++ new
      → IsLog rf'.logs
      → SamePeers rf rf'
      → IsSender rf' server n
  grown-IsSender rf' all w same = record {
    leads = same.leads ∙ s.leads;
    log = w;
    next = ap (λ l. get_elem? l server) same.next ∙ s.next;
    low = s.low;
    matched = (let (m, e) = s.matched in (m, ap (λ l. get_elem? l server) same.matches ∙ e));
    old =
        (let (first, at, lt) = s.old in
          (
            first,
            ap (λ l. get_elem? l 0) all ∙ get_elem?-append_left rf.logs new 0 s.log.some_entry ∙ at,
            rw same.term lt,
          ));
  }

  grown-IsFollower :
      (rf' : Raft) → rf'.logs ≡ rf.logs ++ new → SamePeers rf rf' → IsFollower rf' peer a
  grown-IsFollower rf' all same = record {
    log = f.log;
    settled = f.settled;
    matching = rw all (
        Matching-append rf.logs new peer.logs rf.current_term f.matching
          (AllOf-append rf.current_term rf.jobs_chnl job jobs refl) behind);
    begins = λ e d at_e at_d.
        f.begins e d
          (from_logs rf.logs new 0 e s.log.some_entry (ap (λ l. get_elem? l 0) (sym all) ∙ at_e))
          at_d;
    terms = rw same.term f.terms;
  }

  -- On a leader whose log is well formed and begins with an entry of an older term, with jobs of its own
  -- term that follow the log in the channel and room for one more `int32` index, for a peer
  -- with a positive next index and a match index; and with that peer's log well formed, matching the
  -- leader's, beginning with an entry of the same term and without entries of the leader's term
  -- behind the leader's log, its commit index the index that it has applied and its term no newer:
  -- `Start` tells an index; polls, as many as there are jobs then, and heartbeats, of which as many are
  -- answered as the next index says and others may be lost, return; and afterwards the leader's log
  -- has the command at that index, the peer's log has an entry of the leader's term there, and the match
  -- index is that index or higher.
  pub start-replicates :
      (ds : List Delivery)
      → n ≤ answers ds
      → let i = length rf.logs + length rf.jobs_chnl in
        ((start rf command).1 ≡ (pos i, rf.current_term, true))
        × (rf1 rf2 peer' : Raft) × (poll_times (length rf.jobs_chnl + 1) (start rf command).0
            ≡ some rf1)
        × (rounds ds capacity rf1 server peer ≡ some (rf2, peer'))
        × (get_elem? rf2.logs i
            ≡ some (record { index = pos i; term = rf.current_term; cmd = command }))
        × ((d : RaftLog) × (get_elem? peer'.logs i ≡ some d) × (d.term ≡ rf.current_term))
        × (m : ℤ) × (get_elem? rf2.match_index server ≡ some m)
        × (pos i ≤ℤ m)
  start-replicates ds enough =
      let i = length rf.logs + length rf.jobs_chnl in
      let k = length rf.jobs_chnl + 1 in
      let st = (start rf command).0 in
      let (tells, rf1, e1, at_i) = start-accepts rf command s.leads v room in
      let queued = start-IsQueued rf command s.leads v room in
      let (rf1', e1', _, all') =
        poll_times-drains k st queued (length-start rf command s.leads v room) in
      let (rf1'', e1'', v1, same1) = poll_times-IsQueued k st queued in
      let all : rf1.logs ≡ rf.logs ++ new =
        ap (λ (x : Raft). x.logs) (some-injective _ _ (sym e1 ∙ e1'))
        ∙ all'
        ∙ start-pending rf command s.leads v room in
      let is_it : rf1'' ≡ rf1 = some-injective _ _ (sym e1'' ∙ e1) in
      let same =
        SamePeers-trans rf st rf1 (start-SamePeers rf command) (subst (SamePeers st) is_it same1) in
      let w = subst (λ (x : Raft). IsLog x.logs) is_it v1.log in
      let (rf2, peer', e2, kept, (holds, (m, at_m, high))) =
        rounds-HasCaught capacity server n a rf1 peer (grown-IsSender rf1 all w same)
          (grown-IsFollower rf1 all same) ds enough in
      let there = ap (λ l. get_elem? l i) kept ∙ at_i in
      (
        tells,
        rf1,
        rf2,
        peer',
        e1,
        e2,
        there,
        holds i job there,
        m,
        at_m,
        omega (arith, get_elem?-lt rf2.logs i job there),
      )
