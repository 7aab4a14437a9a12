-- ===== src/Raft/Append/Outcome.antt =====
-- What one call of `HeartBeat` of raft/raft.go does, in each of its four cases.
use my_raft.Base.{
  ℕ, suc, ◌+◌, ◌-◌, ◌^◌, ◌≤◌, ◌<◌, ℤ, pos, ◌≤ℤ◌, ◌<ℤ◌, ltb_ℤ, eqb_ℤ_iff, eqb_ℤ, ◌≡◌, ◌≢◌, inl, inr,
  refl, ap, ◌∙◌, true, false, some, List, length, take, get_elem?, get_elem?-some, Bool-cases,
  dec_lt, arith, last,
}
use my_raft.Raft.Data.{RaftLog, AppendEntriesArgs, AppendEntriesReply}
use my_raft.Raft.State.{Raft, Effect, emit, persist}
use my_raft.Raft.Log.{Consecutive, IsLog, IsLog-last, IsLog-index}
use my_raft.Raft.Append.{follow_commit, hb_metrics, failed, finish, append_entries, heart_beat}
use my_raft.Raft.Append.Absorb.{absorbed, merge-absorbed, absorbed-IsLog, absorbed-length}
use my_raft.Raft.Append.Conflict.{
  StopsAt, back_up-BacksUp, last-take, check_prev-beyond, check_prev-matches, check_prev-conflict,
}
use my_raft.Raft.Append.Finish.{IsSettled, advance, settle, follow_commit-settle}

-- A request as a leader makes it: the entries follow `PrevLog`, and the indices fit an `int32`.
pub record IsRequest (args : AppendEntriesArgs) (q : ℕ) : Type 0 where
  pub at_prev : args.prev_log.index ≡ pos q
  pub consecutive : Consecutive (suc q) args.entries
  pub fits : q + 1 + length args.entries < 2 ^ 31

-- The server has accepted the sender's term.
abbrev pub heard : Raft → AppendEntriesArgs → Raft
heard rf args =
    emit (Effect.timer_reset false)
      (record (emit Effect.rpc_signal rf) { current_term = args.term; is_leader = false })

-- The log is cut behind `cur`.
abbrev pub cut : Raft → AppendEntriesArgs → ℕ → Raft
cut rf args cur =
    persist (record (heard rf args) { logs = take (cur + 1) rf.logs; logidx = pos cur })

-- The entries are taken over, and the entries up to the leader's commit index applied.
abbrev pub accept : Raft → AppendEntriesArgs → ℕ → ℕ → Raft
accept rf args a q =
    let logs = absorbed rf.logs (suc q) args.entries in
    let stored : Raft = record (heard rf args) { logs = logs; logidx = pos (length logs - 1) } in
    let settled = settle stored a (advance a (length logs - 1) args.leader_commit_idx) in
    persist (emit (Effect.metrics (hb_metrics settled args.leader_id)) settled)

pub data Outcome (rf : Raft) (args : AppendEntriesArgs) (a q : ℕ) (rf' : Raft)
    (reply : AppendEntriesReply) : Type 0 where
  stale :
      (first : RaftLog)
      → args.term <ℤ rf.current_term
      → last rf.logs ≡ some first
      → rf' ≡ persist (emit Effect.rpc_signal rf)
      → reply ≡ failed rf.current_term first
      → Outcome rf args a q rf' reply
  missing :
      (first : RaftLog)
      → rf.current_term ≤ℤ args.term
      → length rf.logs ≤ q
      → last rf.logs ≡ some first
      → rf' ≡ persist (heard rf args)
      → reply ≡ failed rf.current_term first
      → Outcome rf args a q rf' reply
  differs :
      (mine e : RaftLog) (cur : ℕ)
      → rf.current_term ≤ℤ args.term
      → q < length rf.logs
      → get_elem? rf.logs q ≡ some mine
      → mine.term ≢ args.prev_log.term
      → StopsAt rf.logs mine.term q cur
      → get_elem? rf.logs cur ≡ some e
      → rf' ≡ cut rf args cur
      → reply ≡ failed rf.current_term e
      → Outcome rf args a q rf' reply
  accepts :
      (mine e : RaftLog)
      → rf.current_term ≤ℤ args.term
      → q < length rf.logs
      → get_elem? rf.logs q ≡ some mine
      → mine.term ≡ args.prev_log.term
      → last (absorbed rf.logs (suc q) args.entries) ≡ some e
      → rf' ≡ accept rf args a q
      → reply ≡ record { term = rf.current_term; success = true; last_entry = e }
      → Outcome rf args a q rf' reply

-- The end of the handler, with what the new log has at its end.
finish-accepts :
    (rf settled : Raft) (args : AppendEntriesArgs) (current : ℤ) (logs : List RaftLog) (e : RaftLog)
    (n q : ℕ)
    → last logs ≡ some e
    → e.index ≡ pos n
    → follow_commit (record rf { logs = logs; logidx = pos n }) e args.leader_commit_idx
      ≡ some settled
    → args.prev_log.index ≡ pos q
    → q ≤ n
    → finish rf args current logs
      ≡ some (
        persist (emit (Effect.metrics (hb_metrics settled args.leader_id)) settled),
        record { term = current; success = true; last_entry = e },
      )
unfolding finish
finish-accepts rf settled args current logs e n q le i f at_prev h = ground arith

-- The call returns, with one of these outcomes.
abbrev pub Returns : Raft → AppendEntriesArgs → ℕ → ℕ → Type 0
Returns rf args a q =
    (rf' : Raft) × (reply : AppendEntriesReply) × (heart_beat rf args ≡ some (rf', reply))
    × Outcome rf args a q rf' reply

module _ (rf : Raft) (args : AppendEntriesArgs) (a q : ℕ) (w : IsLog rf.logs) (s : IsSettled rf a)
    (r : IsRequest args q) (first : RaftLog) (top : last rf.logs ≡ some first) where
  Returns-stale : args.term <ℤ rf.current_term → Returns rf args a q
  unfolding heart_beat
  Returns-stale h = (_, _, rw top (ground arith), Outcome.stale first h top refl refl)

  module _ (h : rf.current_term ≤ℤ args.term) where
    heart_beat-append :
        heart_beat rf args ≡ append_entries (heard rf args) args rf.current_term first
    unfolding heart_beat
    heart_beat-append = rw top (ground arith)

    Returns-missing : length rf.logs ≤ q → Returns rf args a q
    unfolding append_entries
    Returns-missing beyond_log =
        let check = check_prev-beyond rf.logs w first args.prev_log q top r.at_prev beyond_log in
        (_, _, heart_beat-append ∙ rw check refl, Outcome.missing first h beyond_log top refl refl)

    module _ (mine : RaftLog) (g : get_elem? rf.logs q ≡ some mine) (lt : q < length rf.logs) where
      Returns-differs : mine.term ≢ args.prev_log.term → Returns rf args a q
      unfolding append_entries
      Returns-differs ne =
          let (cur, b, stop) = back_up-BacksUp rf.logs mine.term q lt in
          let check =
            check_prev-conflict rf.logs w first args.prev_log q top r.at_prev mine g lt cur ne b in
          let (e, ge) = get_elem?-some rf.logs cur (omega (arith, stop.before)) in
          (
            _,
            _,
            heart_beat-append
                ∙ rw check (
                    rw (last-take rf.logs cur e (omega (arith, stop.before)) ge) (
                      ap
                        (λ (i : ℤ). some (
                          persist (record (heard rf args) {
                            logs = take (cur + 1) rf.logs;
                            logidx = i;
                          }),
                          failed rf.current_term e,
                        ))
                        (IsLog-index rf.logs w cur e ge))),
            Outcome.differs mine e cur h lt g ne stop ge refl refl,
          )

      Returns-accepts : mine.term ≡ args.prev_log.term → Returns rf args a q
      unfolding append_entries
      Returns-accepts same =
          let check =
            check_prev-matches rf.logs w first args.prev_log q top r.at_prev mine g lt same in
          let w' = absorbed-IsLog rf.logs args.entries q w lt r.consecutive r.fits in
          let new = absorbed rf.logs (suc q) args.entries in
          let longer = (absorbed-length rf.logs args.entries q w lt r.consecutive r.fits).0 in
          let (e, le, ie) = IsLog-last new w' in
          (
            _,
            _,
            heart_beat-append
                ∙ rw check (
                    rw
                      (merge-absorbed rf.logs w first.index
                        (IsLog-index rf.logs w (length rf.logs - 1) first top) (suc q) args.entries
                        lt r.consecutive)
                      (finish-accepts (heard rf args) _ args rf.current_term new e (length new - 1)
                        q le ie
                        (follow_commit-settle
                          (record (heard rf args) { logs = new; logidx = pos (length new - 1) }) a
                          (record { applied_to = s.applied_to; committed_to = s.committed_to }) w' e
                          ie args.leader_commit_idx)
                        r.at_prev (omega (arith, longer)))),
            Outcome.accepts mine e h lt g same le refl refl,
          )

pub heart_beat-Returns :
    (rf : Raft) (args : AppendEntriesArgs) (a q : ℕ)
    → IsLog rf.logs
    → IsSettled rf a
    → IsRequest args q
    → Returns rf args a q
heart_beat-Returns rf args a q w s r =
    let (first, top, _) = IsLog-last rf.logs w in
    elim (Bool-cases (ltb_ℤ args.term rf.current_term)) [
      | inl old ↦ Returns-stale rf args a q w s r first top (ground arith)
      | inr new ↦
          let h : rf.current_term ≤ℤ args.term = ground arith in
          elim (dec_lt q (length rf.logs)) [
            | yes lt ↦
                let (mine, g) = get_elem?-some rf.logs q lt in
                elim (Bool-cases (eqb_ℤ mine.term args.prev_log.term)) [
                  | inl same ↦
                      Returns-accepts rf args a q w s r first top h mine g lt
                        ((eqb_ℤ_iff mine.term args.prev_log.term).0 same)
                  | inr other ↦
                      Returns-differs rf args a q w s r first top h mine g lt
                        (ground (arith, eqb_ℤ_iff mine.term args.prev_log.term))
                ]
            | no ge ↦ Returns-missing rf args a q w s r first top h (omega arith)
          ]
    ]
