-- ===== src/Raft/Exchange/Request.antt =====
-- The request that a heartbeat of the leader of raft/raft.go becomes: all its entries behind a position.
use my_raft.Base.{
  ℕ, suc, ◌+◌, ◌-◌, ◌≤◌, ◌<◌, min, ◌≡◌, sym, ap, ◌∙◌, some, List, [], ◌++◌, append-nil, length,
  take, drop, take-length, drop-length, get_elem?, get_elem?-some, last, dec_lt, arith, subst,
}
use my_raft.Raft.Data.{RaftLog, AppendEntriesArgs}
use my_raft.Raft.State.{Raft}
use my_raft.Raft.Log.{IsLog-index}
use my_raft.Raft.Append.Outcome.{IsRequest}
use my_raft.Raft.Leader.{prepare, append_args}
use my_raft.Raft.Leader.Requests.{
  IsQueuedRequest, append_alias-nil, prepare-behind, filled-IsRequest, prepare-ahead,
}
use my_raft.Raft.Exchange.Linked.{IsSender}

-- The position of `PrevLog`, for a next index and a log.
abbrev pub prev_at : ℕ → List RaftLog → ℕ
prev_at n logs = min (n - 1) (length logs - 1)

abbrev pub sent : Raft → ℕ → RaftLog → AppendEntriesArgs
sent rf q prev = append_args rf prev (drop (suc q) rf.logs)

module _ (capacity : ℕ) (rf : Raft) (server n : ℕ) (s : IsSender rf server n) (top : RaftLog)
    (at_top : last rf.logs ≡ some top) where
  beat-IsQueuedRequest : IsQueuedRequest rf (append_args rf top []) (length rf.logs - 1)
  beat-IsQueuedRequest = record {
    request = record {
      at_prev = IsLog-index rf.logs s.log (length rf.logs - 1) top at_top;
      consecutive = tt;
      fits = omega (arith, s.log.fits, s.log.some_entry);
    };
    in_log = omega (arith, s.log.some_entry);
  }

  -- What the peer gets.
  abbrev pub Sends : Type 0
  Sends =
      (prev : RaftLog) × (get_elem? rf.logs (prev_at n rf.logs) ≡ some prev)
      × (prepare capacity rf server (append_args rf top [])
          ≡ some (rf, sent rf (prev_at n rf.logs) prev))
      × IsRequest (sent rf (prev_at n rf.logs) prev) (prev_at n rf.logs)

  behind : n ≤ length rf.logs - 1 → Sends
  behind le =
      let q = prev_at n rf.logs in
      let at_suc : n ≡ suc q = omega (arith, s.low) in
      let at_n : n - 1 ≡ q = omega arith in
      let (prev, g) = get_elem?-some rf.logs (n - 1) (omega (arith, s.log.some_entry)) in
      let v = beat-IsQueuedRequest in
      let args = append_args rf top [] in
      let entries : drop n (take (length rf.logs - 1 + 1) rf.logs) ++ [] ≡ drop (suc q) rf.logs =
        append-nil (drop n (take (length rf.logs - 1 + 1) rf.logs))
        ∙ ap (drop n) (take-length rf.logs (length rf.logs - 1 + 1) (omega arith))
        ∙ ap (λ k. drop k rf.logs) at_suc in
      let made =
        prepare-behind capacity rf server args n (length rf.logs - 1) s.log v s.next s.low le prev
          g in
      let same = append_alias-nil capacity rf.logs (length rf.logs - 1 + 1) in
      let r =
        filled-IsRequest capacity rf server args n (length rf.logs - 1) s.log v s.next s.low le prev
          g in
      (
        prev,
        ap (get_elem? rf.logs) (sym at_n) ∙ g,
        made
            ∙ ap
                (λ (l : List RaftLog × List RaftLog).
                  some (record rf { logs = l.0 }, append_args rf prev l.1))
                (λ i. (same i, entries i)),
        subst (IsRequest (sent rf q prev)) at_n
            (subst (λ l. IsRequest (append_args rf prev l) (n - 1)) entries r),
      )

  ahead : length rf.logs - 1 < n → Sends
  ahead gt =
      let at_p : length rf.logs - 1 ≡ prev_at n rf.logs = omega arith in
      let v = beat-IsQueuedRequest in
      let none_left : [] ≡ drop (suc (length rf.logs - 1)) rf.logs =
        sym (drop-length rf.logs (suc (length rf.logs - 1)) (omega arith)) in
      let made =
        prepare-ahead capacity rf server (append_args rf top []) n (length rf.logs - 1) s.log v
          s.next gt in
      let entries = none_left ∙ ap (λ k. drop (suc k) rf.logs) at_p in
      (
        top,
        ap (get_elem? rf.logs) (sym at_p) ∙ at_top,
        made ∙ ap (λ l. some (rf, append_args rf top l)) entries,
        subst (λ l. IsRequest (append_args rf top l) (prev_at n rf.logs)) entries
            (subst (IsRequest (append_args rf top [])) at_p v.request),
      )

  -- A heartbeat becomes the leader's entries behind the position before the next index, with the
  -- entry at that position as `PrevLog`.
  pub beat-Sends : Sends
  beat-Sends = elim (dec_lt (length rf.logs - 1) n) [
    | yes gt ↦ ahead gt
    | no le ↦ behind (omega arith)
  ]
