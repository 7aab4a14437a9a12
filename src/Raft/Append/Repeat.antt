-- ===== src/Raft/Append/Repeat.antt =====
-- A request to `HeartBeat` of raft/raft.go that arrives twice, and what a call hands to the state
-- machine.
use my_raft.Base.{
  ℕ, suc, ◌-◌, ◌≤◌, ◌<◌, pos_part, ℤ, pos, ◌≡◌, ◌⊎◌, refl, sym, ◌∙◌, ap, true, false, some, List,
  ◌∷◌, ◌++◌, length, take, drop, get_elem?, get_elem?-take, get_elem?-lt, length-take, take-append,
  drop-append, arith,
}
use my_raft.Raft.Data.{RaftLog, AppendEntriesArgs, AppendEntriesReply}
use my_raft.Raft.State.{Raft, Effect, persist}
use my_raft.Raft.Log.{IsLog}
use my_raft.Raft.Append.{heart_beat, applied, hb_metrics}
use my_raft.Raft.Append.Absorb.{absorb, absorbed, absorb-SameTerms, absorb-same}
use my_raft.Raft.Append.Finish.{IsSettled, advance}
use my_raft.Raft.Append.Outcome.{IsRequest, Outcome, stale, missing, differs, accepts, accept}
use my_raft.Raft.Append.Follower.{
  Agrees, heart_beat-Outcome, heart_beat-succeeds, heart_beat-keeps, heart_beat-Follows,
}

absorbed-again :
    (logs entries : List RaftLog) (p : ℕ)
    → p ≤ length logs
    → absorbed (absorbed logs p entries) p entries ≡ absorbed logs p entries
absorbed-again logs entries p h =
    let at_p : p ≡ length (take p logs) = omega (arith, length-take p logs) in
    let rest = absorb (drop p logs) entries in
    rw (take-append (take p logs) rest p at_p, drop-append (take p logs) rest p at_p)
      (ap (λ l. take p logs ++ l)
        (absorb-same rest entries (absorb-SameTerms (drop p logs) entries)))

advance-lt :
    (a n : ℕ) (leader_commit : ℤ)
    → 0 < n
    → (advance a (n - 1) leader_commit < n) ⊎ (advance a (n - 1) leader_commit ≡ a)
advance-lt a n leader_commit h = ground arith

advance-advance :
    (a top : ℕ) (leader_commit : ℤ)
    → advance (advance a top leader_commit) top leader_commit ≡ advance a top leader_commit
advance-advance a top leader_commit = ground arith

module _ (rf : Raft) (args : AppendEntriesArgs) (a q : ℕ) (w : IsLog rf.logs) (s : IsSettled rf a)
    (r : IsRequest args q) (rf' : Raft) (reply : AppendEntriesReply)
    (h : heart_beat rf args ≡ some (rf', reply)) (ok : reply.success ≡ true) where
  accepted : Outcome rf args a q rf' reply → rf' ≡ accept rf args a q
  accepted (stale first t top e f) = cc
  accepted (missing first t le top e f) = cc
  accepted (differs mine d cur t lt g ne stop at e f) = cc
  accepted (accepts mine d t lt g same top e f) = e

  heart_beat-accept : rf' ≡ accept rf args a q
  heart_beat-accept = accepted (heart_beat-Outcome rf args a q w s r rf' reply h)

module _ (rf : Raft) (args : AppendEntriesArgs) (a q : ℕ) (w : IsLog rf.logs) (s : IsSettled rf a)
    (r : IsRequest args q) (rf' : Raft) (reply : AppendEntriesReply)
    (h : heart_beat rf args ≡ some (rf', reply)) (ok : reply.success ≡ true) where
  accept_lem : rf' ≡ accept rf args a q
  accept_lem = heart_beat-accept rf args a q w s r rf' reply h ok

  -- On a server whose log is well formed and whose commit index is the index that it has applied, a
  -- successful call with a leader's request applies the entries behind the index that was applied, up to
  -- the one that it comes to, once and in order, after it has reset the timer; this index is in the log
  -- or the old one.
  pub heart_beat-applies :
      let b = advance a (length rf'.logs - 1) args.leader_commit_idx in
      (rf'.last_applied ≡ pos b)
      × ((b < length rf'.logs) ⊎ (b ≡ a))
      × (rf'.effects
          ≡ Effect.metrics (hb_metrics rf' args.leader_id)
            ∷ applied
                (drop (suc a) (take (suc b) rf'.logs))
                (Effect.timer_reset false ∷ Effect.rpc_signal ∷ rf.effects))
  unfolding persist
  heart_beat-applies =
      let w' = (heart_beat-keeps rf args a q w s r rf' reply h).0 in
      let lt = advance-lt a (length rf'.logs) args.leader_commit_idx w'.some_entry in
      (rw accept_lem refl, lt, rw accept_lem refl)

  advance-fixed :
      (b : ℕ) → IsSettled rf' b → advance b (length rf'.logs - 1) args.leader_commit_idx ≡ b
  advance-fixed b s' =
      let top = length rf'.logs - 1 in
      let both : pos b ≡ pos (advance a top args.leader_commit_idx) =
        sym s'.applied_to ∙ heart_beat-applies.0 in
      let e : b ≡ advance a top args.leader_commit_idx = ap pos_part both in
      ap (λ x. advance x top args.leader_commit_idx) e
      ∙ advance-advance a top args.leader_commit_idx
      ∙ sym e

  within : suc q ≤ length rf.logs
  within =
      let (_, mine, g, _) = (heart_beat-succeeds rf args a q w s r rf' reply h).0 ok in
      get_elem?-lt rf.logs q mine g

  still-Agrees : Agrees rf' args q
  unfolding persist
  still-Agrees =
      let (_, mine, g, same) = (heart_beat-succeeds rf args a q w s r rf' reply h).0 ok in
      let keeps = (heart_beat-Follows rf args a q w s r rf' reply h ok).keeps in
      let at_q =
        sym (get_elem?-take (suc q) q rf'.logs (omega arith))
        ∙ ap (λ l. get_elem? l q) keeps
        ∙ get_elem?-take (suc q) q rf.logs (omega arith) in
      (rw accept_lem (omega arith), mine, at_q ∙ g, same)

  -- When a leader's request that was successful, on a server whose log is well formed and whose commit
  -- index is the index that it has applied, arrives once more and the call returns, the call is successful and changes neither the log
  -- nor the index that is applied.
  pub heart_beat-again :
      (rf'' : Raft) (reply' : AppendEntriesReply)
      → heart_beat rf' args ≡ some (rf'', reply')
      → (reply'.success ≡ true) × (rf''.logs ≡ rf'.logs) × (rf''.last_applied ≡ rf'.last_applied)
  unfolding persist
  heart_beat-again rf'' reply' h' =
      let (w', (b, s', _)) = heart_beat-keeps rf args a q w s r rf' reply h in
      let ok' = (heart_beat-succeeds rf' args b q w' s' r rf'' reply' h').1 still-Agrees in
      let e = heart_beat-accept rf' args b q w' s' r rf'' reply' h' ok' in
      let same : absorbed rf'.logs (suc q) args.entries ≡ rf'.logs =
        rw accept_lem (absorbed-again rf.logs args.entries (suc q) within) in
      (
        ok',
        rw (e, same) refl,
        rw e (
            ap (λ l. pos (advance b (length l - 1) args.leader_commit_idx)) same
            ∙ ap pos (advance-fixed b s')
            ∙ sym s'.applied_to),
      )
