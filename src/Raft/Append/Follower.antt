-- ===== src/Raft/Append/Follower.antt =====
-- What a follower can rely on when `HeartBeat` of raft/raft.go returns.
use my_raft.Base.{
  ℕ, suc, ◌+◌, ◌-◌, ◌≤◌, ◌≤ℤ◌, ◌≡◌, ◌≢◌, ◌↔◌, refl, sym, ◌∙◌, ap, subst, true, some, none, length,
  take, drop, get_elem?, length-take, get_elem?-lt, take-append, drop-append, arith,
}
use mathlib.Core.Option.{some-injective}
use my_raft.Raft.Data.{RaftLog, AppendEntriesArgs, AppendEntriesReply}
use my_raft.Raft.State.{Raft, persist}
use my_raft.Raft.Log.{IsLog}
use my_raft.Raft.Append.{heart_beat}
use my_raft.Raft.Append.Absorb.{absorb, absorbed, absorbed-IsLog, SameTerms, absorb-SameTerms}
use my_raft.Raft.Append.Conflict.{IsLog-take}
use my_raft.Raft.Append.Finish.{IsSettled, advance}
use my_raft.Raft.Append.Outcome.{
  IsRequest, Outcome, stale, missing, differs, accepts, heart_beat-Returns,
}

-- The server's term is not past the request's, and its log has `PrevLog`.
abbrev pub Agrees : Raft → AppendEntriesArgs → ℕ → Type 0
Agrees rf args q =
    (rf.current_term ≤ℤ args.term)
    × (mine : RaftLog) × (get_elem? rf.logs q ≡ some mine)
    × (mine.term ≡ args.prev_log.term)

-- The server is settled at a position no lower.
abbrev pub Advances : Raft → ℕ → Type 0
Advances rf a = (b : ℕ) × IsSettled rf b × (a ≤ b)

-- Up to `PrevLog` the log is as it was, and behind it stand entries of the leader's terms.
pub record Follows (rf : Raft) (args : AppendEntriesArgs) (q : ℕ) (rf' : Raft) : Type 0 where
  pub keeps : take (suc q) rf'.logs ≡ take (suc q) rf.logs
  pub terms : SameTerms (drop (suc q) rf'.logs) args.entries

module _ (rf : Raft) (args : AppendEntriesArgs) (a q : ℕ) (w : IsLog rf.logs) (s : IsSettled rf a)
    (r : IsRequest args q) where
  -- A call with a leader's request returns, on a server whose log is well formed and whose commit index is
  -- the index that it has applied.
  pub heart_beat-total : heart_beat rf args ≢ none
  heart_beat-total e = let (_, _, h, _) = heart_beat-Returns rf args a q w s r in cc

  still :
      (rf' : Raft)
      → rf'.last_applied ≡ rf.last_applied
      → rf'.commit_idx ≡ rf.commit_idx
      → IsSettled rf' a
  still rf' e f = record { applied_to = e ∙ s.applied_to; committed_to = f ∙ s.committed_to }

  module _ {rf' : Raft} {reply : AppendEntriesReply} where
    Outcome-success : Outcome rf args a q rf' reply → (reply.success ≡ true) ↔ Agrees rf args q
    Outcome-success (stale first t top e f) = (λ h. cc, λ g. absurd (omega arith))
    Outcome-success (missing first t le top e f) =
        (λ h. cc, λ g. absurd (omega (arith, get_elem?-lt rf.logs q g.1 g.2)))
    Outcome-success (differs mine d cur t lt g ne stop at e f) =
        (λ h. cc, λ g'. absurd (ne (ground arith)))
    Outcome-success (accepts mine d t lt g same top e f) =
        (λ h. (t, mine, g, same), λ g'. ap (λ (p : AppendEntriesReply). p.success) f)

    Outcome-IsLog : Outcome rf args a q rf' reply → IsLog rf'.logs
    unfolding persist
    Outcome-IsLog (stale first t top e f) = rw e w
    Outcome-IsLog (missing first t le top e f) = rw e w
    Outcome-IsLog (differs mine d cur t lt g ne stop at e f) =
        rw e (IsLog-take rf.logs (cur + 1) w (omega arith))
    Outcome-IsLog (accepts mine d t lt g same top e f) =
        rw e (absorbed-IsLog rf.logs args.entries q w lt r.consecutive r.fits)

    Outcome-IsSettled : Outcome rf args a q rf' reply → Advances rf' a
    unfolding persist
    Outcome-IsSettled (stale first t top e f) = (a, rw e (still _ refl refl), omega arith)
    Outcome-IsSettled (missing first t le top e f) = (a, rw e (still _ refl refl), omega arith)
    Outcome-IsSettled (differs mine d cur t lt g ne stop at e f) =
        (a, rw e (still _ refl refl), omega arith)
    Outcome-IsSettled (accepts mine d t lt g same top e f) = (
      advance a (length (absorbed rf.logs (suc q) args.entries) - 1) args.leader_commit_idx,
      rw e (record { applied_to = refl; committed_to = refl }),
      ground arith,
    )

    Outcome-Follows : Outcome rf args a q rf' reply → reply.success ≡ true → Follows rf args q rf'
    unfolding persist
    Outcome-Follows (stale first t top e f) h = cc
    Outcome-Follows (missing first t le top e f) h = cc
    Outcome-Follows (differs mine d cur t lt g ne stop at e f) h = cc
    Outcome-Follows (accepts mine d t lt g same top e f) h = rw e (record {
      keeps =
          take-append (take (suc q) rf.logs) _ (suc q) (omega (arith, length-take (suc q) rf.logs));
      terms =
          rw
            (drop-append (take (suc q) rf.logs) (absorb (drop (suc q) rf.logs) args.entries) (suc q)
              (omega (arith, length-take (suc q) rf.logs)))
            (absorb-SameTerms (drop (suc q) rf.logs) args.entries);
    })

  module _ (rf' : Raft) (reply : AppendEntriesReply)
      (h : heart_beat rf args ≡ some (rf', reply)) where
    pub heart_beat-Outcome : Outcome rf args a q rf' reply
    heart_beat-Outcome =
        let (r1, p1, e1, o) = heart_beat-Returns rf args a q w s r in
        let both : ◌≡◌ {A = Raft × AppendEntriesReply} (r1, p1) (rf', reply) =
          some-injective _ _ (sym e1 ∙ h) in
        subst (λ (p : Raft × AppendEntriesReply). Outcome rf args a q p.0 p.1) both o

    -- On a server whose log is well formed and whose commit index is the index that it has applied, a
    -- call with a leader's request reports success exactly when the server's term is not past the
    -- request's and the server's log has an entry of the term of `PrevLog` at the position of
    -- `PrevLog`.
    pub heart_beat-succeeds : (reply.success ≡ true) ↔ Agrees rf args q
    heart_beat-succeeds = Outcome-success heart_beat-Outcome

    -- On a server whose log is well formed and whose commit index is the index that it has applied, a
    -- call with a leader's request, successful or not, keeps the log well formed, and the commit index is
    -- again the index that is applied, and no lower.
    pub heart_beat-keeps : IsLog rf'.logs × Advances rf' a
    heart_beat-keeps = (Outcome-IsLog heart_beat-Outcome, Outcome-IsSettled heart_beat-Outcome)

    -- Where a call with a leader's request reports success, on a server whose log is well formed and whose
    -- commit index is the index that it has applied, the log up to `PrevLog` is as it was, and the entries behind it
    -- have the terms of the request's.
    pub heart_beat-Follows : reply.success ≡ true → Follows rf args q rf'
    heart_beat-Follows = Outcome-Follows heart_beat-Outcome
