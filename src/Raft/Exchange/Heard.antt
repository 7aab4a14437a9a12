-- ===== src/Raft/Exchange/Heard.antt =====
-- What a heartbeat of the leader of raft/raft.go does to a peer that follows it.
use my_raft.Base.{
  ℕ, suc, ◌+◌, ◌-◌, ◌^◌, ◌≤◌, ◌<◌, pos, ◌≤ℤ◌, ◌≡◌, ◌≢◌, inl, inr, refl, sym, ap, ◌∙◌, true, false,
  some, length, length-take, length-drop, take, drop, get_elem?, get_elem?-lt, take-length, last,
  arith, dec_lt,
}
use mathlib.Core.Option.{some-injective}
use my_raft.Raft.Data.{RaftLog, AppendEntriesReply}
use my_raft.Raft.State.{Raft, persist}
use my_raft.Raft.Log.{IsLog, IsLog-index}
use my_raft.Raft.Append.{heart_beat}
use my_raft.Raft.Append.Conflict.{StopsAt}
use my_raft.Raft.Append.Absorb.{absorbed-le}
use my_raft.Raft.Append.Finish.{IsSettled}
use my_raft.Raft.Append.Outcome.{
  IsRequest, Outcome, stale, missing, differs, accepts, heart_beat-Returns,
}
use my_raft.Raft.Append.Follower.{heart_beat-keeps, heart_beat-Follows}
use my_raft.Raft.Exchange.Linked.{
  IsFollower, Holds, Matching-Holds, Matching-take, Holds-length, Holds-follows,
  get_elem?-take-some,
}
use my_raft.Raft.Exchange.Request.{sent}

-- The reply: the peer has taken over the leader's log, or it lacked something and names an entry
-- before `PrevLog`.
pub data Answer (rf peer peer' : Raft) (q : ℕ) (reply : AppendEntriesReply) : Type 0 where
  took :
      (u : ℕ)
      → reply.success ≡ true
      → Holds rf.logs peer'.logs
      → reply.last_entry.index ≡ pos u
      → length rf.logs ≤ u + 1
      → u + 1 < 2 ^ 31
      → u + 1 ≡ length peer'.logs
      → Answer rf peer peer' q reply
  lacked :
      (c : ℕ)
      → reply.success ≡ false
      → (Holds rf.logs peer.logs → ⊥)
      → reply.last_entry.index ≡ pos c
      → c < q
      → Answer rf peer peer' q reply

-- A log that is no longer than the leader's stays so.
abbrev pub StaysShort : Raft → Raft → Raft → Type 0
StaysShort rf peer peer' = length peer.logs ≤ length rf.logs → length peer'.logs ≤ length rf.logs

module _ (rf peer : Raft) (a q : ℕ) (prev : RaftLog) (f : IsFollower rf peer a)
    (g : get_elem? rf.logs q ≡ some prev) (r : IsRequest (sent rf q prev) q) where
  -- What is left of the follower's log still follows.
  IsFollower-cut :
      (peer' : Raft) (b k : ℕ)
      → IsSettled peer' b
      → IsLog peer'.logs
      → peer'.logs ≡ take k peer.logs
      → peer'.current_term ≤ℤ rf.current_term
      → IsFollower rf peer' b
  IsFollower-cut peer' b k s w e t = record {
    log = w;
    settled = s;
    matching = rw e (Matching-take k rf.logs peer.logs f.matching);
    begins = λ x d h h'.
        f.begins x d h (get_elem?-take-some k 0 peer.logs d (ap (λ l. get_elem? l 0) (sym e) ∙ h'));
    terms = t;
  }

  IsFollower-holds :
      (peer' : Raft) (b : ℕ)
      → IsSettled peer' b
      → IsLog peer'.logs
      → Holds rf.logs peer'.logs
      → peer'.current_term ≤ℤ rf.current_term
      → IsFollower rf peer' b
  IsFollower-holds peer' b s w h t = record {
    log = w;
    settled = s;
    matching = Matching-Holds rf.logs peer'.logs h;
    begins = λ x d at_x at_d.
        let (y, at_y, same) = h 0 x at_x in let both : some d ≡ some y = sym at_d ∙ at_y in cc;
    terms = t;
  }

  -- The call returns, and the peer follows on.
  abbrev pub Hears : Type 0
  Hears =
      (peer' : Raft) × (reply : AppendEntriesReply) × (b : ℕ) × (heart_beat peer (sent rf q prev)
        ≡ some (peer', reply))
      × IsFollower rf peer' b
      × (a ≤ b)
      × (reply.term ≤ℤ rf.current_term)
      × Answer rf peer peer' q reply
      × StaysShort rf peer peer'

  module _ (w : IsLog rf.logs) (peer' : Raft) (reply : AppendEntriesReply)
      (h : heart_beat peer (sent rf q prev) ≡ some (peer', reply)) where
    not_there : length peer.logs ≤ q → Holds rf.logs peer.logs → ⊥
    not_there le all =
        let (d, at_d, _) = all q prev g in omega (arith, get_elem?-lt peer.logs q d at_d)

    -- At position 0 the terms agree, so a conflict lies behind the place where the loop stops.
    stops_before :
        (mine : RaftLog) (cur : ℕ)
        → get_elem? peer.logs q ≡ some mine
        → mine.term ≢ prev.term
        → StopsAt peer.logs mine.term q cur
        → cur < q
    stops_before mine cur at_q ne stop = elim (dec_lt cur q) [
      | yes lt ↦ lt
      | no ge ↦
          let here : cur ≡ q = omega (arith, stop.before) in
          elim stop.at_stop [
            | inl zero_at ↦
                let start : q ≡ 0 = sym here ∙ zero_at in
                absurd (
                  ne (
                    f.begins prev mine (ap (get_elem? rf.logs) (sym start) ∙ g)
                      (ap (get_elem? peer.logs) (sym start) ∙ at_q)))
            | inr (e, at_cur, other) ↦
                let both : some e ≡ some mine = sym at_cur ∙ ap (get_elem? peer.logs) here ∙ at_q in
                absurd (other (ap (λ (x : RaftLog). x.term) (some-injective _ _ both)))
          ]
    ]

    Hears-Outcome : Outcome peer (sent rf q prev) a q peer' reply → Hears
    unfolding persist
    Hears-Outcome (stale first t top e p) = absurd (omega (arith, f.terms))
    Hears-Outcome (missing first t le top e p) =
        let (log', (b, s', le_b)) =
          heart_beat-keeps peer (sent rf q prev) a q f.log f.settled r peer' reply h in
        (
          peer',
          reply,
          b,
          h,
          IsFollower-cut peer' b (length peer.logs) s' log'
              (rw e (sym (take-length peer.logs (length peer.logs) (omega arith))))
              (rw e (omega arith)),
          le_b,
          rw p f.terms,
          Answer.lacked (length peer.logs - 1) (rw p refl) (not_there le)
              (rw p (IsLog-index peer.logs f.log (length peer.logs - 1) first top))
              (omega (arith, f.log.some_entry)),
          (rw e (λ short. short)),
        )
    Hears-Outcome (differs mine d cur t lt at_q ne stop at e p) =
        let (log', (b, s', le_b)) =
          heart_beat-keeps peer (sent rf q prev) a q f.log f.settled r peer' reply h in
        (
          peer',
          reply,
          b,
          h,
          IsFollower-cut peer' b (cur + 1) s' log' (rw e refl) (rw e (omega arith)),
          le_b,
          rw p f.terms,
          Answer.lacked cur (rw p refl)
              (λ all.
                let (x, at_x, same) = all q prev g in
                ne (let both : some x ≡ some mine = sym at_x ∙ at_q in cc))
              (rw p (IsLog-index peer.logs f.log cur d at)) (stops_before mine cur at_q ne stop),
          rw e (λ short. omega (arith, short, length-take (cur + 1) peer.logs)),
        )
    Hears-Outcome (accepts mine d t lt at_q same top e p) =
        let (log', (b, s', le_b)) =
          heart_beat-keeps peer (sent rf q prev) a q f.log f.settled r peer' reply h in
        let ok : reply.success ≡ true = rw p refl in
        let follows =
          heart_beat-Follows peer (sent rf q prev) a q f.log f.settled r peer' reply h ok in
        let all =
          Holds-follows rf.logs peer.logs peer'.logs q prev mine f.matching g at_q same
            follows.keeps follows.terms in
        let top' : last peer'.logs ≡ some d = rw e top in
        (
          peer',
          reply,
          b,
          h,
          IsFollower-holds peer' b s' log' all (rw e (omega arith)),
          le_b,
          rw p f.terms,
          Answer.took (length peer'.logs - 1) ok all
              (rw p (IsLog-index peer'.logs log' (length peer'.logs - 1) d top'))
              (omega (arith, Holds-length rf.logs peer'.logs w.some_entry all))
              (omega (arith, log'.fits, log'.some_entry)) (omega (arith, log'.some_entry)),
          rw e (λ short.
              absorbed-le peer.logs (drop (suc q) rf.logs) q f.log lt r.consecutive r.fits
                (length rf.logs) short
                (omega (arith, length-drop (suc q) rf.logs, get_elem?-lt rf.logs q prev g))),
        )

  pub sent-Hears : IsLog rf.logs → Hears
  sent-Hears w =
      let (peer', reply, h, o) = heart_beat-Returns peer (sent rf q prev) a q f.log f.settled r in
      Hears-Outcome w peer' reply h o
