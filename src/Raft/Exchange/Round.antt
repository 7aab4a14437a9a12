-- ===== src/Raft/Exchange/Round.antt =====
-- One heartbeat from the leader of raft/raft.go to a peer that follows it, whatever becomes of the call.
use my_raft.Base.{
  ℕ, ◌+◌, ◌≤◌, ◌<◌, ◌≡◌, ◌≤ℤ◌, ◌>>=◌, if◌then◌else◌, not, refl, ap, ◌∙◌, some, [], last, length,
  arith,
}
use my_raft.Raft.Data.{RaftLog, AppendEntriesArgs, AppendEntriesReply}
use my_raft.Raft.State.{Raft}
use my_raft.Raft.Log.{IsLog-last}
use my_raft.Raft.Append.{heart_beat}
use my_raft.Raft.Append.Outcome.{IsRequest}
use my_raft.Raft.Leader.{prepare, append_args}
use my_raft.Raft.Exchange.{Delivery, lost, unanswered, answered, deliver, exchange, round}
use my_raft.Raft.Exchange.Linked.{IsSender, IsFollower, Holds, HasMatched}
use my_raft.Raft.Exchange.Request.{prev_at, sent, beat-Sends}
use my_raft.Raft.Exchange.Heard.{Answer, took, lacked, StaysShort, sent-Hears}
use my_raft.Raft.Exchange.Tally.{Tallied}
use my_raft.Raft.Exchange.Reply.{
  SameLead, Others, SameLead-IsFollower, accepted_reply, refused_reply,
}

-- The leader hears nothing.
abbrev pub Silent : Delivery → Type 0
Silent lost = Unit
Silent unanswered = Unit
Silent answered = ⊥

-- How far a heartbeat gets.
pub data Progress (d : Delivery) (rf peer : Raft) (server n : ℕ) (rf' peer' : Raft) (n' : ℕ)
    : Type 0 where
  caught :
      Holds rf.logs peer'.logs → HasMatched rf' server → Progress d rf peer server n rf' peer' n'
  nearer : (Holds rf.logs peer.logs → ⊥) → n' < n → Progress d rf peer server n rf' peer' n'
  waits :
      Silent d
      → n' ≡ n
      → (Holds rf.logs peer.logs → Holds rf.logs peer'.logs)
      → (HasMatched rf server → HasMatched rf' server)
      → Progress d rf peer server n rf' peer' n'

-- The heartbeat returns, the two are still leader and follower, and they get further.
pub record Turns (d : Delivery) (rf peer : Raft) (server n a : ℕ) (rf' peer' : Raft) : Type 0 where
  pub b : ℕ
  pub n' : ℕ
  pub same : SameLead rf rf'
  pub others : Others rf rf' server
  pub sender : IsSender rf' server n'
  pub follower : IsFollower rf' peer' b
  pub no_less : a ≤ b
  pub progress : Progress d rf peer server n rf' peer' n'
  pub short : StaysShort rf peer peer'
  pub tallied : length peer'.logs ≤ length rf.logs → Tallied rf rf'

pub SameLead-refl : (rf : Raft) → SameLead rf rf
SameLead-refl rf = record {
  logs = refl;
  term = refl;
  leads = refl;
  commit = refl;
  applied = refl;
  peers = refl;
  hands = refl;
}

module _ (capacity server n a : ℕ) (rf peer : Raft) (s : IsSender rf server n)
    (f : IsFollower rf peer a) where
  abbrev q : ℕ
  q = prev_at n rf.logs

  abbrev Turned : Delivery → Type 0
  Turned d =
      (rf' peer' : Raft) × (round capacity d rf server peer ≡ some (rf', peer'))
      × Turns d rf peer server n a rf' peer'

  round-deliver :
      (d : Delivery) (top prev : RaftLog)
      → last rf.logs ≡ some top
      → prepare capacity rf server (append_args rf top []) ≡ some (rf, sent rf q prev)
      → round capacity d rf server peer ≡ deliver d rf server (sent rf q prev) peer
  unfolding round exchange
  round-deliver d top prev at_top made = rw at_top (
      ap
        (λ l.
          if not l
          then some (rf, peer)
          else prepare capacity rf server (append_args rf top [])
            >>= λ (p : Raft × AppendEntriesArgs). deliver d p.0 server p.1 peer)
        s.leads
      ∙ ap (λ o. o >>= λ (p : Raft × AppendEntriesArgs). deliver d p.0 server p.1 peer) made)

  module _ (peer' : Raft) (reply : AppendEntriesReply) (b : ℕ) (prev : RaftLog)
      (h : heart_beat peer (sent rf q prev) ≡ some (peer', reply)) (f' : IsFollower rf peer' b)
      (le : a ≤ b) (answer : Answer rf peer peer' q reply) (stays : StaysShort rf peer peer') where
    -- What the peer has done without the leader's hearing of it.
    Turns-unanswered : Turns unanswered rf peer server n a rf peer'
    Turns-unanswered = record {
      b = b;
      n' = n;
      same = SameLead-refl rf;
      others = λ j ne. (refl, refl);
      sender = s;
      follower = f';
      no_less = le;
      progress =
          Progress.waits tt refl
            (λ all. elim answer [
              | took u ok all' at_u long fits top ↦ all'
              | lacked c refused other at_c lt ↦ absurd (other all)
            ])
            (λ m. m);
      short = stays;
      tallied = λ brief. refl;
    }

    -- What both have done.
    deliver-answered :
        IsRequest (sent rf q prev) q
        → reply.term ≤ℤ rf.current_term
        → (rf' : Raft) × (deliver answered rf server (sent rf q prev) peer ≡ some (rf', peer'))
          × Turns answered rf peer server n a rf' peer'
    unfolding deliver
    deliver-answered r newer = elim answer [
      | took u ok all at_u long fits top ↦
          let (rf', e, k, o, s', m, tally) =
            accepted_reply rf server n s (sent rf q prev) reply u ok at_u long fits in
          (
            rf',
            rw (h, e) refl,
            record {
              b = b;
              n' = u + 1;
              same = k;
              others = o;
              sender = s';
              follower = SameLead-IsFollower rf rf' peer' b k f';
              no_less = le;
              progress = Progress.caught all m;
              short = stays;
              tallied = λ brief. tally (omega (arith, top, long, brief));
            },
          )
      | lacked c refused other at_c lt ↦
          let (rf', n', e, k, o, s', le_q, tally) =
            refused_reply rf server n s (sent rf q prev) reply c q refused newer refl at_c r.at_prev
              lt (omega (arith, s.log.some_entry)) in
          (
            rf',
            rw (h, e) refl,
            record {
              b = b;
              n' = n';
              same = k;
              others = o;
              sender = s';
              follower = SameLead-IsFollower rf rf' peer' b k f';
              no_less = le;
              progress = Progress.nearer other (omega (arith, s.low));
              short = stays;
              tallied = λ brief. tally;
            },
          )
    ]

  Turns-lost : Turns lost rf peer server n a rf peer
  Turns-lost = record {
    b = a;
    n' = n;
    same = SameLead-refl rf;
    others = λ j ne. (refl, refl);
    sender = s;
    follower = f;
    no_less = omega arith;
    progress = Progress.waits tt refl (λ h. h) (λ m. m);
    short = λ brief. brief;
    tallied = λ brief. refl;
  }

  pub round-Turns : (d : Delivery) → Turned d
  unfolding deliver
  round-Turns d =
      let (top, at_top, _) = IsLog-last rf.logs s.log in
      let (prev, g, made, r) = beat-Sends capacity rf server n s top at_top in
      let (peer', reply, b, h, f', le, newer, answer, stays) =
        sent-Hears rf peer a q prev f g r s.log in
      elim d as (λ k. Turned k) [
        | lost ↦ (rf, peer, round-deliver lost top prev at_top made, Turns-lost)
        | unanswered ↦ (
          rf,
          peer',
          round-deliver unanswered top prev at_top made ∙ rw h refl,
          Turns-unanswered peer' reply b prev h f' le answer stays,
        )
        | answered ↦
            let (rf', e, t) = deliver-answered peer' reply b prev h f' le answer stays r newer in
            (rf', peer', round-deliver answered top prev at_top made ∙ e, t)
      ]
