-- ===== src/Raft/Server/Voting.antt =====
-- One vote in a term: what the ballots that a server has cast say of its state.
use my_raft.Base.{
  ℕ, ℤ, pos, negsuc, ◌^◌, ◌-◌, ◌≤ℤ◌, ◌<ℤ◌, eqb_ℤ_iff, max_int32, add32-one_lt, ◌≡◌, ◌≢◌, refl, true,
  false, Bool, eq_of_parts, some, [], ◌∷◌, arith,
}
use my_raft.Raft.Data.{RequestVoteArgs, RequestVoteReply}
use my_raft.Raft.State.{Raft, persist}
use my_raft.Raft.Vote.{request_vote}
use my_raft.Raft.Vote.Grants.{IsFree}
use my_raft.Raft.Election.{Campaign, begin_election}
use my_raft.Raft.Server.{
  Ballots, has_ballot, cast_if, ServerStep, votes, follows, campaigns, hears_vote, wins, starts,
  ticks, polls, sends, hears_append, commits,
}
use my_raft.Raft.Server.Terms.{
  KeepsVote, heart_beat-KeepsVote, receive_vote-KeepsVote, become_leader-KeepsVote, start-KeepsVote,
  heart_beat_tick-KeepsVote, poll_jobs-KeepsVote, prepare-KeepsVote, receive_append-KeepsVote,
  update_commit-KeepsVote,
}

-- Ballots are of terms up to the server's own; one of its own term is for `VotedFor`, a server.
pub record VotesOnce (rf : Raft) (bs : Ballots) : Type 0 where
  pub past : (t c : ℤ) → has_ballot bs t c ≡ true → t ≤ℤ rf.current_term
  pub own :
      (t c : ℤ)
      → has_ballot bs t c ≡ true
      → t ≡ rf.current_term
      → (rf.voted_for ≡ c) × (c ≢ negsuc 0)
  pub once : (t c d : ℤ) → has_ballot bs t c ≡ true → has_ballot bs t d ≡ true → c ≡ d

pub VotesOnce-empty : (rf : Raft) → VotesOnce rf []
unfolding has_ballot
VotesOnce-empty rf = record {
  past = λ t c h. ground arith;
  own = λ t c h e. ground arith;
  once = λ t c d h k. ground arith;
}

KeepsVote-VotesOnce :
    {rf rf' : Raft} {bs : Ballots} → KeepsVote rf rf' → VotesOnce rf bs → VotesOnce rf' bs
KeepsVote-VotesOnce {rf} {rf'} k v = record {
  past = λ t c h. ground (arith, v.past t c);
  own = λ t c h e. ground (arith, v.past t c, v.own t c);
  once = v.once;
}

-- A ballot of a term that the server has not voted in.
VotesOnce-cast :
    {rf rf' : Raft} {bs : Ballots} (t c : ℤ)
    → ((u d : ℤ) → has_ballot bs u d ≡ true → u <ℤ t)
    → c ≢ negsuc 0
    → rf'.current_term ≡ t
    → rf'.voted_for ≡ c
    → VotesOnce rf bs
    → VotesOnce rf' ((t, c) ∷ bs)
unfolding has_ballot
VotesOnce-cast {rf} {rf'} t c new server e f v = record {
  past = λ u d h. ground (arith, new u d, eqb_ℤ_iff t u, eqb_ℤ_iff c d);
  own = λ u d h g. ground (arith, new u d, eqb_ℤ_iff t u, eqb_ℤ_iff c d);
  once = λ u d d' h k.
      ground
        (arith, new u d, new u d', v.once u d d', eqb_ℤ_iff t u, eqb_ℤ_iff c d, eqb_ℤ_iff c d');
}

module _ (rf rf' : Raft) (args : RequestVoteArgs) (reply : RequestVoteReply)
    (r : request_vote rf args ≡ some (rf', reply)) where
  request_vote-granted :
      reply.voted ≡ true
      → (rf'.current_term ≡ args.term)
        × (rf'.voted_for ≡ args.id)
        × (rf'.me ≡ rf.me)
        × IsFree rf args.term
  unfolding request_vote persist
  request_vote-granted g =
      ground (arith, eqb_ℤ_iff rf.current_term args.term, eqb_ℤ_iff rf.voted_for (negsuc 0))

  request_vote-refused : reply.voted ≡ false → KeepsVote rf rf'
  unfolding request_vote persist
  request_vote-refused g = ground arith

-- No ballot yet is of a term that is free.
IsFree-new :
    {rf : Raft} {bs : Ballots} (t : ℤ)
    → IsFree rf t
    → VotesOnce rf bs
    → (u d : ℤ) → has_ballot bs u d ≡ true
    → u <ℤ t
IsFree-new {rf} t f v u d h =
    ground
      (arith, v.past u d, v.own u d, eqb_ℤ_iff u rf.current_term, eq_of_parts u rf.current_term)

votes-VotesOnce :
    {rf rf' : Raft} {bs : Ballots} (args : RequestVoteArgs) (voted : Bool) (c : ℕ)
    → args.id ≡ pos c
    → (voted ≡ true
        → (rf'.current_term ≡ args.term)
          × (rf'.voted_for ≡ args.id)
          × (rf'.me ≡ rf.me)
          × IsFree rf args.term)
    → (voted ≡ false → KeepsVote rf rf')
    → VotesOnce rf bs
    → VotesOnce rf' (cast_if voted args.term args.id bs)
votes-VotesOnce args true c e granted refused v =
    let (t, f, m, free) = granted refl in
    VotesOnce-cast args.term args.id (IsFree-new args.term free v) (ground (arith, e)) t f v
votes-VotesOnce args false c e granted refused v = KeepsVote-VotesOnce (refused refl) v

campaigns-VotesOnce :
    {rf rf' : Raft} {bs : Ballots} {c : Campaign}
    → negsuc (2 ^ 31 - 1) ≤ℤ rf.current_term
    → rf.current_term <ℤ max_int32
    → begin_election rf ≡ some (rf', c)
    → VotesOnce rf bs
    → VotesOnce rf' ((c.term, pos rf.me) ∷ bs)
unfolding begin_election
campaigns-VotesOnce {rf} {rf'} {bs} {c} lo hi h v =
    VotesOnce-cast c.term (pos rf.me)
      (λ u d b. ground (arith, v.past u d b, add32-one_lt rf.current_term lo hi)) (λ e. cc)
      (ground arith) (ground arith) v

-- Every step of a server keeps what ties its ballots to its state: they are of terms up to its own, those
-- of its own term are for `VotedFor`, and there is one for a term at most.
pub ServerStep-VotesOnce :
    {rf rf' : Raft} {bs bs' : Ballots}
    → ServerStep rf bs rf' bs'
    → VotesOnce rf bs
    → VotesOnce rf' bs'
ServerStep-VotesOnce {rf} {rf'} (votes {reply} args c e r) v =
    votes-VotesOnce args reply.voted c e (request_vote-granted rf rf' args reply r)
      (request_vote-refused rf rf' args reply r) v
ServerStep-VotesOnce {rf} {rf'} (follows {reply} args h) v =
    KeepsVote-VotesOnce (heart_beat-KeepsVote rf rf' args reply h) v
ServerStep-VotesOnce (campaigns idle lo hi h) v = campaigns-VotesOnce lo hi h v
ServerStep-VotesOnce {rf} (hears_vote reply) v =
    KeepsVote-VotesOnce (receive_vote-KeepsVote rf reply) v
ServerStep-VotesOnce {rf} (wins c) v = KeepsVote-VotesOnce (become_leader-KeepsVote rf c) v
ServerStep-VotesOnce {rf} (starts command) v = KeepsVote-VotesOnce (start-KeepsVote rf command) v
ServerStep-VotesOnce {rf} {rf'} (ticks h) v =
    KeepsVote-VotesOnce (heart_beat_tick-KeepsVote rf rf' h) v
ServerStep-VotesOnce {rf} {rf'} (polls h) v = KeepsVote-VotesOnce (poll_jobs-KeepsVote rf rf' h) v
ServerStep-VotesOnce {rf} {rf'} (sends {out} capacity server args h) v =
    KeepsVote-VotesOnce (prepare-KeepsVote capacity rf rf' server args out h) v
ServerStep-VotesOnce {rf} {rf'} (hears_append server args reply h) v =
    KeepsVote-VotesOnce (receive_append-KeepsVote rf rf' server args reply h) v
ServerStep-VotesOnce {rf} {rf'} (commits {tracker'} tracker i h) v =
    KeepsVote-VotesOnce (update_commit-KeepsVote rf rf' tracker tracker' i h) v
