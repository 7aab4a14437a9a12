-- ===== src/Raft/Exchange/Elected.antt =====
-- A leader of raft/raft.go from its election on: what `Make`'s goroutine sets for the calls to its
-- peers.
use my_raft.Base.{
  ℕ, zero, suc, ◌≤◌, ◌<◌, ℤ, pos, ◌<ℤ◌, int32, int32-small, ◌≡◌, ◌≢◌, inr, refl, ap, ◌∙◌, some,
  List, length, replicate, get_elem?, arith,
}
use my_raft.Raft.Data.{RaftLog}
use my_raft.Raft.State.{Raft}
use my_raft.Raft.Log.{IsLog}
use my_raft.Raft.Election.{Campaign, become_leader}
use my_raft.Raft.Exchange.{Delivery, rounds, all_rounds}
use my_raft.Raft.Exchange.Linked.{IsSender, IsFollower}
use my_raft.Raft.Exchange.Tally.{Tallied}
use my_raft.Raft.Exchange.Reply.{SameLead}
use my_raft.Raft.Exchange.Catches.{answers, HasCaught, Near, rounds-HasCaught}
use my_raft.Raft.Exchange.Everyone.{to, Aimed, AllStand, all_rounds-Run}

get_elem?-replicate : (n i : ℕ) (v : ℤ) → i < n → get_elem? (replicate n v) i ≡ some v
get_elem?-replicate zero i v lt = absurd (omega arith)
get_elem?-replicate (suc n) zero v lt = refl
get_elem?-replicate (suc n) (suc i) v lt = get_elem?-replicate n i v (omega arith)

module _ (capacity server a : ℕ) (rf peer : Raft) (c : Campaign) (w : IsLog rf.logs)
    (first : RaftLog) (at_first : get_elem? rf.logs 0 ≡ some first)
    (old : first.term <ℤ rf.current_term) (lt : server < rf.peers) where
  become_leader-IsSender : IsSender (become_leader rf c) server (length rf.logs)
  unfolding become_leader
  become_leader-IsSender = record {
    leads = refl;
    log = w;
    next =
        get_elem?-replicate rf.peers server (int32 (length rf.logs)) lt
        ∙ ap some (int32-small (length rf.logs) w.fits);
    low = w.some_entry;
    matched = (pos 0, get_elem?-replicate rf.peers server (pos 0) lt);
    old = (first, at_first, old);
  }

  -- When a server with a well-formed log that begins with an entry of an older term becomes leader,
  -- and a peer of it has a well-formed log that matches the server's and begins with an entry of the same
  -- term, a commit index that is the index that it has applied, and no newer term, then after as
  -- many answered heartbeats as the leader's log is long, and any others that are lost or not
  -- answered, nothing has panicked, the leader's log is as it was, the peer's log has at every position
  -- of it an entry of the same term, and the match index is that of the leader's last entry or higher.
  pub become_leader-HasCaught :
      (ds : List Delivery)
      → IsFollower rf peer a
      → length rf.logs ≤ answers ds
      → (rf' peer' : Raft) × (rounds ds capacity (become_leader rf c) server peer
          ≡ some (rf', peer'))
        × (rf'.logs ≡ rf.logs)
        × HasCaught rf' peer' server
  unfolding become_leader
  become_leader-HasCaught ds f enough =
      rounds-HasCaught capacity server (length rf.logs) a (become_leader rf c) peer
        become_leader-IsSender
        (record {
          log = f.log;
          settled = f.settled;
          matching = f.matching;
          begins = f.begins;
          terms = f.terms;
        })
        ds enough

module _ (capacity me : ℕ) (rf : Raft) (peers : List Raft) (c : Campaign) (w : IsLog rf.logs)
    (first : RaftLog) (at_first : get_elem? rf.logs 0 ≡ some first)
    (old : first.term <ℤ rf.current_term) (le : length peers ≤ rf.peers)
    (follow : (j : ℕ)
      → j < length peers
      → j ≢ me
      → (peer : Raft) × (get_elem? peers j ≡ some peer) × (a : ℕ) × IsFollower rf peer a)
    (Brief : Type 0)
    (brief : Brief
      → (j : ℕ) (peer : Raft) → j ≢ me
      → get_elem? peers j ≡ some peer
      → length peer.logs ≤ length rf.logs)
    (ds : List (ℕ × Delivery)) where
  abbrev Enough : ℕ → Type 0
  Enough j = length rf.logs ≤ answers (to j ds)

  pub become_leader-AllStand : AllStand capacity me Brief Enough ds (become_leader rf c) peers
  unfolding become_leader Near
  become_leader-AllStand j lt ne =
      let (peer, at, a, f) = follow j lt ne in
      record {
        n = length rf.logs;
        a = a;
        peer = peer;
        at = at;
        sender = become_leader-IsSender capacity j a rf peer c w first at_first old (omega arith);
        follower = record {
          log = f.log;
          settled = f.settled;
          matching = f.matching;
          begins = f.begins;
          terms = f.terms;
        };
        short = λ b. brief b j peer ne at;
        near = λ enough. inr (inr enough);
      }

  pub elected-Run :
      Aimed me (length peers) ds
      → (rf' : Raft) × (peers' : List Raft) × (all_rounds ds capacity (become_leader rf c) peers
          ≡ some (rf', peers'))
        × SameLead (become_leader rf c) rf'
        × ((j : ℕ)
            → j < length peers
            → j ≢ me
            → (peer : Raft) × (get_elem? peers' j ≡ some peer)
              × (length rf.logs ≤ answers (to j ds) → HasCaught rf' peer j))
        × (Brief → Tallied (become_leader rf c) rf')
  elected-Run aimed =
      all_rounds-Run capacity me Brief Enough ds (become_leader rf c) peers aimed
        become_leader-AllStand

module _ (capacity me : ℕ) (rf : Raft) (peers : List Raft) (c : Campaign) (w : IsLog rf.logs)
    (first : RaftLog) (at_first : get_elem? rf.logs 0 ≡ some first)
    (old : first.term <ℤ rf.current_term) (le : length peers ≤ rf.peers)
    (follow : (j : ℕ)
      → j < length peers
      → j ≢ me
      → (peer : Raft) × (get_elem? peers j ≡ some peer) × (a : ℕ) × IsFollower rf peer a)
    (ds : List (ℕ × Delivery)) where
  -- When a server with a well-formed log that begins with an entry of an older term becomes leader,
  -- and every other server has a well-formed log that matches the leader's and begins with an entry of the
  -- same term, a commit index that is the index that it has applied, and no newer term, then after
  -- heartbeats to these servers in any order, each lost, not answered or answered, nothing has panicked,
  -- the leader's log is as it was, and each server that answered as often as the leader's log is long
  -- has at every position of that log an entry of the same term, and its match index is that of the
  -- leader's last entry or higher.
  pub all_rounds-become_leader :
      Aimed me (length peers) ds
      → (rf' : Raft) × (peers' : List Raft) × (all_rounds ds capacity (become_leader rf c) peers
          ≡ some (rf', peers'))
        × (rf'.logs ≡ rf.logs)
        × ((j : ℕ)
            → j < length peers
            → j ≢ me
            → (peer : Raft) × (get_elem? peers' j ≡ some peer)
              × (length rf.logs ≤ answers (to j ds) → HasCaught rf' peer j))
  unfolding become_leader
  all_rounds-become_leader aimed =
      let (rf', peers', e, same, done, _) =
        elected-Run capacity me rf peers c w first at_first old le follow ⊥
          (λ b j peer ne at. absurd b) ds aimed in
      (rf', peers', e, same.logs, done)
