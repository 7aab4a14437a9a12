-- ===== src/Raft/Cluster.antt =====
-- The servers of raft/raft.go together: each takes its own steps, in any order, and each campaign
-- counts the replies that come back. Requests and replies may be lost, late or out of order.
pub mod Safety
use my_raft.Base.{
  ℕ, ◌<◌, ◌==◌, ℤ, pos, eqb_ℤ, if◌then◌else◌, ◌≡◌, ◌≢◌, Bool, true, false, ◌&&◌, List, [], ◌∷◌, mem,
}
use my_raft.Raft.State.{Raft}
use my_raft.Raft.Election.{Session, counting, count_vote}
use my_raft.Raft.Server.{Ballots, has_ballot, ServerStep}

-- The count of one campaign, and the peers whose votes it has counted.
pub record Tally : Type 0 where
  pub session : Session
  pub counted : List ℕ

pub record Cluster : Type 0 where
  pub server : ℕ → Raft
  pub ballots : ℕ → Ballots
  pub tally : ℕ → ℤ → Tally

abbrev pub update {ℓ} : {A : Type ℓ} → (ℕ → A) → ℕ → A → ℕ → A
update f i a j = if j == i then a else f j

abbrev pub update_tally : (ℕ → ℤ → Tally) → ℕ → ℤ → Tally → ℕ → ℤ → Tally
update_tally f c t a d u = if d == c && eqb_ℤ u t then a else f d u

abbrev pub tally_vote : ℕ → Tally → ℕ → Bool → Tally
tally_vote n y p vote = record {
  session = count_vote n y.session vote;
  counted = if vote then p ∷ y.counted else y.counted;
}

-- A campaign of server `c` in term `t` asks each other peer once; a true reply of `p` comes after
-- `p` has cast that ballot.
pub data ClusterStep (n : ℕ) (s : Cluster) : Cluster → Type 0 where
  serves :
      (i : ℕ) {rf' : Raft} {bs' : Ballots}
      → i < n
      → ServerStep (s.server i) (s.ballots i) rf' bs'
      → ClusterStep n s
          (record s { server = update s.server i rf'; ballots = update s.ballots i bs' })
  counts :
      (c p : ℕ) (t : ℤ) (vote : Bool)
      → c < n
      → p < n
      → p ≢ c
      → mem p (s.tally c t).counted ≡ false
      → has_ballot (s.ballots c) t (pos c) ≡ true
      → (vote ≡ true → has_ballot (s.ballots p) t (pos c) ≡ true)
      → ClusterStep n s
          (record s { tally = update_tally s.tally c t (tally_vote n (s.tally c t) p vote) })

-- No ballot is cast and no vote counted.
abbrev pub begin : (ℕ → Raft) → Cluster
begin server = record {
  server = server;
  ballots = λ _. [];
  tally = λ _ _. record { session = counting 0; counted = [] };
}

pub data ClusterReach (n : ℕ) (server : ℕ → Raft) : Cluster → Type 0 where
  begins : ClusterReach n server (begin server)
  steps : {s t : Cluster} → ClusterReach n server s → ClusterStep n s t → ClusterReach n server t

-- Server `c` has been told that it won term `t`.
abbrev pub HasWon : Cluster → ℕ → ℤ → Type 0
HasWon s c t = (s.tally c t).session ≡ Session.won
