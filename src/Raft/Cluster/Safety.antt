-- ===== src/Raft/Cluster/Safety.antt =====
-- Election safety of raft/raft.go.
use my_raft.Base.{
  ℕ, ◌+◌, ◌/◌, ◌≤◌, ◌<◌, ◌==◌, ==_iff, ℤ, pos, eqb_ℤ, eqb_ℤ_iff, if◌then◌else◌, ◌≡◌, ◌≢◌, refl,
  Bool, true, false, ◌&&◌, List, [], ◌∷◌, length, mem, count, Distinct, AllPass, length-le-count,
  count_overlap, arith, inl, inr, subst, Bool-cases,
}
use my_raft.Raft.State.{Raft}
use my_raft.Raft.Election.{Session, counting, won, quit, count_vote}
use my_raft.Raft.Server.{Ballots, has_ballot, ServerStep}
use my_raft.Raft.Server.Voting.{VotesOnce, VotesOnce-empty, ServerStep-VotesOnce}
use my_raft.Raft.Cluster.{
  Tally, Cluster, ClusterStep, serves, counts, ClusterReach, begins, steps, HasWon, update,
  update_tally, tally_vote, begin,
}

abbrev Enough : ℕ → Session → List ℕ → Type 0
Enough n (counting k) xs = k ≤ length xs
Enough n won xs = n / 2 ≤ length xs
Enough n quit xs = Unit

-- The peers counted are others, differ, and have cast the ballot, as has the candidate.
record Counted (n : ℕ) (ballots : ℕ → Ballots) (c : ℕ) (t : ℤ) (y : Tally) : Type 0 where
  distinct : Distinct y.counted
  others : mem c y.counted ≡ false
  cast : AllPass n (λ p. has_ballot (ballots p) t (pos c)) y.counted
  enough : Enough n y.session y.counted
  self : y.session ≡ won → (c < n) × (has_ballot (ballots c) t (pos c) ≡ true)

record Inv (n : ℕ) (s : Cluster) : Type 0 where
  voting : (i : ℕ) → VotesOnce (s.server i) (s.ballots i)
  counted : (c : ℕ) (t : ℤ) → Counted n s.ballots c t (s.tally c t)

Inv-begin : (n : ℕ) (server : ℕ → Raft) → Inv n (begin server)
unfolding mem
Inv-begin n server = record {
  voting = λ i. VotesOnce-empty (server i);
  counted = λ c t. record {
    distinct = tt;
    others = refl;
    cast = tt;
    enough = omega arith;
    self = λ h. cc;
  };
}

-- A step of a server takes no ballot back.
ServerStep-ballots :
    {rf rf' : Raft} {bs bs' : Ballots} (t c : ℤ)
    → ServerStep rf bs rf' bs'
    → has_ballot bs t c ≡ true
    → has_ballot bs' t c ≡ true
unfolding has_ballot
ServerStep-ballots t c (ServerStep.votes {reply} args d e r) h = ground arith
ServerStep-ballots t c (ServerStep.campaigns idle lo hi r) h = ground arith
ServerStep-ballots t c _ h = h

AllPass-mono :
    (n : ℕ) (f g : ℕ → Bool) (xs : List ℕ)
    → ((p : ℕ) → f p ≡ true → g p ≡ true)
    → AllPass n f xs
    → AllPass n g xs
AllPass-mono n f g [] m a = tt
AllPass-mono n f g (x ∷ xs) m a = (a.0, m x a.1, AllPass-mono n f g xs m a.2)

Counted-mono :
    {n : ℕ} {b b' : ℕ → Ballots} {c : ℕ} {t : ℤ} {y : Tally}
    → ((p : ℕ) → has_ballot (b p) t (pos c) ≡ true → has_ballot (b' p) t (pos c) ≡ true)
    → Counted n b c t y
    → Counted n b' c t y
Counted-mono {n} {b} {b'} {c} {t} {y} m h = record {
  distinct = h.distinct;
  others = h.others;
  cast = AllPass-mono n _ _ y.counted m h.cast;
  enough = h.enough;
  self = λ w. let (lt, own) = h.self w in (lt, m c own);
}

Enough-count_vote :
    (n : ℕ) (s : Session) (p : ℕ) (xs : List ℕ) (vote : Bool)
    → Enough n s xs
    → Enough n (count_vote n s vote) (if vote then p ∷ xs else xs)
unfolding count_vote
Enough-count_vote n (counting k) p xs true h = ground arith
Enough-count_vote n (counting k) p xs false h = tt
Enough-count_vote n won p xs true h = omega arith
Enough-count_vote n won p xs false h = h
Enough-count_vote n quit p xs vote h = tt

Counted-tally_vote :
    {n : ℕ} {b : ℕ → Ballots} {c : ℕ} {t : ℤ} {y : Tally} (p : ℕ) (vote : Bool)
    → c < n
    → p < n
    → p ≢ c
    → mem p y.counted ≡ false
    → has_ballot (b c) t (pos c) ≡ true
    → (vote ≡ true → has_ballot (b p) t (pos c) ≡ true)
    → Counted n b c t y
    → Counted n b c t (tally_vote n y p vote)
unfolding mem
Counted-tally_vote {n} {b} {c} {t} {y} p true lt pn ne new own cast h = record {
  distinct = (new, h.distinct);
  others = ground (arith, h.others, ==_iff p c);
  cast = (pn, cast refl, h.cast);
  enough = Enough-count_vote n y.session p y.counted true h.enough;
  self = λ w. (lt, own);
}
Counted-tally_vote {n} {b} {c} {t} {y} p false lt pn ne new own cast h = record {
  distinct = h.distinct;
  others = h.others;
  cast = h.cast;
  enough = Enough-count_vote n y.session p y.counted false h.enough;
  self = λ w. (lt, own);
}

-- The tally of (d, u) after that of (c, t) was replaced.
Counted-update :
    {n : ℕ} {b : ℕ → Ballots} {f : ℕ → ℤ → Tally} (c : ℕ) (t : ℤ) (y : Tally)
    → ((d : ℕ) (u : ℤ) → Counted n b d u (f d u))
    → Counted n b c t y
    → (d : ℕ) (u : ℤ) → Counted n b d u (update_tally f c t y d u)
Counted-update {n} {b} {f} c t y all new d u = elim (Bool-cases (d == c && eqb_ℤ u t)) [
  | inl hit ↦
      let e : d ≡ c = ground (arith, ==_iff d c) in
      let e' : u ≡ t = ground (arith, eqb_ℤ_iff u t) in rw hit (rw (e, e') new)
  | inr miss ↦ rw miss (all d u)
]

update-ballots :
    (f : ℕ → Ballots) (bs' : Ballots) (i p : ℕ) (t c : ℤ)
    → (has_ballot (f i) t c ≡ true → has_ballot bs' t c ≡ true)
    → has_ballot (f p) t c ≡ true
    → has_ballot (update f i bs' p) t c ≡ true
update-ballots f bs' i p t c grow h = elim (Bool-cases (p == i)) [
  | inl hit ↦
      let e : p ≡ i = ground (arith, ==_iff p i) in
      rw hit (grow (subst (λ j. has_ballot (f j) t c ≡ true) e h))
  | inr miss ↦ rw miss h
]

ClusterStep-Inv : {n : ℕ} {s s' : Cluster} → ClusterStep n s s' → Inv n s → Inv n s'
ClusterStep-Inv {n} {s} (serves i {rf'} {bs'} lt st) v = record {
  voting = λ j. elim (Bool-cases (j == i)) [
    | inl hit ↦
        let e : j ≡ i = ground (arith, ==_iff j i) in rw hit (ServerStep-VotesOnce st (v.voting i))
    | inr miss ↦ rw miss (v.voting j)
  ];
  counted = λ c t.
      Counted-mono
        (λ p h. update-ballots s.ballots bs' i p t (pos c) (ServerStep-ballots t (pos c) st) h)
        (v.counted c t);
}
ClusterStep-Inv {n} {s} (counts c p t vote lt pn ne new own cast) v = record {
  voting = v.voting;
  counted =
      Counted-update c t (tally_vote n (s.tally c t) p vote) v.counted
        (Counted-tally_vote p vote lt pn ne new own cast (v.counted c t));
}

ClusterReach-Inv : {n : ℕ} {f : ℕ → Raft} {s : Cluster} → ClusterReach n f s → Inv n s
ClusterReach-Inv {n} {f} begins = Inv-begin n f
ClusterReach-Inv (steps r st) = ClusterStep-Inv st (ClusterReach-Inv r)

-- The winner and the peers that it counted are more than half of the servers.
quorum :
    {n : ℕ} {b : ℕ → Ballots} {c : ℕ} {t : ℤ} {y : Tally}
    → Counted n b c t y
    → y.session ≡ won
    → n / 2 + 1 ≤ count (λ p. has_ballot (b p) t (pos c)) n
quorum {n} {b} {c} {t} {y} h w =
    let (lt, own) = h.self w in
    let enough = subst (λ s. Enough n s y.counted) w h.enough in
    omega (
      arith,
      enough,
      length-le-count n (λ p. has_ballot (b p) t (pos c)) (c ∷ y.counted) (h.others, h.distinct)
          (lt, own, h.cast),
    )

-- In every run of the cluster, from whatever states of the servers before any ballot is cast,
-- without restarts and without an election that starts at the last term of an `int32`, at most one
-- server wins the election of a term.
pub election_safety :
    (n : ℕ) (server : ℕ → Raft) (s : Cluster) (c d : ℕ) (t : ℤ)
    → ClusterReach n server s
    → HasWon s c t
    → HasWon s d t
    → c ≡ d
election_safety n server s c d t r wc wd =
    let v = ClusterReach-Inv r in
    let qc = quorum (v.counted c t) wc in
    let qd = quorum (v.counted d t) wd in
    let (i, lt, bc, bd) =
      count_overlap (λ p. has_ballot (s.ballots p) t (pos c))
        (λ p. has_ballot (s.ballots p) t (pos d)) n (omega arith) in
    ground (arith, (v.voting i).once t (pos c) (pos d) bc bd)
