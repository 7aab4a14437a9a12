-- ===== src/Raft/Exchange/Linked.antt =====
-- What holds between a leader and one of its peers, from the election of the leader on
-- (raft/raft.go).
use my_raft.Base.{
  ℕ, zero, suc, ◌+◌, ◌-◌, ◌≤◌, ◌<◌, ℤ, pos, ◌<ℤ◌, ◌≤ℤ◌, ◌≡◌, refl, sym, ap, ◌∙◌, true, some, List,
  [], ◌∷◌, length, take, drop, get_elem?, get_elem?-some, get_elem?-take, get_elem?-lt, length-take,
  dec_lt, arith,
}
use my_raft.Raft.Data.{RaftLog}
use my_raft.Raft.State.{Raft}
use my_raft.Raft.Log.{IsLog}
use my_raft.Raft.Append.Absorb.{SameTerms}
use my_raft.Raft.Append.Finish.{IsSettled}

-- Log matching: logs whose entries at a position have one term agree in all terms before it.
abbrev pub Matching : List RaftLog → List RaftLog → Type 0
Matching logs theirs =
    (i j : ℕ) (e d e' d' : RaftLog)
    → j ≤ i
    → get_elem? logs i ≡ some e
    → get_elem? theirs i ≡ some d
    → d.term ≡ e.term
    → get_elem? logs j ≡ some e'
    → get_elem? theirs j ≡ some d'
    → d'.term ≡ e'.term

-- The second log has, at every position of the first, an entry of the same term.
abbrev pub Holds : List RaftLog → List RaftLog → Type 0
Holds logs theirs =
    (i : ℕ) (e : RaftLog)
    → get_elem? logs i ≡ some e
    → (d : RaftLog) × (get_elem? theirs i ≡ some d) × (d.term ≡ e.term)

-- The part of a leader that sends to the peer `server`, whose next index is n.
pub record IsSender (rf : Raft) (server n : ℕ) : Type 0 where
  pub leads : rf.is_leader ≡ true
  pub log : IsLog rf.logs
  pub next : get_elem? rf.next_index server ≡ some (pos n)
  pub low : 0 < n
  pub matched : (m : ℤ) × (get_elem? rf.match_index server ≡ some m)
  pub old : (first : RaftLog) × (get_elem? rf.logs 0 ≡ some first) × (first.term <ℤ rf.current_term)

-- A server that follows the leader `rf`, settled at a.
pub record IsFollower (rf peer : Raft) (a : ℕ) : Type 0 where
  pub log : IsLog peer.logs
  pub settled : IsSettled peer a
  pub matching : Matching rf.logs peer.logs
  pub begins :
      (e d : RaftLog)
      → get_elem? rf.logs 0 ≡ some e
      → get_elem? peer.logs 0 ≡ some d
      → d.term ≡ e.term
  pub terms : peer.current_term ≤ℤ rf.current_term

-- The leader knows that the peer has all its log.
abbrev pub HasMatched : Raft → ℕ → Type 0
HasMatched rf server =
    (m : ℤ) × (get_elem? rf.match_index server ≡ some m) × (pos (length rf.logs - 1) ≤ℤ m)

pub Matching-Holds : (logs theirs : List RaftLog) → Holds logs theirs → Matching logs theirs
Matching-Holds logs theirs h i j e d e' d' le at_e at_d same at_e' at_d' =
    let (x, at_x, s) = h j e' at_e' in let both : some d' ≡ some x = sym at_d' ∙ at_x in cc

pub Holds-length :
    (logs theirs : List RaftLog) → 0 < length logs → Holds logs theirs → length logs ≤ length theirs
Holds-length logs theirs some_entry h =
    let (e, at_e) = get_elem?-some logs (length logs - 1) (omega arith) in
    let (d, at_d, _) = h (length logs - 1) e at_e in
    omega (arith, get_elem?-lt theirs (length logs - 1) d at_d)

pub get_elem?-take-some :
    (n i : ℕ) (l : List RaftLog) (d : RaftLog)
    → get_elem? (take n l) i ≡ some d
    → get_elem? l i ≡ some d
get_elem?-take-some n i l d g =
    let lt : i < n = omega (arith, get_elem?-lt (take n l) i d g, length-take n l) in
    sym (get_elem?-take n i l lt) ∙ g

pub Matching-take :
    (n : ℕ) (logs theirs : List RaftLog) → Matching logs theirs → Matching logs (take n theirs)
Matching-take n logs theirs m i j e d e' d' le at_e at_d same at_e' at_d' =
    m i j e d e' d' le at_e (get_elem?-take-some n i theirs d at_d) same at_e'
      (get_elem?-take-some n j theirs d' at_d')

pub get_elem?-drop : (k i : ℕ) (l : List RaftLog) → get_elem? (drop k l) i ≡ get_elem? l (k + i)
get_elem?-drop zero i l = let e : 0 + i ≡ i = omega arith in rw e refl
get_elem?-drop (suc k) i [] = refl
get_elem?-drop (suc k) i (x ∷ xs) =
    let e : suc k + i ≡ suc (k + i) = omega arith in rw e (get_elem?-drop k i xs)

SameTerms-get_elem? :
    (xs vs : List RaftLog) (i : ℕ) (v : RaftLog)
    → SameTerms xs vs
    → get_elem? vs i ≡ some v
    → (x : RaftLog) × (get_elem? xs i ≡ some x) × (x.term ≡ v.term)
SameTerms-get_elem? xs [] i v s g = cc
SameTerms-get_elem? [] (w ∷ vs) i v s g = absurd s
SameTerms-get_elem? (x ∷ xs) (w ∷ vs) zero v s g = (x, refl, ground (arith, s.0))
SameTerms-get_elem? (x ∷ xs) (w ∷ vs) (suc i) v s g = SameTerms-get_elem? xs vs i v s.1 g

-- A log that agrees at a position, is kept up to it and takes over the terms behind it.
pub Holds-follows :
    (logs theirs theirs' : List RaftLog) (q : ℕ) (e d : RaftLog)
    → Matching logs theirs
    → get_elem? logs q ≡ some e
    → get_elem? theirs q ≡ some d
    → d.term ≡ e.term
    → take (suc q) theirs' ≡ take (suc q) theirs
    → SameTerms (drop (suc q) theirs') (drop (suc q) logs)
    → Holds logs theirs'
Holds-follows logs theirs theirs' q e d m at_e at_d same keeps terms i v at_v = elim (dec_lt q i) [
  | yes behind ↦
      let n : suc q + (i - suc q) ≡ i = omega arith in
      let there : get_elem? (drop (suc q) logs) (i - suc q) ≡ some v =
        get_elem?-drop (suc q) (i - suc q) logs ∙ ap (get_elem? logs) n ∙ at_v in
      let (x, at_x, s) =
        SameTerms-get_elem? (drop (suc q) theirs') (drop (suc q) logs) (i - suc q) v terms there in
      (
        x,
        ap (get_elem? theirs') (sym n) ∙ sym (get_elem?-drop (suc q) (i - suc q) theirs') ∙ at_x,
        s,
      )
  | no before ↦
      let le : i < suc q = omega arith in
      let (x, at_x) = get_elem?-some theirs i (omega (arith, get_elem?-lt theirs q d at_d)) in
      (
        x,
        sym (get_elem?-take (suc q) i theirs' le)
            ∙ ap (λ l. get_elem? l i) keeps
            ∙ get_elem?-take (suc q) i theirs le
            ∙ at_x,
        m q i e d v x (omega arith) at_e at_d same at_v at_x,
      )
]
