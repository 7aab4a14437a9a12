-- ===== src/Raft/Commit/Settles.antt =====
-- The goroutine "Commit index updater" of raft/raft.go over all indices that are reported to it.
use my_raft.Base.{
  ℕ, suc, ◌+◌, ◌/◌, ◌==◌, ◌≤◌, ◌<◌, ℤ, pos, negsuc, eqb_ℤ, ◌≡◌, ◌⊎◌, inl, inr, refl, ap, sym, ◌∙◌,
  some, List, [], ◌∷◌, ◌++◌, append_assoc, append-nil, map, length, length-take, drop-length, zero,
  take, drop, Bool-cases, if◌then◌else◌, arith,
}
use mathlib.Core.List.{map-append}
use my_raft.Raft.Data.{RaftLog, ApplyMsg}
use my_raft.Raft.State.{Raft, Effect, rpc_signal, timer_reset, metrics, apply, persist}
use my_raft.Raft.Log.{IsLog}
use my_raft.Raft.Append.{applied, apply_msg}
use my_raft.Raft.Append.Finish.{IsSettled}
use my_raft.Raft.Commit.{Tracker, reports, report, update_commit, update_commits}
use my_raft.Raft.Commit.Majority.{
  reports-report, committed, IsOpen, IsOpen-dec, update_commit-open, update_commit-closed, counted,
}

-- The messages that a server has handed to `RaftKV.Apply`, oldest first.
abbrev pub handed : List Effect → List ApplyMsg
handed [] = []
handed (rpc_signal ∷ es) = handed es
handed (timer_reset b ∷ es) = handed es
handed (metrics m ∷ es) = handed es
handed (apply m ∷ es) = handed es ++ m ∷ []

handed-applied :
    (vs : List RaftLog) (es : List Effect) → handed (applied vs es) ≡ handed es ++ map apply_msg vs
unfolding applied
handed-applied [] es = sym (append-nil (handed es))
handed-applied (v ∷ vs) es =
    handed-applied vs (Effect.apply (apply_msg v) ∷ es)
    ∙ append_assoc (handed es) (apply_msg v ∷ []) (map apply_msg vs)

-- The messages of the entries behind position a, up to b.
abbrev pub between : List RaftLog → ℕ → ℕ → List ApplyMsg
between logs a b = map apply_msg (drop (suc a) (take (suc b) logs))

take-drop-split :
    (l : List RaftLog) (a n b : ℕ)
    → a ≤ n
    → n ≤ b
    → drop a (take n l) ++ drop n (take b l) ≡ drop a (take b l)
take-drop-split l zero zero b h k = refl
take-drop-split l zero (suc n) zero h k = absurd (omega arith)
take-drop-split [] zero (suc n) (suc b) h k = refl
take-drop-split (x ∷ l) zero (suc n) (suc b) h k =
    ap (◌∷◌ x) (take-drop-split l zero n b (omega arith) (omega arith))
take-drop-split l (suc a) zero b h k = absurd (omega arith)
take-drop-split l (suc a) (suc n) zero h k = absurd (omega arith)
take-drop-split [] (suc a) (suc n) (suc b) h k = refl
take-drop-split (x ∷ l) (suc a) (suc n) (suc b) h k =
    take-drop-split l a n b (omega arith) (omega arith)

pub between-split :
    (l : List RaftLog) (a n b : ℕ) → a ≤ n → n ≤ b → between l a n ++ between l n b ≡ between l a b
between-split l a n b h k =
    sym (map-append apply_msg (drop (suc a) (take (suc n) l)) (drop (suc n) (take (suc b) l)))
    ∙ ap (map apply_msg) (take-drop-split l (suc a) (suc n) (suc b) (omega arith) (omega arith))

between-none : (l : List RaftLog) (a : ℕ) → between l a a ≡ []
between-none l a =
    ap (map apply_msg) (drop-length (take (suc a) l) (suc a) (omega (arith, length-take (suc a) l)))

-- The server at b after it was at a: its log is the same, and the entries in between were handed over.
pub record Commits (rf : Raft) (a : ℕ) (rf' : Raft) (b : ℕ) : Type 0 where
  pub settled : IsSettled rf' b
  pub logs : rf'.logs ≡ rf.logs
  pub peers : rf'.peers ≡ rf.peers
  pub no_less : a ≤ b
  pub within : a < length rf.logs → b < length rf.logs
  pub hands : handed rf'.effects ≡ handed rf.effects ++ between rf.logs a b

-- How often an index is among the reported ones.
abbrev pub times : ℤ → List ℤ → ℕ
times k [] = 0
times k (i ∷ is) = (if eqb_ℤ i k then 1 else 0) + times k is

-- Position k is committed, or its count is below half of the servers and will be that half.
abbrev pub Awaits : Raft → Tracker → ℕ → ℕ → List ℤ → Type 0
Awaits rf t a k is =
    (k ≤ a)
    ⊎ ((reports t (pos k) < rf.peers / 2) × (rf.peers / 2 ≤ reports t (pos k) + times (pos k) is))

Commits-refl : (rf : Raft) (a : ℕ) → IsSettled rf a → Commits rf a rf a
Commits-refl rf a s = record {
  settled = s;
  logs = refl;
  peers = refl;
  no_less = omega arith;
  within = λ lt. lt;
  hands = rw (between-none rf.logs a) (sym (append-nil (handed rf.effects)));
}

Commits-trans :
    (rf rf' rf'' : Raft) (a b c : ℕ)
    → Commits rf a rf' b
    → Commits rf' b rf'' c
    → Commits rf a rf'' c
Commits-trans rf rf' rf'' a b c p q = record {
  settled = q.settled;
  logs = q.logs ∙ p.logs;
  peers = q.peers ∙ p.peers;
  no_less = omega (arith, p.no_less, q.no_less);
  within = λ lt. rw p.logs at (q.within (rw p.logs (p.within lt)));
  hands =
      q.hands
      ∙ ap (λ l. l ++ between rf'.logs b c) p.hands
      ∙ ap (λ l. (handed rf.effects ++ between rf.logs a b) ++ between l b c) p.logs
      ∙ append_assoc (handed rf.effects) (between rf.logs a b) (between rf.logs b c)
      ∙ ap (◌++◌ (handed rf.effects)) (between-split rf.logs a b c p.no_less q.no_less);
}

committed-Commits : (rf : Raft) (a n : ℕ) → IsOpen rf a n → Commits rf a (committed rf a n) n
unfolding persist
committed-Commits rf a n o = record {
  settled = record { applied_to = refl; committed_to = refl };
  logs = refl;
  peers = refl;
  no_less = omega (arith, o.0);
  within = λ lt. o.1;
  hands = handed-applied (drop (suc a) (take (suc n) rf.logs)) rf.effects;
}

module _ (rf : Raft) (t : Tracker) (a : ℕ) (w : IsLog rf.logs) (s : IsSettled rf a) where
  -- What becomes of the server and of what is awaited.
  abbrev Stepped : ℤ → Type 0
  Stepped i =
      (rf' : Raft) × (t' : Tracker) × (b : ℕ) × (update_commit rf t i ≡ some (rf', t'))
      × Commits rf a rf' b
      × ((k : ℕ) (is : List ℤ)
          → k < length rf.logs
          → Awaits rf t a k (i ∷ is)
          → Awaits rf' t' b k is)

  negative-Stepped : (m : ℕ) → Stepped (negsuc m)
  unfolding update_commit
  negative-Stepped m =
      (rf, t, a, ground (arith, s.committed_to), Commits-refl rf a s, λ k is lt h. ground arith)

  closed-Stepped : (n : ℕ) → ¬ IsOpen rf a n → Stepped (pos n)
  closed-Stepped n closed = (
    rf,
    t,
    a,
    update_commit-closed rf t a n w s closed,
    Commits-refl rf a s,
    λ k is lt h. ground arith,
  )

  open-Stepped : (n : ℕ) → IsOpen rf a n → Stepped (pos n)
  unfolding persist
  open-Stepped n o = elim (Bool-cases (reports (report t (pos n)) (pos n) == (rf.peers / 2))) [
    | inl full ↦ (
      committed rf a n,
      report t (pos n),
      n,
      update_commit-open rf t a n w s o ∙ rw full refl,
      committed-Commits rf a n o,
      λ k is lt h. ground (arith, reports-report t (pos n) (pos k), counted rf t a n w s),
    )
    | inr less ↦ (
      rf,
      report t (pos n),
      a,
      update_commit-open rf t a n w s o ∙ rw less refl,
      Commits-refl rf a s,
      λ k is lt h. ground (arith, reports-report t (pos n) (pos k), counted rf t a n w s),
    )
  ]

  Stepped-all : (i : ℤ) → Stepped i
  Stepped-all (pos n) = elim (IsOpen-dec rf t a n w s) [
    | inl o ↦ open-Stepped n o
    | inr closed ↦ closed-Stepped n closed
  ]
  Stepped-all (negsuc m) = negative-Stepped m

-- On a server whose log is well formed and whose commit index is the index that it has applied, any
-- reports in any order, with any counts before them, are handled without a panic: the log stays, the
-- commit index is again the index that is applied, and no lower; what is handed to `RaftKV.Apply` is the
-- entries from the old commit index, without it, up to the new one, each once and in order; and a position
-- of the log is committed where its count was below half of the servers, rounded down, and with
-- the reports of it is that half or more.
pub update_commits-Commits :
    (is : List ℤ) (rf : Raft) (t : Tracker) (a : ℕ)
    → IsLog rf.logs
    → IsSettled rf a
    → (rf' : Raft) × (t' : Tracker) × (b : ℕ) × (update_commits rf t is ≡ some (rf', t'))
      × Commits rf a rf' b
      × ((k : ℕ) → k < length rf.logs → Awaits rf t a k is → k ≤ b)
unfolding update_commits
update_commits-Commits [] rf t a w s = (rf, t, a, refl, Commits-refl rf a s, λ k lt h. ground arith)
update_commits-Commits (i ∷ is) rf t a w s =
    let (rf1, t1, b, e, c, step) = Stepped-all rf t a w s i in
    let (rf2, t2, d, e2, c2, rest) = update_commits-Commits is rf1 t1 b (rw c.logs w) c.settled in
    (
      rf2,
      t2,
      d,
      rw e e2,
      Commits-trans rf rf1 rf2 a b d c c2,
      λ k lt h. rest k (rw c.logs lt) (step k is lt h),
    )
