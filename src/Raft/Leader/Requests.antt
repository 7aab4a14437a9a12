-- ===== src/Raft/Leader/Requests.antt =====
-- The requests that a peer routine of raft/raft.go makes of what was queued for its peer.
use my_raft.Base.{
  ℕ, suc, ◌+◌, ◌-◌, ◌≤◌, ◌<◌, min, leb, leb_ℤ, pos, add32, sub32, add32-pos, sub32-pos, ◌≡◌, refl,
  ap, sym, ◌∙◌, Option, some, none, List, ◌++◌, length, length-append, length-take, length-drop,
  take, drop, slice, get_elem?, get_elem?-some, arith, ◌>>=◌, dec_lt, Bool-cases, inl, inr, set,
  get_elem?-set_other, [], ◌∷◌, subst, true, false,
}
use my_raft.Raft.Data.{RaftLog, AppendEntriesArgs}
use my_raft.Raft.State.{Raft}
use my_raft.Raft.Log.{
  Consecutive, IsLog, IsLog-index, Consecutive-append, Consecutive-take, Consecutive-drop,
}
use my_raft.Raft.Append.Outcome.{IsRequest}
use my_raft.Raft.Leader.{prepare, append_alias, overwrite}

-- What the goroutines queue: the entries follow `PrevLog`, which is in the log.
pub record IsQueuedRequest (rf : Raft) (args : AppendEntriesArgs) (p : ℕ) : Type 0 where
  pub request : IsRequest args p
  pub in_log : p < length rf.logs

overwrite-below :
    (logs : List RaftLog) (b i : ℕ) (xs : List RaftLog)
    → i < b
    → get_elem? (overwrite logs b xs) i ≡ get_elem? logs i
unfolding overwrite
overwrite-below logs b i [] lt = refl
overwrite-below logs b i (x ∷ xs) lt =
    overwrite-below (set logs b x) (suc b) i xs (omega arith)
    ∙ get_elem?-set_other logs b i x (omega arith)

pub append_alias-nil :
    (capacity : ℕ) (logs : List RaftLog) (b : ℕ) → append_alias capacity logs (pos b) [] ≡ logs
unfolding append_alias overwrite
append_alias-nil capacity logs b = elim (Bool-cases (leb (b + 0) capacity)) [
  | inl e ↦ rw e refl
  | inr e ↦ rw e refl
]

append_alias-below :
    (capacity : ℕ) (logs : List RaftLog) (b i : ℕ) (xs : List RaftLog)
    → i < b
    → get_elem? (append_alias capacity logs (pos b) xs) i ≡ get_elem? logs i
unfolding append_alias
append_alias-below capacity logs b i xs lt = elim (Bool-cases (leb (b + length xs) capacity)) [
  | inl e ↦ rw e (overwrite-below logs b i xs lt)
  | inr e ↦ rw e refl
]

module _ (capacity : ℕ) (rf : Raft) (server : ℕ) (args : AppendEntriesArgs) (n p : ℕ)
    (w : IsLog rf.logs) (v : IsQueuedRequest rf args p)
    (at_next : get_elem? rf.next_index server ≡ some (pos n)) where
  upto : add32 args.prev_log.index (pos 1) ≡ pos (p + 1)
  upto = ap (λ i. add32 i (pos 1)) v.request.at_prev ∙ add32-pos p 1 (omega (arith, v.request.fits))

  abbrev pub filled : RaftLog → AppendEntriesArgs
  filled prev = record args {
    entries = drop n (take (p + 1) rf.logs) ++ args.entries;
    prev_log = prev;
  }

  module _ (low : 0 < n) (le : n ≤ p) where
    slice-missing : slice rf.logs (pos n) (pos (p + 1)) ≡ some (drop n (take (p + 1) rf.logs))
    slice-missing = ground (arith, v.in_log)

    sub-one : sub32 (pos n) (pos 1) ≡ pos (n - 1)
    sub-one = sub32-pos n 1 (omega arith) (omega (arith, v.request.fits))

    missing-Consecutive : Consecutive n (drop n (take (p + 1) rf.logs) ++ args.entries)
    missing-Consecutive =
        let from_zero : 0 + n ≡ n = omega arith in
        let part = rw from_zero at (
          Consecutive-drop 0 n (take (p + 1) rf.logs)
            (Consecutive-take 0 (p + 1) rf.logs w.consecutive)) in
        let len : n + length (drop n (take (p + 1) rf.logs)) ≡ suc p =
          omega
            (arith, length-drop n (take (p + 1) rf.logs), length-take (p + 1) rf.logs, v.in_log) in
        Consecutive-append n (drop n (take (p + 1) rf.logs)) args.entries part
          (rw len v.request.consecutive)

    pub prepare-behind :
        (prev : RaftLog)
        → get_elem? rf.logs (n - 1) ≡ some prev
        → prepare capacity rf server args
          ≡ some (
            record rf { logs = append_alias capacity rf.logs (pos (p + 1)) args.entries },
            filled prev,
          )
    unfolding prepare
    prepare-behind prev g =
        let test : leb_ℤ (pos n) args.prev_log.index ≡ true = rw v.request.at_prev (ground arith) in
        let kept = append_alias-below capacity rf.logs (p + 1) (n - 1) args.entries (omega arith) in
        rw (prepare, at_next, test, upto, slice-missing, sub-one, kept, g) refl

    pub filled-IsRequest :
        (prev : RaftLog) → get_elem? rf.logs (n - 1) ≡ some prev → IsRequest (filled prev) (n - 1)
    filled-IsRequest prev g = record {
      at_prev = IsLog-index rf.logs w (n - 1) prev g;
      consecutive = (let e : suc (n - 1) ≡ n = omega arith in rw e missing-Consecutive);
      fits = omega (
        arith,
        length-append (drop n (take (p + 1) rf.logs)) args.entries,
        length-drop n (take (p + 1) rf.logs),
        length-take (p + 1) rf.logs,
        v.in_log,
        v.request.fits,
      );
    }

  pub prepare-ahead : p < n → prepare capacity rf server args ≡ some (rf, args)
  unfolding prepare
  prepare-ahead gt =
      let test : leb_ℤ (pos n) args.prev_log.index ≡ false = rw v.request.at_prev (ground arith) in
      rw (prepare, at_next, test) refl

  -- For a peer whose next index is positive, what was queued with `PrevLog` in the well-formed log of the
  -- leader becomes, without a panic, a leader's request as the theorems on `HeartBeat` suppose it; its
  -- `PrevLog` is at the position before the next index, or at the old one if that is lower.
  pub prepare-IsRequest :
      0 < n
      → (rf' : Raft) × (out : AppendEntriesArgs) × (prepare capacity rf server args
          ≡ some (rf', out))
        × IsRequest out (min (n - 1) p)
  prepare-IsRequest low = elim (dec_lt p n) [
    | yes gt ↦
        let e : min (n - 1) p ≡ p = omega arith in
        (rf, args, prepare-ahead gt, subst (IsRequest args) (sym e) v.request)
    | no le ↦
        let e : min (n - 1) p ≡ n - 1 = omega arith in
        let (prev, g) = get_elem?-some rf.logs (n - 1) (omega (arith, v.in_log)) in
        (
          record rf { logs = append_alias capacity rf.logs (pos (p + 1)) args.entries },
          filled prev,
          prepare-behind low (omega arith) prev g,
          subst (IsRequest (filled prev)) (sym e) (filled-IsRequest low (omega arith) prev g),
        )
  ]

-- A request whose `PrevLog` has an index that is not negative makes the routine of a peer panic while the
-- next index of the peer is 0, as `Make` leaves it.
pub prepare-unset :
    (capacity : ℕ) (rf : Raft) (server : ℕ) (args : AppendEntriesArgs) (p : ℕ)
    → get_elem? rf.next_index server ≡ some (pos 0)
    → args.prev_log.index ≡ pos p
    → prepare capacity rf server args ≡ none
unfolding prepare sub32
prepare-unset capacity rf server args p at_next at_prev =
    let test : leb_ℤ (pos 0) args.prev_log.index ≡ true = rw at_prev (ground arith) in
    rw (prepare, at_next, test) (go (slice rf.logs (pos 0) (add32 args.prev_log.index (pos 1))))
  where
    go :
        (o : Option (List RaftLog))
        → ◌≡◌ {A = Option (Raft × AppendEntriesArgs)} (o >>= λ (m : List RaftLog). none) none
    go none = refl
    go (some m) = refl
