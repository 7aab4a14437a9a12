-- ===== src/Raft/Leader/Jobs.antt =====
-- `Start` and the goroutine of the job channel (raft/raft.go): a command that was accepted stands
-- at the index that its caller was told, in the channel and then in the log.
use my_raft.Base.{
  ℕ, suc, ◌+◌, ◌-◌, ◌^◌, ◌<◌, min, ltb, pos, sub32, sub32-pos, ◌≡◌, refl, ap, subst, ◌∙◌, true,
  some, List, [], ◌∷◌, ◌++◌, append_assoc, length, length-append, length-take, take, drop, set,
  replicate, last, arith, if◌then◌else◌,
}
use my_raft.Raft.Data.{RaftLog}
use my_raft.Raft.State.{Raft, persist, zero_log}
use my_raft.Raft.Log.{Consecutive, IsLog, IsLog-index, Consecutive-take}
use my_raft.Raft.Election.{broadcast}
use my_raft.Raft.Leader.{
  poll_jobs, batch, place_jobs, append_jobs, set_at, append_args, max_entries_per_batch,
}

-- The jobs in the channel follow the log, and `logidx` is the index of the last of them.
pub record IsQueued (rf : Raft) : Type 0 where
  pub log : IsLog rf.logs
  pub jobs : Consecutive (length rf.logs) rf.jobs_chnl
  pub idx : rf.logidx ≡ pos (length rf.logs + length rf.jobs_chnl - 1)
  pub room : length rf.logs + length rf.jobs_chnl < 2 ^ 31

-- The log, and what waits behind it.
abbrev pub pending : Raft → List RaftLog
pending rf = rf.logs ++ rf.jobs_chnl

set-length :
    (done rest : List RaftLog) (z j : RaftLog)
    → set (done ++ z ∷ rest) (length done) j ≡ done ++ j ∷ rest
set-length [] rest z j = refl
set-length (d ∷ done) rest z j = ap (◌∷◌ d) (set-length done rest z j)

set_at-next :
    (done rest : List RaftLog) (z j : RaftLog)
    → set_at (done ++ z ∷ rest) (pos (length done)) j ≡ some (done ++ j ∷ rest)
set_at-next done rest z j =
    let room : ltb (length done) (length (done ++ z ∷ rest)) ≡ true =
      ground (arith, length-append done (z ∷ rest)) in
    rw (room, set-length done rest z j) refl

-- Each job goes to its own place.
place_jobs-in_order :
    (done js : List RaftLog) (p : ℕ)
    → p + 1 + length done + length js < 2 ^ 31
    → Consecutive (p + 1 + length done) js
    → place_jobs (done ++ replicate (length js) zero_log) (pos p) js ≡ some (done ++ js)
unfolding place_jobs
place_jobs-in_order done [] p fits c = refl
place_jobs-in_order done (j ∷ js) p fits c =
    let first : sub32 j.index (pos p) ≡ pos (length done + 1) =
      ap (λ i. sub32 i (pos p)) c.0
      ∙ sub32-pos _ p (omega arith) (omega arith)
      ∙ ap pos (omega arith) in
    let at : sub32 (sub32 j.index (pos p)) (pos 1) ≡ pos (length done) =
      ap (λ i. sub32 i (pos 1)) first
      ∙ sub32-pos _ 1 (omega arith) (omega arith)
      ∙ ap pos (omega arith) in
    let next : suc (p + 1 + length done) ≡ p + 1 + length (done ++ j ∷ []) =
      omega (arith, length-append done (j ∷ [])) in
    let rest =
      place_jobs-in_order (done ++ j ∷ []) js p (omega (arith, length-append done (j ∷ [])))
        (rw next at c.1) in
    rw (at, set_at-next done (replicate (length js) zero_log) zero_log j)
      (rw
        (append_assoc done (j ∷ []) (replicate (length js) zero_log), append_assoc done (j ∷ []) js)
        at rest)

append_jobs-next :
    (logs js : List RaftLog) (j : RaftLog)
    → j.index ≡ pos (length logs)
    → append_jobs logs (j ∷ js) ≡ logs ++ j ∷ js
unfolding append_jobs
append_jobs-next logs js j e = ground arith

-- The jobs that one poll takes after the first.
abbrev pub more : List RaftLog → ℕ
more queue = min (length queue + 1) max_entries_per_batch - 1

abbrev pub polled : Raft → RaftLog → RaftLog → List RaftLog → Raft
polled rf prev job queue =
    let entries = job ∷ take (more queue) queue in
    persist (record rf {
      jobs_chnl = drop (more queue) queue;
      rdy_chnl =
          if rf.is_leader
          then broadcast rf.me (append_args rf prev entries) 0 rf.rdy_chnl
          else rf.rdy_chnl;
      logs = rf.logs ++ entries;
    })

module _ (rf : Raft) (v : IsQueued rf) (job : RaftLog) (queue : List RaftLog)
    (e : rf.jobs_chnl ≡ job ∷ queue) where
  queued : Consecutive (length rf.logs) (job ∷ queue)
  queued = subst (Consecutive (length rf.logs)) e v.jobs

  taken : length (take (more queue) queue) ≡ more queue
  taken = omega (arith, length-take (more queue) queue)

  entries-placed :
      place_jobs
        (job ∷ replicate (more queue) zero_log)
        (pos (length rf.logs - 1))
        (take (more queue) queue)
      ≡ some (job ∷ take (more queue) queue)
  entries-placed =
      let fits : length rf.logs + length rf.jobs_chnl < 2 ^ 31 = v.room in
      let from_log : suc (length rf.logs) ≡ length rf.logs - 1 + 1 + 1 =
        omega (arith, v.log.some_entry) in
      subst
        (λ n.
          place_jobs (job ∷ replicate n zero_log) (pos (length rf.logs - 1))
            (take (more queue) queue)
          ≡ some (job ∷ take (more queue) queue))
        taken
        (place_jobs-in_order (job ∷ []) (take (more queue) queue) (length rf.logs - 1)
          (omega (arith, ap length e, length-take (more queue) queue, v.log.some_entry))
          (rw from_log at (Consecutive-take (suc (length rf.logs)) (more queue) queue queued.1)))

  batch-polled :
      (prev : RaftLog)
      → last rf.logs ≡ some prev
      → batch rf job queue ≡ some (polled rf prev job queue)
  unfolding batch
  batch-polled prev top =
      let at_top = IsLog-index rf.logs v.log (length rf.logs - 1) prev top in
      let placed =
        ap (λ i. place_jobs (job ∷ replicate (more queue) zero_log) i (take (more queue) queue))
          at_top
        ∙ entries-placed in
      rw (top, placed, append_jobs-next rf.logs (take (more queue) queue) job queued.0) refl

  -- A poll moves the jobs of one batch from the channel to the log, and sends them to the peers.
  pub poll_jobs-polled :
      (prev : RaftLog) → last rf.logs ≡ some prev → poll_jobs rf ≡ some (polled rf prev job queue)
  unfolding poll_jobs
  poll_jobs-polled prev top = rw (e, poll_jobs) (batch-polled prev top)
