-- ===== src/Raft/Leader/Accepted.antt =====
-- What `Start` promises (raft/raft.go): the command will stand at the index that it returns.
use my_raft.Base.{
  ℕ, zero, suc, ◌+◌, ◌-◌, ◌^◌, ◌≤◌, ◌<◌, min, pos, add32, add32-pos, ◌≡◌, refl, ap, sym, subst, ◌∙◌,
  true, Option, some, List, [], ◌∷◌, ◌++◌, append-nil, append_assoc, length, length-append,
  length-take, length-drop, take, drop, take-append-drop, get_elem?, get_elem?-append_right, arith,
  ◌>>=◌,
}
use my_raft.Raft.Data.{RaftLog, Command}
use my_raft.Raft.State.{Raft, persist}
use my_raft.Raft.Log.{
  Consecutive, IsLog, IsLog-last, Consecutive-append, Consecutive-take, Consecutive-drop,
}
use my_raft.Raft.Leader.{start, poll_jobs, max_entries_per_batch}
use my_raft.Raft.Leader.Jobs.{IsQueued, pending, more, polled, poll_jobs-polled}

-- What a poll leaves: nothing is lost, doubled or moved between the channel and the log.
pub record Polls (rf rf' : Raft) : Type 0 where
  pub queued : IsQueued rf'
  pub pends : pending rf' ≡ pending rf
  pub moves : length rf'.logs ≡ length rf.logs + min (length rf.jobs_chnl) max_entries_per_batch

module _ (rf : Raft) (job : RaftLog) (queue : List RaftLog) (v : IsQueued rf)
    (e : rf.jobs_chnl ≡ job ∷ queue) where
  jobs-length : length rf.jobs_chnl ≡ suc (length queue)
  jobs-length = ap length e

  logs-length : length (rf.logs ++ job ∷ take (more queue) queue) ≡ length rf.logs + 1 + more queue
  logs-length =
      omega (
        arith,
        length-append rf.logs (job ∷ take (more queue) queue),
        length-take (more queue) queue,
      )

  jobs-Consecutive : Consecutive (length rf.logs) (job ∷ queue)
  jobs-Consecutive = subst (Consecutive (length rf.logs)) e v.jobs

  polled-IsLog : IsLog (rf.logs ++ job ∷ take (more queue) queue)
  polled-IsLog = record {
    some_entry = omega (arith, logs-length);
    fits = omega (arith, logs-length, jobs-length, v.room);
    consecutive = Consecutive-append 0 rf.logs (job ∷ take (more queue) queue) v.log.consecutive (
        let n : 0 + length rf.logs ≡ length rf.logs = omega arith in
        rw n (
          jobs-Consecutive.0,
          Consecutive-take (suc (length rf.logs)) (more queue) queue jobs-Consecutive.1,
        ));
  }

  polled-jobs :
      Consecutive (length (rf.logs ++ job ∷ take (more queue) queue)) (drop (more queue) queue)
  polled-jobs =
      let n : suc (length rf.logs) + more queue
          ≡ length (rf.logs ++ job ∷ take (more queue) queue) =
        omega (arith, logs-length) in
      rw n at (Consecutive-drop (suc (length rf.logs)) (more queue) queue jobs-Consecutive.1)

  polled-total :
      length (rf.logs ++ job ∷ take (more queue) queue) + length (drop (more queue) queue)
      ≡ length rf.logs + length rf.jobs_chnl
  polled-total = omega (arith, logs-length, jobs-length, length-drop (more queue) queue)

  polled-pends : (rf.logs ++ job ∷ take (more queue) queue) ++ drop (more queue) queue ≡ pending rf
  polled-pends =
      append_assoc rf.logs (job ∷ take (more queue) queue) (drop (more queue) queue)
      ∙ ap (λ l. rf.logs ++ job ∷ l) (take-append-drop (more queue) queue)
      ∙ ap (◌++◌ rf.logs) (sym e)

Polls-polled :
    (rf : Raft) (prev job : RaftLog) (queue : List RaftLog)
    → IsQueued rf
    → rf.jobs_chnl ≡ job ∷ queue
    → Polls rf (polled rf prev job queue)
unfolding persist
Polls-polled rf prev job queue v e = record {
  queued = record {
    log = polled-IsLog rf job queue v e;
    jobs = polled-jobs rf job queue v e;
    idx = v.idx ∙ ap (λ n. pos (n - 1)) (sym (polled-total rf job queue v e));
    room = omega (arith, polled-total rf job queue v e, v.room);
  };
  pends = polled-pends rf job queue v e;
  moves = omega (arith, logs-length rf job queue v e, jobs-length rf job queue v e);
}

Polls-idle : (rf : Raft) → IsQueued rf → rf.jobs_chnl ≡ [] → Polls rf rf
Polls-idle rf v e = record { queued = v; pends = refl; moves = omega (arith, ap length e) }

poll_cases :
    (rf : Raft) (jobs : List RaftLog)
    → IsQueued rf
    → rf.jobs_chnl ≡ jobs
    → (rf' : Raft) × (poll_jobs rf ≡ some rf') × Polls rf rf'
unfolding poll_jobs
poll_cases rf [] v e = (rf, ground arith, Polls-idle rf v e)
poll_cases rf (job ∷ queue) v e =
    let (prev, top, _) = IsLog-last rf.logs v.log in
    (
      polled rf prev job queue,
      poll_jobs-polled rf v job queue e prev top,
      Polls-polled rf prev job queue v e,
    )

-- A poll returns.
pub poll_jobs-Polls :
    (rf : Raft) → IsQueued rf → (rf' : Raft) × (poll_jobs rf ≡ some rf') × Polls rf rf'
poll_jobs-Polls rf v = poll_cases rf rf.jobs_chnl v refl

Polls-shorter :
    {rf rf' : Raft}
    → Polls rf rf'
    → length rf'.jobs_chnl ≡ length rf.jobs_chnl - min (length rf.jobs_chnl) max_entries_per_batch
Polls-shorter {rf} {rf'} p = omega (
  arith,
  ap length p.pends,
  length-append rf.logs rf.jobs_chnl,
  length-append rf'.logs rf'.jobs_chnl,
  p.moves,
)

length-nil : (l : List RaftLog) → length l ≤ 0 → l ≡ []
length-nil [] h = refl
length-nil (x ∷ xs) h = absurd (omega arith)

-- Polls in a row, until the channel is empty.
unfoldable pub poll_times : ℕ → Raft → Option Raft
poll_times zero rf = some rf
poll_times (suc k) rf = do rf ← poll_jobs rf; poll_times k rf

-- Where the log is well formed, the jobs of the channel follow it, `logidx` is the index of the last
-- of them and the indices fit an `int32`, as many polls as there are jobs return; they leave the
-- channel empty, and the jobs stand behind the log in their order.
pub poll_times-drains :
    (k : ℕ) (rf : Raft)
    → IsQueued rf
    → length rf.jobs_chnl ≤ k
    → (rf' : Raft) × (poll_times k rf ≡ some rf') × (rf'.jobs_chnl ≡ []) × (rf'.logs ≡ pending rf)
unfolding poll_times
poll_times-drains zero rf v h =
    let empty = length-nil rf.jobs_chnl h in
    (rf, refl, empty, sym (ap (◌++◌ rf.logs) empty ∙ append-nil rf.logs))
poll_times-drains (suc k) rf v h =
    let (rf1, e, p) = poll_jobs-Polls rf v in
    let (rf2, e2, empty, all) = poll_times-drains k rf1 p.queued (omega (arith, Polls-shorter p)) in
    (rf2, rw e e2, empty, all ∙ p.pends)

module _ (rf : Raft) (command : Command) (leads : rf.is_leader ≡ true) (v : IsQueued rf)
    (room : length rf.logs + length rf.jobs_chnl + 1 < 2 ^ 31) where
  abbrev pub told : ℕ
  told = length rf.logs + length rf.jobs_chnl

  abbrev pub accepted_job : RaftLog
  accepted_job = record { index = pos told; term = rf.current_term; cmd = command }

  started : Raft
  started = record rf { logidx = pos told; jobs_chnl = rf.jobs_chnl ++ accepted_job ∷ [] }

  start-started : start rf command ≡ (started, (pos told, rf.current_term, true))
  unfolding start started
  start-started =
      let i : add32 rf.logidx (pos 1) ≡ pos told =
        ap (λ j. add32 j (pos 1)) v.idx
        ∙ add32-pos (told - 1) 1 (omega arith)
        ∙ ap pos (omega (arith, v.log.some_entry)) in
      rw (leads, i) refl

  started-IsQueued : IsQueued started
  unfolding started
  started-IsQueued = record {
    log = v.log;
    jobs = Consecutive-append (length rf.logs) rf.jobs_chnl (accepted_job ∷ []) v.jobs (refl, tt);
    idx = ap pos (omega (arith, length-append rf.jobs_chnl (accepted_job ∷ [])));
    room = omega (arith, length-append rf.jobs_chnl (accepted_job ∷ []), room);
  }

  started-pending : get_elem? (pending started) told ≡ some accepted_job
  unfolding started
  started-pending =
      let n : told ≡ length (rf.logs ++ rf.jobs_chnl) + 0 =
        omega (arith, length-append rf.logs rf.jobs_chnl) in
      ap (λ l. get_elem? l told) (sym (append_assoc rf.logs rf.jobs_chnl (accepted_job ∷ [])))
      ∙ ap (get_elem? ((rf.logs ++ rf.jobs_chnl) ++ accepted_job ∷ [])) n
      ∙ get_elem?-append_right (rf.logs ++ rf.jobs_chnl) (accepted_job ∷ []) 0

  -- On a leader whose log is well formed, with jobs that follow it in the channel, `logidx` the
  -- index of the last of them, and room for one more `int32` index, `Start` tells its caller an
  -- index, and as many polls as there are jobs then return and put the command at that index, with
  -- the leader's term.
  pub start-accepts :
      ((start rf command).1 ≡ (pos told, rf.current_term, true))
      × (rf' : Raft) × (poll_times (length rf.jobs_chnl + 1) (start rf command).0 ≡ some rf')
      × (get_elem? rf'.logs told ≡ some accepted_job)
  start-accepts =
      let short : length started.jobs_chnl ≤ length rf.jobs_chnl + 1 =
        unfold started in omega (arith, length-append rf.jobs_chnl (accepted_job ∷ [])) in
      let (rf', e, _, all) =
        poll_times-drains (length rf.jobs_chnl + 1) started started-IsQueued short in
      rw start-started (refl, rf', e, ap (λ l. get_elem? l told) all ∙ started-pending)

  pub start-IsQueued : IsQueued (start rf command).0
  start-IsQueued = rw start-started started-IsQueued

  pub start-pending : pending (start rf command).0 ≡ rf.logs ++ (rf.jobs_chnl ++ accepted_job ∷ [])
  unfolding started
  start-pending = rw start-started refl

  pub length-start : length (start rf command).0.jobs_chnl ≤ length rf.jobs_chnl + 1
  unfolding started
  length-start = rw start-started (omega (arith, length-append rf.jobs_chnl (accepted_job ∷ [])))
