-- ===== src/Raft/Exchange/Reply.antt =====
-- What the leader of raft/raft.go does with the reply of a peer: its log, its term and its lead stay,
-- the peer's next index moves.
use my_raft.Base.{
  ℕ, ◌+◌, ◌^◌, ◌≤◌, ◌<◌, ℤ, pos, ◌≤ℤ◌, add32, add32-pos, ltb_ℤ, ◌≡◌, refl, ap, ◌∙◌, true, false,
  some, length, set, get_elem?, [], ◌∷◌, ◌++◌, get_elem?-set, get_elem?-set_other, ◌≢◌,
  get_elem?-lt, Bool-cases, inl, inr, arith,
}
use my_raft.Raft.Data.{AppendEntriesArgs, AppendEntriesReply}
use my_raft.Raft.State.{Raft, Effect, emit}
use my_raft.Raft.Leader.{receive_append, success_metrics}
use my_raft.Raft.Commit.Settles.{handed}
use my_raft.Raft.Exchange.Tally.{Tallied, reported-Tallied}
use my_raft.Raft.Exchange.Linked.{IsSender, IsFollower, HasMatched}
use my_raft.Raft.Exchange.Retry.{retry_from-Backs}

-- What a reply leaves alone.
pub record SameLead (rf rf' : Raft) : Type 0 where
  pub logs : rf'.logs ≡ rf.logs
  pub term : rf'.current_term ≡ rf.current_term
  pub leads : rf'.is_leader ≡ rf.is_leader
  pub commit : rf'.commit_idx ≡ rf.commit_idx
  pub applied : rf'.last_applied ≡ rf.last_applied
  pub peers : rf'.peers ≡ rf.peers
  pub hands : handed rf'.effects ≡ handed rf.effects

pub SameLead-IsFollower :
    (rf rf' peer : Raft) (a : ℕ) → SameLead rf rf' → IsFollower rf peer a → IsFollower rf' peer a
SameLead-IsFollower rf rf' peer a k f = record {
  log = f.log;
  settled = f.settled;
  matching = rw k.logs f.matching;
  begins = rw k.logs f.begins;
  terms = rw k.term f.terms;
}

pub SameLead-IsSender :
    (rf rf' : Raft) (server n n' : ℕ) (m : ℤ)
    → SameLead rf rf'
    → IsSender rf server n
    → 0 < n'
    → get_elem? rf'.next_index server ≡ some (pos n')
    → get_elem? rf'.match_index server ≡ some m
    → IsSender rf' server n'
SameLead-IsSender rf rf' server n n' m k s low next matched = record {
  leads = k.leads ∙ s.leads;
  log = rw k.logs s.log;
  next = next;
  low = low;
  matched = (m, matched);
  old = (let (e, at, lt) = s.old in (e, rw k.logs at, rw k.term lt));
}

-- What the leader knows of the other peers.
abbrev pub Others : Raft → Raft → ℕ → Type 0
Others rf rf' server =
    (j : ℕ)
    → server ≢ j
    → (get_elem? rf'.next_index j ≡ get_elem? rf.next_index j)
      × (get_elem? rf'.match_index j ≡ get_elem? rf.match_index j)

-- The leader with a new next index for the peer.
abbrev moved : Raft → ℕ → ℕ → Raft
moved rf server k = record (emit (Effect.metrics (success_metrics rf)) rf) {
  next_index = set rf.next_index server (pos k);
}

-- And with a new match index, which it reports.
abbrev counted : Raft → ℕ → ℕ → Raft
counted rf server u = record (moved rf server (u + 1)) {
  match_index = set rf.match_index server (pos u);
  commit_idx_chnl = rf.commit_idx_chnl ++ pos u ∷ [];
}

moved-Others : (rf : Raft) (server k : ℕ) → Others rf (moved rf server k) server
moved-Others rf server k j ne = (get_elem?-set_other rf.next_index server j (pos k) ne, refl)

counted-Others : (rf : Raft) (server u : ℕ) → Others rf (counted rf server u) server
counted-Others rf server u j ne = (
  get_elem?-set_other rf.next_index server j (pos (u + 1)) ne,
  get_elem?-set_other rf.match_index server j (pos u) ne,
)

module _ (rf : Raft) (server n : ℕ) (s : IsSender rf server n) (args : AppendEntriesArgs)
    (reply : AppendEntriesReply) where
  in_range : (v : ℤ) → get_elem? (set rf.next_index server v) server ≡ some v
  in_range v =
      get_elem?-set rf.next_index server v (get_elem?-lt rf.next_index server (pos n) s.next)

  -- After a reply of success, the next index is the one behind the entry that the peer named.
  pub accepted_reply :
      (u : ℕ)
      → reply.success ≡ true
      → reply.last_entry.index ≡ pos u
      → length rf.logs ≤ u + 1
      → u + 1 < 2 ^ 31
      → (rf' : Raft) × (receive_append rf server args reply ≡ some rf')
        × SameLead rf rf'
        × Others rf rf' server
        × IsSender rf' server (u + 1)
        × HasMatched rf' server
        × (u + 1 ≡ length rf.logs → Tallied rf rf')
  unfolding receive_append
  accepted_reply u ok at_u long fits =
      let (m, at_m) = s.matched in
      let next : add32 reply.last_entry.index (pos 1) ≡ pos (u + 1) =
        ap (λ i. add32 i (pos 1)) at_u ∙ add32-pos u 1 fits in
      elim (Bool-cases (ltb_ℤ m (pos u))) [
        | inl more ↦
            let at_m' : get_elem? (set rf.match_index server (pos u)) server ≡ some (pos u) =
              get_elem?-set rf.match_index server (pos u)
                (get_elem?-lt rf.match_index server m at_m) in
            (
              counted rf server u,
              rw (ok, at_m, next, at_u, more) refl,
              record {
                logs = refl;
                term = refl;
                leads = refl;
                commit = refl;
                applied = refl;
                peers = refl;
                hands = refl;
              },
              counted-Others rf server u,
              SameLead-IsSender rf (counted rf server u) server n (u + 1) (pos u)
                  (record {
                    logs = refl;
                    term = refl;
                    leads = refl;
                    commit = refl;
                    applied = refl;
                    peers = refl;
                    hands = refl;
                  })
                  s (omega arith) (in_range (pos (u + 1))) at_m',
              (pos u, at_m', omega arith),
              λ top.
                  reported-Tallied rf (counted rf server u) server u m at_m (ground arith) top refl
                    refl,
            )
        | inr less ↦ (
          moved rf server (u + 1),
          rw (ok, at_m, next, at_u, less) refl,
          record {
            logs = refl;
            term = refl;
            leads = refl;
            commit = refl;
            applied = refl;
            peers = refl;
            hands = refl;
          },
          moved-Others rf server (u + 1),
          SameLead-IsSender rf (moved rf server (u + 1)) server n (u + 1) m
              (record {
                logs = refl;
                term = refl;
                leads = refl;
                commit = refl;
                applied = refl;
                peers = refl;
                hands = refl;
              })
              s (omega arith) (in_range (pos (u + 1))) at_m,
          (m, at_m, ground arith),
          λ top. refl,
        )
      ]

  -- After a reply of failure from a term no newer, the next index is positive and no more than one
  -- behind the entry that the peer named.
  pub refused_reply :
      (c q : ℕ)
      → reply.success ≡ false
      → reply.term ≤ℤ rf.current_term
      → args.term ≡ rf.current_term
      → reply.last_entry.index ≡ pos c
      → args.prev_log.index ≡ pos q
      → c < q
      → q < length rf.logs
      → (rf' : Raft) × (n' : ℕ) × (receive_append rf server args reply ≡ some rf')
        × SameLead rf rf'
        × Others rf rf' server
        × IsSender rf' server n'
        × (n' ≤ q)
        × Tallied rf rf'
  unfolding receive_append
  refused_reply c q refused newer same at_c at_q lt in_log =
      let (m, at_m) = s.matched in
      let (first, at_first, old) = s.old in
      let (i, back, le) =
        retry_from-Backs rf.logs first at_first args reply.last_entry c q (rw same old) at_c at_q
          in_log in
      let no_newer : ltb_ℤ rf.current_term reply.term ≡ false = ground arith in
      let next : add32 (pos i) (pos 1) ≡ pos (i + 1) = add32-pos i 1 (omega (arith, s.log.fits)) in
      (
        moved rf server (i + 1),
        i + 1,
        rw (refused, no_newer, back, next) refl,
        record {
          logs = refl;
          term = refl;
          leads = refl;
          commit = refl;
          applied = refl;
          peers = refl;
          hands = refl;
        },
        moved-Others rf server (i + 1),
        SameLead-IsSender rf (moved rf server (i + 1)) server n (i + 1) m
            (record {
              logs = refl;
              term = refl;
              leads = refl;
              commit = refl;
              applied = refl;
              peers = refl;
              hands = refl;
            })
            s (omega arith) (in_range (pos (i + 1))) at_m,
        omega arith,
        refl,
      )
