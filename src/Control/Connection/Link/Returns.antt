-- ===== src/Control/Connection/Link/Returns.antt =====
-- A call that starts over the websocket (controller/data/wsconnection.go), and one that returns.
use my_raft.Base.{
  ℕ, ◌+◌, ==_iff, ◌≤◌, if◌then◌else◌, true, false, ◌≡◌, refl, sym, subst, ap, ◌∙◌, Option, none,
  some, List, [], ◌∷◌, ◌++◌, length, length-set, Bytes, get_elem?, get_elem?-set,
  get_elem?-set_other, get_elem?-lt, set, arith, ltb, ℕ_discrete,
}
use mathlib.Core.Option.{some-injective}
use my_raft.Control.Connection.{Frame, write_logs, next_running, request, started, write_frame}
use my_raft.Control.Connection.Replies.{next_running-lt}
use my_raft.Control.Connection.Link.{Call, answer_of, Link, slot_of, waiter}
use my_raft.Control.Connection.Link.Flight.{
  is_at, flying, AllFrames, AllFrames-append, AllFrames-away, AllFrames-map,
}
use my_raft.Control.Connection.Link.Tracks.{
  waits_in, Asks, Tells, in_slot, one_if, in_flight, Tracks, waits_in-set_other, Asks-away,
  Tells-move, Tells-away, flying-write_frame,
}

module _ (h : Bytes → Option Bytes) (k : Link) (t : Tracks h k) where
  -- The call takes its reply.
  pub returns-Tracks :
      (i : ℕ) (c : Call) (f : Frame) (fs : List Frame)
      → waiter k i ≡ some c
      → get_elem? k.left.replies i ≡ some (f ∷ fs)
      → Tracks h (record k {
        left = record k.left { replies = set k.left.replies i fs };
        waiting = set k.waiting i none;
        finished = (c, f.reply) ∷ k.finished;
      })
  returns-Tracks i c f fs waits at =
      let ((c', tells, at_c, reply), here) = (t.slots i (f ∷ fs) at).0 in
      let own : c' ≡ c = some-injective _ _ (sym at_c ∙ ap (waits_in k.waiting) here ∙ waits) in
      let lt = get_elem?-lt k.left.replies i (f ∷ fs) at in
      let slot = get_elem?-set k.left.replies i fs lt in
      let used : in_slot i (get_elem? k.left.replies i) ≡ flying i (f ∷ fs) = ap (in_slot i) at in
      let one : one_if (waiter k i) ≡ 1 = ap one_if waits in
      let mine : is_at i f ≡ 1 = ground (arith, ==_iff f.idx i) in
      let limit = t.single i in
      let ws = set k.waiting i none in
      let slot_count : in_slot i (get_elem? (set k.left.replies i fs) i) ≡ flying i fs =
        ap (in_slot i) slot in
      record {
        size = length-set k.waiting i none ∙ t.size;
        still_open = t.still_open;
        channels = length-set k.left.replies i fs ∙ t.channels;
        asked =
            Asks-away h k.waiting i none k.left.write_chnl (omega (arith, limit, used, one, mine))
              t.asked;
        asking =
            Asks-away h k.waiting i none k.to_right (omega (arith, limit, used, one, mine))
              t.asking;
        told =
            Tells-away h k.waiting i none k.right.write_chnl (omega (arith, limit, used, one, mine))
              t.told;
        telling =
            Tells-away h k.waiting i none k.to_left (omega (arith, limit, used, one, mine))
              t.telling;
        slots = λ j s g. elim (ℕ_discrete i j) [
          | yes same ↦
              let g' : get_elem? (set k.left.replies i fs) i ≡ some s =
                ap (get_elem? (set k.left.replies i fs)) same ∙ g in
              let it : fs ≡ s = some-injective _ _ (sym slot ∙ g') in
              subst (AllFrames (λ x. Tells h ws x × (x.idx ≡ j))) it (
                AllFrames-away (λ x. Tells h k.waiting x × (x.idx ≡ i))
                  (λ x. Tells h ws x × (x.idx ≡ j)) i fs (omega (arith, limit, used, one, mine))
                  (λ x ne p. absurd (ne p.1)) (t.slots i (f ∷ fs) at).1)
          | no other ↦
              AllFrames-map (λ x. Tells h k.waiting x × (x.idx ≡ j))
                (λ x. Tells h ws x × (x.idx ≡ j)) s
                (λ x p. (Tells-move h k.waiting i none x (λ e. other (sym e ∙ p.1)) p.0, p.1))
                (t.slots j s (sym (get_elem?-set_other k.left.replies i j fs other) ∙ g))
        ];
        single = λ j. elim (ℕ_discrete i j) [
          | yes same ↦
              subst
                (λ x.
                  in_flight
                    (record k {
                      left = record k.left { replies = set k.left.replies i fs };
                      waiting = ws;
                      finished = (c, f.reply) ∷ k.finished;
                    })
                    x
                  ≤ one_if (waits_in ws x))
                same (omega (arith, limit, used, one, mine, slot_count))
          | no other ↦
              let free = ap one_if (waits_in-set_other k.waiting i j none (λ e. other (sym e))) in
              let kept = ap (in_slot j) (get_elem?-set_other k.left.replies i j fs other) in
              omega (arith, t.single j, free, kept)
        ];
        answers = (reply ∙ ap (answer_of h) own, t.answers);
      }

  -- A call whose index no call waits with.
  pub calls-Tracks :
      (args value : Bytes)
      → waiter k (next_running k.left.running) ≡ none
      → Tracks h (record k {
        left = started k.left args value;
        waiting =
            set k.waiting
              (next_running k.left.running)
              (some (record { args = args; value = value }));
      })
  calls-Tracks args value free =
      let i = next_running k.left.running in
      let c : Call = record { args = args; value = value } in
      let ws = set k.waiting i (some c) in
      let limit = t.single i in
      let zero_at : one_if (waiter k i) ≡ 0 = ap one_if free in
      let now : waits_in ws i ≡ some c = ap slot_of (
        get_elem?-set k.waiting i (some c)
          (omega (arith, t.size, next_running-lt k.left.running))) in
      let asked =
        Asks-away h k.waiting i (some c) k.left.write_chnl (omega (arith, limit, zero_at))
          t.asked in
      let ask : Asks ws (request k.left args value) = (c, refl, now, refl, refl) in
      record {
        size = length-set k.waiting i (some c) ∙ t.size;
        still_open = t.still_open;
        channels = t.channels;
        asked =
            elim (ltb (length k.left.write_chnl) write_logs)
              as (λ b. AllFrames (Asks ws) (
                if b
                then k.left.write_chnl ++ (request k.left args value ∷ [])
                else k.left.write_chnl)) [
                  | true ↦
                      AllFrames-append (Asks ws) k.left.write_chnl (request k.left args value) asked
                        ask
                  | false ↦ asked
                ];
        asking =
            Asks-away h k.waiting i (some c) k.to_right (omega (arith, limit, zero_at)) t.asking;
        told =
            Tells-away h k.waiting i (some c) k.right.write_chnl (omega (arith, limit, zero_at))
              t.told;
        telling =
            Tells-away h k.waiting i (some c) k.to_left (omega (arith, limit, zero_at)) t.telling;
        slots = λ j s g. elim (ℕ_discrete i j) [
          | yes same ↦
              let count : in_slot i (get_elem? k.left.replies i) ≡ flying i s =
                ap (in_slot i) (ap (get_elem? k.left.replies) same ∙ g) in
              AllFrames-away (λ x. Tells h k.waiting x × (x.idx ≡ j))
                (λ x. Tells h ws x × (x.idx ≡ j)) i s (omega (arith, limit, zero_at, count))
                (λ x ne p. (Tells-move h k.waiting i (some c) x ne p.0, p.1)) (t.slots j s g)
          | no other ↦
              AllFrames-map (λ x. Tells h k.waiting x × (x.idx ≡ j))
                (λ x. Tells h ws x × (x.idx ≡ j)) s
                (λ x p. (Tells-move h k.waiting i (some c) x (λ e. other (sym e ∙ p.1)) p.0, p.1))
                (t.slots j s g)
        ];
        single = λ j. elim (ℕ_discrete i j) [
          | yes same ↦
              let here : one_if (waits_in ws i) ≡ 1 = ap one_if now in
              let at_most = flying-write_frame i (request k.left args value) k.left.write_chnl in
              let own : is_at i (request k.left args value) ≤ 1 = ground arith in
              subst
                (λ x.
                  flying x (write_frame (request k.left args value) k.left.write_chnl)
                    + flying x k.to_right
                    + flying x k.right.write_chnl
                    + flying x k.to_left
                    + in_slot x (get_elem? k.left.replies x)
                  ≤ one_if (waits_in ws x))
                same (omega (arith, limit, zero_at, here, at_most, own))
          | no other ↦
              let kept =
                ap one_if (waits_in-set_other k.waiting i j (some c) (λ e. other (sym e))) in
              let at_most = flying-write_frame j (request k.left args value) k.left.write_chnl in
              let none_new : is_at j (request k.left args value) ≡ 0 = ground (arith, ==_iff i j) in
              omega (arith, t.single j, kept, at_most, none_new)
        ];
        answers = t.answers;
      }
