-- ===== src/Control/Connection/Link/Tracks.antt =====
-- Which calls the frames on a websocket (controller/data/wsconnection.go) belong to.
use my_raft.Base.{
  ℕ, ◌+◌, ◌≤◌, if◌then◌else◌, true, false, ◌≡◌, ◌≢◌, sym, ap, ◌∙◌, Option, none, some, List, [],
  ◌∷◌, ◌++◌, length, Bytes, get_elem?, get_elem?-set_other, set, arith, ltb,
}
use my_raft.Control.Connection.{MsgType, Frame, connections, write_logs, write_frame}
use my_raft.Control.Connection.Link.{Call, answer_of, Link, slot_of, waiter}
use my_raft.Control.Connection.Link.Flight.{is_at, flying, AllFrames, flying-append, AllFrames-away}

abbrev pub waits_in : List (Option Call) → ℕ → Option Call
waits_in ws i = slot_of (get_elem? ws i)

-- The frame asks for a call that waits.
abbrev pub Asks : List (Option Call) → Frame → Type 0
Asks ws f =
    (c : Call) × (f.msg_type ≡ MsgType.need_reply)
    × (waits_in ws f.idx ≡ some c)
    × (f.args ≡ c.args)
    × (f.reply ≡ c.value)

-- The frame has the answer to a call that waits.
abbrev pub Tells : (Bytes → Option Bytes) → List (Option Call) → Frame → Type 0
Tells h ws f =
    (c : Call) × (f.msg_type ≡ MsgType.reply)
    × (waits_in ws f.idx ≡ some c)
    × (f.reply ≡ answer_of h c)

abbrev pub AllAnswered : (Bytes → Option Bytes) → List (Call × Bytes) → Type 0
AllAnswered h [] = Unit
AllAnswered h ((c, r) ∷ rest) = (r ≡ answer_of h c) × AllAnswered h rest

abbrev pub in_slot : ℕ → Option (List Frame) → ℕ
in_slot i none = 0
in_slot i (some fs) = flying i fs

abbrev pub one_if : Option Call → ℕ
one_if none = 0
one_if (some c) = 1

abbrev pub in_flight : Link → ℕ → ℕ
in_flight k i =
    flying i k.left.write_chnl
    + flying i k.to_right
    + flying i k.right.write_chnl
    + flying i k.to_left
    + in_slot i (get_elem? k.left.replies i)

-- Every frame belongs to a call that waits, at most one to each.
pub record Tracks (h : Bytes → Option Bytes) (k : Link) : Type 0 where
  pub size : length k.waiting ≡ connections
  pub still_open : k.left.closed ≡ false
  pub channels : length k.left.replies ≡ connections
  pub asked : AllFrames (Asks k.waiting) k.left.write_chnl
  pub asking : AllFrames (Asks k.waiting) k.to_right
  pub told : AllFrames (Tells h k.waiting) k.right.write_chnl
  pub telling : AllFrames (Tells h k.waiting) k.to_left
  pub slots :
      (i : ℕ) (fs : List Frame)
      → get_elem? k.left.replies i ≡ some fs
      → AllFrames (λ f. Tells h k.waiting f × (f.idx ≡ i)) fs
  pub single : (i : ℕ) → in_flight k i ≤ one_if (waiter k i)
  pub answers : AllAnswered h k.finished

-- Waiting calls stay as they are, but for the one at i.
pub waits_in-set_other :
    (ws : List (Option Call)) (i j : ℕ) (o : Option Call)
    → j ≢ i
    → waits_in (set ws i o) j ≡ waits_in ws j
waits_in-set_other ws i j o ne = ap slot_of (get_elem?-set_other ws i j o (λ e. ne (sym e)))

module _ (h : Bytes → Option Bytes) (ws : List (Option Call)) (i : ℕ) (o : Option Call) where
  pub Asks-away :
      (fs : List Frame)
      → flying i fs ≡ 0
      → AllFrames (Asks ws) fs
      → AllFrames (Asks (set ws i o)) fs
  Asks-away fs none_at a =
      AllFrames-away (Asks ws) (Asks (set ws i o)) i fs none_at
        (λ f ne (p : Asks ws f). (p.0, p.1, waits_in-set_other ws i f.idx o ne ∙ p.2, p.3, p.4)) a

  pub Tells-move : (f : Frame) → f.idx ≢ i → Tells h ws f → Tells h (set ws i o) f
  Tells-move f ne p = (p.0, p.1, waits_in-set_other ws i f.idx o ne ∙ p.2, p.3)

  pub Tells-away :
      (fs : List Frame)
      → flying i fs ≡ 0
      → AllFrames (Tells h ws) fs
      → AllFrames (Tells h (set ws i o)) fs
  Tells-away fs none_at a =
      AllFrames-away (Tells h ws) (Tells h (set ws i o)) i fs none_at Tells-move a

pub flying-write_frame :
    (j : ℕ) (f : Frame) (chnl : List Frame)
    → flying j (write_frame f chnl) ≤ flying j chnl + is_at j f
flying-write_frame j f chnl =
    elim (ltb (length chnl) write_logs)
      as (λ b. flying j (if b then chnl ++ (f ∷ []) else chnl) ≤ flying j chnl + is_at j f) [
        | true ↦ omega (arith, flying-append j chnl f)
        | false ↦ omega arith
      ]
