-- ===== src/Control/Connection/Replies.antt =====
-- The indices of the calls over a websocket, and where their replies go (controller/data/wsconnection.go).
use my_raft.Base.{
  ℕ, ◌+◌, ◌%◌, ◌<◌, ◌≤◌, Option, none, some, List, [], ◌∷◌, ◌++◌, length, Bytes, ◌>>=◌, ◌≡◌, refl,
  arith, get_elem?, get_elem?-set, get_elem?-some, get_elem?-lt, ap, ◌∙◌, zero, suc, true, false,
}
use my_raft.Control.Connection.{
  MsgType, Frame, WsConnection, connections, next_running, started, write_and_receive,
  deliver_reply, ws_read, next_times,
}

pub next_running-lt : (r : ℕ) → next_running r < connections
next_running-lt r = ground arith

next_times-lem : (k r : ℕ) → r < connections → next_times k r ≡ (r + k) % connections
unfolding next_times
next_times-lem zero r h = omega arith
next_times-lem (suc k) r h = ground (arith, next_times-lem k r h)

deliver_reply-lem :
    (w : WsConnection) (f : Frame) (slot : List Frame)
    → get_elem? w.replies f.idx ≡ some slot
    → (deliver_reply w f >>= λ w'. get_elem? w'.replies f.idx) ≡ some (slot ++ (f ∷ []))
deliver_reply-lem w f slot e =
    rw e (get_elem?-set w.replies f.idx (slot ++ (f ∷ [])) (get_elem?-lt w.replies f.idx slot e))

ws_read-reply :
    (w : WsConnection) (h : Option (Bytes → Option Bytes)) (f : Frame)
    → f.msg_type ≡ MsgType.reply
    → ws_read w h f ≡ deliver_reply w f
unfolding ws_read
ws_read-reply w none f t = refl
ws_read-reply w (some h) f t = rw t refl

-- A call in RPC mode, on an open connection with all its channels, has an index that a channel exists
-- for: when a reply with the index of the call is read, whatever the method, it goes to that
-- channel, behind what was sent there.
pub write_and_receive-ws_read :
    (w : WsConnection) (arg value : Bytes) (h : Option (Bytes → Option Bytes)) (f : Frame)
    → w.grpc_mode ≡ true
    → w.closed ≡ false
    → length w.replies ≡ connections
    → f.msg_type ≡ MsgType.reply
    → f.idx ≡ next_running w.running
    → (write_and_receive w arg value ≡ some (started w arg value, some f.idx))
      × (slot : List Frame) × (get_elem? w.replies f.idx ≡ some slot)
      × ((ws_read (started w arg value) h f >>= λ w'. get_elem? w'.replies f.idx)
          ≡ some (slot ++ (f ∷ [])))
unfolding write_and_receive
write_and_receive-ws_read w arg value h f g o n t i =
    let (slot, found) = get_elem?-some w.replies f.idx (rw (i, n) (next_running-lt w.running)) in
    (
      rw (g, o, i) refl,
      slot,
      found,
      ap (λ p. p >>= λ (w' : WsConnection). get_elem? w'.replies f.idx) (ws_read-reply _ h f t)
          ∙ deliver_reply-lem (started w arg value) f slot found,
    )

-- An index is used again after 256 calls at the earliest.
pub next_times-distinct :
    (r k l : ℕ) → r < connections → k < l → next_times k r ≡ next_times l r → k + connections ≤ l
next_times-distinct r k l h lt e = omega (arith, next_times-lem k r h, next_times-lem l r h)
