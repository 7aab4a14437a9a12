-- ===== src/Control/Connection/Link/Moves.antt =====
-- A frame that moves along the websocket (controller/data/wsconnection.go) keeps its call.
use my_raft.Base.{
  ℕ, ◌==◌, if◌then◌else◌, inl, inr, ◌≡◌, refl, sym, subst, ap, ◌∙◌, Option, Option-cases, none,
  some, List, [], ◌∷◌, ◌++◌, length-set, Bytes, get_elem?, get_elem?-set, get_elem?-set_other,
  get_elem?-lt, set, arith, ℕ_discrete,
}
use mathlib.Core.Option.{some-injective}
use my_raft.Control.Connection.{MsgType, Frame, answered}
use my_raft.Control.Connection.Link.{answer_of, Link}
use my_raft.Control.Connection.Link.Flight.{
  is_at, flying, AllFrames, flying-append, AllFrames-append,
}
use my_raft.Control.Connection.Link.Tracks.{Asks, Tells, in_slot, Tracks}

-- The steps that move one frame along.
module _ (h : Bytes → Option Bytes) (k : Link) (t : Tracks h k) where
  pub left_writes-Tracks :
      (f : Frame) (fs : List Frame)
      → k.left.write_chnl ≡ f ∷ fs
      → Tracks h
          (record k { left = record k.left { write_chnl = fs }; to_right = k.to_right ++ (f ∷ []) })
  left_writes-Tracks f fs e =
      let a = subst (AllFrames (Asks k.waiting)) e t.asked in
      record {
        size = t.size;
        still_open = t.still_open;
        channels = t.channels;
        asked = a.1;
        asking = AllFrames-append (Asks k.waiting) k.to_right f t.asking a.0;
        told = t.told;
        telling = t.telling;
        slots = t.slots;
        single = λ i. omega (arith, t.single i, ap (flying i) e, flying-append i k.to_right f);
        answers = t.answers;
      }

  pub right_writes-Tracks :
      (f : Frame) (fs : List Frame)
      → k.right.write_chnl ≡ f ∷ fs
      → Tracks h
          (record k { right = record k.right { write_chnl = fs }; to_left = k.to_left ++ (f ∷ []) })
  right_writes-Tracks f fs e =
      let a = subst (AllFrames (Tells h k.waiting)) e t.told in
      record {
        size = t.size;
        still_open = t.still_open;
        channels = t.channels;
        asked = t.asked;
        asking = t.asking;
        told = a.1;
        telling = AllFrames-append (Tells h k.waiting) k.to_left f t.telling a.0;
        slots = t.slots;
        single = λ i. omega (arith, t.single i, ap (flying i) e, flying-append i k.to_left f);
        answers = t.answers;
      }

  answered-Tells : (f : Frame) → Asks k.waiting f → Tells h k.waiting (answered h f)
  answered-Tells f (c, ask, at, args, value) = elim (Option-cases (h f.args)) [
    | inl e ↦
        let e' : h c.args ≡ none = ap h (sym args) ∙ e in
        rw (answered, e) (c, refl, at, value ∙ rw (answer_of, e') refl)
    | inr (r, e) ↦
        let e' : h c.args ≡ some r = ap h (sym args) ∙ e in
        rw (answered, e) (c, refl, at, rw (answer_of, e') refl)
  ]

  pub right_reads-Tracks :
      (f : Frame) (fs : List Frame)
      → k.to_right ≡ f ∷ fs
      → Tracks h (record k {
        right = record k.right { write_chnl = k.right.write_chnl ++ (answered h f ∷ []) };
        to_right = fs;
      })
  right_reads-Tracks f fs e =
      let a = subst (AllFrames (Asks k.waiting)) e t.asking in
      let idx : (answered h f).idx ≡ f.idx =
        elim (h f.args)
          as (λ o.
            (elim o as (λ x. Frame) [
              | none ↦ record f { msg_type = MsgType.reply }
              | some r ↦ record f { msg_type = MsgType.reply; reply = r }
            ]).idx
            ≡ f.idx) [ none ↦ refl | some r ↦ refl ] in
      record {
        size = t.size;
        still_open = t.still_open;
        channels = t.channels;
        asked = t.asked;
        asking = a.1;
        told =
            AllFrames-append (Tells h k.waiting) k.right.write_chnl (answered h f) t.told
              (answered-Tells f a.0);
        telling = t.telling;
        slots = t.slots;
        single = λ i.
            let n = flying-append i k.right.write_chnl (answered h f) in
            let same : is_at i (answered h f) ≡ is_at i f =
              ap (λ (x : ℕ). if x == i then 1 else 0) idx in
            omega (arith, t.single i, ap (flying i) e, n, same);
        answers = t.answers;
      }

  -- A reply goes to the channel of its index.
  pub left_reads-Tracks :
      (f : Frame) (fs slot : List Frame)
      → k.to_left ≡ f ∷ fs
      → get_elem? k.left.replies f.idx ≡ some slot
      → Tracks h (record k {
        left = record k.left { replies = set k.left.replies f.idx (slot ++ (f ∷ [])) };
        to_left = fs;
      })
  left_reads-Tracks f fs slot e at =
      let a = subst (AllFrames (Tells h k.waiting)) e t.telling in
      let lt = get_elem?-lt k.left.replies f.idx slot at in
      let now = get_elem?-set k.left.replies f.idx (slot ++ (f ∷ [])) lt in
      record {
        size = t.size;
        still_open = t.still_open;
        channels = length-set k.left.replies f.idx (slot ++ (f ∷ [])) ∙ t.channels;
        asked = t.asked;
        asking = t.asking;
        told = t.told;
        telling = a.1;
        slots = λ i s g. elim (ℕ_discrete f.idx i) [
          | yes same ↦
              let g' : get_elem? (set k.left.replies f.idx (slot ++ (f ∷ []))) f.idx ≡ some s =
                ap (get_elem? (set k.left.replies f.idx (slot ++ (f ∷ [])))) same ∙ g in
              let it : slot ++ (f ∷ []) ≡ s = some-injective _ _ (sym now ∙ g') in
              subst (AllFrames (λ x. Tells h k.waiting x × (x.idx ≡ i))) it (
                AllFrames-append (λ x. Tells h k.waiting x × (x.idx ≡ i)) slot f
                  (t.slots i slot (ap (get_elem? k.left.replies) (sym same) ∙ at)) (a.0, same))
          | no other ↦ t.slots i s (sym (get_elem?-set_other k.left.replies f.idx i _ other) ∙ g)
        ];
        single = λ i. elim (ℕ_discrete f.idx i) [
          | yes same ↦
              let before : in_slot i (get_elem? k.left.replies i) ≡ flying i slot =
                ap (in_slot i) (ap (get_elem? k.left.replies) (sym same) ∙ at) in
              let after : in_slot i (get_elem? (set k.left.replies f.idx (slot ++ (f ∷ []))) i)
                  ≡ flying i (slot ++ (f ∷ [])) =
                ap (in_slot i)
                  (ap (get_elem? (set k.left.replies f.idx (slot ++ (f ∷ [])))) (sym same) ∙ now) in
              omega (arith, t.single i, ap (flying i) e, before, after, flying-append i slot f)
          | no other ↦
              let same =
                ap (in_slot i)
                  (get_elem?-set_other k.left.replies f.idx i (slot ++ (f ∷ [])) other) in
              omega (arith, t.single i, ap (flying i) e, same)
        ];
        answers = t.answers;
      }
