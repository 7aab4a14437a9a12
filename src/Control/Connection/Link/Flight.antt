-- ===== src/Control/Connection/Link/Flight.antt =====
-- Frames between the two ends of a websocket (controller/data/wsconnection.go): how many have an index.
use my_raft.Base.{ℕ, ◌+◌, ◌==◌, ==_iff, if◌then◌else◌, ◌≡◌, ◌≢◌, List, [], ◌∷◌, ◌++◌, arith}
use my_raft.Control.Connection.{Frame}

abbrev pub is_at : ℕ → Frame → ℕ
is_at i f = if f.idx == i then 1 else 0

abbrev pub flying : ℕ → List Frame → ℕ
flying i [] = 0
flying i (f ∷ fs) = is_at i f + flying i fs

abbrev pub AllFrames : (Frame → Type 0) → List Frame → Type 0
AllFrames P [] = Unit
AllFrames P (f ∷ fs) = P f × AllFrames P fs

pub flying-append :
    (i : ℕ) (fs : List Frame) (f : Frame) → flying i (fs ++ (f ∷ [])) ≡ flying i fs + is_at i f
flying-append i [] f = omega arith
flying-append i (g ∷ fs) f = omega (arith, flying-append i fs f)

pub AllFrames-append :
    (P : Frame → Type 0) (fs : List Frame) (f : Frame)
    → AllFrames P fs
    → P f
    → AllFrames P (fs ++ (f ∷ []))
AllFrames-append P [] f a p = (p, tt)
AllFrames-append P (g ∷ fs) f (q, a) p = (q, AllFrames-append P fs f a p)

-- Where no frame has the index, what holds of frames with other indices holds of all.
pub AllFrames-away :
    (P Q : Frame → Type 0) (i : ℕ) (fs : List Frame)
    → flying i fs ≡ 0
    → ((f : Frame) → f.idx ≢ i → P f → Q f)
    → AllFrames P fs
    → AllFrames Q fs
AllFrames-away P Q i [] none_at move a = tt
AllFrames-away P Q i (f ∷ fs) none_at move (p, a) = (
  move f (λ e. absurd (ground (arith, ==_iff f.idx i))) p,
  AllFrames-away P Q i fs (omega arith) move a,
)

pub AllFrames-map :
    (P Q : Frame → Type 0) (fs : List Frame)
    → ((f : Frame) → P f → Q f)
    → AllFrames P fs
    → AllFrames Q fs
AllFrames-map P Q [] move a = tt
AllFrames-map P Q (f ∷ fs) move (p, a) = (move f p, AllFrames-map P Q fs move a)
