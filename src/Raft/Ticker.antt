-- ===== src/Raft/Ticker.antt =====
-- The goroutine "Heartbeat timer routine" of raft/raft.go: when its ticker runs. What it does on a
-- tick is `heart_beat_tick` of Raft/Leader.
use my_raft.Base.{Bool, false, List, [], ◌∷◌}
use my_raft.Raft.State.{Effect, rpc_signal, timer_reset, metrics, apply}

-- A value from `heartBeatTimerReset`: the ticker is stopped and drained, and made again on `true`.
abbrev pub reset_ticker : Bool → Bool → Bool
reset_ticker r on = r

-- Whether the ticker runs once the goroutine has read all the values that were sent; `Make` stops it.
unfoldable pub ticker_on : List Effect → Bool
ticker_on [] = false
ticker_on (rpc_signal ∷ es) = ticker_on es
ticker_on (timer_reset r ∷ es) = reset_ticker r (ticker_on es)
ticker_on (metrics m ∷ es) = ticker_on es
ticker_on (apply m ∷ es) = ticker_on es
