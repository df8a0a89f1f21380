-- ===== src/Receiver/Rate.antt =====
-- `RateTracker` and `estimate_latency_ms` of pc-server/pc_server/receiver.py. Times are whole
-- microseconds; `a - b >= c` and the like are written without the subtraction.
pub mod Laws
use niw_pspto_pc.Base.{
  ℕ, ◌+◌, ◌-◌, ◌*◌, ◌||◌, List, [], ◌∷◌, ◌++◌, Option, none, some, ltb, length, if◌then◌else◌,
}

abbrev pub second : ℕ
second = 1_000_000

abbrev pub max_clock_skew_us : ℕ
max_clock_skew_us = 5 * 60 * 1_000_000

-- The arrival times of the last second, the oldest first.
pub record RateTracker : Type 0 where
  pub arrivals : List ℕ

abbrev pub new_rate : RateTracker
new_rate = record { arrivals = [] }

-- `while arrivals and arrivals[0] < now - 1.0: arrivals.popleft()`
unfoldable pub drop_old : ℕ → List ℕ → List ℕ
drop_old now [] = []
drop_old now (a ∷ arrivals) = if ltb (a + second) now then drop_old now arrivals else a ∷ arrivals

unfoldable pub observe_rate : RateTracker → ℕ → RateTracker × ℕ
unfolding drop_old
observe_rate r now =
    let kept = drop_old now (r.arrivals ++ now ∷ []) in (record { arrivals = kept }, length kept)

-- The latency in microseconds, where the source divides it by 1000 for milliseconds.
unfoldable pub estimate_latency : ℕ → ℕ → Option ℕ
estimate_latency timestamp arrival =
    if ltb arrival timestamp || ltb max_clock_skew_us (arrival - timestamp)
    then none
    else some (arrival - timestamp)
