-- ===== src/Worker/Backoff.antt =====
-- The back-off of `run_forever` while Redis fails.
use baa_system.Base.{ℕ, ◌*◌, ◌≤◌, Bool, true, false, List, [], ◌∷◌, arith, min}
use baa_system.Worker.Loop.{next_delay, sleeps}

-- Every sleep lasts from 1 to 30 seconds.
abbrev pub WithinBounds : List ℕ → Type 0
WithinBounds [] = Unit
WithinBounds (d ∷ ds) = (1 ≤ d) × (d ≤ 30) × WithinBounds ds

-- From a delay of 1 to 30 seconds on, whichever rounds of the worker fail and succeed, every sleep
-- lasts from 1 to 30 seconds.
pub sleeps_bounded :
    (delay : ℕ) (rounds : List Bool) → 1 ≤ delay → delay ≤ 30 → WithinBounds (sleeps delay rounds)
unfolding sleeps next_delay
sleeps_bounded delay [] low high = tt
sleeps_bounded delay (true ∷ rounds) low high =
    (low, high, sleeps_bounded (min (delay * 2) 30) rounds (omega arith) (omega arith))
sleeps_bounded delay (false ∷ rounds) low high = sleeps_bounded 1 rounds (omega arith) (omega arith)
