-- ===== src/Flow/Send.antt =====
-- The send window: what may be sent, and what sending does to it (OutFlow of src/flow.cpp).
use chttp.Prelude.{ℕ, ◌≡◌, ◌↔◌, true, some, arith, if◌then◌else◌}
use chttp.Prelude.Int.{ℤ, pos, ◌+ℤ◌, ◌-ℤ◌, ◌≤ℤ◌, int32_max, int32_min}
use chttp.Flow.OutFlow
use chttp.Flow.OutFlow.{OutFlow}

-- When n does not exceed what is available, taking n bytes does not throw: the connection's and
-- the stream's window both fall by n, and so does what is available.
pub available-take :
    (conn f : OutFlow) (n : ℕ)
    → pos n ≤ℤ OutFlow.available (some conn) f
    → (conn' : OutFlow) × (f' : OutFlow) × (OutFlow.take (some conn) f (pos n)
        ≡ some (some conn', f'))
      × (conn'.window +ℤ pos n ≡ conn.window)
      × (f'.window +ℤ pos n ≡ f.window)
      × (OutFlow.available (some conn') f' +ℤ pos n ≡ OutFlow.available (some conn) f)
unfolding OutFlow.take OutFlow.available ◌+ℤ◌ ◌-ℤ◌
available-take conn f n h = (
  record { window = conn.window -ℤ pos n },
  record { window = f.window -ℤ pos n },
  ground arith,
  ground arith,
  ground arith,
  ground arith,
)

-- `add` succeeds exactly when the sum is an int32_t; then the window is the sum, and otherwise it
-- is as it was.
pub add_exact :
    (f : OutFlow) (n : ℤ)
    → (((OutFlow.add f n).1 ≡ true) ↔ ((int32_min ≤ℤ f.window +ℤ n) × (f.window +ℤ n ≤ℤ int32_max)))
      × ((OutFlow.add f n).0.window ≡ (if (OutFlow.add f n).1 then f.window +ℤ n else f.window))
unfolding OutFlow.add
add_exact f n = ground arith
