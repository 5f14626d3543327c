-- ===== src/Flow/OutFlow.antt =====
-- struct OutFlow of include/chttp2/flow.hpp and its methods in src/flow.cpp. The pointer `conn` is
-- the argument `conn`: `none` is nullptr, and what it points to, the connection's window, comes
-- back beside the stream's.
use chttp.Prelude.{Bool, true, false, ◌||◌, Option, none, some, if◌then◌else◌}
use chttp.Prelude.Int.{ℤ, pos, ◌+ℤ◌, ◌-ℤ◌, ltb_ℤ, int32_max, int32_min}

pub record OutFlow : Type 0 where
  pub window : ℤ

abbrev pub empty : OutFlow
empty = record { window = pos 0 }

unfoldable pub available : Option OutFlow → OutFlow → ℤ
available none f = f.window
available (some conn) f = if ltb_ℤ conn.window f.window then conn.window else f.window

take_conn : Option OutFlow → ℤ → Option OutFlow
take_conn none n = none
take_conn (some conn) n = some (record { window = conn.window -ℤ n })

-- `none` is the thrown "took too much".
unfoldable pub take : Option OutFlow → OutFlow → ℤ → Option (Option OutFlow × OutFlow)
unfolding take_conn
take conn f n =
    if ltb_ℤ (available conn f) n
    then none
    else some (take_conn conn n, record { window = f.window -ℤ n })

unfoldable pub add : OutFlow → ℤ → OutFlow × Bool
add f n =
    let sum = f.window +ℤ n in
    if ltb_ℤ int32_max sum || ltb_ℤ sum int32_min
    then (f, false)
    else (record { window = sum }, true)
