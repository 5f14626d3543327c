-- ===== src/Flow/InFlow.antt =====
-- struct InFlow of include/chttp2/flow.hpp and its methods in src/flow.cpp. An int32_t is the
-- integer that it stands for; the sum that the code computes in int64_t is exact, and
-- `avail += unsnt` is written without a wrap, which Flow/Credit.antt justifies.
use chttp.Prelude.{ℕ, Bool, true, false, ◌&&◌, ◌||◌, if◌then◌else◌, ltb, ◌==◌}
use chttp.Prelude.Int.{ℤ, pos, negsuc, pos_part, ◌+ℤ◌, ◌-ℤ◌, ltb_ℤ, int32_max, signed32}

abbrev pub inflow_min_refresh : ℤ
inflow_min_refresh = pos 4096

pub record InFlow : Type 0 where
  pub avail : ℤ
  pub unsent : ℤ

abbrev pub empty : InFlow
empty = record { avail = pos 0; unsent = pos 0 }

unfoldable pub init : InFlow → ℤ → InFlow
init f n = record f { avail = n }

-- The increment to announce: 0 for none yet, -1 for an overflow.
unfoldable pub add : InFlow → ℤ → InFlow × ℤ
add f n =
    let sum = f.unsent +ℤ n in
    if ltb_ℤ int32_max sum
    then (f, negsuc 0)
    else if ltb_ℤ sum inflow_min_refresh && ltb_ℤ sum f.avail
    then (record f { unsent = sum }, pos 0)
    else (record { avail = f.avail +ℤ sum; unsent = pos 0 }, sum)

unfoldable pub take : InFlow → ℕ → InFlow × Bool
take f n =
    if ltb_ℤ f.avail (pos 1)
    then (f, false)
    else if ltb (pos_part f.avail) n
    then (f, false)
    else (record f { avail = f.avail -ℤ signed32 n }, true)

unfoldable pub take_inflows : InFlow → InFlow → ℕ → InFlow × InFlow × Bool
take_inflows f1 f2 n =
    if n == 0
    then (f1, f2, true)
    else if ltb_ℤ f1.avail (pos 1) || ltb_ℤ f2.avail (pos 1)
    then (f1, f2, false)
    else if ltb (pos_part f1.avail) n || ltb (pos_part f2.avail) n
    then (f1, f2, false)
    else (
      record f1 { avail = f1.avail -ℤ signed32 n },
      record f2 { avail = f2.avail -ℤ signed32 n },
      true,
    )
