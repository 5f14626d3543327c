-- ===== src/Examples/Flow.antt =====
-- Concrete flow-control windows (src/flow.cpp).
use chttp.Prelude.{◌≡◌, ◌↔◌, ◌⊎◌, true, false, some, arith, refl, if◌then◌else◌}
use chttp.Prelude.Int.{pos, negsuc, ◌+ℤ◌, ◌≤ℤ◌, int32_min, int32_max}
use chttp.Flow.InFlow
use chttp.Flow.InFlow.{InFlow}
use chttp.Flow.OutFlow
use chttp.Flow.OutFlow.{OutFlow}
use chttp.Flow.Credit.{HasCredit, add-take_inflows, take_inflows_exact}
use chttp.Flow.Send.{available-take, add_exact}

abbrev whole : InFlow
whole = record { avail = pos 65535; unsent = pos 0 }

abbrev small : InFlow
small = record { avail = pos 10; unsent = pos 0 }

whole-HasCredit : HasCredit 65535 whole
unfolding ◌+ℤ◌
whole-HasCredit = record { whole = refl; unsent_nonneg = omega arith; avail_nonneg = omega arith }

add-take_inflows_example :
    HasCredit 65535 (InFlow.add (InFlow.take_inflows whole whole 5000).0 (pos 5000)).0
    × HasCredit 65535 (InFlow.add (InFlow.take_inflows whole whole 5000).1 (pos 5000)).0
    × (pos 0 ≤ℤ (InFlow.add (InFlow.take_inflows whole whole 5000).0 (pos 5000)).1)
    × (pos 0 ≤ℤ (InFlow.add (InFlow.take_inflows whole whole 5000).1 (pos 5000)).1)
    × ((InFlow.add (InFlow.take_inflows whole whole 5000).0 (pos 5000)).0.avail
        ≡ (InFlow.take_inflows whole whole 5000).0.avail
          +ℤ (InFlow.add (InFlow.take_inflows whole whole 5000).0 (pos 5000)).1)
    × ((InFlow.add (InFlow.take_inflows whole whole 5000).1 (pos 5000)).0.avail
        ≡ (InFlow.take_inflows whole whole 5000).1.avail
          +ℤ (InFlow.add (InFlow.take_inflows whole whole 5000).1 (pos 5000)).1)
unfolding InFlow.take_inflows
add-take_inflows_example =
    add-take_inflows 65535 65535 5000 whole whole (omega arith) (omega arith) whole-HasCredit
      whole-HasCredit refl

take_inflows_exact_example :
    (((InFlow.take_inflows whole small 11).2 ≡ true)
      ↔ ((pos 11 ≤ℤ whole.avail) × (pos 11 ≤ℤ small.avail)))
    × ((InFlow.take_inflows whole small 11 ≡ (whole, small, false))
        ⊎ (((InFlow.take_inflows whole small 11).0.avail +ℤ pos 11 ≡ whole.avail)
            × ((InFlow.take_inflows whole small 11).1.avail +ℤ pos 11 ≡ small.avail)
            × ((InFlow.take_inflows whole small 11).2 ≡ true)))
take_inflows_exact_example =
    take_inflows_exact 11 whole small (omega arith) (omega arith) (omega arith)

abbrev conn : OutFlow
conn = record { window = pos 30 }

abbrev stream : OutFlow
stream = record { window = pos 20 }

available-take_example :
    (conn' : OutFlow) × (f' : OutFlow) × (OutFlow.take (some conn) stream (pos 20)
      ≡ some (some conn', f'))
    × (conn'.window +ℤ pos 20 ≡ conn.window)
    × (f'.window +ℤ pos 20 ≡ stream.window)
    × (OutFlow.available (some conn') f' +ℤ pos 20 ≡ OutFlow.available (some conn) stream)
unfolding OutFlow.available
available-take_example = available-take conn stream 20 (omega arith)

add_exact_example :
    (((OutFlow.add conn (negsuc 40)).1 ≡ true)
      ↔ ((int32_min ≤ℤ conn.window +ℤ negsuc 40) × (conn.window +ℤ negsuc 40 ≤ℤ int32_max)))
    × ((OutFlow.add conn (negsuc 40)).0.window
        ≡ (if (OutFlow.add conn (negsuc 40)).1 then conn.window +ℤ negsuc 40 else conn.window))
add_exact_example = add_exact conn (negsuc 40)
