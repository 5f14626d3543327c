-- ===== src/Examples/Connection.antt =====
-- A concrete connection (src/connection.cpp) that waits for the acknowledgement of its ping.
use chttp.Prelude.{List, ◌≡◌, ◌==◌, some, true, inl, refl, arith}
use chttp.Connection.{Effect, Connection, wake_timer, react}
use chttp.Connection.Timers.{IsTidy, Tidies}
use chttp.Connection.Reacting.{react-Tidies}
use chttp.Protocol.Sound.{OrUndefined}
use chttp.Examples.Hpack.{plain_coder}
use chttp.Examples.Session.{busy, busy-IsSoundSession}

abbrev pinging : Connection
pinging = record {
  ping_interval_sec = 30;
  ping_timeout_sec = 10;
  session = busy;
  session_fd = some 4;
  connected = true;
  pending_ping = true;
  ping_timer_id = 0;
  ping_timeout_timer_id = 2;
  timers = record { next_timer_id = 3; armed = λ k. k == 2 };
}

pinging-IsTidy : IsTidy pinging
pinging-IsTidy = record {
  tidy = record {
    armed_exactly = λ k. ground arith;
    given = (omega arith, omega arith, omega arith);
    waits = inl (refl, refl);
    quiet = inl refl;
  };
}

react-Tidies_example :
    (out : List Effect × Connection) × (react plain_coder pinging (wake_timer 2) ≡ some out)
    × OrUndefined (out.1).session.protocol (Tidies out)
react-Tidies_example =
    react-Tidies plain_coder pinging (wake_timer 2) busy-IsSoundSession pinging-IsTidy
