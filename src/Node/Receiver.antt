-- ===== src/Node/Receiver.antt =====
-- UdpReceiver of r2sonic/src/udp_receiver.cpp: binding the port, and the handler of datagrams.
pub mod Bind
pub mod Loop
pub mod Delivery
pub mod Ports
use ros2sonic.Prelude.{
  ℕ, zero, suc, ◌+◌, ◌-◌, ◌%◌, ◌^◌, Bool, true, false, not, List, [], ◌∷◌, ◌++◌, length, take, drop,
  ◌==◌, ltb, if◌then◌else◌,
}
use ros2sonic.Outcome.{Outcome, ok, fault, hang, ◌>>=◌}
use ros2sonic.Memory.{Bytes}

-- What the loop of `receive` asks: the answer of `rclcpp::ok()` to its n-th call, and whether the
-- n-th call of `bind` succeeds.
pub record Environment : Type 0 where
  pub is_up : ℕ → Bool
  pub binds : ℕ → Bool

-- The warnings in the log are kept as the attempts at which they are given.
pub record Started : Type 0 where
  pub retry_count : ℕ
  pub warnings : List ℕ

abbrev pub warn : ℕ → List ℕ → List ℕ
warn retry_count warnings = if retry_count % 10 == 1 then warnings ++ retry_count ∷ [] else warnings

-- The loop, with fuel. Every turn but the last raises the count, which is an `int`; waiting between
-- the turns changes no state.
unfoldable pub try_bind : Environment → ℕ → Started → Outcome Started
try_bind env zero s = hang
try_bind env (suc fuel) s =
    let again = try_bind env fuel (record {
      retry_count = s.retry_count + 1;
      warnings = warn (s.retry_count + 1) s.warnings;
    }) in
    if not (env.is_up s.retry_count)
    then ok s
    else if env.binds s.retry_count
    then ok s
    else if ltb (s.retry_count + 1) (2 ^ 31)
    then again
    else fault

-- What `receive` does before it waits for datagrams: how the loop ended, and whether it goes on.
unfoldable pub receive : Environment → ℕ → Outcome (Started × Bool)
receive env fuel = do
  s ← try_bind env fuel (record { retry_count = 0; warnings = [] })
  ok (s, env.is_up (s.retry_count + 1))

-- main listens at gui_baseport and an offset: an `int`, which becomes an unsigned short.
unfoldable pub listen_port : ℕ → ℕ → Outcome ℕ
listen_port offset gui_baseport =
    if ltb (gui_baseport + offset) (2 ^ 31)
    then ok ((gui_baseport + offset) % 65536)
    else if ltb gui_baseport (2 ^ 31)
    then fault
    else ok ((gui_baseport + offset) % 65536)

-- What becomes of a wait: a datagram, or an error.
pub data Arrival : Type 0 where
  arrived : Bytes → Arrival
  failed : Arrival

-- A datagram is written to the front of the buffer, as far as it fits; the rest stays.
abbrev pub overlay : Bytes → Bytes → Bytes
overlay datagram buffer = take (length buffer) datagram ++ drop (length datagram) buffer

-- `waiting` tells whether there is a wait; `state` is what receiveImpl works on.
pub record Receiver (S : Type 0) : Type 0 where
  pub recv_buffer : Bytes
  pub waiting : Bool
  pub state : S

module _ {S : Type 0} (receive_impl : Bytes → ℕ → S → Outcome S) where
  abbrev pub wait : Receiver S → Receiver S
  wait r = record r { waiting = true }

  unfoldable pub receive_handler : Bool → ℕ → Receiver S → Outcome (Receiver S)
  receive_handler error bytes_transferred r = if error then ok r else (do
    state' ← receive_impl r.recv_buffer bytes_transferred r.state
    ok (wait (record r { state = state' })))

  -- A wait ends, and its handler is called.
  unfoldable pub complete : Arrival → Receiver S → Outcome (Receiver S)
  complete (arrived datagram) r =
      receive_handler false (length (take (length r.recv_buffer) datagram))
        (record r { recv_buffer = overlay datagram r.recv_buffer; waiting = false })
  complete failed r = receive_handler true 0 (record r { waiting = false })

  -- io_service_.run() goes on as long as there is a wait.
  unfoldable pub run : List Arrival → Receiver S → Outcome (Receiver S)
  run [] r = ok r
  run (a ∷ arrivals) r =
      let go_on = complete a r >>= run arrivals in if r.waiting then go_on else ok r
