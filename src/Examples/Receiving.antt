-- ===== src/Examples/Receiving.antt =====
-- The receiver and the discovery tool.
use ros2sonic.Prelude.{
  ℕ, ◌+◌, ◌/◌, ◌≡◌, refl, sym, ap, ◌∙◌, true, false, some, List, [], ◌∷◌, ◌++◌, map, length, leb,
  arith,
}
use ros2sonic.Outcome.{Outcome, ok, ◌>>=◌}
use ros2sonic.Memory.{Bytes, rev_primitive}
use ros2sonic.Memory.Endian.{le_bytes-rev_primitive, rev_primitive-eq, rev_primitive-rev_primitive}
use ros2sonic.Text.{text}
use ros2sonic.Discover.{Host, Calls, quiet, discover, ip_to_u32}
use ros2sonic.Discover.Answers.{IsNetworkOrder, Device, answer_of, line_of, request, discover-eq}
use ros2sonic.Node.Receiver.{Environment, arrived, failed, receive, run}
use ros2sonic.Node.Receiver.Bind.{EndsAt, warned, receive-eq}
use ros2sonic.Node.Receiver.Loop.{buffer_after, handle_all, at_work, run-arrived_all, run-failed}

-- The port is free from the third attempt on.
abbrev busy : Environment
busy = record { is_up = λ n. true; binds = λ n. leb 2 n }

busy-EndsAt : EndsAt busy 2
busy-EndsAt = record { ends = refl; goes_on = λ i below. (refl, ground arith) }

receive-eq_example :
    (receive busy 10 ≡ ok (record { retry_count = 2; warnings = warned 2 }, true))
    × (length (warned 2) ≡ (2 + 9) / 10)
receive-eq_example = receive-eq busy 2 10 busy-EndsAt (omega arith) (omega arith)

-- A receiveImpl that keeps what it is called with.
abbrev keep : Bytes → ℕ → List Bytes → Outcome (List Bytes)
keep buffer size seen = ok (seen ++ buffer ∷ [])

abbrev two : List Bytes
two = text "long" ∷ text "ab" ∷ []

run-arrived_all_example : run keep (map arrived two) (at_work keep (text "------") []) ≡ (
    handle_all keep two (text "------") [] >>= λ state'.
    ok (at_work keep (buffer_after two (text "------")) state'))
run-arrived_all_example = run-arrived_all keep two (text "------") []

-- The second datagram is seen with the end of the first.
seen : handle_all keep two (text "------") [] ≡ ok (text "long--" ∷ text "abng--" ∷ [])
seen = refl

run-failed_example :
    run keep
      (map arrived two ++ failed ∷ arrived (text "late") ∷ [])
      (at_work keep (text "------") [])
    ≡ (handle_all keep two (text "------") [] >>= λ state'. ok (record {
      recv_buffer = buffer_after two (text "------");
      waiting = false;
      state = state';
    }))
run-failed_example = run-failed keep two (arrived (text "late") ∷ []) (text "------") []

-- A machine whose bytes lie in the other order.
abbrev host : Host
host = record {
  inet = record { inet_pton = λ s. some 0x6601000A; ntohl = λ n. rev_primitive 4 n };
  htonl = λ n. rev_primitive 4 n;
  htons = λ n. rev_primitive 2 n;
}

host-IsNetworkOrder : IsNetworkOrder host
host-IsNetworkOrder = record {
  long = λ v h. le_bytes-rev_primitive 4 v;
  short = λ v h. le_bytes-rev_primitive 2 v;
  back =
      λ v h. ap (rev_primitive 4) (sym (rev_primitive-eq 4 v)) ∙ rev_primitive-rev_primitive 4 v h;
}

abbrev devices : List Device
devices =
    record {
      address = text "10.0.0.86";
      serial = text "101";
      part = text "R2Sonic-2024";
      model = text "2024";
    }
    ∷ record { address = text "10.0.0.99"; serial = text "202"; part = []; model = text "SIM" }
    ∷ []

abbrev working : Calls
working = record { socket = true; bind = true; sendto = true }

discover-eq_example :
    discover host working (map answer_of devices ++ quiet ∷ [])
    ≡ ok (record { exit_code = 0; sent = request 0x0A000166 ∷ []; output = map line_of devices })
unfolding ip_to_u32 rev_primitive
discover-eq_example =
    discover-eq host working devices [] 0x0A000166 host-IsNetworkOrder refl refl refl refl
      (omega arith) (omega arith)
