-- ===== src/Packet/Bth0.antt =====
-- r2sonic/include/r2sonic/packets/bth0.hpp: the sections of a bathymetry packet. Each one starts at
-- the end of the one before, and an absent section ends where it starts.
use ros2sonic.Outcome.{Outcome, ok, ◌>>=◌, ◌>>◌}
use ros2sonic.Section as Base
use ros2sonic.Section.{Section, end}
use ros2sonic.Packet.{Packet, sections_start_bit, type_error_check}

unfoldable pub h0 : Packet → Outcome Section
h0 pkt = do
  type_error_check pkt
  ok (record { kind = Base.Kind.h0; start_bit = sections_start_bit pkt })

unfoldable pub r0 : Packet → Outcome Section
r0 pkt = do
  type_error_check pkt
  before ← h0 pkt
  p ← end before
  ok (record { kind = Base.Kind.r0; start_bit = p })

unfoldable pub a0 : Packet → Outcome Section
a0 pkt = do
  type_error_check pkt
  before ← r0 pkt
  p ← end before
  ok (record { kind = Base.Kind.a0; start_bit = p })

unfoldable pub a2 : Packet → Outcome Section
a2 pkt = do
  type_error_check pkt
  before ← a0 pkt
  p ← end before
  ok (record { kind = Base.Kind.a2; start_bit = p })

unfoldable pub i1 : Packet → Outcome Section
i1 pkt = do
  type_error_check pkt
  before ← a2 pkt
  p ← end before
  ok (record { kind = Base.Kind.i1; start_bit = p })

unfoldable pub g0 : Packet → Outcome Section
g0 pkt = do
  type_error_check pkt
  before ← i1 pkt
  p ← end before
  ok (record { kind = Base.Kind.g0; start_bit = p })

unfoldable pub g1 : Packet → Outcome Section
g1 pkt = do
  type_error_check pkt
  before ← g0 pkt
  p ← end before
  ok (record { kind = Base.Kind.g1; start_bit = p })

unfoldable pub q0 : Packet → Outcome Section
q0 pkt = do
  type_error_check pkt
  before ← g1 pkt
  p ← end before
  ok (record { kind = Base.Kind.q0; start_bit = p })
