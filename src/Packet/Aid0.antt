-- ===== src/Packet/Aid0.antt =====
-- r2sonic/include/r2sonic/packets/aid0.hpp: the sections of an acoustic-image packet.
use ros2sonic.Prelude.{ℕ, Bool, if◌then◌else◌}
use ros2sonic.Outcome.{Outcome, ok, ◌>>=◌, ◌>>◌}
use ros2sonic.Struct.{field}
use ros2sonic.Section as Base
use ros2sonic.Section.{Section, end, exists}
use ros2sonic.Section.H0
use ros2sonic.Section.M0
use ros2sonic.Packet.{Packet, sections_start_bit, type_error_check}

unfoldable pub h0 : Packet → Outcome Section
h0 pkt = do
  type_error_check pkt
  ok (record { kind = Base.Kind.h0; start_bit = sections_start_bit pkt })

unfoldable pub a1 : Packet → Outcome Section
a1 pkt = do
  type_error_check pkt
  before ← h0 pkt
  p ← end before
  ok (record { kind = Base.Kind.a1; start_bit = p })

unfoldable pub m0 : Packet → Outcome Section
m0 pkt = do
  type_error_check pkt
  before ← a1 pkt
  p ← end before
  ok (record { kind = Base.Kind.m0; start_bit = p })

unfoldable pub is_first_in_series : Packet → Outcome Bool
is_first_in_series pkt = do s ← h0 pkt; exists s

-- The ping number of the H0 section, unless there is an M0 section, whose number wins; else 0.
unfoldable pub get_ping_no : Packet → Outcome ℕ
get_ping_no pkt = do
  s ← h0 pkt
  has_h0 ← exists s
  of_h0 ← if has_h0 then (do t ← h0 pkt; field H0.body_layout H0.ping_number (H0.body t)) else ok 0
  m ← m0 pkt
  has_m0 ← exists m
  if has_m0 then (do n ← m0 pkt; p ← M0.body n; field M0.body_layout M0.ping_number p) else ok of_h0
