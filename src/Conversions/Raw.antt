-- ===== src/Conversions/Raw.antt =====
-- The raw message holds as many bytes as the header states, counted modulo 2 ^ 16.
use ros2sonic.Prelude.{ℕ, ◌%◌, ◌^◌, ◌≤◌, ◌<◌, ◌≡◌, ap, length, take, ◌++◌}
use ros2sonic.Outcome.{ok}
use ros2sonic.Memory.{Bytes}
use ros2sonic.Memory.Endian.{be_bytes, be_bytes-IsBytes, be_value-be_bytes}
use ros2sonic.Memory.Reads.{read_bytes-take, get_at-append}
use ros2sonic.Struct.{field}
use ros2sonic.Packet.{PacketKind, bth0, aid0, get_size}
use ros2sonic.Packet.Sequence.{encode_packet, packet_of}
use ros2sonic.Conversions.{RawPacket, packet2_raw_packet}

stated_size :
    (k : PacketKind) (size stream : ℕ) (rest : Bytes)
    → size < 2 ^ 32
    → get_size (packet_of k size stream rest) ≡ ok (size % 65536)
unfolding get_size field
stated_size bth0 size stream rest h =
    rw (get_at-append (be_bytes 4 size) (be_bytes 4 stream ++ rest) (be_bytes-IsBytes 4 size))
      (ap (λ n. ok (n % 65536)) (be_value-be_bytes 4 size h))
stated_size aid0 size stream rest h =
    rw (get_at-append (be_bytes 4 size) (be_bytes 4 stream ++ rest) (be_bytes-IsBytes 4 size))
      (ap (λ n. ok (n % 65536)) (be_value-be_bytes 4 size h))

-- The payload is the buffer's first bytes, as many as the 32-bit size in the header says modulo
-- 65536. The buffer holds that many.
pub packet2_raw_packet-eq :
    (k : PacketKind) (size stream : ℕ) (rest : Bytes) (msg : RawPacket)
    → size < 2 ^ 32
    → size % 65536 ≤ length (encode_packet k size stream rest)
    → packet2_raw_packet (packet_of k size stream rest) msg
      ≡ ok (record msg { payload = take (size % 65536) (encode_packet k size stream rest) })
unfolding packet2_raw_packet
packet2_raw_packet-eq k size stream rest msg h fits = rw (
  stated_size k size stream rest h,
  read_bytes-take (size % 65536) (encode_packet k size stream rest) fits,
)
