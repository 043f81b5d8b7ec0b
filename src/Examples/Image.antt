-- ===== src/Examples/Image.antt =====
-- An acoustic image of three bins and two beams, of which a packet brings the last two bins.
use ros2sonic.Prelude.{
  ℕ, ◌+◌, ◌*◌, ◌<◌, ◌≡◌, refl, false, none, some, [], ◌∷◌, ◌++◌, ◌&&◌, replicate, length, take,
  get_or, leb, if◌then◌else◌, arith,
}
use ros2sonic.Outcome.{ok, throw, out_of_range}
use ros2sonic.Memory.{Bytes}
use ros2sonic.Section.{h0, a1, m0, exists, is_type, strncmp_eq}
use ros2sonic.Section.M0
use ros2sonic.Packet.{PacketKind, Packet}
use ros2sonic.Packet.Aid0
use ros2sonic.Packet.Sequence.{Contents, IsSmall, IsTail, sections, packet_of}
use ros2sonic.Packet.Sequence.Bathymetry.{Finds}
use ros2sonic.Packet.Sequence.Image.{image_kinds, ping_of, image_sections_found, get_ping_no-eq}
use ros2sonic.Conversions.Assembler.{Assembler, dtype_uint8, add_packet}
use ros2sonic.Conversions.Assembler.Copy.{of_part, IsPart, part_byte}
use ros2sonic.Conversions.Assembler.Image.{within}
use ros2sonic.Conversions.Assembler.Parts.{canvas}
use ros2sonic.Conversions.Assembler.Packets.{
  image_contents, first_packet, started, add_packet_cells, add_packet_first,
  add_packet_missing_angles,
}
use ros2sonic.Examples.{whole_numbers, are_bytes-IsBytes, fits_small}

-- Ping 17: bins 1 and 2 of 3, beams 0 and 1 of 2.
abbrev pub last_bins : Bytes
last_bins =
    (0 ∷ 0 ∷ 0 ∷ 17 ∷ 0 ∷ 0 ∷ 0 ∷ 0 ∷ 0 ∷ 0 ∷ 0 ∷ 4 ∷ 0 ∷ 0 ∷ 0 ∷ 3 ∷ [])
    ++ ((0 ∷ 0 ∷ 0 ∷ 1 ∷ 0 ∷ 2 ∷ 0 ∷ 2 ∷ 0 ∷ 0 ∷ 0 ∷ 2 ∷ 0 ∷ 0 ∷ 0 ∷ 0 ∷ [])
        ++ 11 ∷ 12 ∷ 21 ∷ 22 ∷ [])

pub last_bins-IsPart : IsPart last_bins
last_bins-IsPart = record {
  full = (are_bytes-IsBytes last_bins refl, omega arith);
  beams_fit = omega arith;
  bins_fit = omega arith;
  few_bins = omega arith;
  indexable = omega arith;
}

-- The contents of an H0 section with this ping number and two beams.
abbrev pub head_of : ℕ → Bytes
head_of ping = replicate 35 0 ++ (ping ∷ replicate 75 0) ++ 2 ∷ []

-- An assembler that has seen the start of this ping and one bin of its image.
abbrev pub assembler_of : ℕ → Assembler whole_numbers
assembler_of ping = record {
  sonar_image = record {
    header = record { sec = 0; nanosec = 0; frame_id = [] };
    ping_info = record { frequency = 0; sound_speed = 0; tx_beamwidths = []; rx_beamwidths = [] };
    sample_rate = 0;
    samples_per_beam = 3;
    sample0 = 0;
    tx_delays = [];
    tx_angles = [];
    rx_angles = [];
    dtype = dtype_uint8;
    beam_count = 2;
    image = 1 ∷ 2 ∷ 0 ∷ 0 ∷ 0 ∷ 0 ∷ [];
  };
  ready = none;
  h0_body = some (head_of ping);
}

-- A later packet of a ping has only M0.
abbrev pub only_m0 : Contents
only_m0 = image_contents none none (some last_bins)

pub only_m0-IsSmall : IsSmall only_m0
only_m0-IsSmall h0 b e = fits_small (only_m0 h0) b refl e
only_m0-IsSmall k b e = fits_small (only_m0 k) b refl e

abbrev pub behind : Bytes
behind = 0 ∷ []

pub behind-IsTail : IsTail image_kinds behind
unfolding exists is_type strncmp_eq
behind-IsTail = (refl, (refl, (refl, tt)))

abbrev pub later : Packet
later = packet_of PacketKind.aid0 52 1 (sections only_m0 image_kinds behind)

image_sections_found_example :
    Finds only_m0 behind (Aid0.h0 later) h0 (a1 ∷ m0 ∷ [])
    × Finds only_m0 behind (Aid0.a1 later) a1 (m0 ∷ [])
    × Finds only_m0 behind (Aid0.m0 later) m0 []
    × (Aid0.is_first_in_series later ≡ ok false)
image_sections_found_example =
    image_sections_found only_m0 52 1 behind only_m0-IsSmall behind-IsTail

get_ping_no-eq_example : Aid0.get_ping_no later ≡ ok (ping_of none (some last_bins))
get_ping_no-eq_example =
    get_ping_no-eq only_m0 52 1 behind only_m0-IsSmall behind-IsTail tt
      (are_bytes-IsBytes last_bins refl, omega arith)

add_packet_cells_example :
    (after : Assembler whole_numbers) × (add_packet whole_numbers later (assembler_of 17)
      ≡ ok (
        leb
            (of_part M0.total_bins last_bins)
            (of_part M0.first_bin last_bins + of_part M0.bins last_bins),
        after,
      ))
    × (length after.sonar_image.image
        ≡ of_part M0.total_bins last_bins * of_part M0.total_beams last_bins)
    × ((bin beam : ℕ)
        → beam < of_part M0.total_beams last_bins
        → get_or after.sonar_image.image (bin * of_part M0.total_beams last_bins + beam) 0 ≡ (
            if within (of_part M0.first_beam last_bins) (of_part M0.beams last_bins) beam
              && within (of_part M0.first_bin last_bins) (of_part M0.bins last_bins) bin
            then part_byte last_bins beam bin
            else get_or
                (canvas last_bins (assembler_of 17).sonar_image.image)
                (bin * of_part M0.total_beams last_bins + beam)
                0))
add_packet_cells_example =
    add_packet_cells whole_numbers none last_bins 52 1 behind only_m0-IsSmall behind-IsTail
      last_bins-IsPart (assembler_of 17) (head_of 17) refl
      (are_bytes-IsBytes (head_of 17) refl, omega arith) refl

-- The first packet of the ping, with the angles of two beams.
abbrev pub two_angles : Bytes
two_angles = replicate 24 0 ++ 0 ∷ 0 ∷ 0 ∷ 1 ∷ 0 ∷ 0 ∷ 0 ∷ 2 ∷ []

pub start-IsSmall : IsSmall (image_contents (some (head_of 17)) (some two_angles) none)
start-IsSmall h0 b e =
    fits_small (image_contents (some (head_of 17)) (some two_angles) none h0) b refl e
start-IsSmall k b e =
    fits_small (image_contents (some (head_of 17)) (some two_angles) none k) b refl e

add_packet_first_example :
    add_packet whole_numbers
      (first_packet (head_of 17) (some two_angles) none 164 1 behind)
      (assembler_of 3)
    ≡ ok (
      false,
      record (assembler_of 3) {
        sonar_image = started whole_numbers (head_of 17) two_angles (assembler_of 3).sonar_image;
        h0_body = some (take 112 (head_of 17));
      },
    )
add_packet_first_example =
    add_packet_first whole_numbers (head_of 17) none 164 1 behind behind-IsTail
      (are_bytes-IsBytes (head_of 17) refl, omega arith) two_angles start-IsSmall
      (are_bytes-IsBytes two_angles refl, omega arith) (assembler_of 3)

no_angles-IsSmall : IsSmall (image_contents (some (head_of 17)) none none)
no_angles-IsSmall h0 b e = fits_small (image_contents (some (head_of 17)) none none h0) b refl e
no_angles-IsSmall k b e = fits_small (image_contents (some (head_of 17)) none none k) b refl e

add_packet_missing_angles_example :
    add_packet whole_numbers (first_packet (head_of 17) none none 128 1 behind) (assembler_of 3)
    ≡ throw out_of_range
add_packet_missing_angles_example =
    add_packet_missing_angles whole_numbers (head_of 17) none 128 1 behind behind-IsTail
      (are_bytes-IsBytes (head_of 17) refl, omega arith) (assembler_of 3) no_angles-IsSmall
      (omega arith)
