-- ===== src/Conversions/Assembler/Collect.antt =====
-- The image that a sequence of later packets of one ping leaves in its assembler.
use ros2sonic.Prelude.{
  ℕ, zero, suc, ◌+◌, ◌*◌, ◌%◌, ◌^◌, ◌≤◌, ◌<◌, ◌≡◌, refl, sym, ap, ◌∙◌, Bool, ◌&&◌, Option, none,
  some, List, [], ◌∷◌, ◌++◌, All, length, replicate, get_or, leb, ==_iff, ◌==◌, if◌then◌else◌,
  arith, All-append, Bool-cases, inl, inr,
}
use ros2sonic.Memory.{Bytes}
use ros2sonic.Floats.{Floats}
use ros2sonic.Section.M0
use ros2sonic.Packet.{PacketKind, Packet}
use ros2sonic.Packet.Sequence.{IsSmall, IsTail, sections, encode_packet}
use ros2sonic.Packet.Sequence.Image.{image_kinds}
use ros2sonic.Conversions.Assembler.{Assembler}
use ros2sonic.Conversions.Assembler.Copy.{of_part, IsPart, part_byte}
use ros2sonic.Conversions.Assembler.Image.{within}
use ros2sonic.Conversions.Assembler.Parts.{drawn, cell-drawn, length-drawn, extended}
use ros2sonic.Conversions.Assembler.Packets.{image_contents, later_packet}

-- A packet with M0, and with A1 if it is given.
pub record LaterPacket : Type 0 where
  pub angles : Option Bytes
  pub part : Bytes
  pub size : ℕ
  pub stream : ℕ
  pub rest : Bytes

abbrev pub packet : LaterPacket → Packet
packet q = later_packet q.angles q.part q.size q.stream q.rest

abbrev pub body_of : LaterPacket → Bytes
body_of q = sections (image_contents none q.angles (some q.part)) image_kinds q.rest

-- The size that the header states has 32 bits and, modulo 65536, is not above the buffer's length.
pub record StatesSize (size stream : ℕ) (body : Bytes) : Type 0 where
  pub narrow : size < 2 ^ 32
  pub fits : size % 65536 ≤ length (encode_packet PacketKind.aid0 size stream body)

abbrev pub reaches_end : LaterPacket → Bool
reaches_end q =
    leb (of_part M0.total_bins q.part) (of_part M0.first_bin q.part + of_part M0.bins q.part)

-- A packet of this ping, whose image has so many bins and beams.
pub record IsLater (ping_no total_bins total_beams : ℕ) (q : LaterPacket) : Type 0 where
  pub small : IsSmall (image_contents none q.angles (some q.part))
  pub tail : IsTail image_kinds q.rest
  pub inside : IsPart q.part
  pub ping : of_part M0.ping_number q.part ≡ ping_no
  pub bins : of_part M0.total_bins q.part ≡ total_bins
  pub stated : StatesSize q.size q.stream (body_of q)
  pub beams : of_part M0.total_beams q.part ≡ total_beams

abbrev pub covers : LaterPacket → ℕ → ℕ → Bool
covers q beam bin =
    within (of_part M0.first_beam q.part) (of_part M0.beams q.part) beam
    && within (of_part M0.first_bin q.part) (of_part M0.bins q.part) bin

-- The byte of the last part that covers the cell, and `v` if none does.
abbrev pub latest : List LaterPacket → ℕ → ℕ → ℕ → ℕ
latest [] beam bin v = v
latest (q ∷ qs) beam bin v =
    latest qs beam bin (if covers q beam bin then part_byte q.part beam bin else v)

-- An image of `n` bytes: the one that there is, or all zeros.
abbrev pub sheet : ℕ → Bytes → Bytes
sheet n image = if length image == n then image else replicate n 0

get_or-replicate : (n i : ℕ) → get_or (replicate {A = ℕ} n 0) i 0 ≡ 0
get_or-replicate zero i = refl
get_or-replicate (suc n) zero = refl
get_or-replicate (suc n) (suc i) = get_or-replicate n i

pub get_or-sheet_empty : (n i : ℕ) → get_or (sheet n []) i 0 ≡ 0
get_or-sheet_empty n i = elim (Bool-cases (0 == n)) [
  | inl empty ↦ rw empty
  | inr some_byte ↦ rw some_byte (get_or-replicate n i)
]

pub sheet_whole : (n : ℕ) (image : Bytes) → length image ≡ n → sheet n image ≡ image
sheet_whole n image e = ap (λ t. if t then image else replicate n 0) ((==_iff (length image) n).1 e)

module _ (ping_no nb nw : ℕ) where
  drawn-length :
      (q : LaterPacket) (image : Bytes)
      → IsLater ping_no nb nw q
      → length (drawn q.part image) ≡ nb * nw
  drawn-length q image later =
      length-drawn q.part image
      ∙ ap (λ n. n * of_part M0.total_beams q.part) later.bins
      ∙ ap (λ n. nb * n) later.beams

  drawn-cell :
      (q : LaterPacket) (image : Bytes) (bin beam : ℕ)
      → IsLater ping_no nb nw q
      → beam < nw
      → get_or (drawn q.part image) (bin * nw + beam) 0 ≡ (
          if covers q beam bin
          then part_byte q.part beam bin
          else get_or (sheet (nb * nw) image) (bin * nw + beam) 0)
  drawn-cell q image bin beam later inside =
      rw (sym later.bins, sym later.beams)
        (cell-drawn q.part image bin beam later.inside (omega (arith, later.beams)))

  module _ (fl : Floats) where
    -- The assembler after the packets.
    abbrev pub collect : List LaterPacket → Assembler fl → Assembler fl
    collect [] asm = asm
    collect (q ∷ qs) asm = collect qs (extended fl q.part asm)

    cell-collect :
        (qs : List LaterPacket) (asm : Assembler fl) (bin beam : ℕ)
        → All (IsLater ping_no nb nw) qs
        → beam < nw
        → get_or (sheet (nb * nw) (collect qs asm).sonar_image.image) (bin * nw + beam) 0
          ≡ latest qs beam bin (get_or (sheet (nb * nw) asm.sonar_image.image) (bin * nw + beam) 0)
    cell-collect [] asm bin beam laters inside = refl
    cell-collect (q ∷ qs) asm bin beam laters inside =
        let image = drawn q.part asm.sonar_image.image in
        cell-collect qs (extended fl q.part asm) bin beam laters.1 inside
        ∙ ap (λ x. latest qs beam bin (get_or x (bin * nw + beam) 0))
            (sheet_whole (nb * nw) image (drawn-length q asm.sonar_image.image laters.0))
        ∙ ap (latest qs beam bin) (drawn-cell q asm.sonar_image.image bin beam laters.0 inside)

    -- One packet more.
    pub collect-append :
        (qs : List LaterPacket) (q : LaterPacket) (asm : Assembler fl)
        → collect (qs ++ q ∷ []) asm ≡ extended fl q.part (collect qs asm)
    collect-append [] q asm = refl
    collect-append (p ∷ qs) q asm = collect-append qs q (extended fl p.part asm)

    pub length-collect :
        (qs : List LaterPacket) (q : LaterPacket) (asm : Assembler fl)
        → IsLater ping_no nb nw q
        → length (collect (qs ++ q ∷ []) asm).sonar_image.image ≡ nb * nw
    length-collect [] q asm later = drawn-length q asm.sonar_image.image later
    length-collect (p ∷ qs) q asm later = length-collect qs q (extended fl p.part asm) later

    -- The later packets write the bytes, the number of bins and the sample rate, and nothing else.
    pub collect-others :
        (qs : List LaterPacket) (asm : Assembler fl)
        → collect qs asm ≡ (
            let img = (collect qs asm).sonar_image in
            record asm {
              sonar_image = record (asm.sonar_image) {
                image = img.image;
                samples_per_beam = img.samples_per_beam;
                sample_rate = img.sample_rate;
              };
            })
    collect-others [] asm = refl
    collect-others (q ∷ qs) asm = collect-others qs (extended fl q.part asm)

    -- From an empty image on, every cell is that of the last part that covers it, or zero.
    pub cell-collect_empty :
        (qs : List LaterPacket) (q : LaterPacket) (asm : Assembler fl) (bin beam : ℕ)
        → asm.sonar_image.image ≡ []
        → All (IsLater ping_no nb nw) qs
        → IsLater ping_no nb nw q
        → beam < nw
        → get_or (collect (qs ++ q ∷ []) asm).sonar_image.image (bin * nw + beam) 0
          ≡ latest (qs ++ q ∷ []) beam bin 0
    cell-collect_empty qs q asm bin beam empty laters last inside =
        let image = (collect (qs ++ q ∷ []) asm).sonar_image.image in
        ap (λ x. get_or x (bin * nw + beam) 0)
          (sym (sheet_whole (nb * nw) image (length-collect qs q asm last)))
        ∙ cell-collect (qs ++ q ∷ []) asm bin beam
            (All-append (IsLater ping_no nb nw) qs (q ∷ []) laters (last, tt)) inside
        ∙ ap (λ x. latest (qs ++ q ∷ []) beam bin (get_or (sheet (nb * nw) x) (bin * nw + beam) 0))
            empty
        ∙ ap (latest (qs ++ q ∷ []) beam bin) (get_or-sheet_empty (nb * nw) (bin * nw + beam))
