-- ===== src/Conversions/Assembler.antt =====
-- Aid02RawAiAssembler of r2sonic/src/conversions.cpp: one acoustic image out of many packets.
pub mod Copy
pub mod Image
pub mod Parts
pub mod Packets
pub mod Collect
pub mod Faults
pub mod Outside
use ros2sonic.Prelude.{
  ℕ, zero, suc, ◌+◌, ◌-◌, ◌*◌, ◌%◌, ◌^◌, Bool, true, false, Option, none, some, List, length, set,
  replicate, ltb, leb, ◌==◌, if◌then◌else◌,
}
use ros2sonic.Outcome.{Outcome, ok, fault, hang, or_fault, ◌>>=◌}
use ros2sonic.Memory.{Bytes, read_bytes, get_at}
use ros2sonic.Floats.{Floats}
use ros2sonic.Struct.{sizeof, field}
use ros2sonic.Section.{Section, exists}
use ros2sonic.Section.H0
use ros2sonic.Section.A1
use ros2sonic.Section.M0
use ros2sonic.Packet.{Packet}
use ros2sonic.Packet.Aid0
use ros2sonic.Conversions.{Header, PingInfo, resize, h02_header, h02_ping_info}

-- SonarImageData::dtype; the driver knows one value.
pub data DataType : Type 0 where
  unset dtype_uint8 : DataType

-- int(bin_idx) * int(total_beams) + int(beam_idx): signed, so a bin from 2 ^ 31 on counts as
-- negative, and a result out of the range of `int` is undefined. A negative index is outside the
-- image.
unfoldable pub image_index : ℕ → ℕ → ℕ → Outcome ℕ
image_index bin total_beams beam =
    if ltb bin (2 ^ 31)
    then (if ltb (bin * total_beams + beam) (2 ^ 31) then ok (bin * total_beams + beam) else fault)
    else if ltb (2 ^ 31) ((2 ^ 32 - bin) * total_beams)
    then fault
    else if leb ((2 ^ 32 - bin) * total_beams) beam
    then ok (beam - (2 ^ 32 - bin) * total_beams)
    else fault

-- *data_ptr = mag
abbrev pub write : Bytes → ℕ → ℕ → Outcome Bytes
write image i v = if ltb i (length image) then ok (set image i v) else fault

-- One cell: read from the section, which is stored beam by beam, and written to the image, which is
-- stored bin by bin.
unfoldable pub copy_cell : Section → ℕ → ℕ → ℕ → Bytes → Outcome Bytes
copy_cell m0 total_beams beam bin image = do
  i ← image_index bin total_beams beam
  q ← M0.magnitude m0 beam bin
  mag ← get_at 1 q
  write image i mag

-- The loops `for (idx = first; idx < bound; idx++)`, with fuel; the counters are a u32 and a u16.
unfoldable pub copy_bins : ℕ → Section → ℕ → ℕ → ℕ → ℕ → Bytes → Outcome Bytes
copy_bins zero m0 total_beams beam bin bound image = hang
copy_bins (suc fuel) m0 total_beams beam bin bound image = elim (ltb bin bound) [
  | true ↦ do
    next ← copy_cell m0 total_beams beam bin image
    copy_bins fuel m0 total_beams beam ((bin + 1) % 2 ^ 32) bound next
  | false ↦ ok image
]

unfoldable pub copy_beams : ℕ → Section → ℕ → ℕ → ℕ → ℕ → ℕ → ℕ → Bytes → Outcome Bytes
copy_beams zero m0 total_beams beam bound first_bin last_bin bins image = hang
copy_beams (suc fuel) m0 total_beams beam bound first_bin last_bin bins image =
    elim (ltb beam bound) [
      | true ↦ do
        next ← copy_bins (bins + 1) m0 total_beams beam first_bin last_bin image
        copy_beams fuel m0 total_beams ((beam + 1) % 65536) bound first_bin last_bin bins next
      | false ↦ ok image
    ]

-- A u16 takes 65536 values: a loop over beams that runs longer has come back to a value it had.
abbrev pub beam_fuel : ℕ
beam_fuel = 65537

module _ (fl : Floats) where
  open fl use {
    F32, of_bits, of_ℕ, double_of_ℕ, double_of_float, double_mul, double_div, float_of_double,
  }

  -- marine_acoustic_msgs::msg::RawSonarImage
  pub record RawSonarImage : Type 0 where
    pub header : Header
    pub ping_info : PingInfo fl
    pub sample_rate : F32
    pub samples_per_beam : ℕ
    pub sample0 : ℕ
    pub tx_delays : List F32
    pub tx_angles : List F32
    pub rx_angles : List F32
    pub dtype : DataType
    pub beam_count : ℕ
    pub image : Bytes

  -- `h0_body` is h0_data_, the bytes of the last H0 body. The constructor initialises neither it
  -- nor `ready`, which no other function writes: `none` is a member without a value, and reading it
  -- is undefined.
  pub record Assembler : Type 0 where
    pub sonar_image : RawSonarImage
    pub ready : Option Bool
    pub h0_body : Option Bytes

  abbrev pub is_ready : Assembler → Outcome Bool
  is_ready asm = or_fault asm.ready

  -- Aid02RawAiAssembler(); `no_image` is what the constructor of the message leaves.
  abbrev pub new_assembler : RawSonarImage → Assembler
  new_assembler no_image = record { sonar_image = no_image; ready = none; h0_body = none }

  -- The loop over the beams of the first packet, from `i` on with `left` rounds to go.
  unfoldable pub fill_angles : ℕ → ℕ → Packet → Section → RawSonarImage → Outcome RawSonarImage
  fill_angles zero i pkt h0 img = ok img
  fill_angles (suc left) i pkt h0 img = do
    steering ← field H0.body_layout H0.tx_steering_vert (H0.body h0)
    a ← Aid0.a1 pkt
    p ← A1.beam_angle a i
    angle ← get_at 4 p
    fill_angles left (i + 1) pkt h0 (record img {
      tx_delays = set img.tx_delays i (of_ℕ 0);
      tx_angles = set img.tx_angles i (of_bits steering);
      rx_angles = set img.rx_angles i (of_bits angle);
    })

  -- The first packet of a ping.
  unfoldable pub start_image : Packet → Assembler → Outcome (Bool × Assembler)
  start_image pkt asm = do
    h ← Aid0.h0 pkt
    stamped ← h02_header h asm.sonar_image.header
    info ← h02_ping_info fl h asm.sonar_image.ping_info
    body ← read_bytes (sizeof H0.body_layout) (H0.body h)
    total_beams ← field H0.body_layout H0.beams (H0.body h)
    let img = asm.sonar_image
    img' ← fill_angles total_beams 0 pkt h (record img {
      header = stamped;
      ping_info = info;
      dtype = dtype_uint8;
      sample0 = 0;
      beam_count = total_beams;
      tx_delays = resize total_beams (of_ℕ 0) img.tx_delays;
      tx_angles = resize total_beams (of_ℕ 0) img.tx_angles;
      rx_angles = resize total_beams (of_ℕ 0) img.rx_angles;
    })
    ok (false, record asm { sonar_image = img'; h0_body = some body })

  -- A new image is all zeros; one of the right size is kept.
  abbrev pub prepare : ℕ → ℕ → RawSonarImage → RawSonarImage
  prepare total_bins data_size img =
      if length img.image == data_size
      then img
      else record img { samples_per_beam = total_bins; image = replicate data_size 0 }

  unfoldable pub add_section : Section → Assembler → Outcome (Bool × Assembler)
  add_section m0 asm = do
    head ← or_fault asm.h0_body
    mine ← field H0.body_layout H0.ping_number head
    p ← M0.body m0
    theirs ← field M0.body_layout M0.ping_number p
    if mine == theirs
        then (do
          total_bins ← field M0.body_layout M0.total_bins p
          first_bin ← field M0.body_layout M0.first_bin p
          bins ← field M0.body_layout M0.bins p
          beams ← field M0.body_layout M0.beams p
          total_beams ← field M0.body_layout M0.total_beams p
          first_beam ← field M0.body_layout M0.first_beam p
          total_samples ← field M0.body_layout M0.total_samples p
          let img = prepare total_bins (total_bins * total_beams % 2 ^ 32) asm.sonar_image
          let last_bin = (first_bin + bins) % 2 ^ 32
          image ←
              copy_beams beam_fuel m0 total_beams first_beam (first_beam + beams) first_bin last_bin
                bins img.image
          if leb total_bins last_bin
              then (do
                rate ← field H0.body_layout H0.rx_sample_rate head
                let scale = double_div (double_of_ℕ total_bins) (double_of_ℕ total_samples)
                let scaled = float_of_double (double_mul (double_of_float (of_bits rate)) scale)
                let img' = record img { image = image; sample_rate = scaled }
                ok (true, record asm { sonar_image = img' }))
              else ok (false, record asm { sonar_image = record img { image = image } }))
        else ok (false, asm)

  unfoldable pub add_packet : Packet → Assembler → Outcome (Bool × Assembler)
  add_packet pkt asm = do
    first ← Aid0.is_first_in_series pkt
    if first then start_image pkt asm else (do
      m ← Aid0.m0 pkt
      found ← exists m
      if found then add_section m asm else ok (false, asm))
