-- ===== src/Node/Publish/Outside.antt =====
-- Parts that R2SonicNode::publish takes although they make it leave its memory or read what has no
-- value: each such part ends a call with undefined behaviour.
use mathlib.Core.Option
use ros2sonic.Prelude.{
  ℕ, ◌+◌, ◌*◌, ◌%◌, ◌^◌, ◌≤◌, ◌≡◌, refl, ap, ◌∙◌, Option, none, some, [], ◌++◌, drop, length, arith,
}
use ros2sonic.Outcome.{ok, fault}
use ros2sonic.Memory.{Bytes, get_at}
use ros2sonic.Floats.{Floats}
use ros2sonic.Section.{m0}
use ros2sonic.Section.Identity.{at, encode}
use ros2sonic.Section.H0
use ros2sonic.Section.M0
use ros2sonic.Packet.Sequence.{IsSmall, IsTail, sections}
use ros2sonic.Packet.Sequence.Image.{image_kinds, get_ping_no-eq}
use ros2sonic.Conversions.Assembler.{
  Assembler, RawSonarImage, new_assembler, prepare, image_index, add_packet,
}
use ros2sonic.Conversions.Assembler.Copy.{of_part}
use ros2sonic.Conversions.Assembler.Parts.{of_h0}
use ros2sonic.Conversions.Assembler.Packets.{image_contents, later_packet}
use ros2sonic.Conversions.Assembler.Collect.{StatesSize}
use ros2sonic.Conversions.Assembler.Faults.{target, add_packet-fault}
use ros2sonic.Conversions.Assembler.Outside.{
  IsOutside, IsFar, index-outside, magnitude-outside, byte-outside, target-le, copy_cell-outside,
  magnitude-far, copy_cell-far,
}
use ros2sonic.Conversions.Detections.Spec.{HasBytes}
use ros2sonic.Node.MsgMap.{find}
use ros2sonic.Node.Publish.{Node, publish_aid0}
use ros2sonic.Node.Publish.Calls.{IsReady, publish_aid0-fault}

-- A later packet is read by `publish`, whichever its part is.
module _ (fl : Floats) (o : Option Bytes) (b : Bytes) (size stream : ℕ) (rest : Bytes)
    (no_image : RawSonarImage fl) (node : Node fl)
    (small : IsSmall (image_contents none o (some b))) (tail : IsTail image_kinds rest)
    (stated : StatesSize size stream (sections (image_contents none o (some b)) image_kinds rest))
    (ready : IsReady fl node) where
  publish-part_fault :
      HasBytes 32 b
      → add_packet fl (later_packet o b size stream rest) (
          Option.get_or
            (find (of_part M0.ping_number b) node.assemblers)
            (new_assembler fl no_image))
        ≡ fault
      → publish_aid0 fl no_image (later_packet o b size stream rest) node ≡ fault
  publish-part_fault full =
      publish_aid0-fault fl size stream (sections (image_contents none o (some b)) image_kinds rest)
        (of_part M0.ping_number b) no_image (new_assembler fl no_image) node ready stated.narrow
        stated.fits
        (get_ping_no-eq (image_contents none o (some b)) size stream rest small tail tt full)

  -- A part that begins behind the last bin of its image makes `publish` write outside the image's
  -- memory: the index of its first cell and the byte for it are read without a fault, the index is
  -- not below the length of the image that `addPacket` has prepared, and the call ends with
  -- undefined behaviour. The part has a bin and a beam, and its first byte is there; its bins end
  -- at 65536 at most, and the index is below 2 ^ 31. The map has an assembler of the ping, which
  -- holds its whole H0 body. Both publishers exist and no mutex is taken, the sections' sizes fit
  -- 16 bits, what follows them does not begin like one of them, and the size in the header has 32
  -- bits and, modulo 65536, is not above the buffer's length.
  pub publish_aid0-outside :
      (asm : Assembler fl) (body : Bytes)
      → IsOutside b
      → find (of_part M0.ping_number b) node.assemblers ≡ some asm
      → asm.h0_body ≡ some body
      → HasBytes 112 body
      → of_h0 H0.ping_number body ≡ of_part M0.ping_number b
      → (i : ℕ) × (p : Bytes) × (mag : ℕ) × (image_index
            (of_part M0.first_bin b)
            (of_part M0.total_beams b)
            (of_part M0.first_beam b)
          ≡ ok i)
        × (M0.magnitude
              (at m0 (encode m0 b rest))
              (of_part M0.first_beam b)
              (of_part M0.first_bin b)
            ≡ ok p)
        × (get_at 1 p ≡ ok mag)
        × (length
              (prepare fl
                (of_part M0.total_bins b)
                (of_part M0.total_bins b * of_part M0.total_beams b % 2 ^ 32)
                asm.sonar_image).image
            ≤ i)
        × (publish_aid0 fl no_image (later_packet o b size stream rest) node ≡ fault)
  publish_aid0-outside asm body outside known held kept same =
      let full : HasBytes 32 b = (outside.full.0, omega (arith, outside.full.1)) in
      (
        of_part M0.first_bin b * of_part M0.total_beams b + of_part M0.first_beam b,
        drop 32 (b ++ rest),
        _,
        index-outside b rest outside,
        magnitude-outside b rest outside,
        byte-outside b rest outside,
        target-le b rest outside fl asm,
        publish-part_fault full (
            ap
              (λ t.
                add_packet fl (later_packet o b size stream rest)
                  (Option.get_or t (new_assembler fl no_image)))
              known
            ∙ add_packet-fault fl b rest full asm outside.some_bin outside.some_beam
                (omega (arith, outside.few_bins)) (copy_cell-outside b rest outside fl asm) body
                held kept same o size stream small tail),
      )

  -- A part whose first bin has a number of 65536 or more makes `publish` read outside the buffer,
  -- although it may lie within its image: `magnitude` takes the number of the bin as a u16, so that
  -- it is below the section's first bin and the pointer that it gives is past the buffer's end,
  -- where there is no byte to read. The part has a bin and a beam, all its bins are below 2 ^ 31,
  -- and so are the index of the first cell and the length of the rest of the buffer. The map has an
  -- assembler of the ping, which holds its whole H0 body. Both publishers exist and no mutex is
  -- taken, the sections' sizes fit 16 bits, what follows them does not begin like one of them, and
  -- the size in the header has 32 bits and, modulo 65536, is not above the buffer's length.
  pub publish_aid0-far_bin :
      (asm : Assembler fl) (body : Bytes)
      → IsFar b rest
      → find (of_part M0.ping_number b) node.assemblers ≡ some asm
      → asm.h0_body ≡ some body
      → HasBytes 112 body
      → of_h0 H0.ping_number body ≡ of_part M0.ping_number b
      → (M0.magnitude (at m0 (encode m0 b rest)) (of_part M0.first_beam b) (of_part M0.first_bin b)
          ≡ ok [])
        × (get_at 1 [] ≡ fault)
        × (publish_aid0 fl no_image (later_packet o b size stream rest) node ≡ fault)
  unfolding get_at
  publish_aid0-far_bin asm body far known held kept same = (
    magnitude-far b rest far,
    refl,
    publish-part_fault far.full (
        ap
          (λ t.
            add_packet fl (later_packet o b size stream rest)
              (Option.get_or t (new_assembler fl no_image)))
          known
        ∙ add_packet-fault fl b rest far.full asm far.some_bin far.some_beam
            (omega (arith, far.few_bins)) (copy_cell-far b rest far (target fl b rest far.full asm))
            body held kept same o size stream small tail),
  )
