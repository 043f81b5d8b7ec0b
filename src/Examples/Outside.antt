-- ===== src/Examples/Outside.antt =====
-- Parts that make the driver leave its memory: behind the image, and from a bin on that does not
-- fit 16 bits; and a part of a ping that was never begun.
use ros2sonic.Prelude.{◌*◌, ◌%◌, ◌^◌, ◌≤◌, ℕ, ◌≡◌, refl, none, some, [], ◌∷◌, ◌++◌, length, arith}
use ros2sonic.Outcome.{ok, fault}
use ros2sonic.Memory.{Bytes, get_at}
use ros2sonic.Section.{h0, m0}
use ros2sonic.Section.M0
use ros2sonic.Section.Identity.{at, encode}
use ros2sonic.Packet.Sequence.{IsSmall}
use ros2sonic.Conversions.Assembler.{prepare, image_index}
use ros2sonic.Conversions.Assembler.Copy.{of_part}
use ros2sonic.Conversions.Assembler.Packets.{image_contents, later_packet}
use ros2sonic.Conversions.Assembler.Outside.{IsOutside, IsFar}
use ros2sonic.Node.Publish.{publish_aid0}
use ros2sonic.Node.Publish.Calls.{IsReady}
use ros2sonic.Node.Publish.Outside.{publish_aid0-outside, publish_aid0-far_bin}
use ros2sonic.Examples.{whole_numbers, are_bytes-IsBytes, fits_small}
use ros2sonic.Examples.Image.{head_of, behind, behind-IsTail, assembler_of}
use ros2sonic.Examples.Publishing.{driver, no_image, waiting}

-- Ping 17: bin 3 of 3, so the first behind the image.
abbrev misplaced : Bytes
misplaced =
    (0 ∷ 0 ∷ 0 ∷ 17 ∷ 0 ∷ 0 ∷ 0 ∷ 0 ∷ 0 ∷ 0 ∷ 0 ∷ 4 ∷ 0 ∷ 0 ∷ 0 ∷ 3 ∷ [])
    ++ ((0 ∷ 0 ∷ 0 ∷ 3 ∷ 0 ∷ 1 ∷ 0 ∷ 2 ∷ 0 ∷ 0 ∷ 0 ∷ 2 ∷ 0 ∷ 0 ∷ 0 ∷ 0 ∷ []) ++ 5 ∷ 6 ∷ [])

misplaced-IsOutside : IsOutside misplaced
misplaced-IsOutside = record {
  full = (are_bytes-IsBytes misplaced refl, omega arith);
  some_bin = omega arith;
  some_beam = omega arith;
  behind = omega arith;
  few_bins = omega arith;
  indexed = omega arith;
}

misplaced-IsSmall : IsSmall (image_contents none none (some misplaced))
misplaced-IsSmall h0 b e = fits_small (image_contents none none (some misplaced) h0) b refl e
misplaced-IsSmall k b e = fits_small (image_contents none none (some misplaced) k) b refl e

ready : IsReady whole_numbers driver
ready = record { free = refl; raws = refl; images = refl }

publish_aid0-outside_example :
    (i : ℕ) × (p : Bytes) × (mag : ℕ) × (image_index
        (of_part M0.first_bin misplaced)
        (of_part M0.total_beams misplaced)
        (of_part M0.first_beam misplaced)
      ≡ ok i)
    × (M0.magnitude
          (at m0 (encode m0 misplaced behind))
          (of_part M0.first_beam misplaced)
          (of_part M0.first_bin misplaced)
        ≡ ok p)
    × (get_at 1 p ≡ ok mag)
    × (length
          (prepare whole_numbers
            (of_part M0.total_bins misplaced)
            (of_part M0.total_bins misplaced * of_part M0.total_beams misplaced % 2 ^ 32)
            (assembler_of 17).sonar_image).image
        ≤ i)
    × (publish_aid0 whole_numbers no_image (later_packet none misplaced 50 1 behind) driver ≡ fault)
publish_aid0-outside_example =
    publish_aid0-outside whole_numbers none misplaced 50 1 behind no_image driver misplaced-IsSmall
      behind-IsTail (record { narrow = omega arith; fits = omega arith }) ready (assembler_of 17)
      (head_of 17) misplaced-IsOutside waiting refl
      (are_bytes-IsBytes (head_of 17) refl, omega arith) refl

-- Ping 17: bin 65537 of 65538, one beam of one.
abbrev far_bin : Bytes
far_bin =
    (0 ∷ 0 ∷ 0 ∷ 17 ∷ 0 ∷ 0 ∷ 0 ∷ 0 ∷ 0 ∷ 0 ∷ 0 ∷ 4 ∷ 0 ∷ 1 ∷ 0 ∷ 2 ∷ [])
    ++ ((0 ∷ 1 ∷ 0 ∷ 1 ∷ 0 ∷ 1 ∷ 0 ∷ 1 ∷ 0 ∷ 0 ∷ 0 ∷ 1 ∷ 0 ∷ 0 ∷ 0 ∷ 0 ∷ []) ++ 5 ∷ [])

far_bin-IsFar : IsFar far_bin behind
far_bin-IsFar = record {
  full = (are_bytes-IsBytes far_bin refl, omega arith);
  some_bin = omega arith;
  some_beam = omega arith;
  far = omega arith;
  few_bins = omega arith;
  indexed = omega arith;
  short = omega arith;
}

far_bin-IsSmall : IsSmall (image_contents none none (some far_bin))
far_bin-IsSmall h0 b e = fits_small (image_contents none none (some far_bin) h0) b refl e
far_bin-IsSmall k b e = fits_small (image_contents none none (some far_bin) k) b refl e

publish_aid0-far_bin_example :
    (M0.magnitude
        (at m0 (encode m0 far_bin behind))
        (of_part M0.first_beam far_bin)
        (of_part M0.first_bin far_bin)
      ≡ ok [])
    × (get_at 1 [] ≡ fault)
    × (publish_aid0 whole_numbers no_image (later_packet none far_bin 49 1 behind) driver ≡ fault)
publish_aid0-far_bin_example =
    publish_aid0-far_bin whole_numbers none far_bin 49 1 behind no_image driver far_bin-IsSmall
      behind-IsTail (record { narrow = omega arith; fits = omega arith }) ready (assembler_of 17)
      (head_of 17) far_bin-IsFar waiting refl (are_bytes-IsBytes (head_of 17) refl, omega arith)
      refl
