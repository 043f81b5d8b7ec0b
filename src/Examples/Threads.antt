-- ===== src/Examples/Threads.antt =====
-- One thread publishes a bathymetry packet while the other publishes the last part of an image.
use ros2sonic.Prelude.{◌≡◌, refl, ap, true, none, [], ◌∷◌, arith}
use ros2sonic.Outcome.{ok, ◌>>=◌}
use ros2sonic.Packet.{PacketKind}
use ros2sonic.Packet.Sequence.{sections}
use ros2sonic.Packet.Sequence.Bathymetry.{bathymetry_kinds}
use ros2sonic.Conversions.Detections.Spec.{contents_of, detections_of}
use ros2sonic.Node.Publish.{
  Node, detections_sent, raw_bth0_sent, all_free, publish_bth0, publish_aid0,
}
use ros2sonic.Node.Publish.Bathymetry
use ros2sonic.Node.Publish.Image.{publish_aid0_complete}
use ros2sonic.Node.Worker.{done, IsFree, in_turn}
use ros2sonic.Node.Threads.{
  System, Reach, here, bathymetry_code, image_code, do_bathymetry, do_image,
}
use ros2sonic.Node.Threads.Parts.{bathymetry_part, image_part}
use ros2sonic.Node.Threads.Apart.{start, Reach-IsFree, Reach-ends, Reach-done}
use ros2sonic.Examples.{blank, whole_numbers, are_bytes-IsBytes}
use ros2sonic.Examples.Bathymetry.{
  two_beams, sounding, two_beams-IsComplete, two_beams-IsSmall, behind, behind-IsTail,
  behind-IsBytes,
}
use ros2sonic.Examples.Image
use ros2sonic.Examples.Publishing.{driver, waiting, no_image}

-- All four topics have a publisher.
abbrev both : Node whole_numbers
both = record driver { dectections_pub = true; bth0_pub = true }

abbrev after_sounding : Node whole_numbers
after_sounding =
    let msg = Bathymetry.framed whole_numbers both (detections_of whole_numbers two_beams blank) in
    let raw =
      Bathymetry.raw_of whole_numbers both PacketKind.bth0 200 1
        (sections (contents_of two_beams) bathymetry_kinds behind) in
    record both {
      dectections_msg = msg;
      bth0_msg = raw;
      locks = all_free;
      sent = detections_sent msg ∷ raw_bth0_sent raw ∷ [];
    }

sounded : in_turn (publish_bth0 whole_numbers) (sounding ∷ []) both ≡ ok after_sounding
sounded =
    ap (λ m. m >>= λ n. ok n)
      (Bathymetry.publish_bth0-eq whole_numbers two_beams 200 1 behind two_beams-IsComplete
        two_beams-IsSmall behind-IsTail behind-IsBytes both
        (record { free = refl; detects = refl; raws = refl }) (omega arith) (omega arith))

imaged :
    (after : Node whole_numbers) × (in_turn
        (publish_aid0 whole_numbers no_image)
        (Image.later ∷ [])
        both
      ≡ ok after)
imaged =
    let published =
      publish_aid0_complete whole_numbers none Image.last_bins 52 1 Image.behind no_image both
        (Image.assembler_of 17) (Image.head_of 17) Image.only_m0-IsSmall Image.behind-IsTail
        Image.last_bins-IsPart waiting refl (are_bytes-IsBytes (Image.head_of 17) refl, omega arith)
        refl (omega arith) (omega arith) (record { free = refl; raws = refl; images = refl })
        (omega arith) (omega arith) in
    (published.0, ap (λ m. m >>= λ n. ok n) published.2)

Reach-IsFree_example :
    IsFree
      (do_bathymetry whole_numbers)
      bathymetry_code
      (start whole_numbers (sounding ∷ []) (Image.later ∷ []) both).bathymetry
      both
    × IsFree
        (do_image whole_numbers no_image)
        image_code
        (start whole_numbers (sounding ∷ []) (Image.later ∷ []) both).image
        both
Reach-IsFree_example =
    Reach-IsFree whole_numbers no_image (sounding ∷ []) (Image.later ∷ []) both after_sounding
      imaged.0 sounded imaged.1 here

ended :
    (t : System whole_numbers) × Reach whole_numbers no_image
      (start whole_numbers (sounding ∷ []) (Image.later ∷ []) both)
      t
    × (t.bathymetry ≡ done)
    × (t.image ≡ done)
ended =
    Reach-ends whole_numbers no_image (sounding ∷ []) (Image.later ∷ []) both after_sounding
      imaged.0 sounded imaged.1 here

Reach-done_example :
    (bathymetry_part whole_numbers ended.0.node ≡ bathymetry_part whole_numbers after_sounding)
    × (image_part whole_numbers ended.0.node ≡ image_part whole_numbers imaged.0)
Reach-done_example =
    Reach-done whole_numbers no_image (sounding ∷ []) (Image.later ∷ []) both after_sounding
      imaged.0 sounded imaged.1 ended.1 ended.2 ended.3
