-- ===== src/Section/M0.antt =====
-- r2sonic/include/r2sonic/sections/m0.hpp: 8-bit magnitudes, a part of the acoustic image.
use ros2sonic.Prelude.{ℕ, ◌+◌, ◌-◌, ◌*◌, ◌%◌, ◌^◌, [], ◌∷◌, drop, ltb, leb, if◌then◌else◌}
use ros2sonic.Outcome.{Outcome, ok, fault, ◌>>=◌, ◌>>◌}
use ros2sonic.Memory.{Bytes}
use ros2sonic.Struct.{Layout, sizeof, field}
use ros2sonic.Section.{Section, after_info, existance_error_check, u16}

-- M0::Body, field by field.
abbrev pub body_layout : Layout
body_layout = 4 ∷ 4 ∷ 4 ∷ 4 ∷ 4 ∷ 2 ∷ 2 ∷ 2 ∷ 2 ∷ 4 ∷ []

abbrev pub ping_number : ℕ
ping_number = 0

abbrev pub total_samples : ℕ
total_samples = 2

abbrev pub total_bins : ℕ
total_bins = 3

abbrev pub first_bin : ℕ
first_bin = 4

abbrev pub bins : ℕ
bins = 5

abbrev pub total_beams : ℕ
total_beams = 6

abbrev pub first_beam : ℕ
first_beam = 7

abbrev pub beams : ℕ
beams = 8

unfoldable pub body : Section → Outcome Bytes
body s = do existance_error_check s; ok (after_info s)

-- `(a - b) * n` in `int`, converted to u32; a product out of the range of `int` is undefined.
unfoldable pub int_product : ℕ → ℕ → ℕ → Outcome ℕ
int_product a b n =
    if leb b a
    then (if ltb ((a - b) * n) (2 ^ 31) then ok ((a - b) * n) else fault)
    else (if leb ((b - a) * n) (2 ^ 31) then ok ((2 ^ 32 - (b - a) * n) % 2 ^ 32) else fault)

-- The pointer to the magnitude of a beam and a bin, both cut to u16 by the call. The index is
-- computed in u32, since FirstBin is a u32.
unfoldable pub magnitude : Section → ℕ → ℕ → Outcome Bytes
magnitude s beam_no bin_no = do
  existance_error_check s
  p ← body s
  beam0 ← field body_layout first_beam p
  bin0 ← field body_layout first_bin p
  n ← field body_layout bins p
  row ← int_product (u16 beam_no) beam0 n
  ok (
      drop (((u16 bin_no + 2 ^ 32 - bin0) % 2 ^ 32 + row) % 2 ^ 32)
        (drop (sizeof body_layout) (after_info s)))
