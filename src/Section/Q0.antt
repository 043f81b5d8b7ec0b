-- ===== src/Section/Q0.antt =====
-- r2sonic/include/r2sonic/sections/q0.hpp: 4-bit quality flags, eight to a word.
pub mod Nibbles
use ros2sonic.Prelude.{
  ℕ, ◌+◌, ◌-◌, ◌*◌, ◌/◌, ◌%◌, ◌^◌, Bool, not, get_elem?, drop, bit_and, bit_or, ◌==◌,
}
use ros2sonic.Outcome.{Outcome, ok, or_fault, ◌>>=◌}
use ros2sonic.Memory.{Bytes}
use ros2sonic.Section.{Section, after_info, u16}

-- qualityWordsBE()
abbrev pub quality_words : Section → Bytes
quality_words s = after_info s

-- Four bytes, shifted and joined; each byte is converted to u32 before its shift.
unfoldable pub read_be_u32 : Bytes → Outcome ℕ
read_be_u32 p = do
  p0 ← or_fault (get_elem? p 0)
  p1 ← or_fault (get_elem? p 1)
  p2 ← or_fault (get_elem? p 2)
  p3 ← or_fault (get_elem? p 3)
  ok (bit_or (bit_or (bit_or (p0 * 2 ^ 24) (p1 * 2 ^ 16)) (p2 * 2 ^ 8)) p3)

-- The nibble of a word: `(w >> shift) & 0x0F` with `shift = (7 - nib_index) * 4`.
unfoldable pub nibble : ℕ → ℕ → ℕ
nibble w nib_index = bit_and (w / 2 ^ ((7 - nib_index) * 4)) 0x0f % 256

unfoldable pub get_quality_flag : Section → ℕ → Outcome ℕ
get_quality_flag s beam_no = do
  w ← read_be_u32 (drop (u16 beam_no / 8 * 4) (quality_words s))
  ok (nibble w (u16 beam_no % 8))

unfoldable pub phase_detect : Section → ℕ → Outcome Bool
phase_detect s beam_no = do flag ← get_quality_flag s beam_no; ok (not (bit_and flag 0x08 == 0))

unfoldable pub magnitude_detect : Section → ℕ → Outcome Bool
magnitude_detect s beam_no = do flag ← get_quality_flag s beam_no; ok (not (bit_and flag 0x04 == 0))
