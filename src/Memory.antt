-- ===== src/Memory.antt =====
-- Memory as the driver sees it (r2sonic/include/r2sonic/sections/primatives.hpp).
-- A `char *` into the receive buffer is the list of the bytes from there to the buffer's end, so
-- `p + n` is `drop n p` and a read past the end is a `fault`. The host is little-endian, as the
-- driver assumes. A value of width `w` is a number below 256 ^ w; a float is its bit pattern.
pub mod Endian
pub mod Reads
use ros2sonic.Prelude.{
  ℕ, zero, suc, ◌+◌, ◌*◌, ◌/◌, ◌%◌, ◌^◌, ◌<◌, List, [], ◌∷◌, Option, none, some, All, length,
  get_or, get_elem?, drop,
}
use ros2sonic.Outcome.{Outcome, ok, fault, or_fault, ◌>>=◌}

abbrev pub Bytes : Type 0
Bytes = List ℕ

abbrev pub IsBytes : Bytes → Type 0
IsBytes bs = All (λ b. b < 256) bs

-- The number that the bytes of an object stand for on the host, and back.
abbrev pub le_value : Bytes → ℕ
le_value [] = 0
le_value (b ∷ bs) = b + 256 * le_value bs

abbrev pub le_bytes : ℕ → ℕ → Bytes
le_bytes zero u = []
le_bytes (suc w) u = u % 256 ∷ le_bytes w (u / 256)

-- The loop of `revPrimitive`: with `left` rounds to go the next byte written is source.u8[left -
-- 1].
abbrev pub copy_reversed : ℕ → Bytes → Bytes
copy_reversed zero source = []
copy_reversed (suc left) source = get_or source left 0 ∷ copy_reversed left source

unfoldable pub rev_primitive : ℕ → ℕ → ℕ
rev_primitive w u = le_value (copy_reversed w (le_bytes w u))

-- The operator `=` calls `set` and then runs off its end without the `return` that it promises; the
-- model takes it to do what it writes down.
-- BigEndianPrimative<PrimT>: `raw` is what stands in memory, `get` and `set` go through
-- `revPrimitive`. An assignment from a wider integer converts to PrimT first, which wraps.
pub record BigEndianPrimative : Type 0 where
  pub width : ℕ
  pub raw : ℕ

unfoldable pub get : BigEndianPrimative → ℕ
get v = rev_primitive v.width v.raw

unfoldable pub assign : BigEndianPrimative → ℕ → BigEndianPrimative
assign v val = record v { raw = rev_primitive v.width (val % 256 ^ v.width) }

-- `w` bytes from `p` on.
pub read_bytes : ℕ → Bytes → Outcome Bytes
read_bytes zero p = ok []
read_bytes (suc w) [] = fault
read_bytes (suc w) (b ∷ p) = do bs ← read_bytes w p; ok (b ∷ bs)

-- A BigEndianPrimative of width `w` laid over the memory at `p`.
unfoldable pub overlay : ℕ → Bytes → Outcome BigEndianPrimative
unfolding read_bytes
overlay w p = do bs ← read_bytes w p; ok (record { width = w; raw = le_value bs })

-- reinterpret_cast<BE_T*>(p)->get()
unfoldable pub get_at : ℕ → Bytes → Outcome ℕ
unfolding overlay get
get_at w p = do v ← overlay w p; ok (get v)

-- The bytes of a BigEndianPrimative in memory.
unfoldable pub bytes_of : BigEndianPrimative → Bytes
bytes_of v = le_bytes v.width v.raw
