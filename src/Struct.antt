-- ===== src/Struct.antt =====
-- Packed structs: a layout is the list of the fields' widths in declaration order, so a field is
-- named by its position, and stands behind the fields before it with no padding
-- (`__attribute__((packed))` throughout r2sonic/include/r2sonic).
pub mod Fields
use ros2sonic.Prelude.{ℕ, zero, suc, ◌+◌, List, [], ◌∷◌, get_or, drop}
use ros2sonic.Outcome.{Outcome}
use ros2sonic.Memory.{Bytes, get_at}

abbrev pub Layout : Type 0
Layout = List ℕ

abbrev pub sizeof : Layout → ℕ
sizeof [] = 0
sizeof (w ∷ ws) = w + sizeof ws

abbrev pub offset : Layout → ℕ → ℕ
offset [] k = 0
offset (w ∷ ws) zero = 0
offset (w ∷ ws) (suc k) = w + offset ws k

abbrev pub width : Layout → ℕ → ℕ
width ws k = get_or ws k 0

-- p->field.get(), for a struct of this layout at `p`.
unfoldable pub field : Layout → ℕ → Bytes → Outcome ℕ
field ws k p = get_at (width ws k) (drop (offset ws k) p)
