-- ===== src/Packet/Command/RoundTrip.antt =====
-- The packet of commands can be read back.
use ros2sonic.Prelude.{
  ℕ, ◌^◌, ◌<◌, ◌≡◌, refl, sym, ap, ap₂, ◌∙◌, List, [], ◌∷◌, ◌++◌, append_assoc, All, length, drop,
  ==_iff, append-nil, arith,
}
use ros2sonic.Outcome.{Outcome, ok, ◌>>=◌}
use ros2sonic.Memory.{Bytes, assign, bytes_of}
use ros2sonic.Memory.Endian.{be_value, be_bytes, be_value-be_bytes}
use ros2sonic.Memory.Reads.{bytes_of-assign}
use ros2sonic.Packet.Command.{
  Command, int_cmd, fresh, make_int, CmdSet, empty_set, append, command_bytes, serialize_from,
  serialize,
}

-- A reader of the wire format: four bytes of name and four of value, again and again.
pub read_commands : Bytes → List (Bytes × ℕ)
read_commands (a ∷ b ∷ c ∷ d ∷ e ∷ f ∷ g ∷ h ∷ rest) =
    (a ∷ b ∷ c ∷ d ∷ [], be_value (e ∷ f ∷ g ∷ h ∷ [])) ∷ read_commands rest
read_commands other = []

-- The packet that holds the commands with these names and values, in this order.
unfoldable pub pack : List (Bytes × ℕ) → CmdSet → Outcome CmdSet
pack [] set = ok set
pack ((name, value) ∷ rest) set = do cmd ← make_int name value; pack rest (append set cmd)

abbrev pub IsCommand : Bytes × ℕ → Type 0
IsCommand (name, value) = (length name ≡ 4) × (value < 2 ^ 32)

-- The commands' bytes one behind the other.
abbrev pub stream : List (Bytes × ℕ) → Bytes
stream [] = []
stream ((name, value) ∷ rest) = name ++ (be_bytes 4 value ++ stream rest)

pub value_bytes : (value : ℕ) → value < 2 ^ 32 → bytes_of (assign fresh value) ≡ be_bytes 4 value
value_bytes value h = bytes_of-assign fresh value ∙ ap (be_bytes 4) (omega arith)

serialize_from-append :
    (cmds : List Command) (more : List Command) (buffer : Bytes)
    → serialize_from (cmds ++ more) buffer ≡ serialize_from more (serialize_from cmds buffer)
unfolding serialize_from
serialize_from-append [] more buffer = refl
serialize_from-append (c ∷ cmds) more buffer =
    serialize_from-append cmds more (buffer ++ command_bytes c)

serialize-append :
    (set : CmdSet) (cmd : Command) → serialize (append set cmd) ≡ serialize set ++ command_bytes cmd
unfolding serialize append serialize_from
serialize-append set cmd = serialize_from-append set.commands (cmd ∷ []) set.packet_name

-- Appending a command whose bytes are known.
pub one_command :
    (set : CmdSet) (cmd : Command) (name : Bytes) (value : ℕ) (rest : Bytes)
    → command_bytes cmd ≡ name ++ be_bytes 4 value
    → serialize (append set cmd) ++ rest ≡ serialize set ++ (name ++ (be_bytes 4 value ++ rest))
one_command set cmd name value rest e =
    ap (λ t. t ++ rest) (serialize-append set cmd ∙ ap (λ t. serialize set ++ t) e)
    ∙ append_assoc (serialize set) (name ++ be_bytes 4 value) rest
    ∙ ap (λ t. serialize set ++ t) (append_assoc name (be_bytes 4 value) rest)

-- Packing and serialising is appending the stream to what the set held.
pub pack-serialize :
    (cmds : List (Bytes × ℕ)) (set : CmdSet)
    → All IsCommand cmds
    → (full : CmdSet) × (pack cmds set ≡ ok full) × (serialize full ≡ serialize set ++ stream cmds)
unfolding pack make_int
pack-serialize [] set good = (set, refl, sym (append-nil (serialize set)))
pack-serialize ((name, value) ∷ rest) set good =
    let cmd = int_cmd name (assign fresh value) in
    let (full, packed, bytes) = pack-serialize rest (append set cmd) good.1 in
    (
      full,
      rw ((==_iff (length name) 4).1 good.0.0) packed,
      bytes
          ∙ one_command set cmd name value (stream rest)
              (ap (λ t. name ++ t) (value_bytes value good.0.1)),
    )

pub read-stream :
    (cmds : List (Bytes × ℕ)) → All IsCommand cmds → read_commands (stream cmds) ≡ cmds
unfolding read_commands
read-stream [] good = refl
read-stream ((a ∷ b ∷ c ∷ d ∷ [], value) ∷ rest) good =
    ap₂ (λ v (t : List (Bytes × ℕ)). (a ∷ b ∷ c ∷ d ∷ [], v) ∷ t)
      (be_value-be_bytes 4 value good.0.1) (read-stream rest good.1)
read-stream (([], value) ∷ rest) good = absurd (omega (arith, good.0.0))
read-stream ((a ∷ [], value) ∷ rest) good = absurd (omega (arith, good.0.0))
read-stream ((a ∷ b ∷ [], value) ∷ rest) good = absurd (omega (arith, good.0.0))
read-stream ((a ∷ b ∷ c ∷ [], value) ∷ rest) good = absurd (omega (arith, good.0.0))
read-stream ((a ∷ b ∷ c ∷ d ∷ e ∷ name, value) ∷ rest) good = absurd (omega (arith, good.0.0))

-- Commands with names of four characters and 32-bit values are all accepted, and a reader of the
-- packet's bytes gets their names and values back in the order in which they were appended, behind
-- the four bytes of the packet's name.
pub read-serialize :
    (cmds : List (Bytes × ℕ))
    → All IsCommand cmds
    → (full : CmdSet) × (pack cmds empty_set ≡ ok full)
      × (read_commands (drop 4 (serialize full)) ≡ cmds)
unfolding serialize serialize_from
read-serialize cmds good =
    let (full, packed, bytes) = pack-serialize cmds empty_set good in
    (full, packed, ap (λ t. read_commands (drop 4 t)) bytes ∙ read-stream cmds good)
