-- ===== src/Node/Commands/Tables.antt =====
-- The packets that the tables of commands become.
use ros2sonic.Prelude.{
  ℕ, ◌^◌, ◌<◌, ◌≡◌, refl, sym, ap, ◌∙◌, none, some, List, [], ◌∷◌, ◌++◌, append_assoc, append-nil,
  All, length, take, drop, ==_iff,
}
use ros2sonic.Outcome.{Outcome, ok, ◌>>=◌}
use ros2sonic.Memory.{Bytes, assign}
use ros2sonic.Memory.Endian.{be_bytes}
use ros2sonic.Text.{text, c_str}
use ros2sonic.Inet.{Inet, ip_str_to_u32}
use ros2sonic.Floats.{Floats}
use ros2sonic.Packet.Command.{
  CmdSet, empty_set, append, make_int, make_float, float_cmd, fresh, serialize, serialize_from,
}
use ros2sonic.Packet.Command.RoundTrip.{
  IsCommand, pack, stream, pack-serialize, read_commands, read-stream, value_bytes, one_command,
}
use ros2sonic.Node.Table.{Entry, Table}
use ros2sonic.Node.Parameters.Valid.{HasLetters, IsIntEntry}
use ros2sonic.Node.Commands.{append_ints, append_ips, append_floats}

-- The address that a text stands for, where it stands for one.
abbrev pub address_of : Inet → Bytes → ℕ
address_of inet s = elim (inet.inet_pton (c_str s)) [ none ↦ 0 | some n ↦ inet.ntohl n ]

abbrev pub IsAddress : Inet → Bytes → Type 0
IsAddress inet s = (ip_str_to_u32 inet s ≡ ok (address_of inet s)) × (address_of inet s < 2 ^ 32)

-- The names and the values of the commands of a table, in its order.
abbrev pub int_commands : Table ℕ → List (Bytes × ℕ)
int_commands [] = []
int_commands (e ∷ t) = (c_str e.name, e.value) ∷ int_commands t

abbrev pub ip_commands : Inet → Table Bytes → List (Bytes × ℕ)
ip_commands inet [] = []
ip_commands inet (e ∷ t) = (c_str e.name, address_of inet e.value) ∷ ip_commands inet t

abbrev pub float_commands : (fl : Floats) → Table fl.F32 → List (Bytes × ℕ)
float_commands fl [] = []
float_commands fl (e ∷ t) = (c_str e.name, fl.to_bits e.value) ∷ float_commands fl t

-- The set with the commands added, and its bytes.
abbrev pub Adds : Outcome CmdSet → CmdSet → List (Bytes × ℕ) → Type 0
Adds m set cmds = (full : CmdSet) × (m ≡ ok full) × (serialize full ≡ serialize set ++ stream cmds)

append_ints-eq-pack : (t : Table ℕ) (set : CmdSet) → append_ints t set ≡ pack (int_commands t) set
unfolding append_ints pack
append_ints-eq-pack [] set = refl
append_ints-eq-pack (e ∷ t) set =
    ap (λ f. make_int (c_str e.name) e.value >>= f)
      (λ i cmd. append_ints-eq-pack t (append set cmd) i)

pub append_ints-Adds :
    (t : Table ℕ) (set : CmdSet)
    → All IsCommand (int_commands t)
    → Adds (append_ints t set) set (int_commands t)
append_ints-Adds t set good =
    rw (append_ints-eq-pack t set) (pack-serialize (int_commands t) set good)

append_ips-eq-pack :
    (inet : Inet) (t : Table Bytes) (set : CmdSet)
    → All (λ (e : Entry Bytes). IsAddress inet e.value) t
    → append_ips inet t set ≡ pack (ip_commands inet t) set
unfolding append_ips pack
append_ips-eq-pack inet [] set known = refl
append_ips-eq-pack inet (e ∷ t) set known = rw known.0.0 (
    ap (λ f. make_int (c_str e.name) (address_of inet e.value) >>= f)
      (λ i cmd. append_ips-eq-pack inet t (append set cmd) known.1 i))

pub append_ips-Adds :
    (inet : Inet) (t : Table Bytes) (set : CmdSet)
    → All (λ (e : Entry Bytes). IsAddress inet e.value) t
    → All IsCommand (ip_commands inet t)
    → Adds (append_ips inet t set) set (ip_commands inet t)
append_ips-Adds inet t set known good =
    rw (append_ips-eq-pack inet t set known) (pack-serialize (ip_commands inet t) set good)

pub append_floats-Adds :
    (fl : Floats) (t : Table fl.F32) (set : CmdSet)
    → All IsCommand (float_commands fl t)
    → Adds (append_floats fl t set) set (float_commands fl t)
unfolding append_floats make_float
append_floats-Adds fl [] set good = (set, refl, sym (append-nil (serialize set)))
append_floats-Adds fl (e ∷ t) set good =
    let bits = fl.to_bits e.value in
    let cmd = float_cmd (c_str e.name) (assign fresh bits) in
    let (full, packed, bytes) = append_floats-Adds fl t (append set cmd) good.1 in
    (
      full,
      rw ((==_iff (length (c_str e.name)) 4).1 good.0.0) packed,
      bytes
          ∙ one_command set cmd (c_str e.name) bits (stream (float_commands fl t))
              (ap (λ u. c_str e.name ++ u) (value_bytes bits good.0.1)),
    )

stream-append : (xs ys : List (Bytes × ℕ)) → stream (xs ++ ys) ≡ stream xs ++ stream ys
stream-append [] ys = refl
stream-append ((name, value) ∷ xs) ys =
    ap (λ t. name ++ (be_bytes 4 value ++ t)) (stream-append xs ys)
    ∙ ap (λ t. name ++ t) (sym (append_assoc (be_bytes 4 value) (stream xs) (stream ys)))
    ∙ sym (append_assoc name (be_bytes 4 value ++ stream xs) (stream ys))

All-append :
    (xs ys : List (Bytes × ℕ)) → All IsCommand xs → All IsCommand ys → All IsCommand (xs ++ ys)
All-append [] ys h k = k
All-append (x ∷ xs) ys h k = (h.0, All-append xs ys h.1 k)

-- A packet filled by two loops one after the other.
abbrev pub Holds : Bytes → List (Bytes × ℕ) → Type 0
Holds payload cmds = (take 4 payload ≡ text "CMD0") × (read_commands (drop 4 payload) ≡ cmds)

pub two_loops :
    (first : Outcome CmdSet) (second : CmdSet → Outcome CmdSet) (xs ys : List (Bytes × ℕ))
    → Adds first empty_set xs
    → ((set : CmdSet) → Adds (second set) set ys)
    → All IsCommand xs
    → All IsCommand ys
    → (full : CmdSet) × ((first >>= second) ≡ ok full) × Holds (serialize full) (xs ++ ys)
unfolding serialize serialize_from
two_loops first second xs ys (set, e, bytes) then_ys goodx goody =
    let (full, e', bytes') = then_ys set in
    let whole : serialize full ≡ text "CMD0" ++ stream (xs ++ ys) =
      bytes'
      ∙ ap (λ t. t ++ stream ys) bytes
      ∙ append_assoc (text "CMD0") (stream xs) (stream ys)
      ∙ ap (λ t. text "CMD0" ++ t) (sym (stream-append xs ys)) in
    (
      full,
      rw e e',
      (
        ap (take 4) whole,
        ap (λ t. read_commands (drop 4 t)) whole
            ∙ read-stream (xs ++ ys) (All-append xs ys goodx goody),
      ),
    )

pub ints-IsCommand : (t : Table ℕ) → All IsIntEntry t → All IsCommand (int_commands t)
ints-IsCommand [] h = tt
ints-IsCommand (e ∷ t) h = (h.0, ints-IsCommand t h.1)

pub ips-IsCommand :
    (inet : Inet) (t : Table Bytes)
    → All HasLetters t
    → All (λ (e : Entry Bytes). IsAddress inet e.value) t
    → All IsCommand (ip_commands inet t)
ips-IsCommand inet [] h k = tt
ips-IsCommand inet (e ∷ t) h k = ((h.0, k.0.1), ips-IsCommand inet t h.1 k.1)

pub floats-IsCommand :
    (fl : Floats) (t : Table fl.F32)
    → ((x : fl.F32) → fl.to_bits x < 2 ^ 32)
    → All HasLetters t
    → All IsCommand (float_commands fl t)
floats-IsCommand fl [] narrow h = tt
floats-IsCommand fl (e ∷ t) narrow h = ((h.0, narrow e.value), floats-IsCommand fl t narrow h.1)
