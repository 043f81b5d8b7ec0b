-- ===== src/Discover/Answers.antt =====
-- What the discovery tool sends and prints.
use ros2sonic.Prelude.{
  ℕ, zero, suc, ◌-◌, ◌^◌, ◌≤◌, ◌<◌, ◌≡◌, refl, sym, ap, ◌∙◌, true, some, List, [], ◌∷◌, ◌++◌, map,
  All, length, take_whole, length-append, take, drop, replicate, length-replicate, drop-drop,
  ==_iff, ◌==◌, if◌then◌else◌, arith,
}
use ros2sonic.Outcome.{ok}
use ros2sonic.Memory.{Bytes, le_value, le_bytes}
use ros2sonic.Memory.Endian.{be_bytes}
use ros2sonic.Text.{text, c_str, strncpy}
use ros2sonic.Discover.{
  Host, Calls, Answer, quiet, received, Line, r2dd, r2di, gui_port, ip_to_u32, discovery_packet,
  print_ascii_field, respond, listen, discover,
}

-- What the tool relies on of htonl and its like: in memory their results are in network order.
pub record IsNetworkOrder (host : Host) : Type 0 where
  pub long : (v : ℕ) → v < 2 ^ 32 → le_bytes 4 (host.htonl v) ≡ be_bytes 4 v
  pub short : (v : ℕ) → v < 2 ^ 16 → le_bytes 2 (host.htons v) ≡ be_bytes 2 v
  pub back : (v : ℕ) → v < 2 ^ 32 → host.inet.ntohl (le_value (be_bytes 4 v)) ≡ v

-- A device of the network, at an address, and what it answers.
pub record Device : Type 0 where
  pub address : Bytes
  pub serial : Bytes
  pub part : Bytes
  pub model : Bytes

abbrev pub r2di_packet : Device → Bytes
r2di_packet d =
    be_bytes 4 r2di
    ++ (strncpy 12 d.serial ++ (strncpy 12 d.part ++ (strncpy 12 d.model ++ replicate 32 0)))

abbrev pub answer_of : Device → Answer
answer_of d = received d.address (r2di_packet d)

-- What is printed of it.
abbrev pub line_of : Device → Line
line_of d = record {
  source = d.address;
  serial = c_str d.serial;
  part = c_str d.part;
  model = c_str d.model;
}

-- The texts fit into their fields.
abbrev pub FitsFields : Device → Type 0
FitsFields d = (length d.serial ≤ 12) × (length d.part ≤ 12) × (length d.model ≤ 12)

take_front : (n : ℕ) (xs ys : Bytes) → length xs ≡ n → take n (xs ++ ys) ≡ xs
take_front zero [] ys h = refl
take_front zero (a ∷ xs) ys h = absurd (omega arith)
take_front (suc n) [] ys h = absurd (omega arith)
take_front (suc n) (a ∷ xs) ys h = ap (λ t. a ∷ t) (take_front n xs ys (omega arith))

drop_front : (n : ℕ) (xs ys : Bytes) → length xs ≡ n → drop n (xs ++ ys) ≡ ys
drop_front zero [] ys h = refl
drop_front zero (a ∷ xs) ys h = absurd (omega arith)
drop_front (suc n) [] ys h = absurd (omega arith)
drop_front (suc n) (a ∷ xs) ys h = drop_front n xs ys (omega arith)

strncpy-short : (s : Bytes) → length s ≤ 12 → strncpy 12 s ≡ s ++ replicate (12 - length s) 0
strncpy-short s h = ap (λ t. t ++ replicate (12 - length s) 0) (take_whole 12 s h)

length-strncpy : (s : Bytes) → length s ≤ 12 → length (strncpy 12 s) ≡ 12
length-strncpy s h =
    ap length (strncpy-short s h)
    ∙ length-append s (replicate (12 - length s) 0)
    ∙ omega (arith, length-replicate {A = ℕ} (12 - length s) 0)

-- The nulls behind a text are not printed.
c_str-nulls : (n : ℕ) → c_str (replicate n 0) ≡ []
c_str-nulls zero = refl
c_str-nulls (suc n) = refl

c_str-padded : (s : Bytes) (n : ℕ) → c_str (s ++ replicate n 0) ≡ c_str s
c_str-padded [] n = c_str-nulls n
c_str-padded (a ∷ s) n = ap (λ (t : Bytes). if a == 0 then [] else a ∷ t) (c_str-padded s n)

field-printed :
    (host : Host) (s rest : Bytes)
    → length s ≤ 12
    → print_ascii_field host (strncpy 12 s ++ rest) ≡ c_str s
field-printed host s rest h =
    ap c_str (take_front 12 (strncpy 12 s) rest (length-strncpy s h))
    ∙ ap c_str (strncpy-short s h)
    ∙ c_str-padded s (12 - length s)

-- A datagram of the right length and name.
respond-of :
    (host : Host) (src datagram : Bytes)
    → length datagram ≡ 72
    → host.inet.ntohl (le_value (take 4 datagram)) ≡ r2di
    → respond host src datagram
      ≡ some (record {
        source = src;
        serial = print_ascii_field host (drop 4 datagram);
        part = print_ascii_field host (drop 16 datagram);
        model = print_ascii_field host (drop 28 datagram);
      })
unfolding respond
respond-of host src datagram size name = rw (
  take_whole 72 datagram (omega arith),
  (==_iff (length datagram) 72).1 size,
  (==_iff (host.inet.ntohl (le_value (take 4 datagram))) r2di).1 name,
)

length-r2di_packet : (d : Device) → FitsFields d → length (r2di_packet d) ≡ 72
length-r2di_packet d (s, p, m) =
    let spare : Bytes = replicate 32 0 in
    let model = strncpy 12 d.model in
    let part = strncpy 12 d.part in
    omega (
      arith,
      length-append (strncpy 12 d.serial) (part ++ (model ++ spare)),
      length-append part (model ++ spare),
      length-append model spare,
      length-strncpy d.serial s,
      length-strncpy d.part p,
      length-strncpy d.model m,
    )

respond-r2di :
    (host : Host) (d : Device)
    → IsNetworkOrder host
    → FitsFields d
    → respond host d.address (r2di_packet d) ≡ some (line_of d)
respond-r2di host d order (s, p, m) =
    let spare : Bytes = replicate 32 0 in
    let model = strncpy 12 d.model in
    let part = strncpy 12 d.part in
    let serial = strncpy 12 d.serial in
    let at_part : drop 12 (serial ++ (part ++ (model ++ spare))) ≡ part ++ (model ++ spare) =
      drop_front 12 serial (part ++ (model ++ spare)) (length-strncpy d.serial s) in
    let at_model : drop 24 (serial ++ (part ++ (model ++ spare))) ≡ model ++ spare =
      sym (drop-drop 12 12 (serial ++ (part ++ (model ++ spare))))
      ∙ ap (drop 12) at_part
      ∙ drop_front 12 part (model ++ spare) (length-strncpy d.part p) in
    respond-of host d.address (r2di_packet d) (length-r2di_packet d (s, p, m))
      (order.back r2di (omega arith))
    ∙ ap (λ (l : Line). some l)
        (λ i. record {
          source = d.address;
          serial = field-printed host d.serial (part ++ (model ++ spare)) s i;
          part =
              (ap (print_ascii_field host) at_part ∙ field-printed host d.part (model ++ spare) p)
                i;
          model = (ap (print_ascii_field host) at_model ∙ field-printed host d.model spare m) i;
        })

listen-devices :
    (host : Host) (devices : List Device) (later : List Answer)
    → IsNetworkOrder host
    → All FitsFields devices
    → listen host (map answer_of devices ++ quiet ∷ later) ≡ ok (map line_of devices)
unfolding listen
listen-devices host [] later order fits = refl
listen-devices host (d ∷ devices) later order fits =
    rw (listen-devices host devices later order fits.1, respond-r2di host d order fits.0) refl

abbrev pub request : ℕ → Bytes
request gui_ip = text "R2DD" ++ (be_bytes 4 gui_ip ++ (be_bytes 2 53810 ++ replicate 34 0))

discovery_packet-eq :
    (host : Host) (gui_ip : ℕ)
    → IsNetworkOrder host
    → ip_to_u32 host (text "10.0.1.102") ≡ ok gui_ip
    → gui_ip < 2 ^ 32
    → discovery_packet host ≡ ok (request gui_ip)
unfolding discovery_packet
discovery_packet-eq host gui_ip order address small = rw address (λ i. ok (
    order.long r2dd (omega arith) i
    ++ (order.long gui_ip small i ++ (order.short gui_port (omega arith) i ++ replicate 34 0))))

-- On a host whose htonl and its like give network order, with a socket that can be opened, bound
-- and written to, and where the tool's own text is an address of 32 bits, the tool sends one
-- packet, with the name, the address and the port in network order; it prints each device that
-- answers before the wait runs out, in the order of the answers, with its three texts, which fit
-- into their fields; and it ends with exit code 0.
pub discover-eq :
    (host : Host) (calls : Calls) (devices : List Device) (later : List Answer) (gui_ip : ℕ)
    → IsNetworkOrder host
    → calls.socket ≡ true
    → calls.bind ≡ true
    → calls.sendto ≡ true
    → ip_to_u32 host (text "10.0.1.102") ≡ ok gui_ip
    → gui_ip < 2 ^ 32
    → All FitsFields devices
    → discover host calls (map answer_of devices ++ quiet ∷ later)
      ≡ ok (record { exit_code = 0; sent = request gui_ip ∷ []; output = map line_of devices })
unfolding discover
discover-eq host calls devices later gui_ip order opened bound taken address small fits =
    rw
      (
        opened,
        bound,
        discovery_packet-eq host gui_ip order address small,
        taken,
        listen-devices host devices later order fits,
      )
      refl
