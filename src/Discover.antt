-- ===== src/Discover.antt =====
-- The discovery tool, r2sonic/nodes/discover.cpp: it asks the devices of the network who they are
-- and prints their answers.
pub mod Answers
use ros2sonic.Prelude.{
  ℕ, ◌+◌, ◌-◌, Bool, true, false, not, ◌&&◌, Option, none, some, List, [], ◌∷◌, ◌++◌, length, take,
  drop, replicate, ◌==◌, if◌then◌else◌,
}
use ros2sonic.Outcome.{Outcome, ok, hang, or_fault, ◌>>=◌}
use ros2sonic.Memory.{Bytes, le_value, le_bytes}
use ros2sonic.Text.{text, c_str}
use ros2sonic.Inet.{Inet}

-- What the program calls of the C library: inet_pton and ntohl, and htonl and htons.
pub record Host : Type 0 where
  pub inet : Inet
  pub htonl : ℕ → ℕ
  pub htons : ℕ → ℕ

-- Whether socket, bind and sendto succeed.
pub record Calls : Type 0 where
  pub socket : Bool
  pub bind : Bool
  pub sendto : Bool

-- What becomes of one turn of the loop: select times out or fails, it reports but recvfrom fails,
-- or a datagram comes from an address.
pub data Answer : Type 0 where
  quiet nothing : Answer
  received : Bytes → Bytes → Answer

-- A line of the output.
pub record Line : Type 0 where
  pub source : Bytes
  pub serial : Bytes
  pub part : Bytes
  pub model : Bytes

pub record Result : Type 0 where
  pub exit_code : ℕ
  pub sent : List Bytes
  pub output : List Line

-- 'R2DD' and 'R2DI' as the compiler reads them, and the port.
abbrev pub r2dd : ℕ
r2dd = 0x52324444

abbrev pub r2di : ℕ
r2di = 0x52324449

abbrev pub gui_port : ℕ
gui_port = 53810

abbrev pub response_size : ℕ
response_size = 72

module _ (host : Host) where
  open host use {inet, htonl, htons}

  -- The address of a text that is none is a variable that nobody has written.
  unfoldable pub ip_to_u32 : Bytes → Outcome ℕ
  ip_to_u32 ip = do addr ← or_fault (inet.inet_pton (c_str ip)); ok (inet.ntohl addr)

  -- The struct R2DD as it lies in memory.
  unfoldable pub discovery_packet : Outcome Bytes
  discovery_packet = do
    gui_ip ← ip_to_u32 (text "10.0.1.102")
    ok (
        le_bytes 4 (htonl r2dd)
        ++ (le_bytes 4 (htonl gui_ip) ++ (le_bytes 2 (htons gui_port) ++ replicate 34 0)))

  -- The twelve bytes of a field, up to the first null.
  abbrev pub print_ascii_field : Bytes → Bytes
  print_ascii_field field = c_str (take 12 field)

  -- One datagram: recvfrom keeps what fits into the struct R2DI.
  unfoldable pub respond : Bytes → Bytes → Option Line
  respond src datagram =
      let response = take response_size datagram in
      if (length response == response_size) && (inet.ntohl (le_value (take 4 response)) == r2di)
      then some (record {
        source = src;
        serial = print_ascii_field (drop 4 response);
        part = print_ascii_field (drop 16 response);
        model = print_ascii_field (drop 28 response);
      })
      else none

  abbrev pub add_line : Option Line → List Line → List Line
  add_line none lines = lines
  add_line (some l) lines = l ∷ lines

  -- The loop ends when select does: without that it goes on waiting.
  unfoldable pub listen : List Answer → Outcome (List Line)
  listen [] = hang
  listen (quiet ∷ answers) = ok []
  listen (nothing ∷ answers) = listen answers
  listen (received src datagram ∷ answers) = do
    lines ← listen answers
    ok (add_line (respond src datagram) lines)

  unfoldable pub discover : Calls → List Answer → Outcome Result
  discover calls answers =
      if not calls.socket
      then ok (record { exit_code = 1; sent = []; output = [] })
      else if not calls.bind
      then ok (record { exit_code = 1; sent = []; output = [] })
      else (do
        pkt ← discovery_packet
        if not calls.sendto then ok (record { exit_code = 1; sent = []; output = [] }) else (do
          lines ← listen answers
          ok (record { exit_code = 0; sent = pkt ∷ []; output = lines })))
