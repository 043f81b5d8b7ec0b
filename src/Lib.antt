-- ===== src/Lib.antt =====
-- The r2sonic ROS 2 driver: a node that listens to the UDP packets of an R2Sonic multibeam sonar,
-- reads their sections out of the receive buffer, and publishes them as ROS messages.
--
-- The parts, each with the code that it is about:
--   Memory       r2sonic/include/r2sonic/sections/primatives.hpp. `revPrimitive` is rev_primitive,
--                BigEndianPrimative's `get` and `set` are get and assign. A `char *` is the list of the
--                bytes from there to the end of the buffer.
--   Struct       the packed structs of r2sonic/include/r2sonic: the widths of the fields, in order.
--   Section      sections/section.hpp, and a child for each section class: H0, R0, A0, A1, A2, G0, G1,
--                I1, M0, Q0. `exists`, `getSize` and `end` are exists, get_size and end.
--   Packet       packets/packet.hpp; its children Bth0 and Aid0 are the packet classes of
--                packets/bth0.hpp and packets/aid0.hpp, Command is packets/cmd_packet.hpp and Config is
--                packets/r2dc.hpp. Sequence describes a packet as a header and those sections that are
--                present, independently of the accessors.
--   Conversions  r2sonic/src/conversions.cpp: Detections is bth02SonarDetections, with Spec for what
--                the contents of the sections say; Assembler is Aid02RawAiAssembler; the other
--                functions have the names of the code.
--   Node         r2sonic/src/r2sonic_node.cpp and r2sonic/include/r2sonic/r2sonic_node.hpp. Publish has
--                the two `publish` functions and receiveImpl of r2sonic/src/datatype_receiver.cpp, MsgMap
--                the map of the assemblers with its cleaning, Table the maps of commands. Parameters is
--                the struct of that name, with Defaults for its initial values, Init for `init` and
--                Update for onParameterUpdate; Commands is send_cmds and what it calls. Run is the
--                constructor, and the turns of the node's thread: the timer and the updates. Receiver is
--                r2sonic/src/udp_receiver.cpp, with the ports of r2sonic/nodes/r2sonic_node.cpp. Threads has
--                the two threads that the latter starts for bathymetry and images, as interleaved actions;
--                Worker is one such thread in general.
--   Discover     r2sonic/nodes/discover.cpp.
--   Rtcm         r2sonic/nodes/rtcm_converter.cpp.
--   Text, Inet   texts as lists of characters, and ip_str_to_u32 of packets/r2dc.hpp.
--   Examples     concrete packets, and the theorems applied to them.
-- Prelude has the shared names and lemmas, Outcome the results.
--
-- How they interact: receiveImpl makes a packet of the buffer and gives it to `publish`, which
-- takes the mutexes, converts the packet and sends what comes out. A conversion asks the packet for
-- its sections; a section stands where the one before it ends, and a section that is absent ends
-- where it starts, so every access goes through all the sections that may stand before. An acoustic
-- image comes in several packets: the first one of a ping has H0 and starts an assembler, the
-- others have M0 and add to it.
--
-- The node reads its parameters once, in the constructor, and from then on its thread has two kinds
-- of turns: the timer sends the configuration and the commands that the tables hold, and the
-- callback changes values of the tables. The receivers have threads of their own; each waits for a
-- datagram, which is written over its buffer, and gives the buffer to receiveImpl before it waits
-- again. In Threads the calls of `publish` of two receivers are cut into actions, each one locking,
-- unlocking or sending once, and these come in any order. An action uses only the mutexes, messages
-- and publishers of its own thread, so it is taken as one step.
--
-- A result is `ok`, an exception (`throw`), `fault` for undefined behaviour (a read or a write
-- outside the memory, a read of a member that nothing has initialised, a signed overflow) or `hang`
-- for a loop or a lock that never ends. Machine integers are natural numbers with their wrap-around
-- written out; a negative `int` is its bit pattern. What is not the program's own is a parameter:
-- the floating-point arithmetic of the host (Floats), of which nothing is assumed but that a float
-- has a pattern of 32 bits where it is sent; the parameters and values of rclcpp (Ros); inet_pton
-- and ntohl (Inet), and htonl and htons for the discovery tool (Host); boost's reading of addresses
-- and the success of sending (Sockets).
--
-- A member without a value is `none`: those of an assembler that the constructor leaves. An
-- assignment to a big-endian field goes through an operator that lacks its return statement; it is
-- taken to do what it writes down.
--
-- Bounds: the theorems on parts of an image ask that the bins of a part end at 65536 at most, since
-- M0::magnitude cuts the number of a bin to 16 bits, and that an image has at most 2 ^ 31 cells,
-- since they are indexed by an `int`; Conversions/Assembler/Copy has these as IsPart, and
-- Node/Publish/Outside shows what happens behind the first of them. The loops over beams of a
-- bathymetry packet count down the 16-bit number of beams, so they need no fuel. The two loops that
-- copy a part of an image have counters of 16 and 32 bits: copy_beams has fuel for 65537 tests, one
-- more than a 16-bit counter has values, and copy_bins has one test more than the part has bins.
-- Running out is `hang`. The loop that binds the port has fuel for its turns; one more than there
-- are failed attempts is enough.
--
-- Not modelled: the log, apart from what it reads out of the arrays; the failure of opening a
-- socket for a receiver; the node's own thread as interleaved with the receivers (it is modelled
-- for itself, and what they share are the parameters, of which the receivers read the frame of the
-- transducer, which no update changes); the receiver of the commands, which publishes nothing; and
-- what starts and stops ROS and the threads. A publisher's subscriptions are not modelled, since
-- the code returns before it counts them.
pub mod Prelude
pub mod Outcome
pub mod Memory
pub mod Text
pub mod Inet
pub mod Struct
pub mod Floats
pub mod Section
pub mod Packet
pub mod Conversions
pub mod Node
pub mod Discover
pub mod Rtcm
pub mod Examples
