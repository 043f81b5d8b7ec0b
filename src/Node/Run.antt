-- ===== src/Node/Run.antt =====
-- The constructor of R2SonicNode (r2sonic/src/r2sonic_node.cpp), and what its thread does from then
-- on: the timer that it starts and the callback that it registers, in whatever order they come.
pub mod Expected
pub mod Effect
pub mod Safe
use ros2sonic.Prelude.{ℕ, ◌≡◌, Bool, not, List}
use ros2sonic.Outcome.{Outcome, ok, ◌>>=◌}
use ros2sonic.Memory.{Bytes}
use ros2sonic.Text.{is_empty}
use ros2sonic.Inet.{Inet}
use ros2sonic.Floats.{Floats}
use ros2sonic.Node.Ros.{Ros}
use ros2sonic.Node.Parameters.{Parameters}
use ros2sonic.Node.Parameters.Init.{init}
use ros2sonic.Node.Parameters.Update.{SetResult, Parameter, on_parameter_update}
use ros2sonic.Node.Commands.{Datagram, Sockets, send_cmds}
use ros2sonic.Node.Publish.{Node}

abbrev pub should_advertise : Bytes → Bool
should_advertise topic = not (is_empty topic)

-- `fresh` is the node before the body of the constructor: without publishers.
unfoldable pub construct :
    {fl : Floats} (ros : Ros fl) → Parameters fl → Node fl → Outcome (Parameters fl × Node fl)
construct ros defaults fresh = do
  params ← init ros defaults
  ok (
    params,
    record fresh {
      tx_frame_id = params.sonar.tx_frame_id;
      dectections_pub = should_advertise params.topics.detections;
      bth0_pub = should_advertise params.topics.bth0;
      aid0_pub = should_advertise params.topics.aid0;
      acoustic_image_pub = should_advertise params.topics.acoustic_image;
    },
  )

-- What the node's thread changes: the parameters, and what was sent so far.
pub record Driving (fl : Floats) : Type 0 where
  pub params : Parameters fl
  pub sent : List Datagram

module _ {fl : Floats} (ros : Ros fl) (inet : Inet) (net : Sockets) (unset : Bytes) where
  -- One turn of the executor: the timer fires, or parameters are set.
  pub data Step : Driving fl → Driving fl → Type 0 where
    tick :
        {s : Driving fl} {sent' : List Datagram}
        → send_cmds inet net s.params unset s.sent ≡ ok sent'
        → Step s (record s { sent = sent' })
    set_parameters :
        {s : Driving fl} {params' : Parameters fl} {result : SetResult}
        → (ps : List (Parameter ros inet))
        → on_parameter_update ros inet ps s.params ≡ ok (params', result)
        → Step s (record s { params = params' })

  pub data Reach (s : Driving fl) : Driving fl → Type 0 where
    here : Reach s s
    next : {t u : Driving fl} → Reach s t → Step t u → Reach s u
