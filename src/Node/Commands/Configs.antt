-- ===== src/Node/Commands/Configs.antt =====
-- The device configuration that make_config builds from the parameters.
use ros2sonic.Prelude.{
  ℕ, zero, suc, ◌+◌, ◌≤◌, ◌<◌, ◌≡◌, refl, true, List, [], ◌∷◌, All, length, get_or, replicate,
  tabulate, fill, arith,
}
use ros2sonic.Outcome.{ok}
use ros2sonic.Memory.{Bytes, BigEndianPrimative, assign}
use ros2sonic.Text.{text, c_str, strncpy}
use ros2sonic.Inet.{Inet, ip_str_to_u32}
use ros2sonic.Floats.{Floats}
use ros2sonic.Packet.Config.{
  Config, field_of, config_of, default_config, set_config_id, config_id_is_valid, node_name,
}
use ros2sonic.Packet.Config.Identifier.{set_is_valid}
use ros2sonic.Node.Parameters.{Network, Parameters, systems, daqs}
use ros2sonic.Node.Parameters.Valid.{HasArrays}
use ros2sonic.Node.Commands.{fill_systems, fill_daqs, make_config}
use ros2sonic.Node.Commands.Tables.{address_of}
use ros2sonic.Node.Commands.Packets.{get_elem-lt}

-- ip_str_to_u32 reads the text.
abbrev pub Resolves : Inet → Bytes → Type 0
Resolves inet s = ip_str_to_u32 inet s ≡ ok (address_of inet s)

-- It reads the literals of the constructor.
pub record ReadsLiterals (inet : Inet) : Type 0 where
  pub mask : Resolves inet (text "255.0.0.0")
  pub no_ip : Resolves inet (text "0.0.0.0")
  pub daq : Resolves inet (text "10.0.1.102")
  pub head : Resolves inet (text "10.0.0.86")
  pub sim : Resolves inet (text "10.0.0.99")

-- It reads every address of the network.
pub record ReadsNetwork (inet : Inet) (net : Network) : Type 0 where
  pub mask : Resolves inet net.subnet_mask
  pub gateway : Resolves inet net.gateway_ip
  pub gui : Resolves inet net.gui_ip
  pub heads : All (Resolves inet) net.head_ips
  pub simboxes : All (Resolves inet) net.simbox_ips
  pub daqs_known : All (Resolves inet) net.daq_ips

All-get_or :
    (inet : Inet) (xs : List Bytes) (i : ℕ)
    → All (Resolves inet) xs
    → i < length xs
    → Resolves inet (get_or xs i [])
All-get_or inet [] i h below = absurd (omega arith)
All-get_or inet (x ∷ xs) zero h below = h.0
All-get_or inet (x ∷ xs) (suc i) h below = All-get_or inet xs i h.1 (omega arith)

-- The addresses and the ports at an index, as they go into the packet.
abbrev pub ip_at : Inet → List Bytes → ℕ → BigEndianPrimative
ip_at inet ips j = field_of 4 (address_of inet (get_or ips j []))

abbrev pub port_at : List ℕ → ℕ → BigEndianPrimative
port_at ports j = field_of 2 (get_or ports j 0)

module _ (inet : Inet) (net : Network) (full : HasArrays net) (known : ReadsNetwork inet net) where
  fill_systems-eq :
      (left i : ℕ) (cfg : Config)
      → i + left ≤ systems
      → fill_systems inet net left i cfg
        ≡ ok (record cfg {
          head_ip = fill left i (ip_at inet net.head_ips) cfg.head_ip;
          head_baseport = fill left i (port_at net.head_baseports) cfg.head_baseport;
          simbox_ip = fill left i (ip_at inet net.simbox_ips) cfg.simbox_ip;
          simbox_baseport = fill left i (port_at net.simbox_baseports) cfg.simbox_baseport;
        })
  unfolding fill_systems
  fill_systems-eq zero i cfg h = refl
  fill_systems-eq (suc left) i cfg h =
      rw
        (
          get_elem-lt net.head_ips i systems [] full.head_ips_full (omega arith),
          All-get_or inet net.head_ips i known.heads (omega (arith, full.head_ips_full)),
          get_elem-lt net.head_baseports i systems 0 full.head_baseports_full (omega arith),
          get_elem-lt net.simbox_ips i systems [] full.simbox_ips_full (omega arith),
          All-get_or inet net.simbox_ips i known.simboxes (omega (arith, full.simbox_ips_full)),
          get_elem-lt net.simbox_baseports i systems 0 full.simbox_baseports_full (omega arith),
        )
        (fill_systems-eq left (i + 1) _ (omega arith))

  fill_daqs-eq :
      (left i : ℕ) (cfg : Config)
      → i + left ≤ daqs
      → fill_daqs inet net left i cfg
        ≡ ok (record cfg {
          daq_ip = fill left i (ip_at inet net.daq_ips) cfg.daq_ip;
          daq_baseport = fill left i (port_at net.daq_baseports) cfg.daq_baseport;
        })
  unfolding fill_daqs
  fill_daqs-eq zero i cfg h = refl
  fill_daqs-eq (suc left) i cfg h =
      rw
        (
          get_elem-lt net.daq_ips i daqs [] full.daq_ips_full (omega arith),
          All-get_or inet net.daq_ips i known.daqs_known (omega (arith, full.daq_ips_full)),
          get_elem-lt net.daq_baseports i daqs 0 full.daq_baseports_full (omega arith),
        )
        (fill_daqs-eq left (i + 1) _ (omega arith))

-- The configuration read straight from the parameters, and the same with its identifier.
abbrev pub settings_of : {fl : Floats} → Inet → Parameters fl → Bytes → Config
settings_of inet params serial =
    let net = params.network in
    record {
      name = text "R2DC";
      serial_number = strncpy 12 (c_str serial);
      config_id = field_of 4 2549138156;
      subnet_mask = field_of 4 (address_of inet net.subnet_mask);
      gateway_ip = field_of 4 (address_of inet net.gateway_ip);
      gui_ip = field_of 4 (address_of inet net.gui_ip);
      gui_baseport = field_of 2 net.gui_baseport;
      system = field_of 2 params.sonar.system_index;
      head_ip = tabulate systems 0 (ip_at inet net.head_ips);
      head_baseport = tabulate systems 0 (port_at net.head_baseports);
      simbox_ip = tabulate systems 0 (ip_at inet net.simbox_ips);
      simbox_baseport = tabulate systems 0 (port_at net.simbox_baseports);
      daq_ip = tabulate daqs 0 (ip_at inet net.daq_ips);
      daq_baseport = tabulate daqs 0 (port_at net.daq_baseports);
      spare = replicate 8 (field_of 4 0);
    }

abbrev pub network_config : {fl : Floats} → Inet → Parameters fl → Bytes → Config
network_config inet params serial = set_config_id (settings_of inet params serial)

settings_width :
    {fl : Floats} (inet : Inet) (params : Parameters fl) (serial : Bytes)
    → (settings_of inet params serial).config_id.width ≡ 4
unfolding assign
settings_width inet params serial = refl

-- If the arrays have their lengths and every address of the parameters and of the constructor is
-- one, the configuration for a device holds its serial number, cut or filled up to twelve
-- characters, and the addresses and ports of the parameters, each array in its order; and its
-- identifier is the one that is valid for the driver.
pub make_config-eq :
    {fl : Floats} (inet : Inet) (params : Parameters fl) (unset serial : Bytes)
    → HasArrays params.network
    → ReadsLiterals inet
    → ReadsNetwork inet params.network
    → (make_config inet params unset serial ≡ ok (network_config inet params serial))
      × (config_id_is_valid (network_config inet params serial) node_name ≡ true)
unfolding make_config default_config config_of
make_config-eq inet params unset serial full literals known = (
  rw
      (
        literals.mask,
        literals.no_ip,
        literals.daq,
        literals.head,
        literals.sim,
        known.mask,
        known.gateway,
        known.gui,
        fill_systems-eq inet params.network full known systems 0 _ (omega arith),
        fill_daqs-eq inet params.network full known daqs 0 _ (omega arith),
      )
      refl,
  set_is_valid (settings_of inet params serial) (settings_width inet params serial),
)
