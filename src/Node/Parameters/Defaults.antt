-- ===== src/Node/Parameters/Defaults.antt =====
-- The values that the parameters have before the launch is read: the initialisers and the
-- constructors of SimCmds and HeadCmds in r2sonic/include/r2sonic/r2sonic_node.hpp. A float literal
-- is given by its bit pattern.
use ros2sonic.Prelude.{ℕ, false, List, [], ◌∷◌, replicate}
use ros2sonic.Memory.{Bytes}
use ros2sonic.Text.{text}
use ros2sonic.Floats.{Floats}
use ros2sonic.Node.Table.{Entry, insert_all}
use ros2sonic.Node.Parameters.{Network, Driver, Sonar, Topics, SimCmds, HeadCmds, Parameters}

abbrev pub network : Network
network = record {
  subnet_mask = text "255.0.0.0";
  gateway_ip = text "0.0.0.0";
  gui_ip = text "10.0.1.102";
  gui_baseport = 65400;
  head_ips = text "10.0.0.86" ∷ replicate 3 [];
  head_baseports = 65500 ∷ replicate 3 0;
  simbox_ips = text "10.0.0.99" ∷ replicate 3 [];
  simbox_baseports = 65500 ∷ replicate 3 0;
  daq_ips = text "10.0.1.102" ∷ text "10.0.1.102" ∷ text "10.0.1.102" ∷ replicate 5 [];
  daq_baseports = 4100 ∷ 4200 ∷ 4300 ∷ replicate 5 0;
}

abbrev pub driver : Driver
driver = record { control_mode = false }

abbrev pub sonar : Sonar
sonar = record {
  system_index = 0;
  head_serial = [];
  sim_serial = [];
  interface_ip = text "0.0.0.0";
  tx_frame_id = text "acoustic_center";
  rx_frame_id = text "acoustic_center";
}

abbrev pub topics : Topics
topics = record {
  detections = text "~/detections";
  bth0 = text "~/raw/bth0";
  acoustic_image = text "~/acoustic_image";
  aid0 = text "~/raw/aid0";
}

abbrev entry {ℓ} : {A : Type ℓ} → Bytes → Bytes → A → Entry A
entry k n v = record { key = k; name = n; value = v }

-- The entries in the order of the source.
unfoldable pub sim_ip_list : List (Entry Bytes)
sim_ip_list =
    entry (text "motion_ip_addr") (text "IPM0") (text "10.0.0.90")
    ∷ entry (text "gps_ip_addr") (text "IPG0") (text "10.0.0.44")
    ∷ entry (text "svp_ip_addr") (text "IPS0") (text "0.0.0.0")
    ∷ []

unfoldable pub sim_int_list : List (Entry ℕ)
sim_int_list =
    entry (text "status_data") (text "STM0") 3
    ∷ entry (text "pps_edge") (text "POG0") 1
    ∷ entry (text "gps_enable") (text "ENG0") 1
    ∷ entry (text "gps_interface") (text "DRG0") 0
    ∷ entry (text "gps_baud") (text "BDG0") 9600
    ∷ entry (text "gps_data_bits") (text "DBG0") 8
    ∷ entry (text "gps_parity") (text "PAG0") 0
    ∷ entry (text "gps_stop_bits") (text "SBG0") 1
    ∷ entry (text "gps_ip_port") (text "PTG0") 5506
    ∷ entry (text "trigger_in_mode") (text "SYI0") 0
    ∷ entry (text "trigger_out_mode") (text "SYO0") 0
    ∷ entry (text "heading_enable") (text "ENH0") 0
    ∷ entry (text "heading_interface") (text "DRH0") 2
    ∷ entry (text "motion_enable") (text "ENM0") 1
    ∷ entry (text "motion_interface") (text "DRM0") 0
    ∷ entry (text "motion_baud") (text "BDM0") 115200
    ∷ entry (text "motion_data_bits") (text "DBM0") 8
    ∷ entry (text "motion_parity") (text "PAM0") 0
    ∷ entry (text "motion_stop_bits") (text "SBM0") 1
    ∷ entry (text "motion_ip_port") (text "PTM0") 5607
    ∷ entry (text "svp_enable") (text "ENS0") 1
    ∷ entry (text "svp_interface") (text "DRS0") 0
    ∷ entry (text "svp_baud") (text "BDS0") 19200
    ∷ entry (text "svp_data_bits") (text "DBS0") 8
    ∷ entry (text "svp_parity") (text "PAS0") 0
    ∷ entry (text "svp_stop_bits") (text "SBS0") 1
    ∷ entry (text "svp_ip_port") (text "PTS0") 1
    ∷ entry (text "sonar_power") (text "SPO0") 1
    ∷ entry (text "ins_enable") (text "IINS") 1
    ∷ []

unfoldable pub head_float_list : (fl : Floats) → List (Entry fl.F32)
head_float_list fl =
    entry (text "absorption") (text "ABS0") (fl.of_bits 0x42a00000)
    ∷ entry (text "acoustic_brightness") (text "AIB0") (fl.of_bits 0x41f00000)
    ∷ entry (text "sound_velocity") (text "SVL0") (fl.of_bits 0x44bb0000)
    ∷ entry (text "range") (text "RNG0") (fl.of_bits 0x41c80000)
    ∷ entry (text "receiver_gain") (text "GAN0") (fl.of_bits 0x41600000)
    ∷ entry (text "frequency") (text "FRQ0") (fl.of_bits 0x48435000)
    ∷ entry (text "transmitter_power") (text "TXP0") (fl.of_bits 0x433f0000)
    ∷ entry (text "transmitter_pulse_length") (text "TXL0") (fl.of_bits 0x39c73abd)
    ∷ entry (text "spreading_loss") (text "SPR0") (fl.of_bits 0x41a00000)
    ∷ entry (text "sector_width") (text "SEW0") (fl.of_bits 0x40060a91)
    ∷ entry (text "depth_gate.min") (text "DGA0") (fl.of_bits 0x40d9999a)
    ∷ entry (text "depth_gate.max") (text "DGB0") (fl.of_bits 0x41266666)
    ∷ entry (text "depth_gate.slope") (text "DGS0") (fl.of_bits 0x0)
    ∷ entry (text "range_gate.min") (text "RGA0") (fl.of_bits 0x4042ea00)
    ∷ entry (text "range_gate.max") (text "RGB0") (fl.of_bits 0x4479c000)
    ∷ entry (text "receiver_tilt") (text "RET0") (fl.of_bits 0x0)
    ∷ entry (text "projector_focus") (text "TXF0") (fl.of_bits 0x0)
    ∷ entry (text "vertical_steering_angle") (text "TXS0") (fl.of_bits 0x0)
    ∷ entry (text "sector_rotate") (text "SER0") (fl.of_bits 0x0)
    ∷ entry (text "ping_rate_limit.value") (text "PRL0") (fl.of_bits 0x42700000)
    ∷ entry (text "projector_z") (text "PRZ0") (fl.of_bits 0x3df3b646)
    ∷ []

unfoldable pub head_int_list : List (Entry ℕ)
head_int_list =
    entry (text "status_data") (text "STM0") 3
    ∷ entry (text "sound_velocity_enable") (text "SVU0") 1
    ∷ entry (text "depth_gate_mode") (text "DGO0") 1
    ∷ entry (text "auto_mode_flags") (text "AUT0") 0
    ∷ entry (text "range_gate.mode") (text "RGO0") 0
    ∷ entry (text "bathy_intensity_enable") (text "BIE0") 1
    ∷ entry (text "roll_stabilization_enable") (text "ROS0") 1
    ∷ entry (text "pitch_stabilization_enable") (text "PTS0") 1
    ∷ entry (text "head_sync_mode") (text "DHM0") 0
    ∷ entry (text "projector_orientation") (text "PRO0") 1
    ∷ entry (text "water_column_enable") (text "WCM0") 0
    ∷ entry (text "ping_trigger_source") (text "TRG0") 0
    ∷ entry (text "slope_filter_enable") (text "FIL0") 0
    ∷ entry (text "bottom_sampling") (text "BOS0") 0
    ∷ entry (text "uhd_enable") (text "UHD0") 0
    ∷ entry (text "aih_setting") (text "AIH0") 280
    ∷ entry (text "true_pix_mode") (text "TPM0") 0
    ∷ entry (text "true_pix_gates") (text "TPG0") 0
    ∷ entry (text "snippets_enable") (text "SNIP") 0
    ∷ entry (text "tx_apodization") (text "TXW0") 0
    ∷ entry (text "txwaveform_index") (text "TWIX") 0
    ∷ entry (text "projector_mode") (text "PROJ") 1
    ∷ entry (text "ping_rate_limit.enable") (text "PRU0") 0
    ∷ []

unfoldable pub sim_cmds : SimCmds
sim_cmds = record {
  int_params = insert_all sim_int_list [];
  ip_str_params = insert_all sim_ip_list [];
}

unfoldable pub head_cmds : (fl : Floats) → HeadCmds fl
head_cmds fl = record {
  float_params = insert_all (head_float_list fl) [];
  int_params = insert_all head_int_list [];
}

unfoldable pub parameters : (fl : Floats) → Parameters fl
parameters fl = record {
  network = network;
  driver = driver;
  sonar = sonar;
  topics = topics;
  sim_commands = sim_cmds;
  head_commands = head_cmds fl;
}
