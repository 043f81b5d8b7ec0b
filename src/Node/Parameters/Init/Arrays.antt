-- ===== src/Node/Parameters/Init/Arrays.antt =====
-- init keeps the lengths of the arrays, whatever the launch gives.
use ros2sonic.Prelude.{ℕ, zero, suc, ◌+◌, ◌≤◌, ◌∙◌, length-set, set, arith}
use ros2sonic.Outcome.{Safely, Safely-bind, Ends-bind}
use ros2sonic.Floats.{Floats}
use ros2sonic.Node.Ros.{Ros}
use ros2sonic.Node.Parameters.{Network, systems, daqs}
use ros2sonic.Node.Parameters.Valid.{HasArrays}
use ros2sonic.Node.Parameters.Init.{init_systems, init_daqs, init_network}
use ros2sonic.Node.Parameters.Init.Setup.{or_fault-Safely, setup_int-Ends, setup_ip-Ends}

module _ {fl : Floats} (ros : Ros fl) where
  init_systems-Safely :
      (left i : ℕ) (net : Network)
      → i + left ≤ systems
      → HasArrays net
      → Safely HasArrays (init_systems ros left i net)
  unfolding init_systems
  init_systems-Safely zero i net below full = full
  init_systems-Safely (suc left) i net below full =
      Ends-bind HasArrays _ _ (or_fault-Safely net.head_ips i (omega (arith, full.head_ips_full)))
        (λ a. Ends-bind HasArrays _ _ (setup_ip-Ends ros _ a) (λ a'.
          Ends-bind HasArrays _ _
            (or_fault-Safely net.head_baseports i (omega (arith, full.head_baseports_full)))
            (λ b. Ends-bind HasArrays _ _ (setup_int-Ends ros _ b) (λ b'.
              Ends-bind HasArrays _ _
                (or_fault-Safely net.simbox_ips i (omega (arith, full.simbox_ips_full)))
                (λ c. Ends-bind HasArrays _ _ (setup_ip-Ends ros _ c) (λ c'.
                  Ends-bind HasArrays _ _
                    (or_fault-Safely net.simbox_baseports i
                      (omega (arith, full.simbox_baseports_full)))
                    (λ d. Ends-bind HasArrays _ _ (setup_int-Ends ros _ d) (λ d'.
                      init_systems-Safely left (i + 1)
                        (record net {
                          head_ips = set net.head_ips i a';
                          head_baseports = set net.head_baseports i b';
                          simbox_ips = set net.simbox_ips i c';
                          simbox_baseports = set net.simbox_baseports i d';
                        })
                        (omega arith)
                        (record {
                          head_ips_full = length-set net.head_ips i a' ∙ full.head_ips_full;
                          head_baseports_full =
                              length-set net.head_baseports i b' ∙ full.head_baseports_full;
                          simbox_ips_full = length-set net.simbox_ips i c' ∙ full.simbox_ips_full;
                          simbox_baseports_full =
                              length-set net.simbox_baseports i d' ∙ full.simbox_baseports_full;
                          daq_ips_full = full.daq_ips_full;
                          daq_baseports_full = full.daq_baseports_full;
                        })))))))))

  init_daqs-Safely :
      (left i : ℕ) (net : Network)
      → i + left ≤ daqs
      → HasArrays net
      → Safely HasArrays (init_daqs ros left i net)
  unfolding init_daqs
  init_daqs-Safely zero i net below full = full
  init_daqs-Safely (suc left) i net below full =
      Ends-bind HasArrays _ _ (or_fault-Safely net.daq_ips i (omega (arith, full.daq_ips_full)))
        (λ a. Ends-bind HasArrays _ _ (setup_ip-Ends ros _ a) (λ a'.
          Ends-bind HasArrays _ _
            (or_fault-Safely net.daq_baseports i (omega (arith, full.daq_baseports_full)))
            (λ b. Ends-bind HasArrays _ _ (setup_int-Ends ros _ b) (λ b'.
              init_daqs-Safely left (i + 1)
                (record net {
                  daq_ips = set net.daq_ips i a';
                  daq_baseports = set net.daq_baseports i b';
                })
                (omega arith)
                (record {
                  head_ips_full = full.head_ips_full;
                  head_baseports_full = full.head_baseports_full;
                  simbox_ips_full = full.simbox_ips_full;
                  simbox_baseports_full = full.simbox_baseports_full;
                  daq_ips_full = length-set net.daq_ips i a' ∙ full.daq_ips_full;
                  daq_baseports_full = length-set net.daq_baseports i b' ∙ full.daq_baseports_full;
                })))))

  pub init_network-Safely :
      (net : Network) → HasArrays net → Safely HasArrays (init_network ros net)
  unfolding init_network
  init_network-Safely net full = Ends-bind HasArrays _ _ (setup_ip-Ends ros _ net.subnet_mask) (λ a.
      Ends-bind HasArrays _ _ (setup_ip-Ends ros _ net.gateway_ip) (λ b.
        Ends-bind HasArrays _ _ (setup_ip-Ends ros _ net.gui_ip) (λ c.
          Ends-bind HasArrays _ _ (setup_int-Ends ros _ net.gui_baseport) (λ d.
            Safely-bind HasArrays HasArrays (init_systems ros systems 0 _) _
              (init_systems-Safely systems 0 _ (omega arith) (record {
                head_ips_full = full.head_ips_full;
                head_baseports_full = full.head_baseports_full;
                simbox_ips_full = full.simbox_ips_full;
                simbox_baseports_full = full.simbox_baseports_full;
                daq_ips_full = full.daq_ips_full;
                daq_baseports_full = full.daq_baseports_full;
              }))
              (λ net' full'. init_daqs-Safely daqs 0 net' (omega arith) full')))))
