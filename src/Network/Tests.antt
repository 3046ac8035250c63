-- ===== src/Network/Tests.antt =====
-- Concrete runs of the network helpers.
use dpu_simulator.Base.{◌≡◌, ◌≢◌, ◌↔◌, ◌%◌, refl, [], none}
use dpu_simulator.Base.Text.{codes, cons-ne-nil}
use dpu_simulator.Network.{sanitize_bridge_name, validate_bridge_name}
use dpu_simulator.Network.Bridges.{validate_bridge_name-sanitize_bridge_name}
use dpu_simulator.Network.Mac.{generate_mac_for_host_to_dpu, generate_mac_for_host_to_dpu-mod}

sanitized : sanitize_bridge_name (codes "my bridge/with.dots and more") ≢ []
unfolding sanitize_bridge_name
sanitized = cons-ne-nil

-- What is left of a name is a valid name.
sanitized_valid :
    validate_bridge_name (sanitize_bridge_name (codes "my bridge/with.dots and more")) ≡ none
sanitized_valid =
    validate_bridge_name-sanitize_bridge_name (codes "my bridge/with.dots and more") sanitized

-- The interfaces 3 and 259 of one end.
generate_mac_for_host_to_dpu-mod_example :
    (generate_mac_for_host_to_dpu (λ text i. 200) (codes "worker") (codes "host") 3
      ≡ generate_mac_for_host_to_dpu (λ text i. 200) (codes "worker") (codes "host") 259)
    ↔ (3 % 256 ≡ 259 % 256)
generate_mac_for_host_to_dpu-mod_example =
    generate_mac_for_host_to_dpu-mod (λ text i. 200) (codes "worker") (codes "host") 3 259

-- They have the same address.
same_mac :
    generate_mac_for_host_to_dpu (λ text i. 200) (codes "worker") (codes "host") 3
    ≡ generate_mac_for_host_to_dpu (λ text i. 200) (codes "worker") (codes "host") 259
same_mac = generate_mac_for_host_to_dpu-mod_example.1 refl
