-- ===== src/Messages/Classes.antt =====
-- The classes of the messages, their discriminators in JSON, and their equality.
use vpn_passthrough.Prelude.{
  ℕ, zero, suc, String, string_eq, Eq, ◌==◌, nat_beq, nat_beq_iff, ◌≡◌, ◌↔◌, refl, sym, ap, ◌∙◌,
  true, Option, none, some, List, [], ◌∷◌, if◌then◌else◌,
}

-- The classes of the messages, in the order of `_TYPE_ADAPTER`.
pub data MessageType : Type 0 where
  is_run_process is_kill_process is_create_tunnel is_start_tunnel is_destroy_tunnel is_list_regions
        is_list_tunnels is_process_started is_process_restarted is_connected_to_vpn
        is_dns_configured is_config_used is_tunnel_started is_tunnel_status_updated is_ports_rebound
        is_process_terminated is_command_not_found is_process_killed is_tunnel_created
        is_tunnel_destroyed is_tunnel_stopped is_regions_listed is_tunnels_listed
        is_request_failed :
      MessageType

-- The discriminator `type`.
unfoldable pub type_of : MessageType → String
type_of is_run_process = "run_process"
type_of is_kill_process = "kill_process"
type_of is_create_tunnel = "create_tunnel"
type_of is_start_tunnel = "start_tunnel"
type_of is_destroy_tunnel = "destroy_tunnel"
type_of is_list_regions = "list_regions"
type_of is_list_tunnels = "list_tunnels"
type_of is_process_started = "process_started"
type_of is_process_restarted = "process_restarted"
type_of is_connected_to_vpn = "connected_to_vpn"
type_of is_dns_configured = "dns_configured"
type_of is_config_used = "config_used"
type_of is_tunnel_started = "tunnel_started"
type_of is_tunnel_status_updated = "tunnel_status_updated"
type_of is_ports_rebound = "ports_rebound"
type_of is_process_terminated = "process_terminated"
type_of is_command_not_found = "command_not_found"
type_of is_process_killed = "process_killed"
type_of is_tunnel_created = "tunnel_created"
type_of is_tunnel_destroyed = "tunnel_destroyed"
type_of is_tunnel_stopped = "tunnel_stopped"
type_of is_regions_listed = "regions_listed"
type_of is_tunnels_listed = "tunnels_listed"
type_of is_request_failed = "request_failed"

-- A number for each class, by which classes are compared.
abbrev pub number : MessageType → ℕ
number is_run_process = 0
number is_kill_process = 1
number is_create_tunnel = 2
number is_start_tunnel = 3
number is_destroy_tunnel = 4
number is_list_regions = 5
number is_list_tunnels = 6
number is_process_started = 7
number is_process_restarted = 8
number is_connected_to_vpn = 9
number is_dns_configured = 10
number is_config_used = 11
number is_tunnel_started = 12
number is_tunnel_status_updated = 13
number is_ports_rebound = 14
number is_process_terminated = 15
number is_command_not_found = 16
number is_process_killed = 17
number is_tunnel_created = 18
number is_tunnel_destroyed = 19
number is_tunnel_stopped = 20
number is_regions_listed = 21
number is_tunnels_listed = 22
number is_request_failed = 23

abbrev numbered : ℕ → MessageType
numbered zero = is_run_process
numbered (suc zero) = is_kill_process
numbered (suc (suc zero)) = is_create_tunnel
numbered (suc (suc (suc zero))) = is_start_tunnel
numbered (suc (suc (suc (suc zero)))) = is_destroy_tunnel
numbered (suc (suc (suc (suc (suc zero))))) = is_list_regions
numbered (suc (suc (suc (suc (suc (suc zero)))))) = is_list_tunnels
numbered (suc (suc (suc (suc (suc (suc (suc zero))))))) = is_process_started
numbered (suc (suc (suc (suc (suc (suc (suc (suc zero)))))))) = is_process_restarted
numbered (suc (suc (suc (suc (suc (suc (suc (suc (suc zero))))))))) = is_connected_to_vpn
numbered (suc (suc (suc (suc (suc (suc (suc (suc (suc (suc zero)))))))))) = is_dns_configured
numbered (suc (suc (suc (suc (suc (suc (suc (suc (suc (suc (suc zero))))))))))) = is_config_used
numbered (suc (suc (suc (suc (suc (suc (suc (suc (suc (suc (suc (suc zero)))))))))))) =
    is_tunnel_started
numbered (suc (suc (suc (suc (suc (suc (suc (suc (suc (suc (suc (suc (suc zero))))))))))))) =
    is_tunnel_status_updated
numbered (suc (suc (suc (suc (suc (suc (suc (suc (suc (suc (suc (suc (suc (suc zero)))))))))))))) =
    is_ports_rebound
numbered
      (suc
        (suc (suc (suc (suc (suc (suc (suc (suc (suc (suc (suc (suc (suc (suc zero))))))))))))))) =
    is_process_terminated
numbered
      (suc (
        suc (
          suc
            (suc (suc (suc (suc (suc (suc (suc (suc (suc (suc (suc (suc (suc zero)))))))))))))))) =
    is_command_not_found
numbered
      (suc (
        suc (
          suc (
            suc (
              suc
                (suc (suc (suc (suc (suc (suc (suc (suc (suc (suc (suc (suc zero))))))))))))))))) =
    is_process_killed
numbered
      (suc (
        suc (
          suc (
            suc (
              suc (
                suc (
                  suc
                    (suc (suc (suc (suc (suc (suc (suc (suc (suc (suc (suc zero)))))))))))))))))) =
    is_tunnel_created
numbered
      (suc (
        suc (
          suc (
            suc (
              suc (
                suc (
                  suc (
                    suc (
                      suc
                        (suc (suc (suc (suc (suc (suc (suc (suc (suc (suc zero))))))))))))))))))) =
    is_tunnel_destroyed
numbered
      (suc (
        suc (
          suc (
            suc (
              suc (
                suc (
                  suc (
                    suc (
                      suc (
                        suc (
                          suc
                            (suc (suc (suc (suc (suc (suc (suc (suc (suc zero)))))))))))))))))))) =
    is_tunnel_stopped
numbered
      (suc (
        suc (
          suc (
            suc (
              suc (
                suc (
                  suc (
                    suc (
                      suc (
                        suc (
                          suc (
                            suc (
                              suc
                                (suc (suc (suc (suc (suc (suc (suc (suc zero))))))))))))))))))))) =
    is_regions_listed
numbered
      (suc (
        suc (
          suc (
            suc (
              suc (
                suc (
                  suc (
                    suc (
                      suc (
                        suc (
                          suc (
                            suc (
                              suc (
                                suc (
                                  suc
                                    (suc (suc (suc (suc (suc (suc (suc zero)))))))))))))))))))))) =
    is_tunnels_listed
numbered _ = is_request_failed

numbered-number : (c : MessageType) → numbered (number c) ≡ c
numbered-number is_run_process = refl
numbered-number is_kill_process = refl
numbered-number is_create_tunnel = refl
numbered-number is_start_tunnel = refl
numbered-number is_destroy_tunnel = refl
numbered-number is_list_regions = refl
numbered-number is_list_tunnels = refl
numbered-number is_process_started = refl
numbered-number is_process_restarted = refl
numbered-number is_connected_to_vpn = refl
numbered-number is_dns_configured = refl
numbered-number is_config_used = refl
numbered-number is_tunnel_started = refl
numbered-number is_tunnel_status_updated = refl
numbered-number is_ports_rebound = refl
numbered-number is_process_terminated = refl
numbered-number is_command_not_found = refl
numbered-number is_process_killed = refl
numbered-number is_tunnel_created = refl
numbered-number is_tunnel_destroyed = refl
numbered-number is_tunnel_stopped = refl
numbered-number is_regions_listed = refl
numbered-number is_tunnels_listed = refl
numbered-number is_request_failed = refl

number-injective : (c d : MessageType) → number c ≡ number d → c ≡ d
number-injective c d e = sym (numbered-number c) ∙ ap numbered e ∙ numbered-number d

pub same_class : (c d : MessageType) → (nat_beq (number c) (number d) ≡ true) ↔ (c ≡ d)
same_class c d = (
  λ h. number-injective c d ((nat_beq_iff (number c) (number d)).0 h),
  λ e. (nat_beq_iff (number c) (number d)).1 (ap number e),
)

instance abbrev pub message_type_eq : Eq MessageType
message_type_eq = record { beq = λ c d. nat_beq (number c) (number d); beq_iff = same_class }

-- The search of `Discriminator("type")` for the class that a text names.
abbrev classes : List MessageType
classes =
    is_run_process ∷ is_kill_process ∷ is_create_tunnel ∷ is_start_tunnel ∷ is_destroy_tunnel
    ∷ is_list_regions ∷ is_list_tunnels ∷ is_process_started ∷ is_process_restarted
    ∷ is_connected_to_vpn ∷ is_dns_configured ∷ is_config_used ∷ is_tunnel_started
    ∷ is_tunnel_status_updated ∷ is_ports_rebound ∷ is_process_terminated ∷ is_command_not_found
    ∷ is_process_killed ∷ is_tunnel_created ∷ is_tunnel_destroyed ∷ is_tunnel_stopped
    ∷ is_regions_listed ∷ is_tunnels_listed ∷ is_request_failed ∷ []

unfoldable pub named_in : List MessageType → String → Option MessageType
unfolding type_of
named_in [] text = none
named_in (c ∷ cs) text = if type_of c == text then some c else named_in cs text

unfoldable pub class_named : String → Option MessageType
unfolding named_in
class_named = named_in classes

-- The discriminators tell all classes apart: from the `type` that a message of a class is encoded
-- with, the decoder's choice is that class.
pub class_named-type_of : (c : MessageType) → class_named (type_of c) ≡ some c
unfolding class_named type_of
class_named-type_of is_run_process = refl
class_named-type_of is_kill_process = refl
class_named-type_of is_create_tunnel = refl
class_named-type_of is_start_tunnel = refl
class_named-type_of is_destroy_tunnel = refl
class_named-type_of is_list_regions = refl
class_named-type_of is_list_tunnels = refl
class_named-type_of is_process_started = refl
class_named-type_of is_process_restarted = refl
class_named-type_of is_connected_to_vpn = refl
class_named-type_of is_dns_configured = refl
class_named-type_of is_config_used = refl
class_named-type_of is_tunnel_started = refl
class_named-type_of is_tunnel_status_updated = refl
class_named-type_of is_ports_rebound = refl
class_named-type_of is_process_terminated = refl
class_named-type_of is_command_not_found = refl
class_named-type_of is_process_killed = refl
class_named-type_of is_tunnel_created = refl
class_named-type_of is_tunnel_destroyed = refl
class_named-type_of is_tunnel_stopped = refl
class_named-type_of is_regions_listed = refl
class_named-type_of is_tunnels_listed = refl
class_named-type_of is_request_failed = refl
