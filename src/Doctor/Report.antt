-- ===== src/Doctor/Report.antt =====
-- `guidance` and `diagnostic_report` of pc-server/pc_server/connection_doctor.py: texts as lists of
-- pieces, since the printing of numbers belongs to the runtime.
use niw_pspto_pc.Base.{
  ℕ, Bool, String, List, [], ◌∷◌, ◌++◌, Option, none, some, equals, string_eq, if◌then◌else◌,
}
use niw_pspto_pc.Receiver.State.{Address}
use niw_pspto_pc.Receiver.Metrics.{ReceiverMetrics}
use niw_pspto_pc.Doctor.{
  ConnectionDoctor, NetworkInterface, WindowsNetworkDiagnostics, multiple_interfaces, rows, Advice,
  preflight_failed, wait_to_bind, check_driver, no_data, no_valid_packet, no_authorization, no_ack,
  all_passed, is_set, advise,
}

-- A literal, a number, or a quotient printed with so many digits behind the point.
pub data Piece : Type 0 where
  text : String → Piece
  number : ℕ → Piece
  fixed : ℕ → ℕ × ℕ → Piece

abbrev pub Line : Type 0
Line = List Piece

unfoldable pub advice_line : ℕ → Advice → Line
advice_line port preflight_failed =
    text "Virtual gamepad preflight failed. Check the detail and use "
    ∷ text "RETRY GAMEPAD after correcting the library or driver."
    ∷ []
advice_line port wait_to_bind =
    text "Waiting to bind UDP "
    ∷ number port
    ∷ text ". Another app instance may already "
    ∷ text "own the port."
    ∷ []
advice_line port check_driver = text "Checking the ViGEmBus virtual-controller driver." ∷ []
advice_line port no_data =
    text "No controller data yet. For USB, check the data cable and "
    ∷ text "the PSP transport selection. For Wi-Fi, check UDP "
    ∷ number port
    ∷ text ", the same LAN, Windows Private profile/firewall, and "
    ∷ text "client isolation. Guest Wi-Fi often blocks PSP-to-PC traffic."
    ∷ []
advice_line port no_valid_packet =
    text "Input reaches the app, but no valid PSP packet passed "
    ∷ text "protocol decoding or the Wi-Fi IP allowlist."
    ∷ []
advice_line port no_authorization =
    text "USB is authorized automatically. For Wi-Fi, re-enter the PSP "
    ∷ text "code and confirm both sides use the same UDP port."
    ∷ []
advice_line port no_ack =
    text "Input was authorized, but the readiness ACK was not sent. "
    ∷ text "Check the virtual gamepad and active transport."
    ∷ []
advice_line port all_passed = text "All connection checks passed." ∷ []

unfoldable pub guidance : ℕ → ConnectionDoctor → Line
unfolding advice_line
guidance port d = advice_line port (advise d)

-- `", ".join(texts)`
unfoldable pub join : List String → Line
join [] = []
join (t ∷ []) = text t ∷ []
join (t ∷ texts) = text t ∷ text ", " ∷ join texts

-- `", ".join(texts) or other`: no text, or one empty text, is false.
unfoldable pub join_or : List String → String → Line
unfolding join
join_or [] other = text other ∷ []
join_or (t ∷ []) other = if equals t "" then text other ∷ [] else text t ∷ []
join_or texts other = join texts

abbrev pub host_port : Address → Line
host_port a = text a.0 ∷ text ":" ∷ number a.1 ∷ []

-- The lines on what the receiver and the client are bound to.
unfoldable pub head_lines :
    String → Address → List String → Option Address → ConnectionDoctor → List Line
unfolding join_or
head_lines version configured allowed_hosts active d =
    (text "niwPSPtoPC " ∷ text version ∷ text " diagnostic report" ∷ [])
    ∷ (text "Configured bind: " ∷ host_port configured)
    ∷ (elim d.bound_address [
      | some a ↦ text "Actual bind: " ∷ host_port a
      | none ↦ text "Actual bind: not bound" ∷ []
    ])
    ∷ (text "Allowlist: " ∷ join_or allowed_hosts "(any IPv4 host)")
    ∷ (elim active [
      | some a ↦ text "Active PSP: " ∷ host_port a
      | none ↦ text "Active PSP: none" ∷ []
    ])
    ∷ []

unfoldable pub stage_lines : List (String × Bool) → List Line
stage_lines [] = []
stage_lines ((stage, complete) ∷ rest) =
    (text "- [" ∷ text (if complete then "OK" else "--") ∷ text "] " ∷ text stage ∷ [])
    ∷ stage_lines rest

-- The age of the last datagram, printed in seconds.
unfoldable pub age_line : Option ℕ → Line
age_line none = text "never" ∷ []
age_line (some age) = fixed 2 (age, 1_000_000) ∷ text " s" ∷ []

unfoldable pub metrics_lines : Option ReceiverMetrics → List Line
unfolding age_line
metrics_lines none = (text "- unavailable" ∷ []) ∷ []
metrics_lines (some m) =
    (text "- datagrams received: " ∷ number m.datagrams_received ∷ [])
    ∷ (text "- valid packets: " ∷ number m.valid_packets ∷ [])
    ∷ (text "- rejected datagrams: " ∷ number m.rejected_datagrams ∷ [])
    ∷ (text "- pairing rejections: " ∷ number m.pairing_rejections ∷ [])
    ∷ (text "- callback errors: " ∷ number m.callback_errors ∷ [])
    ∷ (text "- last datagram age: " ∷ age_line m.last_datagram_age)
    ∷ (text "- current rate: " ∷ fixed 1 (m.packets_per_second, 1) ∷ text " pps" ∷ [])
    ∷ (text "- packet loss: " ∷ fixed 2 m.loss_percent ∷ text "%" ∷ [])
    ∷ []

unfoldable pub interface_lines : List NetworkInterface → List Line
unfolding join_or
interface_lines [] = []
interface_lines (i ∷ rest) =
    (text "- "
      ∷ text i.name
      ∷ text ": "
      ∷ (join_or i.addresses "(no IPv4)" ++ text "; " ∷ text "profile=" ∷ text i.profile ∷ []))
    ∷ interface_lines rest

abbrev pub yes_or_no : Bool → String
yes_or_no b = if b then "yes" else "no"

-- The scan as it came out, without an error.
unfoldable pub scan_lines : WindowsNetworkDiagnostics → List Line
unfolding interface_lines multiple_interfaces
scan_lines network =
    (elim network.interfaces [
      | [] ↦ (text "- no active IPv4 interface found" ∷ []) ∷ []
      | first ∷ rest ↦ interface_lines (first ∷ rest)
    ])
    ++ (text "- firewall: " ∷ text network.firewall_status ∷ [])
      ∷ (text "- multiple interfaces: " ∷ text (yes_or_no (multiple_interfaces network)) ∷ [])
      ∷ (text "- VPN-like adapter: " ∷ text (yes_or_no network.vpn_detected) ∷ [])
      ∷ []

abbrev pub or_empty : Option String → String
or_empty none = ""
or_empty (some t) = t

unfoldable pub network_lines : Option WindowsNetworkDiagnostics → List Line
unfolding scan_lines
network_lines none = (text "- scan pending" ∷ []) ∷ []
network_lines (some network) =
    if is_set network.error
    then (text "- " ∷ text (or_empty network.error) ∷ []) ∷ []
    else scan_lines network

-- `diagnostic_report`, whose lines are joined by line breaks, with one at the end.
unfoldable pub diagnostic_report :
    String → Address → List String → Option Address → ConnectionDoctor → List Line
unfolding head_lines stage_lines rows metrics_lines network_lines guidance
diagnostic_report version configured allowed_hosts active d =
    head_lines version configured allowed_hosts active d
    ++ [] ∷ (text "Connection stages:" ∷ []) ∷ stage_lines (rows d)
    ++ [] ∷ (text "Input metrics:" ∷ []) ∷ metrics_lines d.metrics
    ++ [] ∷ (text "Windows network:" ∷ []) ∷ network_lines d.network
    ++ [] ∷ (text "Doctor: " ∷ guidance configured.1 d) ∷ []
