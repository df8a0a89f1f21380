-- ===== src/Gamepad/Tests.antt =====
-- The axes at two positions of the stick, and a service in its states.
use niw_pspto_pc.Base.{◌≡◌, some, arith}
use niw_pspto_pc.Base.Int.{ℤ, pos, negsuc}
use niw_pspto_pc.Gamepad.Mapping.{horizontal_axis}
use niw_pspto_pc.Gamepad.Mapping.Axis.{IsInt16, ◌<ℤ◌, horizontal_axis_order}
use niw_pspto_pc.Base.{◌+◌, true, false, not, none, [], ◌∷◌, leb, refl}
use niw_pspto_pc.Receiver.Sequence.{in_order, is_fresh}
use niw_pspto_pc.Receiver.State.{Address, ReceiverSnapshot, wifi}
use niw_pspto_pc.Gamepad.Mapping.{Xbox360State, map_packet_to_xbox360}
use niw_pspto_pc.Gamepad.Failure.{driver_connection}
use niw_pspto_pc.Gamepad.Service.State.{Service, apply_state, ServiceConfig, Outside, new_service}
use niw_pspto_pc.Gamepad.Service.Methods.{handle_snapshot, check_timeout, stop}
use niw_pspto_pc.Gamepad.Service.Safe.{is_quiet, IsSafe}
use niw_pspto_pc.Gamepad.Service.Run.{
  Life, start, further, handles, checks_timeout, Life-IsSafe, Life-stop,
}
use niw_pspto_pc.Gamepad.Service.Spec.{absent, shown, Allowed}
use niw_pspto_pc.Gamepad.Service.Refines.{mode_of, signals_of, Life-refines}
use niw_pspto_pc.Gamepad.Service.Outcomes.{
  last_applied, check_timeout_silence, handle_snapshot_applies,
}

horizontal_axis_order_example :
    (x : ℤ) × (y : ℤ) × (horizontal_axis 12 ≡ some x)
    × (horizontal_axis 200 ≡ some y)
    × IsInt16 x
    × IsInt16 y
    × (x <ℤ y)
    × (horizontal_axis 0 ≡ some (negsuc 32767))
    × (horizontal_axis 128 ≡ some (pos 0))
    × (horizontal_axis 255 ≡ some (pos 32767))
horizontal_axis_order_example = horizontal_axis_order 12 200 (omega arith) (omega arith)

-- A service that loses its PSP: the state of a stick and a button, then silence.
abbrev service_config : ServiceConfig
service_config = record {
  timeout = 1_750_000;
  neutral_timeout = 500_000;
  backend_retry_delay = 3_000_000;
  has_listener = true;
}

abbrev psp : Address
psp = ("192.168.0.20", 40_000)

-- Every call returns.
abbrev calm : Outside
calm = record {
  creates = none;
  connects = none;
  applies = none;
  neutralizes = none;
  now = 2_000_000;
  lower = λ text. text;
}

abbrev snapshot : ReceiverSnapshot
snapshot = record {
  packet = record {
    sequence = 8;
    buttons = 0x10;
    analog_x = 0;
    analog_y = 128;
    timestamp_us = 5;
    reserved = 0;
    session_token = some 7;
  };
  address = psp;
  packets_per_second = 60;
  latency = none;
  sequence_result = record { event = in_order; lost = 0 };
  received = 2;
  lost = 0;
  duplicates = 0;
  out_of_order = 0;
  is_active_client = true;
  is_state_update = true;
  transport = wifi;
}

abbrev idle_service : Service
idle_service = record {
  config = service_config;
  has_backend = false;
  address = none;
  last_update_at = none;
  neutralized_for_silence = false;
  is_connected = false;
  backend_failed = false;
  backend_failure = none;
  automatic_retry_due = none;
  automatic_retry_used = false;
  stopped = false;
  trace = [];
}

service_is_new : new_service service_config ≡ some idle_service
unfolding new_service
service_is_new = refl

abbrev playing_service : Service
playing_service = (handle_snapshot calm snapshot idle_service).0

Life-IsSafe_example : IsSafe playing_service
Life-IsSafe_example =
    Life-IsSafe service_config idle_service playing_service service_is_new
      (further start (handles calm snapshot idle_service))

-- A session whose last packet was applied at 2.0 seconds.
abbrev live_service : Service
live_service = record idle_service {
  has_backend = true;
  address = some psp;
  last_update_at = some 2_000_000;
  is_connected = true;
  trace = apply_state (record { buttons = 0x1000; left_x = negsuc 32767; left_y = pos 0 }) ∷ [];
}

live_service-IsSafe : IsSafe live_service
live_service-IsSafe = record {
  backend = ground arith;
  address = ground arith;
  time = ground arith;
  no_address = ground arith;
  no_time = ground arith;
  quiet = ground arith;
  silenced = ground arith;
  failed = ground arith;
  stopped = ground arith;
}

check_timeout_silence_example :
    (is_quiet (check_timeout 2_600_000 live_service).0.trace ≡ true)
    × ((check_timeout 2_600_000 live_service).0.is_connected
        ≡ not (leb (2_000_000 + 1_750_000) 2_600_000))
    × ((check_timeout 2_600_000 live_service).1 ≡ leb (2_000_000 + 1_750_000) 2_600_000)
check_timeout_silence_example =
    check_timeout_silence 2_600_000 2_000_000 live_service live_service-IsSafe refl refl
      (omega arith)

Life-stop_example :
    ((check_timeout 9_000_000 (stop live_service)).0.trace ≡ (stop live_service).trace)
    × (is_quiet (check_timeout 9_000_000 (stop live_service)).0.trace ≡ true)
    × ((check_timeout 9_000_000 (stop live_service)).0.is_connected ≡ false)
    × ((check_timeout 9_000_000 (stop live_service)).0.has_backend ≡ false)
Life-stop_example =
    Life-stop live_service (check_timeout 9_000_000 (stop live_service)).0 live_service-IsSafe
      (further start (checks_timeout 9_000_000 (stop live_service)))

was_applied : (handle_snapshot calm snapshot idle_service).1 ≡ true
unfolding handle_snapshot map_packet_to_xbox360
was_applied = refl

handle_snapshot_applies_example :
    (snapshot.is_state_update ≡ true)
    × (is_fresh snapshot.sequence_result.event ≡ true)
    × (idle_service.stopped ≡ false)
    × (idle_service.backend_failed ≡ false)
    × (x : Xbox360State) × (map_packet_to_xbox360 snapshot.packet ≡ some x)
    × (last_applied (handle_snapshot calm snapshot idle_service).0.trace ≡ some x)
    × ((handle_snapshot calm snapshot idle_service).0.address ≡ some snapshot.address)
    × ((handle_snapshot calm snapshot idle_service).0.last_update_at ≡ some calm.now)
handle_snapshot_applies_example = handle_snapshot_applies calm snapshot idle_service was_applied

-- The backend failed at 1.0 seconds, and the retry is due at 4.0.
abbrev failed_service : Service
failed_service = record idle_service {
  backend_failed = true;
  backend_failure = some driver_connection;
  automatic_retry_due = some 4_000_000;
}

-- The input, then the neutral output for silence.
abbrev silent_life : Life idle_service (check_timeout 2_600_000 playing_service).0
silent_life =
    further (further start (handles calm snapshot idle_service))
      (checks_timeout 2_600_000 playing_service)

Life-refines_example :
    Allowed absent (signals_of silent_life) (mode_of (check_timeout 2_600_000 playing_service).0)
    × (last_applied (check_timeout 2_600_000 playing_service).0.trace
        ≡ shown (mode_of (check_timeout 2_600_000 playing_service).0))
Life-refines_example =
    Life-refines service_config idle_service (check_timeout 2_600_000 playing_service).0
      service_is_new silent_life
