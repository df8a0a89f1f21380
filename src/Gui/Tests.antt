-- ===== src/Gui/Tests.antt =====
-- A window that starts, is connected, gets new settings, and closes.
use niw_pspto_pc.Base.{
  ℕ, ◌-◌, ◌≡◌, refl, true, false, ◌&&◌, codes, List, [], ◌∷◌, ◌++◌, Option, none, some, leb,
  if◌then◌else◌,
}
use niw_pspto_pc.Base.Dict.{lookup, IsDistinct}
use mathlib.Core.List.{flat_map}
use niw_pspto_pc.Protocol.Pairing.{
  Unicode, ascii_space, ascii_upper, value, normalize, parse_pairing_token, pairing_values, strip,
}
use niw_pspto_pc.Receiver.State.{Receiver, wifi, new_client, Address, address_eq, ReceiverSnapshot}
use niw_pspto_pc.Receiver.Sequence.{first}
use niw_pspto_pc.Receiver.Run.{empty_receiver}
use niw_pspto_pc.Settings.{GuiSettings, valid, default_settings, validate_bind_settings}
use niw_pspto_pc.Settings.File.{Disk, save_settings}
use niw_pspto_pc.Gui as Gui
use niw_pspto_pc.Gui.{
  App, Call, new_app, packet, poll_messages, live_diagnostics, system_diagnostics, destroy_root,
}
use niw_pspto_pc.Gui.Widgets.{neutral_packet}
use niw_pspto_pc.Gui.Actions.{disconnect_current}
use niw_pspto_pc.Gui.Pairing.{authorize}
use niw_pspto_pc.Gui.Lifecycle.{start_receiver, Setting, apply_settings, close}
use niw_pspto_pc.Gui.Messages.{poll, apply_stopped}
use niw_pspto_pc.Gui.Run.{Answers, fire, post, Reach, here, next, fires, posts, closes}
use niw_pspto_pc.Gui.Facts.{facts}
use niw_pspto_pc.Gui.Invariant.{IsSound}
use niw_pspto_pc.Gui.Reach.{Reach-IsSound, closing_is_final}
use niw_pspto_pc.Gui.Restart.{IsRestarted, apply_settings-IsRestarted}
use niw_pspto_pc.Gui.Calls.{perform_calls}
use niw_pspto_pc.Gui.Calls.Buttons.{disconnect_current-releases, authorize_lem}

abbrev ascii : Unicode
ascii = record { is_space = ascii_space; upper = λ c. ascii_upper c ∷ [] }

abbrev ascii_digit : ℕ → Option ℕ
ascii_digit c = if leb b'0' c && leb c b'9' then some (c - b'0') else none

abbrev answers : Answers
answers = record {
  as_text = λ t. "an error";
  ready = λ n. true;
  metrics = record {
    datagrams_received = 0;
    valid_packets = 0;
    rejected_datagrams = 0;
    pairing_rejections = 0;
    callback_errors = 0;
    last_datagram_age = none;
    packets_per_second = 0;
    loss_percent = (0, 1);
  };
}

abbrev no_file : Disk
no_file = record { target = none; temporary = none }

abbrev opened : App
opened = new_app default_settings no_file true

abbrev started : App
started =
    fire answers Gui.start_receiver
      (record opened { pending = live_diagnostics ∷ system_diagnostics ∷ poll_messages ∷ [] })

abbrev phone : Address
phone = ("192.168.0.20", 40_000)

abbrev snapshot : ReceiverSnapshot
snapshot = record {
  packet = neutral_packet;
  address = phone;
  packets_per_second = 1;
  latency = none;
  sequence_result = record { event = first; lost = 0 };
  received = 1;
  lost = 0;
  duplicates = 0;
  out_of_order = 0;
  is_active_client = true;
  is_state_update = true;
  transport = wifi;
}

starts : Reach opened started
unfolding new_app
starts = next here (
    fires answers Gui.start_receiver [] (live_diagnostics ∷ system_diagnostics ∷ poll_messages ∷ [])
      opened refl)

abbrev told : App
told = post (packet snapshot) started

abbrev linked : App
linked =
    fire answers poll_messages
      (record told { pending = live_diagnostics ∷ system_diagnostics ∷ [] })

links : Reach opened linked
unfolding new_app fire start_receiver
links =
    next (next starts (posts (packet snapshot) started))
      (fires answers poll_messages (live_diagnostics ∷ system_diagnostics ∷ []) [] told refl)

Reach-IsSound_example : IsSound 1 none (facts linked)
Reach-IsSound_example = Reach-IsSound default_settings no_file true links

linked_shows : (linked.connected_transport ≡ some wifi) × (linked.receiver ≡ some 0)
unfolding new_app fire start_receiver poll
linked_shows = (refl, refl)

closes_over : (close linked).closing ≡ true
unfolding close
closes_over = refl

closing_is_final_example :
    ((post (packet snapshot) (close linked)).closing ≡ true)
    × ((post (packet snapshot) (close linked)).created ≡ (close linked).created)
closing_is_final_example =
    closing_is_final default_settings no_file true (next links (closes linked)) closes_over
      (next here (posts (packet snapshot) (close linked)))

-- The receiver behind the window.
abbrev receiver : Receiver
receiver =
    record (empty_receiver
      (record {
        has_display = false;
        allowed_hosts = none;
        require_pairing = true;
        active_client_timeout = 1_750_000;
        client_retention = 10_000_000;
      })
      (some 7)) { clients = (phone, new_client) ∷ []; active_client = some phone }

one_client : IsDistinct receiver.clients
unfolding lookup
one_client = (refl, tt)

phone_known : lookup phone receiver.clients ≡ some new_client
unfolding lookup
phone_known = refl

disconnect_current-releases_example :
    (calls : List Call) × ((disconnect_current true linked).trace ≡ calls ++ linked.trace)
    × ((perform_calls 0 calls receiver).active_client ≡ none)
    × (wifi ≡ wifi → (perform_calls 0 calls receiver).pairing_token ≡ none)
    × ((disconnect_current true linked).connected_transport ≡ none)
disconnect_current-releases_example =
    disconnect_current-releases true 0 linked receiver phone new_client one_client linked_shows.1
      linked_shows.0 refl phone_known

-- The user has typed a code.
abbrev typed : App
typed = record linked { screen = record linked.screen { code = codes "ab-c9z" } }

typed_parses : parse_pairing_token ascii typed.screen.code ≡ value 35_831
unfolding parse_pairing_token pairing_values flat_map lookup
typed_parses = refl

authorize_lem_example :
    (calls : List Call) × ((authorize ascii true typed).trace ≡ calls ++ typed.trace)
    × ((perform_calls 0 calls receiver).pairing_token ≡ some 35_831)
    × ((authorize ascii true typed).active_token ≡ some 35_831)
    × ((authorize ascii true typed).screen.code ≡ normalize ascii typed.screen.code)
    × ((authorize ascii true typed).selected_transport ≡ wifi)
authorize_lem_example = authorize_lem ascii true 0 35_831 typed receiver linked_shows.1 typed_parses

abbrev setting : Setting
setting = record {
  unicode = ascii;
  digit = ascii_digit;
  files = record { creates = true; writes = true; replaces = true };
  os_error = codes "disk full";
  window = true;
}

abbrev moved : GuiSettings
moved = record { host = codes "10.0.0.7"; port = 5000; allowed_hosts = [] }

moved_valid :
    validate_bind_settings setting.unicode setting.digit (codes "10.0.0.7") (codes "5000") []
    ≡ valid moved
unfolding validate_bind_settings strip
moved_valid = refl

moved_saved : (save_settings setting.files moved linked.disk).1 ≡ true
unfolding save_settings
moved_saved = refl

linked_open : linked.closing ≡ false
unfolding new_app fire start_receiver poll
linked_open = refl

apply_settings-IsRestarted_example :
    let d =
      apply_stopped 0 (apply_settings setting (codes "10.0.0.7") (codes "5000") [] linked).0 in
    (d.pending ≡ Gui.start_receiver ∷ linked.pending)
    × IsRestarted moved 0 linked (start_receiver d)
apply_settings-IsRestarted_example =
    apply_settings-IsRestarted setting (codes "10.0.0.7") (codes "5000") [] moved 0 linked
      (Reach-IsSound default_settings no_file true links) linked_shows.1 linked_open moved_valid
      moved_saved
