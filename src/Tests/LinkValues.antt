-- ===== src/Tests/LinkValues.antt =====
-- A platform for src/Services/Link, and a host and a remote that were just constructed.
use lo_la.Prelude.{ℕ, true, false, none, some, List, [], replicate, refl}
use lo_la.Crypto.Encoder.{Encoder, all_clear}
use lo_la.Crypto.KeyExchange.{new_exchanger}
use lo_la.Crypto.Token.{new_token_source}
use lo_la.Driver.State.{ready_for_anything, invalid_millis}
use lo_la.Services.Manager.{new_manager, notify_services_link_updated, notify_from}
use lo_la.Services.Send.{done}
use lo_la.Link.Info.{disabled}
use lo_la.Link.Transaction.{new_request}
use lo_la.Link.Service.{Platform, Moment, Link}
use lo_la.Link.Host.{Host}
use lo_la.Link.Remote.{RemoteLink}
use lo_la.Link.Machine.Steps.{KeepsEncoder}
use lo_la.Tests.Values.{toy, curve, driver_in}
use lo_la.Tests.Link.{three}

abbrev pub cleared : Encoder
cleared = record {
  encoder_state = all_clear;
  hasher = [];
  key_holder = replicate 16 0;
  iv_holder = replicate 16 0;
  token_holder = replicate 4 0;
  token_seed = 0;
}

abbrev pub platform_of : ℕ → Platform (List ℕ) ℕ
platform_of id = record {
  crypto = toy;
  ecc = curve;
  rssi_ring = three;
  map_range = λ n. n;
  rssi_normalized = λ n. 120;
  channel_min = 2;
  channel_max = 20;
  local_id = id;
  manager = new_manager;
}

-- The time of `millis`, with the draw 9 and one key pair.
abbrev pub at : ℕ → Moment
at millis = record {
  millis = millis;
  micros = 1000;
  rtc_time = 50;
  random = λ min max. 9;
  key_pair = some (replicate 21 5, replicate 21 5);
}

abbrev pub link_of : {P : Type 0} → P → Link (List ℕ) ℕ P
link_of part = record {
  send_status = done;
  send_failures = 0;
  send_start_millis = 0;
  send_time_out_duration = 0;
  ack_time_out_duration = 0;
  packet = record { definition = none; raw = replicate 26 0 };
  tasks = [];
  client = record {
    node = record {
      driver = record (driver_in ready_for_anything true false 0) { encoder = cleared };
      services = 0;
    };
    info = record {
      link_state = disabled;
      rtt = 65535;
      link_started_seconds = 0;
      partner_info_last_updated = invalid_millis;
      partner_info_last_updated_remotely = invalid_millis;
      partner_rssi_samples = [];
      partner_received_count = 0;
      session_id = 0;
      partner_id_present = false;
      partner_id = 0;
      clock_sync_adjustments = 0;
    };
    exchanger = new_exchanger;
    keys_last_generated = invalid_millis;
    syncer = record {
      synced_clock = none;
      sync_good_count = 0;
      last_synced = invalid_millis;
      host_synced = false;
    };
    crypto_seed = new_token_source;
    balancer = record { power = 0; last_updated = invalid_millis; driver_power = 0 };
    report_pending = false;
    sub_state_start = invalid_millis;
    linking_state = 0;
    info_sync_stage = 0;
    state_start_time = invalid_millis;
    last_sent_millis = invalid_millis;
    part = part;
  };
}

abbrev pub new_host : Host (List ℕ) ℕ
new_host = link_of (record {
  response = record { response_ready = false; response_id = 0; response_result = 0 };
  ping_acked = false;
  latency = record { last_sent_with = 0; last_sent_packet_id = 0; duration_stack = [] };
  session_last_started = invalid_millis;
})

abbrev pub new_remote : RemoteLink (List ℕ) ℕ
new_remote = link_of (record { request = new_request })

pub platform-KeepsEncoder : (id : ℕ) → KeepsEncoder (platform_of id)
unfolding notify_services_link_updated new_manager notify_from
platform-KeepsEncoder id n = refl
