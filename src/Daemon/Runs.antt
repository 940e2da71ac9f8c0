-- ===== src/Daemon/Runs.antt =====
-- The daemon at concrete inputs: packets as in NetworkManager/Runs, a `float` is a number, and inner
-- packets are read as fixed values.
use friendviewer.Prelude.{ℕ, ◌≡◌, ◌≢◌, refl, true, false, some, [], ◌∷◌, ◌++◌, map, ltb, replicate}
use friendviewer.Prelude.Words.{pos}
use friendviewer.NetworkManager.Runs.{plain}
use friendviewer.Daemon.Messages.{ServerMessageType, VideoParams, InnerCodec}
use friendviewer.Daemon.{
  Daemon, Outside, lobby, client, host, dangling, joinable, init_decoder, feed_decoder,
  close_window, shutdown_decoder, server_magic, close_session_inner, handle_session_close,
  handle_session_request, handle_video_params, handle_data,
}
use friendviewer.Daemon.Control.{
  Moment, on_session_request, on_session_close, on_video_params, on_data, handle, handle_handshake,
  handle_servmsg,
}
use friendviewer.Daemon.Steps.{Step, here, later, handles, renders, encoder_runs_on}
use friendviewer.Daemon.Threads.{render_round}
use friendviewer.Daemon.Unseen.{shown, decoder_off-shown}
use friendviewer.Daemon.Session.{client_session}
use friendviewer.Daemon.Naming.{taken, retries, new_user_packet, handshake-retries}

abbrev pub small_inner : InnerCodec ℕ
small_inner = record {
  serialize = λ m. 1 ∷ [];
  parse_handshake = λ bytes. server_magic;
  parse_server_message = λ bytes. ServerMessageType.session_starting;
  parse_user_list = λ bytes. [];
  parse_video_params = λ bytes. record {
    width = 2;
    height = 2;
    pps_sps = bytes;
    framerate_num = 30;
    framerate_denom = 1;
  };
  parse_data = λ bytes. record { pts = 0; dts = 0; encoded_frame = bytes };
  parse_control_input =
      λ bytes. record { abs_x = 0; abs_y = 0; mouse_bitfield = pos 0; virtual_key = pos 65 };
}

abbrev pub outside : Outside
outside = record {
  Float = ℕ;
  float_zero = 0;
  float_minus_one = 0;
  float_lt = ltb;
  Double = ℕ;
  to_float = λ x. x;
  packets = plain;
  inner = small_inner;
}

abbrev pub idle : Daemon ℕ
idle = record {
  running = true;
  decode_buffer = record { queue = (9 ∷ []) ∷ [] };
  send_buffer = record { queue = [] };
  encoded_buffer = record { queue = [] };
  connect_address = 49 ∷ [];
  connect_signal = false;
  last_heartbeat_time = 100;
  username = 97 ∷ 98 ∷ [];
  remote_users = [];
  state = lobby;
  width = 1920;
  height = 1080;
  got_pps_sps = false;
  encoder_running = false;
  renderer_running = false;
  decoder_running = false;
  encoding_thread = dangling;
  rendering_thread = dangling;
  decoding_thread = dangling;
  effects = [];
}

abbrev pub in_session : Daemon ℕ
in_session = record idle { state = client; decoding_thread = joinable; rendering_thread = joinable }

abbrev params : VideoParams
params = record {
  width = 2;
  height = 2;
  pps_sps = 103 ∷ [];
  framerate_num = 30;
  framerate_denom = 1;
}

client_session_example :
    (d1 d2 d3 : Daemon ℕ) × (handle_video_params true true params
        (handle_servmsg outside ServerMessageType.session_starting idle)
      ≡ some d1)
    × (handle_session_close d1 ≡ some d2)
    × (d2.state ≡ lobby)
    × (d2.effects
        ≡ []
          ++ (init_decoder params ∷ feed_decoder (103 ∷ []) ∷ close_window ∷ shutdown_decoder ∷ []))
    × (handle_session_close (handle_servmsg outside ServerMessageType.session_starting d2)
        ≡ some d3)
    × (d3 ≡ record d2 { state = client; decoder_running = false })
    × (handle_session_close d3 ≡ some d3)
client_session_example = client_session outside idle true params

abbrev pub now : Moment
now = record { now = 200; decoder_ready = true; decoder_fed = true }

-- The daemon of a user who is asked for a session: it serves the request, then the close.
asked : Daemon ℕ
unfolding handle_session_request
asked = handle_session_request idle

request-Step : Step outside idle asked
unfolding handle asked
request-Step = handles now on_session_request [] refl

close-Step : Step outside asked asked
unfolding handle asked handle_session_close handle_session_request close_session_inner
close-Step = handles now on_session_close [] refl

encoder_runs_on_example : (asked.state ≢ host) × (asked.encoder_running ≡ true)
unfolding asked handle_session_request
encoder_runs_on_example = encoder_runs_on outside (later here close-Step) (λ e. cc) refl

-- A client at the start of its video, which gets a frame and then looks for one to show.
abbrev blank : Daemon ℕ
blank = record in_session { decode_buffer = record { queue = [] } }

abbrev started : Daemon ℕ
started = record blank {
  effects = init_decoder params ∷ feed_decoder (103 ∷ []) ∷ [];
  renderer_running = true;
  got_pps_sps = true;
}

fed : Daemon ℕ
unfolding handle_data
fed = handle_data (record { pts = 0; dts = 0; encoded_frame = 7 ∷ [] }) started

rendered : Daemon ℕ
unfolding render_round fed
rendered = render_round fed

started-Step : Step outside blank started
unfolding handle handle_video_params
started-Step = handles now on_video_params (103 ∷ []) refl

fed-Step : Step outside started fed
unfolding handle fed
fed-Step = handles now on_data (7 ∷ []) refl

rendered-Step : Step outside fed rendered
unfolding rendered
rendered-Step = renders

decoder_off-shown_example :
    (rendered.decoder_running ≡ false)
    × (rendered.decode_buffer.queue ≡ [])
    × (shown rendered.effects ≡ [])
decoder_off-shown_example =
    decoder_off-shown outside (later (later (later here started-Step) fed-Step) rendered-Step) refl
      refl

handshake-retries_example :
    ((taken outside 2 (handle_handshake outside server_magic idle)).username
      ≡ (97 ∷ 98 ∷ []) ++ replicate 2 b'1')
    × ((taken outside 2 (handle_handshake outside server_magic idle)).send_buffer.queue
        ≡ [] ++ map (new_user_packet outside) ((97 ∷ 98 ∷ []) ∷ retries outside 2 (97 ∷ 98 ∷ [])))
    × ((taken outside 2 (handle_handshake outside server_magic idle)).running ≡ true)
handshake-retries_example = handshake-retries outside 2 idle
