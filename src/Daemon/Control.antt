-- ===== src/Daemon/Control.antt =====
-- prototype/daemon/daemon_backend_controller.cc: the handlers that send packets, the callbacks of
-- the window, and the subscriptions of `init`.
use friendviewer.Prelude.{
  ℕ, Bool, true, false, ◌&&◌, Option, some, List, [], ◌∷◌, ◌++◌, ◌==◌, ltb, if◌then◌else◌,
}
use friendviewer.Prelude.Words.{ℤ, pos, negsuc}
use friendviewer.Packet.{FvPacketType}
use friendviewer.ChunkBuffer.{enqueue_chunk}
use friendviewer.NetworkManager.{NetworkManager, subscribe_to_packet}
use friendviewer.Daemon.Messages.{ServerMessageType, ControlInput, Inner}
use friendviewer.Daemon.{
  Daemon, Outside, move_cursor, send_input, effect, stop, handshake_magic, server_magic, client,
  handle_user_list, handle_session_close, handle_session_request, handle_video_params, handle_data,
}

-- What `init` subscribes.
pub data Handler : Type 0 where
  on_handshake on_heartbeat on_server_message on_user_list on_session_close : Handler
  on_session_request on_video_params on_data on_control_input : Handler

abbrev pub is_positive : ℤ → Bool
is_positive (pos n) = ltb 0 n
is_positive (negsuc n) = false

-- What a handler finds when it runs: the time, whether the decoder's `init` succeeds, and
-- whether its `decode_packet` then returns.
pub record Moment : Type 0 where
  pub now : ℕ
  pub decoder_ready : Bool
  pub decoder_fed : Bool

module _ (o : Outside) where
  open o use {Float, float_zero, float_minus_one, float_lt, Double, to_float, packets, inner}

  unfoldable pub enqueue_msg : FvPacketType → Inner Float → Daemon Float → Daemon Float
  enqueue_msg type message d = record d {
    send_buffer =
        enqueue_chunk d.send_buffer
          (packets.serialize (record { type = type; inner_packet = inner.serialize message }));
  }

  -- `now` is read once more for the time in the packet; a frame has one time here.
  unfoldable pub send_initial_hs : ℕ → Daemon Float → Daemon Float
  send_initial_hs now d =
      enqueue_msg FvPacketType.heartbeat (Inner.heartbeat now)
        (enqueue_msg FvPacketType.handshake (Inner.handshake handshake_magic) d)

  unfoldable pub handle_handshake : ℕ → Daemon Float → Daemon Float
  handle_handshake magic_number d =
      if magic_number == server_magic
      then enqueue_msg FvPacketType.new_user (Inner.new_user d.username) d
      else stop d

  -- Up to the wait of two seconds, and what follows it.
  unfoldable pub heartbeat_received : ℕ → Daemon Float → Daemon Float
  heartbeat_received now d = record d { last_heartbeat_time = now }

  unfoldable pub heartbeat_reply : ℕ → Daemon Float → Daemon Float
  heartbeat_reply now d = enqueue_msg FvPacketType.heartbeat (Inner.heartbeat now) d

  unfoldable pub handle_servmsg : ServerMessageType → Daemon Float → Daemon Float
  handle_servmsg ServerMessageType.success d = d
  handle_servmsg ServerMessageType.name_taken d =
      let name = d.username ++ (b'1' ∷ []) in
      enqueue_msg FvPacketType.new_user (Inner.new_user name) (record d { username = name })
  handle_servmsg ServerMessageType.user_not_found d = d
  handle_servmsg ServerMessageType.user_already_in_session d = d
  handle_servmsg ServerMessageType.session_starting d = record d { state = client }

  abbrev input_cursor : ControlInput Float → Daemon Float → Daemon Float
  input_cursor input d =
      if float_lt float_zero input.abs_x && float_lt float_zero input.abs_y
      then effect (move_cursor input.abs_x input.abs_y) d
      else d

  abbrev input_key : ℤ → Daemon Float → Daemon Float
  input_key key d = if is_positive key then effect (send_input key) d else d

  unfoldable pub handle_input : ControlInput Float → Daemon Float → Daemon Float
  handle_input input d =
      input_key input.virtual_key (input_key input.mouse_bitfield (input_cursor input d))

  -- The callbacks that `init` gives to the window.
  unfoldable pub key_pressed : ℤ → Daemon Float → Daemon Float
  key_pressed key = enqueue_msg FvPacketType.control_input (
      Inner.control_input (record {
        abs_x = float_minus_one;
        abs_y = float_minus_one;
        mouse_bitfield = pos 0;
        virtual_key = key;
      }))

  unfoldable pub button_pressed : ℤ → Daemon Float → Daemon Float
  button_pressed button = enqueue_msg FvPacketType.control_input (
      Inner.control_input (record {
        abs_x = float_minus_one;
        abs_y = float_minus_one;
        mouse_bitfield = button;
        virtual_key = pos 0;
      }))

  unfoldable pub cursor_moved : Double → Double → Daemon Float → Daemon Float
  cursor_moved x y = enqueue_msg FvPacketType.control_input (
      Inner.control_input (record {
        abs_x = to_float x;
        abs_y = to_float y;
        mouse_bitfield = pos 0;
        virtual_key = pos 0;
      }))

  -- The lambdas of `init`: parse the inner packet, and call the handler. Of the heartbeat's handler
  -- this is the part up to its wait.
  unfoldable pub handle : Moment → Handler → List ℕ → Daemon Float → Option (Daemon Float)
  handle t on_handshake bytes d = some (handle_handshake (inner.parse_handshake bytes) d)
  handle t on_heartbeat bytes d = some (heartbeat_received t.now d)
  handle t on_server_message bytes d = some (handle_servmsg (inner.parse_server_message bytes) d)
  handle t on_user_list bytes d = some (handle_user_list (inner.parse_user_list bytes) d)
  handle t on_session_close bytes d = handle_session_close d
  handle t on_session_request bytes d = some (handle_session_request d)
  handle t on_video_params bytes d =
      handle_video_params t.decoder_ready t.decoder_fed (inner.parse_video_params bytes) d
  handle t on_data bytes d = some (handle_data (inner.parse_data bytes) d)
  handle t on_control_input bytes d = some (handle_input (inner.parse_control_input bytes) d)

-- The subscriptions of `init`, in its order.
unfoldable pub subscribe_all : NetworkManager Handler → NetworkManager Handler
subscribe_all nm =
    let nm1 = subscribe_to_packet nm FvPacketType.handshake on_handshake true in
    let nm2 = subscribe_to_packet nm1 FvPacketType.heartbeat on_heartbeat true in
    let nm3 = subscribe_to_packet nm2 FvPacketType.server_message on_server_message true in
    let nm4 = subscribe_to_packet nm3 FvPacketType.user_list on_user_list true in
    let nm5 = subscribe_to_packet nm4 FvPacketType.session_close on_session_close true in
    let nm6 = subscribe_to_packet nm5 FvPacketType.session_request on_session_request true in
    let nm7 = subscribe_to_packet nm6 FvPacketType.video_params on_video_params true in
    let nm8 = subscribe_to_packet nm7 FvPacketType.data_packet on_data false in
    subscribe_to_packet nm8 FvPacketType.control_input on_control_input true
