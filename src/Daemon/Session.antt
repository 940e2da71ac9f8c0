-- ===== src/Daemon/Session.antt =====
-- The start and the end of a session.
use friendviewer.Prelude.{
  ◌≡◌, refl, ◌∙◌, ap, Bool, true, false, none, some, List, [], ◌∷◌, ◌++◌, append_assoc, arith,
}
use friendviewer.ChunkBuffer.{clear}
use friendviewer.Packet.{FvPacketType}
use friendviewer.NetworkManager.{NetworkManager, subscribe_to_packet}
use friendviewer.Daemon.Messages.{ServerMessageType, VideoParams}
use friendviewer.Daemon.{
  Daemon, Outside, Effect, lobby, client, closed_client, dangling, joinable, joined, init_decoder,
  feed_decoder, close_window, shutdown_decoder, close_session_inner, handle_session_close,
  handle_video_params,
}
use friendviewer.Daemon.Control.{
  Handler, on_handshake, on_heartbeat, on_server_message, on_user_list, on_session_close,
  on_session_request, on_video_params, on_data, on_control_input, handle_servmsg, subscribe_all,
}

module _ {Float : Type 0} where
  four_effects :
      (es : List (Effect Float)) (a b c e : Effect Float)
      → (((es ++ (a ∷ [])) ++ (b ∷ [])) ++ (c ∷ [])) ++ (e ∷ []) ≡ es ++ (a ∷ b ∷ c ∷ e ∷ [])
  four_effects es a b c e =
      append_assoc ((es ++ (a ∷ [])) ++ (b ∷ [])) _ _
      ∙ append_assoc (es ++ (a ∷ [])) _ _
      ∙ append_assoc es _ _

  close_session_closed :
      (d : Daemon Float)
      → d.state ≡ client
      → d.decoding_thread ≡ joinable
      → d.rendering_thread ≡ joinable
      → close_session_inner d ≡ some (closed_client d)
  unfolding close_session_inner
  close_session_closed d s e f = ground arith

  -- Closing the session of a client whose two threads run: it succeeds, and leaves the lobby, both
  -- flags false, the decoded frames dropped, the window closed and then the decoder shut down;
  -- closing again changes nothing.
  pub close_session_client :
      (d : Daemon Float)
      → d.state ≡ client
      → d.decoding_thread ≡ joinable
      → d.rendering_thread ≡ joinable
      → (d' : Daemon Float) × (close_session_inner d ≡ some d')
        × (d'.state ≡ lobby)
        × (d'.decoder_running ≡ false)
        × (d'.renderer_running ≡ false)
        × (d'.decode_buffer.queue ≡ [])
        × (d'.effects ≡ d.effects ++ (close_window ∷ shutdown_decoder ∷ []))
        × (close_session_inner d' ≡ some d')
  unfolding close_session_inner clear
  close_session_client d s e f = (
    closed_client d,
    close_session_closed d s e f,
    refl,
    refl,
    refl,
    refl,
    append_assoc d.effects _ _,
    refl,
  )

  -- A client whose decoding thread was joined, when the session closes: the flag of that thread is
  -- all that changes.
  close_session_joined :
      (d : Daemon Float)
      → d.state ≡ client
      → d.decoding_thread ≡ joined
      → close_session_inner d ≡ some (record d { decoder_running = false })
  unfolding close_session_inner
  close_session_joined d s e = ground arith

module _ (o : Outside) where
  open o use {Float}

  -- A session that closes between SESSION_STARTING and VIDEO_PARAMS when no decoding thread was ever
  -- started: undefined.
  pub close_before_params :
      (d : Daemon Float)
      → d.decoding_thread ≡ dangling
      → handle_session_close (handle_servmsg o ServerMessageType.session_starting d) ≡ none
  unfolding handle_session_close handle_servmsg close_session_inner
  close_before_params d h = ground arith

  -- A whole session of a client, SESSION_STARTING, VIDEO_PARAMS with `decode_packet` returning,
  -- whether the decoder's `init` succeeded or not, and SESSION_CLOSE, and then a second one that
  -- closes before its VIDEO_PARAMS, with no other step between. The first ends in the lobby, and its
  -- handlers have called the decoder's `init` and `decode_packet`, the window's `close_window` and
  -- the decoder's `shutdown`, in this order. The second does not end: its close changes nothing but the flag of the decoding thread,
  -- which is false, and calls nothing, so the daemon stays in the state of a client; and closing
  -- once more changes nothing at all.
  pub client_session :
      (d : Daemon Float) (ready : Bool) (param : VideoParams)
      → (d1 d2 d3 : Daemon Float) × (handle_video_params ready true param
            (handle_servmsg o ServerMessageType.session_starting d)
          ≡ some d1)
        × (handle_session_close d1 ≡ some d2)
        × (d2.state ≡ lobby)
        × (d2.effects
            ≡ d.effects
              ++ (init_decoder param
                  ∷ feed_decoder param.pps_sps
                  ∷ close_window
                  ∷ shutdown_decoder
                  ∷ []))
        × (handle_session_close (handle_servmsg o ServerMessageType.session_starting d2) ≡ some d3)
        × (d3 ≡ record d2 { state = client; decoder_running = false })
        × (handle_session_close d3 ≡ some d3)
  unfolding handle_session_close handle_video_params handle_servmsg close_session_inner
  client_session d true param =
      (_, _, _, refl, refl, refl, four_effects d.effects _ _ _ _, refl, refl, refl)
  client_session d false param =
      (_, _, _, refl, refl, refl, four_effects d.effects _ _ _ _, refl, refl, refl)

-- What `init` subscribes to each packet type, and whether it runs as a task.
abbrev pub handlers_of : FvPacketType → List (Bool × Handler)
handlers_of FvPacketType.unspecified = []
handlers_of FvPacketType.handshake = (true, on_handshake) ∷ []
handlers_of FvPacketType.server_message = (true, on_server_message) ∷ []
handlers_of FvPacketType.new_user = []
handlers_of FvPacketType.user_list = (true, on_user_list) ∷ []
handlers_of FvPacketType.session_request = (true, on_session_request) ∷ []
handlers_of FvPacketType.session_close = (true, on_session_close) ∷ []
handlers_of FvPacketType.heartbeat = (true, on_heartbeat) ∷ []
handlers_of FvPacketType.video_params = (true, on_video_params) ∷ []
handlers_of FvPacketType.data_packet = (false, on_data) ∷ []
handlers_of FvPacketType.control_input = (true, on_control_input) ∷ []

-- From a manager with no handlers, the subscriptions of `init` give each packet type its one
-- handler, run as a task for all but the data packets, and UNSPECIFIED and NEW_USER none.
pub subscribe_all-handlers :
    (nm : NetworkManager Handler) (t : FvPacketType)
    → ((u : FvPacketType) → nm.handlers u ≡ [])
    → (subscribe_all nm).handlers t ≡ handlers_of t
unfolding subscribe_all subscribe_to_packet
subscribe_all-handlers nm FvPacketType.unspecified h = h FvPacketType.unspecified
subscribe_all-handlers nm FvPacketType.handshake h =
    ap (◌∷◌ (true, on_handshake)) (h FvPacketType.handshake)
subscribe_all-handlers nm FvPacketType.server_message h =
    ap (◌∷◌ (true, on_server_message)) (h FvPacketType.server_message)
subscribe_all-handlers nm FvPacketType.new_user h = h FvPacketType.new_user
subscribe_all-handlers nm FvPacketType.user_list h =
    ap (◌∷◌ (true, on_user_list)) (h FvPacketType.user_list)
subscribe_all-handlers nm FvPacketType.session_request h =
    ap (◌∷◌ (true, on_session_request)) (h FvPacketType.session_request)
subscribe_all-handlers nm FvPacketType.session_close h =
    ap (◌∷◌ (true, on_session_close)) (h FvPacketType.session_close)
subscribe_all-handlers nm FvPacketType.heartbeat h =
    ap (◌∷◌ (true, on_heartbeat)) (h FvPacketType.heartbeat)
subscribe_all-handlers nm FvPacketType.video_params h =
    ap (◌∷◌ (true, on_video_params)) (h FvPacketType.video_params)
subscribe_all-handlers nm FvPacketType.data_packet h =
    ap (◌∷◌ (false, on_data)) (h FvPacketType.data_packet)
subscribe_all-handlers nm FvPacketType.control_input h =
    ap (◌∷◌ (true, on_control_input)) (h FvPacketType.control_input)
