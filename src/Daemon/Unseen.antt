-- ===== src/Daemon/Unseen.antt =====
-- What the window of a client is given, over all steps of the daemon: the frames that
-- `window_.render_frame` is called with.
use friendviewer.Prelude.{
  ℕ, ◌≡◌, refl, sym, ◌∙◌, ap, Bool, true, false, ◌&&◌, some, List, [], ◌∷◌, ◌++◌, arith, append-nil,
  if◌then◌else◌,
}
use friendviewer.ChunkBuffer.{dequeue_chunk, clear}
use friendviewer.Daemon.Messages.{VideoParams, ControlInput}
use friendviewer.Daemon.{
  Effect, init_encoder, shutdown_encoder, init_decoder, feed_decoder, shutdown_decoder,
  close_window, create_window, render_frame, move_cursor, send_input, Daemon, Outside, effect,
  check_heartbeat, stop, close_session_inner, handle_user_list, handle_session_close,
  handle_session_request, handle_video_params, handle_data,
}
use friendviewer.Daemon.Control.{
  Handler, is_positive, on_session_close, on_session_request, on_video_params, on_control_input,
  Moment, handle, enqueue_msg, send_initial_hs, handle_handshake, handle_servmsg, handle_input,
  heartbeat_received, heartbeat_reply, key_pressed, button_pressed, cursor_moved,
}
use friendviewer.Daemon.Cli.{handle_command}
use friendviewer.Daemon.Threads.{
  Encoding, Encoded, send_params, encode_round, render_dequeued, render_round,
}
use friendviewer.Daemon.Steps.{
  Step, handles, commands, checks, encodes, decodes, opens, renders, Reach, here, later,
  Reach-Keeps,
}

module _ {Float : Type 0} where
  -- The frames among the calls.
  abbrev pub shown : List (Effect Float) → List (List ℕ)
  shown [] = []
  shown (render_frame f ∷ es) = f ∷ shown es
  shown (_ ∷ es) = shown es

  shown-append : (es fs : List (Effect Float)) → shown (es ++ fs) ≡ shown es ++ shown fs
  shown-append [] fs = refl
  shown-append (render_frame f ∷ es) fs = ap (◌∷◌ f) (shown-append es fs)
  shown-append (_ ∷ es) fs = shown-append es fs

  -- Calls that show nothing.
  shown_more : (es more : List (Effect Float)) → shown more ≡ [] → shown (es ++ more) ≡ shown es
  shown_more es more h = shown-append es more ∙ ap (λ l. shown es ++ l) h ∙ append-nil (shown es)

  shown_two :
      (es : List (Effect Float)) (a b : Effect Float)
      → shown (a ∷ []) ≡ []
      → shown (b ∷ []) ≡ []
      → shown ((es ++ (a ∷ [])) ++ (b ∷ [])) ≡ shown es
  shown_two es a b h k = shown_more (es ++ (a ∷ [])) (b ∷ []) k ∙ shown_more es (a ∷ []) h

  -- A step that adds no frame, neither to those that wait nor to those that were shown.
  record Dark (d d' : Daemon Float) : Type 0 where
    none_waits : d.decode_buffer.queue ≡ [] → d'.decode_buffer.queue ≡ []
    none_shown : d.decode_buffer.queue ≡ [] → shown d'.effects ≡ shown d.effects

  close_session-Dark : (d d' : Daemon Float) → close_session_inner d ≡ some d' → Dark d d'
  unfolding close_session_inner clear
  close_session-Dark d d' e =
      let two = shown_two d.effects close_window shutdown_decoder refl refl in
      let one = shown_more d.effects (shutdown_encoder ∷ []) refl in
      record { none_waits = ground arith; none_shown = ground arith }

  Dark-refl : (d : Daemon Float) → Dark d d
  Dark-refl d = record { none_waits = λ h. h; none_shown = λ h. refl }

  Dark-trans : {d e f : Daemon Float} → Dark d e → Dark e f → Dark d f
  Dark-trans k l = record {
    none_waits = λ h. l.none_waits (k.none_waits h);
    none_shown = λ h. l.none_shown (k.none_waits h) ∙ k.none_shown h;
  }

  Dark-effect : (x : Effect Float) (d : Daemon Float) → shown (x ∷ []) ≡ [] → Dark d (effect x d)
  Dark-effect x d h = record {
    none_waits = λ e. e;
    none_shown = λ e. shown_more d.effects (x ∷ []) h;
  }

  Dark-if :
      (b : Bool) (x : Effect Float) (d : Daemon Float)
      → shown (x ∷ []) ≡ []
      → Dark d (if b then effect x d else d)
  Dark-if true x d h = Dark-effect x d h
  Dark-if false x d h = Dark-refl d

  Dark-of_eq : {d e f : Daemon Float} → Dark d e → some e ≡ some f → Dark d f
  Dark-of_eq {d} {e} {f} k h =
      let same : e ≡ f = cc in
      record {
        none_waits =
            λ q. ap (λ (x : Daemon Float). x.decode_buffer.queue) (sym same) ∙ k.none_waits q;
        none_shown = λ q. ap (λ (x : Daemon Float). shown x.effects) (sym same) ∙ k.none_shown q;
      }

  request-Dark : (d : Daemon Float) → Dark d (handle_session_request d)
  unfolding handle_session_request
  request-Dark d = record {
    none_waits = λ e. e;
    none_shown = λ e. shown_more d.effects (init_encoder d.width d.height ∷ []) refl;
  }

  video_params-Dark :
      (ready fed : Bool) (p : VideoParams) (d d' : Daemon Float)
      → handle_video_params ready fed p d ≡ some d'
      → Dark d d'
  unfolding handle_video_params stop
  video_params-Dark ready fed p d d' e =
      let two = shown_two d.effects (init_decoder p) (feed_decoder p.pps_sps) refl refl in
      record { none_waits = ground arith; none_shown = ground arith }

module _ (o : Outside) where
  open o use {Float, float_zero, float_lt, inner}

  input-Dark : (i : ControlInput Float) (d : Daemon Float) → Dark d (handle_input o i d)
  unfolding handle_input
  input-Dark i d =
      let inside = float_lt float_zero i.abs_x && float_lt float_zero i.abs_y in
      let cursor = move_cursor i.abs_x i.abs_y in
      let button = send_input i.mouse_bitfield in
      let d1 = if inside then effect cursor d else d in
      let d2 = if is_positive i.mouse_bitfield then effect button d1 else d1 in
      Dark-trans (Dark-if inside cursor d refl) (
        Dark-trans (Dark-if (is_positive i.mouse_bitfield) button d1 refl)
          (Dark-if (is_positive i.virtual_key) (send_input i.virtual_key) d2 refl))

  handle-Dark :
      (t : Moment) (h : Handler) (bytes : List ℕ) (d d' : Daemon Float)
      → handle o t h bytes d ≡ some d'
      → Dark d d'
  unfolding handle handle_handshake heartbeat_received handle_servmsg handle_user_list
      handle_session_close handle_data handle_input enqueue_msg stop
  handle-Dark t on_session_close bytes d d' e = close_session-Dark d d' e
  handle-Dark t on_session_request bytes d d' e = Dark-of_eq (request-Dark d) e
  handle-Dark t on_video_params bytes d d' e =
      video_params-Dark t.decoder_ready t.decoder_fed (inner.parse_video_params bytes) d d' e
  handle-Dark t on_control_input bytes d d' e =
      Dark-of_eq (input-Dark (inner.parse_control_input bytes) d) e
  handle-Dark t _ bytes d d' e = record { none_waits = ground arith; none_shown = ground arith }

  handle_command-Dark :
      (tokens : List (List ℕ)) (d d' : Daemon Float) (waits : Bool)
      → handle_command o tokens d ≡ some (d', waits)
      → Dark d d'
  unfolding handle_command enqueue_msg stop
  handle_command-Dark [] d d' waits e = cc
  handle_command-Dark (c ∷ []) d d' waits e = record {
    none_waits = ground arith;
    none_shown = ground arith;
  }
  handle_command-Dark (c ∷ a ∷ rest) d d' waits e = record {
    none_waits = ground arith;
    none_shown = ground arith;
  }

  check_heartbeat-Dark : (ticks now : ℕ) (d : Daemon Float) → Dark d (check_heartbeat ticks now d)
  unfolding check_heartbeat stop
  check_heartbeat-Dark ticks now d = record { none_waits = ground arith; none_shown = ground arith }

  encode_round-Dark :
      (e : Encoded) (v : Encoding) (d : Daemon Float) → Dark d (encode_round o e (v, d)).1
  unfolding encode_round send_params enqueue_msg
  encode_round-Dark e v d = record { none_waits = ground arith; none_shown = ground arith }

  render_round-Dark : (d : Daemon Float) → Dark d (render_round d)
  unfolding render_round render_dequeued dequeue_chunk
  render_round-Dark d = record { none_waits = ground arith; none_shown = ground arith }

  Step-Dark : {d d' : Daemon Float} → Step o d d' → d.decoder_running ≡ false → Dark d d'
  unfolding heartbeat_reply key_pressed button_pressed cursor_moved send_initial_hs enqueue_msg
  Step-Dark {d} {d'} (handles t h bytes e) off = handle-Dark t h bytes d d' e
  Step-Dark {d} {d'} (commands tokens {waits = w} e) off = handle_command-Dark tokens d d' w e
  Step-Dark {d} (checks ticks now) off = check_heartbeat-Dark ticks now d
  Step-Dark {d} (encodes e v) off = encode_round-Dark e v d
  Step-Dark {d} (decodes frame on) off = absurd (ground arith)
  Step-Dark {d} (opens w h) off = Dark-effect (create_window w h) d refl
  Step-Dark {d} renders off = render_round-Dark d
  Step-Dark _ off = record { none_waits = λ h. h; none_shown = λ h. refl }

  Reach-Dark : {d d' : Daemon Float} → Reach o d d' → d.decoder_running ≡ false → Dark d d'
  Reach-Dark here off = Dark-refl _
  Reach-Dark (later r s) off =
      Dark-trans (Reach-Dark r off) (Step-Dark s ((Reach-Keeps o r).idles off))

  -- From a daemon whose decoding thread's flag is false and for whose window no frame waits, no
  -- sequence of steps, the rounds of its threads, its handlers and the packets of the sessions that
  -- follow included, sets the flag, decodes a frame or gives one to the window.
  pub decoder_off-shown :
      {d d' : Daemon Float}
      → Reach o d d'
      → d.decoder_running ≡ false
      → d.decode_buffer.queue ≡ []
      → (d'.decoder_running ≡ false)
        × (d'.decode_buffer.queue ≡ [])
        × (shown d'.effects ≡ shown d.effects)
  decoder_off-shown r off none_wait =
      let k = Reach-Dark r off in
      ((Reach-Keeps o r).idles off, k.none_waits none_wait, k.none_shown none_wait)
