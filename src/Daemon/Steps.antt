-- ===== src/Daemon/Steps.antt =====
-- The daemon as a state machine: every handler, command, callback, round of a session's thread and
-- part of a frame that changes its state is a step, in any order.
use friendviewer.Prelude.{Option, ℕ, ◌≡◌, ◌≢◌, Bool, true, false, some, List, [], ◌∷◌, arith}
use friendviewer.Prelude.Words.{ℤ}
use friendviewer.ChunkBuffer.{ChunkBuffer, dequeue_chunk}
use friendviewer.Daemon.{
  effect, create_window, Daemon, Outside, check_heartbeat, host, stop, close_session_inner,
  handle_user_list, handle_session_close, handle_session_request, handle_video_params, handle_data,
}
use friendviewer.Daemon.Control.{
  Handler, on_session_close, Moment, handle, enqueue_msg, send_initial_hs, handle_handshake,
  handle_servmsg, handle_input, heartbeat_received, heartbeat_reply, key_pressed, button_pressed,
  cursor_moved,
}
use friendviewer.Daemon.Cli.{handle_command}
use friendviewer.Daemon.Threads.{
  Encoding, Encoded, send_params, encode_round, decode_dequeued, decode_ready, decode_round,
  render_dequeued, render_round,
}

module _ (o : Outside) where
  open o use {Float}

  pub data Step (d : Daemon Float) : Daemon Float → Type 0 where
    handles :
        (t : Moment) (h : Handler) (bytes : List ℕ) {d' : Daemon Float}
        → handle o t h bytes d ≡ some d'
        → Step d d'
    replies : (now : ℕ) → Step d (heartbeat_reply o now d)
    commands :
        (tokens : List (List ℕ)) {d' : Daemon Float} {waits : Bool}
        → handle_command o tokens d ≡ some (d', waits)
        → Step d d'
    keys : (key : ℤ) → Step d (key_pressed o key d)
    buttons : (button : ℤ) → Step d (button_pressed o button d)
    cursors : (x y : o.Double) → Step d (cursor_moved o x y d)
    checks : (ticks now : ℕ) → Step d (check_heartbeat ticks now d)
    greets :
        (now : ℕ)
        → Step d (record (send_initial_hs o now (record d { connect_signal = false })) {
          last_heartbeat_time = now;
        })
    flushes : (b : ChunkBuffer (List ℕ)) → Step d (record d { send_buffer = b })
    encodes : (e : Encoded) (v : Encoding) → Step d (encode_round o e (v, d)).1
    decodes :
        (frame : Option (List ℕ))
        → d.decoder_running ≡ true
        → Step d (decode_round (λ (c : Unit {0}) p. (c, frame)) (tt, d)).1
    opens : (w h : ℕ) → Step d (effect (create_window w h) d)
    renders : Step d (render_round d)

  pub data Reach (d : Daemon Float) : Daemon Float → Type 0 where
    here : Reach d d
    later : {e f : Daemon Float} → Reach d e → Step e f → Reach d f

module _ {Float : Type 0} where
  -- What no step of a daemon that is not a host changes.
  pub record Keeps (d d' : Daemon Float) : Type 0 where
    pub guest : d.state ≢ host → d'.state ≢ host
    pub encodes : d.state ≢ host → d.encoder_running ≡ true → d'.encoder_running ≡ true
    pub idles : d.decoder_running ≡ false → d'.decoder_running ≡ false

  close_session-Keeps : (d d' : Daemon Float) → close_session_inner d ≡ some d' → Keeps d d'
  unfolding close_session_inner
  close_session-Keeps d d' e = record {
    guest = ground arith;
    encodes = ground arith;
    idles = ground arith;
  }

  Keeps-refl : (d : Daemon Float) → Keeps d d
  Keeps-refl d = record { guest = λ h. h; encodes = λ h e. e; idles = λ h. h }

  Keeps-trans : {d e f : Daemon Float} → Keeps d e → Keeps e f → Keeps d f
  Keeps-trans k l = record {
    guest = λ h. l.guest (k.guest h);
    encodes = λ h e. l.encodes (k.guest h) (k.encodes h e);
    idles = λ h. l.idles (k.idles h);
  }

module _ (o : Outside) where
  open o use {Float}

  handle-Keeps :
      (t : Moment) (h : Handler) (bytes : List ℕ) (d d' : Daemon Float)
      → handle o t h bytes d ≡ some d'
      → Keeps d d'
  unfolding handle handle_handshake heartbeat_received handle_servmsg handle_user_list
      handle_session_close handle_session_request handle_video_params handle_data handle_input
      enqueue_msg stop
  handle-Keeps t on_session_close bytes d d' e = close_session-Keeps d d' e
  handle-Keeps t _ bytes d d' e = record {
    guest = ground arith;
    encodes = ground arith;
    idles = ground arith;
  }

  handle_command-Keeps :
      (tokens : List (List ℕ)) (d d' : Daemon Float) (waits : Bool)
      → handle_command o tokens d ≡ some (d', waits)
      → Keeps d d'
  unfolding handle_command enqueue_msg stop
  handle_command-Keeps [] d d' waits e = cc
  handle_command-Keeps (c ∷ []) d d' waits e = record {
    guest = ground arith;
    encodes = ground arith;
    idles = ground arith;
  }
  handle_command-Keeps (c ∷ a ∷ rest) d d' waits e = record {
    guest = ground arith;
    encodes = ground arith;
    idles = ground arith;
  }

  check_heartbeat-Keeps : (ticks now : ℕ) (d : Daemon Float) → Keeps d (check_heartbeat ticks now d)
  unfolding check_heartbeat stop
  check_heartbeat-Keeps ticks now d = record {
    guest = ground arith;
    encodes = ground arith;
    idles = ground arith;
  }

  encode_round-Keeps :
      (e : Encoded) (v : Encoding) (d : Daemon Float) → Keeps d (encode_round o e (v, d)).1
  unfolding encode_round send_params enqueue_msg
  encode_round-Keeps e v d = record {
    guest = ground arith;
    encodes = ground arith;
    idles = ground arith;
  }

  decode_round-Keeps :
      (frame : Option (List ℕ)) (d : Daemon Float)
      → Keeps d (decode_round (λ (c : Unit {0}) p. (c, frame)) (tt, d)).1
  unfolding decode_round decode_ready decode_dequeued dequeue_chunk
  decode_round-Keeps frame d = record {
    guest = ground arith;
    encodes = ground arith;
    idles = ground arith;
  }

  render_round-Keeps : (d : Daemon Float) → Keeps d (render_round d)
  unfolding render_round render_dequeued dequeue_chunk
  render_round-Keeps d = record {
    guest = ground arith;
    encodes = ground arith;
    idles = ground arith;
  }

  pub Step-Keeps : {d d' : Daemon Float} → Step o d d' → Keeps d d'
  unfolding heartbeat_reply key_pressed button_pressed cursor_moved send_initial_hs enqueue_msg
  Step-Keeps {d} {d'} (handles t h bytes e) = handle-Keeps t h bytes d d' e
  Step-Keeps {d} {d'} (commands tokens {waits = w} e) = handle_command-Keeps tokens d d' w e
  Step-Keeps {d} (checks ticks now) = check_heartbeat-Keeps ticks now d
  Step-Keeps {d} (encodes e v) = encode_round-Keeps e v d
  Step-Keeps {d} (decodes frame on) = decode_round-Keeps frame d
  Step-Keeps {d} renders = render_round-Keeps d
  Step-Keeps _ = record { guest = λ h. h; encodes = λ h e. e; idles = λ h. h }

  pub Reach-Keeps : {d d' : Daemon Float} → Reach o d d' → Keeps d d'
  Reach-Keeps here = Keeps-refl _
  Reach-Keeps (later r s) = Keeps-trans (Reach-Keeps r) (Step-Keeps s)

  -- From a state that is not HOST and has the encoder's flag set, no sequence of steps reaches HOST
  -- or clears the flag, the close of the session included.
  pub encoder_runs_on :
      {d d' : Daemon Float}
      → Reach o d d'
      → d.state ≢ host
      → d.encoder_running ≡ true
      → (d'.state ≢ host) × (d'.encoder_running ≡ true)
  encoder_runs_on r h e = let k = Reach-Keeps r in (k.guest h, k.encodes h e)

  -- Once the flag of the decoder's thread is false, no sequence of steps makes it true again.
  pub decoder_stays_off :
      {d d' : Daemon Float} → Reach o d d' → d.decoder_running ≡ false → d'.decoder_running ≡ false
  decoder_stays_off r h = (Reach-Keeps r).idles h
