-- ===== src/Daemon/Frames.antt =====
-- Turns of the daemon's loop: while it is connected, and before.
use mathlib.Core.Path.{subst}
use friendviewer.Prelude.{
  ℕ, ◌-◌, ◌/◌, ◌<◌, ◌≡◌, refl, ◌∙◌, ap, inl, inr, true, false, Option, none, some, Option-cases,
  List, [], ◌∷◌, ◌++◌, arith, if◌then◌else◌, append_assoc,
}
use friendviewer.Packet.{FvPacketType}
use friendviewer.ChunkBuffer.{enqueue_chunk}
use friendviewer.ClientSocket.{Winsock, connect}
use friendviewer.NetworkManager.{connect_manager}
use friendviewer.Daemon.Messages.{Inner}
use friendviewer.Daemon.{
  Daemon, Outside, check_heartbeat, stop, handshake_magic, close_session_inner, handle_user_list,
  handle_session_close, handle_session_request, handle_video_params, handle_data,
}
use friendviewer.Daemon.Control.{
  Handler, on_session_close, Moment, handle, enqueue_msg, send_initial_hs, handle_handshake,
  handle_servmsg, handle_input, heartbeat_received,
}
use friendviewer.Daemon.Frame.{fv_dist_port, System, frame_connected, frame_connect, run_frame}
use friendviewer.Daemon.Kept.{Kept, run_frame-connected}

module _ (o : Outside) (ws : Winsock) where
  open o use {Float}

  -- The turns of the loop at the given moments.
  unfoldable pub run_frames :
      ℕ → ℕ → List Moment → System Float ws.World → Option (System Float ws.World)
  run_frames fuel ticks [] s = some s
  run_frames fuel ticks (t ∷ ts) s = elim (run_frame o ws fuel ticks t s) [
    | none ↦ none
    | some s' ↦ run_frames fuel ticks ts s'
  ]

module _ (o : Outside) (ws : Winsock) where
  open o use {Float}

  stopped-handle :
      (t : Moment) (h : Handler) (bytes : List ℕ) (d d' : Daemon Float)
      → handle o t h bytes d ≡ some d'
      → d.running ≡ false
      → d'.running ≡ false
  unfolding handle handle_handshake heartbeat_received handle_servmsg handle_user_list
      handle_session_close close_session_inner handle_session_request handle_video_params
      handle_data handle_input enqueue_msg stop
  stopped-handle t on_session_close bytes d d' e r = ground arith
  stopped-handle t _ bytes d d' e r = ground arith

  stopped-Kept : Kept o ws (λ d. d.running ≡ false)
  stopped-Kept = record { handled = stopped-handle; flushed = λ d b r. r }

  waits-handle :
      (t : Moment) (h : Handler) (bytes : List ℕ) (d d' : Daemon Float)
      → handle o t h bytes d ≡ some d'
      → d.connect_signal ≡ true
      → d'.connect_signal ≡ true
  unfolding handle handle_handshake heartbeat_received handle_servmsg handle_user_list
      handle_session_close close_session_inner handle_session_request handle_video_params
      handle_data handle_input enqueue_msg stop
  waits-handle t on_session_close bytes d d' e r = ground arith
  waits-handle t _ bytes d d' e r = ground arith

  waits-Kept : Kept o ws (λ d. d.connect_signal ≡ true)
  waits-Kept = record { handled = waits-handle; flushed = λ d b r. r }

  check_heartbeat-late :
      (ticks now : ℕ) (d : Daemon Float)
      → 6 < (now - d.last_heartbeat_time) / ticks
      → (check_heartbeat ticks now d).running ≡ false
  unfolding check_heartbeat stop
  check_heartbeat-late ticks now d h = ground arith

  check_heartbeat-waits :
      (ticks now : ℕ) (d : Daemon Float)
      → d.connect_signal ≡ true
      → (check_heartbeat ticks now d).connect_signal ≡ true
  unfolding check_heartbeat stop
  check_heartbeat-waits ticks now d h = ground arith

  -- More than six whole seconds after the last heartbeat, a turn of the loop on a connected daemon
  -- stops it when the turn ends, whatever its packets do.
  pub run_frame_late :
      (fuel ticks : ℕ) (t : Moment) (s s' : System Float ws.World)
      → s.net_mgr.connected ≡ true
      → 6 < (t.now - s.daemon.last_heartbeat_time) / ticks
      → run_frame o ws fuel ticks t s ≡ some s'
      → s'.daemon.running ≡ false
  run_frame_late fuel ticks t s s' on late e =
      (run_frame-connected o stopped-Kept fuel ticks t s s' on e
        (check_heartbeat-late ticks t.now s.daemon late)).0

  -- A `connect` command on a connected daemon: after any turns of the loop that end the daemon is
  -- still connected and its signal still set, for which the terminal's thread waits to be cleared.
  pub run_frames_waits :
      (ts : List Moment) (fuel ticks : ℕ) (s s' : System Float ws.World)
      → s.net_mgr.connected ≡ true
      → s.daemon.connect_signal ≡ true
      → run_frames o ws fuel ticks ts s ≡ some s'
      → (s'.net_mgr.connected ≡ true) × (s'.daemon.connect_signal ≡ true)
  unfolding run_frames
  run_frames_waits [] fuel ticks s s' on waits e =
      let same : s ≡ s' = ground arith in
      subst
        (λ (x : System Float ws.World).
          (x.net_mgr.connected ≡ true) × (x.daemon.connect_signal ≡ true))
        same (on, waits)
  run_frames_waits (t ∷ ts) fuel ticks s s' on waits e =
      elim (Option-cases (run_frame o ws fuel ticks t s)) [
        | inl a ↦ absurd (ground arith)
        | inr (s1, a) ↦
            let (waits1, on1) =
              run_frame-connected o waits-Kept fuel ticks t s s1 on a
                (check_heartbeat-waits ticks t.now s.daemon waits) in
            run_frames_waits ts fuel ticks s1 s' on1 waits1 (ground arith)
      ]

  -- The two packets of `send_initial_hs`.
  abbrev pub greeting : ℕ → List (List ℕ)
  greeting now =
      o.packets.serialize (record {
        type = FvPacketType.handshake;
        inner_packet = o.inner.serialize (Inner.handshake handshake_magic);
      })
      ∷ o.packets.serialize (record {
        type = FvPacketType.heartbeat;
        inner_packet = o.inner.serialize (Inner.heartbeat now);
      })
      ∷ []

  pub run_frame-greets :
      (fuel ticks : ℕ) (t : Moment) (s : System Float ws.World)
      → s.net_mgr.connected ≡ false
      → s.daemon.connect_signal ≡ true
      → run_frame o ws fuel ticks t s ≡ some (frame_connect o ws t s)
  unfolding run_frame
  run_frame-greets fuel ticks t s off signal =
      ap
        (λ b.
          if b
          then frame_connected o ws fuel ticks t s
          else if s.daemon.connect_signal
          then some (frame_connect o ws t s)
          else some s)
        off
      ∙ ap (λ b. if b then some (frame_connect o ws t s) else some s) signal

  run_frame-idle :
      (fuel ticks : ℕ) (t : Moment) (s : System Float ws.World)
      → s.net_mgr.connected ≡ false
      → s.daemon.connect_signal ≡ false
      → run_frame o ws fuel ticks t s ≡ some s
  unfolding run_frame
  run_frame-idle fuel ticks t s off signal =
      ap
        (λ b.
          if b
          then frame_connected o ws fuel ticks t s
          else if s.daemon.connect_signal
          then some (frame_connect o ws t s)
          else some s)
        off
      ∙ ap (λ b. if b then some (frame_connect o ws t s) else some s) signal

  -- A turn of the loop with the signal set on a daemon that is not connected, when the socket does
  -- not connect: the two packets of the greeting are enqueued all the same, the signal is cleared,
  -- and a further turn changes nothing, so they wait in the buffer.
  pub run_frame_greets :
      (fuel ticks : ℕ) (t u : Moment) (s : System Float ws.World)
      → s.net_mgr.connected ≡ false
      → s.daemon.connect_signal ≡ true
      → (connect ws s.net_mgr.socket s.daemon.connect_address fv_dist_port s.world).0 ≡ false
      → (s' : System Float ws.World) × (run_frame o ws fuel ticks t s ≡ some s')
        × (s'.daemon.send_buffer.queue ≡ s.daemon.send_buffer.queue ++ greeting t.now)
        × (s'.daemon.connect_signal ≡ false)
        × (run_frame o ws fuel ticks u s' ≡ some s')
  unfolding frame_connect connect_manager send_initial_hs enqueue_msg enqueue_chunk
  run_frame_greets fuel ticks t u s off signal fails = (
    frame_connect o ws t s,
    run_frame-greets fuel ticks t s off signal,
    append_assoc s.daemon.send_buffer.queue _ _,
    refl,
    run_frame-idle fuel ticks u (frame_connect o ws t s) fails refl,
  )
