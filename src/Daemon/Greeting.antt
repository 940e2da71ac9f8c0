-- ===== src/Daemon/Greeting.antt =====
-- prototype/daemon/daemon_backend_controller.cc, `run_frame`: the turn that connects and the next one.
use friendviewer.Prelude.{
  ℕ, ◌-◌, ◌/◌, ◌+◌, ◌≤◌, ◌<◌, ◌≡◌, ◌≢◌, refl, sym, ◌∙◌, ap, true, false, some, List, [], ◌∷◌, ◌++◌,
  All, append_assoc, length,
}
use mathlib.Core.Path.{subst}
use friendviewer.MessageManager.Wire.{frames}
use friendviewer.MessageManager.RoundTrip.{IsShort}
use friendviewer.ChunkBuffer
use friendviewer.ChunkBuffer.{enqueue_chunk}
use friendviewer.ClientSocket.{Winsock, ReceiveStatus, success, connect, receive_data}
use friendviewer.ClientSocket.Send.{SendLaws}
use friendviewer.ClientSocket.SendEnds.{Progress, Unbroken}
use friendviewer.NetworkManager.{connect_manager}
use friendviewer.NetworkManager.Poll.{poll_network-connected, poll_received-nothing}
use friendviewer.Daemon.{Outside}
use friendviewer.Daemon.Control.{Moment, enqueue_msg, send_initial_hs}
use friendviewer.Daemon.Frame.{fv_dist_port, System, run_handler, frame_connect}
use friendviewer.Daemon.Frames.{run_frames, greeting, run_frame-greets}
use friendviewer.Daemon.Flush.{flush_all-frames}
use friendviewer.Daemon.Turn.{run_frame-polled}

module _ (o : Outside) {ws : Winsock} (l : SendLaws ws) (p : Progress ws) (u : Unbroken ws) where
  open o use {Float, packets}

  frame_connect-queue :
      (t : Moment) (s : System Float ws.World)
      → (frame_connect o ws t s).daemon.send_buffer.queue
        ≡ s.daemon.send_buffer.queue ++ greeting o ws t.now
  unfolding frame_connect connect_manager send_initial_hs enqueue_msg enqueue_chunk
  frame_connect-queue t s = append_assoc s.daemon.send_buffer.queue _ _

  -- Where `send` takes a front of what it is given, or nothing, and says so: a turn of the loop
  -- with the signal set on a daemon that is not connected, when the socket connects, and one
  -- more, less than seven seconds later, in which the receive has no success, on a connection
  -- that stays up to a peer that reads, with fuel for the longest packet and
  -- every packet that waits or is enqueued below 2 ^ 31 bytes. They end, the daemon is
  -- connected, the signal is cleared, and what it has put on the new connection in the second
  -- turn is what waited to be sent before, then HANDSHAKE and HEARTBEAT, each in its frame;
  -- nothing waits any more.
  pub run_frames_greet :
      (fuel ticks : ℕ) (t v : Moment) (s : System Float ws.World) (w1 : ws.World)
      (status : ReceiveStatus) (out : List ℕ)
      → s.net_mgr.connected ≡ false
      → s.daemon.connect_signal ≡ true
      → (connect ws s.net_mgr.socket s.daemon.connect_address fv_dist_port s.world).0 ≡ true
      → receive_data ws fuel
          (connect ws s.net_mgr.socket s.daemon.connect_address fv_dist_port s.world).1
          (connect ws s.net_mgr.socket s.daemon.connect_address fv_dist_port s.world).2
        ≡ some (status, out, w1)
      → status ≢ success
      → (v.now - t.now) / ticks ≤ 6
      → p.busy w1 + 4 < fuel
      → All
          (λ chunk. p.busy w1 + length chunk < fuel)
          (s.daemon.send_buffer.queue ++ greeting o ws t.now)
      → All IsShort (s.daemon.send_buffer.queue ++ greeting o ws t.now)
      → (s' : System Float ws.World) × (run_frames o ws fuel ticks (t ∷ v ∷ []) s ≡ some s')
        × (s'.net_mgr.connected ≡ true)
        × (s'.daemon.connect_signal ≡ false)
        × (s'.daemon.send_buffer.queue ≡ [])
        × (l.sent s'.world s'.net_mgr.socket.socket
            ≡ l.sent w1 s'.net_mgr.socket.socket
              ++ frames (s.daemon.send_buffer.queue ++ greeting o ws t.now))
  unfolding run_frames frame_connect connect_manager send_initial_hs enqueue_msg enqueue_chunk
  run_frames_greet fuel ticks t v s w1 status out off signal ok got bad timely f fits short =
      let s1 = frame_connect o ws t s in
      let same = frame_connect-queue t s in
      let call = run_handler o ws v in
      let (w2, e, grown) =
        flush_all-frames o l p u fuel s1.net_mgr s1.daemon w1 f
          (subst (All (λ chunk. p.busy w1 + length chunk < fuel)) (sym same) fits)
          (subst (All IsShort) (sym same) short) in
      let sent_all : System Float ws.World = record {
        daemon = record (s1.daemon) { send_buffer = ChunkBuffer.empty };
        net_mgr = s1.net_mgr;
        world = w2;
      } in
      (
        sent_all,
        rw (run_frame-greets o ws fuel ticks t s off signal, run_frames)
            (rw
              (
                run_frame-polled o ws fuel ticks v s1 _ ok timely (
                      poll_network-connected ws call packets fuel false s1.net_mgr (some s1.daemon)
                        s1.world w1 status out ok got
                      ∙ poll_received-nothing ws call packets false s1.net_mgr (some s1.daemon)
                          status out w1 bad)
                    ∙ e,
                run_frames,
              )
              refl),
        ok,
        refl,
        refl,
        grown ∙ ap (λ q. l.sent w1 s1.net_mgr.socket.socket ++ frames q) same,
      )
