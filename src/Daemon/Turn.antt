-- ===== src/Daemon/Turn.antt =====
-- prototype/daemon/daemon_backend_controller.cc, `run_frame`: one frame of a connected daemon, by what
-- its socket receives.
use friendviewer.Prelude.{
  ℕ, ◌/◌, ◌-◌, ◌≤◌, ◌≡◌, refl, ◌∙◌, ap, true, false, Option, some, List, [], ◌++◌, foldl, map, All,
  ◌≢◌, if◌then◌else◌,
}
use friendviewer.Packet.{FvPacketType, FvPacket}
use friendviewer.MessageManager.{MessageManager}
use friendviewer.MessageManager.Feed.{IsValid, feed}
use friendviewer.MessageManager.RoundTrip.{IsShort}
use friendviewer.ClientSocket.{Winsock, ReceiveStatus, success, receive_data}
use friendviewer.NetworkManager.{Polled, poll_network}
use friendviewer.NetworkManager.Poll.{poll_network-connected, poll_received-nothing, polled}
use friendviewer.NetworkManager.Stream.{poll_network-piece}
use friendviewer.Daemon.{Daemon, Outside}
use friendviewer.Daemon.Control.{Handler, Moment}
use friendviewer.Daemon.Session.{handlers_of}
use friendviewer.Daemon.Frame.{
  System, run_handler, frame_connected, frame_connect, run_frame, polled_daemon,
}
use friendviewer.Daemon.Receiving.{
  data_of_packets, tasks_of_packets, with_data, handle_messages-outcome, flush_all-nothing,
  check_heartbeat-timely,
}

module _ (o : Outside) (ws : Winsock) where
  open o use {Float, packets, inner}

  -- A connected daemon with its handlers, between two packets or within one, with nothing to send.
  pub record IsListening (s : System Float ws.World) : Type 0 where
    pub on : s.net_mgr.connected ≡ true
    pub subscribed : (type : FvPacketType) → s.net_mgr.handlers type ≡ handlers_of type
    pub taken : s.net_mgr.decode_mgr.message_buffers ≡ []
    pub silent : s.daemon.send_buffer.queue ≡ []

  -- A frame at this moment finds the last heartbeat less than seven seconds old.
  abbrev pub IsTimely : ℕ → Daemon Float → Moment → Type 0
  IsTimely ticks d t = (t.now - d.last_heartbeat_time) / ticks ≤ 6

  -- The daemon after some packets.
  abbrev pub arrived :
      System Float ws.World → MessageManager → List FvPacket → ws.World → System Float ws.World
  arrived s m ps w = record {
    daemon = with_data o s.daemon (data_of_packets o ps);
    net_mgr = record (s.net_mgr) {
      decode_mgr = record m { message_buffers = [] };
      nonblocking_tasks = s.net_mgr.nonblocking_tasks ++ tasks_of_packets o ps;
    };
    world = w;
  }

  abbrev pub arrived_stream : System Float ws.World → List ℕ → ws.World → System Float ws.World
  arrived_stream s stream w =
      let m = foldl feed s.net_mgr.decode_mgr stream in
      arrived s m (map packets.parse m.message_buffers) w

  -- A frame on a connection, by what its poll leaves.
  pub run_frame-polled :
      (fuel ticks : ℕ) (t : Moment) (s : System Float ws.World)
      (p : Polled Handler (Option (Daemon Float)) ws.World)
      → s.net_mgr.connected ≡ true
      → IsTimely ticks s.daemon t
      → poll_network ws (run_handler o ws t) packets fuel false s.net_mgr (some s.daemon) s.world
        ≡ some p
      → run_frame o ws fuel ticks t s ≡ polled_daemon o ws fuel p p.shared
  unfolding run_frame frame_connected
  run_frame-polled fuel ticks t s p on timely polls =
      ap
        (λ b.
          if b
          then frame_connected o ws fuel ticks t s
          else if s.daemon.connect_signal
          then some (frame_connect o ws t s)
          else some s)
        on
      ∙ rw (check_heartbeat-timely o ws ticks t.now s.daemon timely, frame_connected)
          (rw (polls, frame_connected) refl)

  pub run_frame-piece :
      (fuel ticks : ℕ) (t : Moment) (s : System Float ws.World) (w1 : ws.World) (blob : List ℕ)
      → IsListening s
      → IsTimely ticks s.daemon t
      → IsValid s.net_mgr.decode_mgr
      → All IsShort (foldl feed s.net_mgr.decode_mgr blob).message_buffers
      → receive_data ws fuel s.net_mgr.socket s.world ≡ some (success, blob, w1)
      → run_frame o ws fuel ticks t s ≡ some (arrived_stream s blob w1)
  run_frame-piece fuel ticks t s w1 blob l timely v short got =
      let m = foldl feed s.net_mgr.decode_mgr blob in
      let call = run_handler o ws t in
      run_frame-polled fuel ticks t s _ l.on timely (
        poll_network-piece ws call packets fuel s.net_mgr (some s.daemon) s.world w1 blob l.on v
          short got)
      ∙ ap (λ d. polled_daemon o ws fuel (polled ws call packets s.net_mgr m d w1) d.shared)
          (handle_messages-outcome o ws m.message_buffers s.net_mgr.handlers t s.daemon
            s.net_mgr.nonblocking_tasks l.subscribed)
      ∙ flush_all-nothing o ws fuel _ _ w1 l.silent

  pub run_frame-nothing :
      (fuel ticks : ℕ) (t : Moment) (s : System Float ws.World) (w1 : ws.World)
      (status : ReceiveStatus) (out : List ℕ)
      → IsListening s
      → IsTimely ticks s.daemon t
      → receive_data ws fuel s.net_mgr.socket s.world ≡ some (status, out, w1)
      → status ≢ success
      → run_frame o ws fuel ticks t s ≡ some (record s { world = w1 })
  run_frame-nothing fuel ticks t s w1 status out l timely got bad =
      let call = run_handler o ws t in
      run_frame-polled fuel ticks t s _ l.on timely (
        poll_network-connected ws call packets fuel false s.net_mgr (some s.daemon) s.world w1
          status out l.on got
        ∙ poll_received-nothing ws call packets false s.net_mgr (some s.daemon) status out w1 bad)
      ∙ flush_all-nothing o ws fuel s.net_mgr s.daemon w1 l.silent
