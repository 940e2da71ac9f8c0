-- ===== src/Daemon/Frame.antt =====
-- prototype/daemon/daemon_backend_controller.cc, `run_frame`: one turn of the loop of daemon_main.cc.
use friendviewer.Prelude.{
  ℕ, zero, suc, true, false, Option, none, some, List, [], if◌then◌else◌, length,
}
use friendviewer.ChunkBuffer.{ChunkBuffer, dequeue_chunk}
use friendviewer.ClientSocket.{Winsock}
use friendviewer.NetworkManager.{
  NetworkManager, Polled, connect_manager, send_message, poll_network,
}
use friendviewer.Daemon.{Daemon, Outside, check_heartbeat}
use friendviewer.Daemon.Control.{Handler, Moment, handle, send_initial_hs}

abbrev pub fv_dist_port : ℕ
fv_dist_port = 61235

pub record System (Float : Type 0) (W : Type 0) : Type 0 where
  pub daemon : Daemon Float
  pub net_mgr : NetworkManager Handler
  pub world : W

module _ (o : Outside) (ws : Winsock) where
  open o use {Float}

  -- A handler on a daemon that may have crashed.
  unfoldable pub run_handler :
      Moment → Handler → Option (Daemon Float) → List ℕ → Option (Daemon Float)
  run_handler t h none bytes = none
  run_handler t h (some d) bytes = handle o t h bytes d

  -- `while (send_buffer_.dequeue_chunk(send_chunk)) net_mgr_.send_message(send_chunk);`
  unfoldable pub flush :
      ℕ
      → ℕ
      → NetworkManager Handler
      → ChunkBuffer (List ℕ)
      → List ℕ
      → ws.World
      → Option (ChunkBuffer (List ℕ) × ws.World)
  flush zero fuel nm b send_chunk w = none
  flush (suc rounds) fuel nm b send_chunk w =
      let (got, chunk, b') = dequeue_chunk b send_chunk in
      elim got [
        | false ↦ some (b', w)
        | true ↦ elim (send_message ws fuel nm chunk w) [
          | none ↦ none
          | some w' ↦ flush rounds fuel nm b' chunk w'
        ]
      ]

  -- Lines 206 to 209, with a round for each chunk and one for the end.
  unfoldable pub flush_all :
      ℕ → NetworkManager Handler → Daemon Float → ws.World → Option (System Float ws.World)
  flush_all fuel nm d w =
      elim (flush (suc (length d.send_buffer.queue)) fuel nm d.send_buffer [] w) [
        | none ↦ none
        | some (b, w') ↦
            some (record { daemon = record d { send_buffer = b }; net_mgr = nm; world = w' })
      ]

  abbrev pub polled_daemon :
      ℕ
      → Polled Handler (Option (Daemon Float)) ws.World
      → Option (Daemon Float)
      → Option (System Float ws.World)
  polled_daemon fuel p none = none
  polled_daemon fuel p (some d) = flush_all fuel p.manager d p.world

  -- The first branch of `run_frame`. `none`: a loop has not ended within the fuel, or a handler
  -- has crashed.
  unfoldable pub frame_connected :
      ℕ → ℕ → Moment → System Float ws.World → Option (System Float ws.World)
  frame_connected fuel ticks t s =
      elim (poll_network ws (run_handler t) o.packets fuel false s.net_mgr
        (some (check_heartbeat ticks t.now s.daemon)) s.world) [
          | none ↦ none
          | some p ↦ polled_daemon fuel p p.shared
        ]

  -- The second branch.
  unfoldable pub frame_connect : Moment → System Float ws.World → System Float ws.World
  frame_connect t s =
      let (connected, nm, w) =
        connect_manager ws s.net_mgr s.daemon.connect_address fv_dist_port s.world in
      let d = send_initial_hs o t.now (record (s.daemon) { connect_signal = false }) in
      record { daemon = record d { last_heartbeat_time = t.now }; net_mgr = nm; world = w }

  unfoldable pub run_frame : ℕ → ℕ → Moment → System Float ws.World → Option (System Float ws.World)
  run_frame fuel ticks t s =
      if s.net_mgr.connected
      then frame_connected fuel ticks t s
      else if s.daemon.connect_signal
      then some (frame_connect t s)
      else some s
