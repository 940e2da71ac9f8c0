-- ===== src/Daemon/Arrival.antt =====
-- prototype/daemon/daemon_backend_controller.cc, `run_frame`: the packets of a connection, frame by
-- frame of the daemon.
use mathlib.Core.List.{flatten, map-append}
use mathlib.Core.Path.{subst}
use friendviewer.Prelude.{
  ℕ, ◌≡◌, refl, sym, ◌∙◌, ap, some, List, [], ◌∷◌, ◌++◌, foldl, map, All, append-nil, append_assoc,
  length,
}
use friendviewer.Packet.{FvPacket, CodecLaws}
use friendviewer.MessageManager.{MessageManager}
use friendviewer.MessageManager.Feed.{IsValid, feed, feeds-IsValid}
use friendviewer.MessageManager.Wire.{frames}
use friendviewer.MessageManager.RoundTrip.{IsShort, IsIdle, IsIdle-IsValid, feeds-frames}
use friendviewer.ClientSocket.{Winsock, success, receive_data}
use friendviewer.NetworkManager.Stream.{Receives, done, piece, nothing, All-split, feeds-cut}
use friendviewer.Daemon.{Outside}
use friendviewer.Daemon.Control.{Moment}
use friendviewer.Daemon.Frame.{System}
use friendviewer.Daemon.Frames.{run_frames}
use friendviewer.Daemon.Receiving.{
  data_of_packets, tasks_of_packets, data_of_packets-append, tasks_of_packets-append,
}
use friendviewer.Daemon.Turn.{
  IsListening, IsTimely, arrived, arrived_stream, run_frame-piece, run_frame-nothing,
}

module _ (o : Outside) (ws : Winsock) where
  open o use {Float, packets, inner}

  arrived-append :
      (s : System Float ws.World) (m m1 : MessageManager) (ps qs : List FvPacket) (w1 w : ws.World)
      → arrived o ws (arrived o ws s m1 ps w1) m qs w ≡ arrived o ws s m (ps ++ qs) w
  arrived-append s m m1 ps qs w1 w =
      rw
        (
          data_of_packets-append o ps qs,
          tasks_of_packets-append o ps qs,
          append_assoc s.daemon.encoded_buffer.queue (data_of_packets o ps) (data_of_packets o qs),
          append_assoc s.net_mgr.nonblocking_tasks (tasks_of_packets o ps) (tasks_of_packets o qs),
        )
        refl

  arrived_stream-append :
      (s : System Float ws.World) (front rest : List ℕ) (w1 w : ws.World)
      → arrived_stream o ws (arrived_stream o ws s front w1) rest w
        ≡ arrived_stream o ws s (front ++ rest) w
  arrived_stream-append s front rest w1 w =
      let m1 = foldl feed s.net_mgr.decode_mgr front in
      let m2 = foldl feed (record m1 { message_buffers = [] }) rest in
      arrived-append s m2 m1 (map packets.parse m1.message_buffers)
        (map packets.parse m2.message_buffers) w1 w
      ∙ ap (λ ps. arrived o ws s m2 ps w)
          (sym (map-append packets.parse m1.message_buffers m2.message_buffers))
      ∙ ap (λ (m : MessageManager). arrived o ws s m (map packets.parse m.message_buffers) w)
          (sym (feeds-cut s.net_mgr.decode_mgr front rest))

  arrived_stream-nothing :
      (s : System Float ws.World) (w : ws.World)
      → s.net_mgr.decode_mgr.message_buffers ≡ []
      → s.world ≡ w
      → s ≡ arrived_stream o ws s [] w
  unfolding data_of_packets tasks_of_packets
  arrived_stream-nothing s w taken here =
      let m = s.net_mgr.decode_mgr in
      let emptied : List (List ℕ) → System Float ws.World = λ q. record s {
        net_mgr = record (s.net_mgr) { decode_mgr = record m { message_buffers = q } };
        world = w;
      } in
      ap (λ x. record s { world = x }) here
      ∙ ap emptied taken
      ∙ sym (
          rw (append-nil s.daemon.encoded_buffer.queue, append-nil s.net_mgr.nonblocking_tasks)
            refl)
      ∙ ap (λ q. arrived o ws s m (map packets.parse q) w) (sym taken)

  pub run_frames-arrived :
      (ts : List Moment) (fuel ticks : ℕ) (s : System Float ws.World) (pieces : List (List ℕ))
      (w w' : ws.World)
      → IsListening o ws s
      → s.world ≡ w
      → All (IsTimely o ws ticks s.daemon) ts
      → IsValid s.net_mgr.decode_mgr
      → All IsShort (foldl feed s.net_mgr.decode_mgr (flatten pieces)).message_buffers
      → Receives ws fuel s.net_mgr.socket (length ts) pieces w w'
      → run_frames o ws fuel ticks ts s ≡ some (arrived_stream o ws s (flatten pieces) w')
  unfolding run_frames flatten
  run_frames-arrived [] fuel ticks s pieces w w' l here timely v short done =
      ap some (arrived_stream-nothing s w l.taken here)
  run_frames-arrived (t ∷ ts) fuel ticks s pieces w w' l here timely v short
        (piece blobs w1 blob got rest) =
      let m1 = foldl feed s.net_mgr.decode_mgr blob in
      let (short1, short2) = All-split IsShort m1.message_buffers _ (
        subst (λ (m : MessageManager). All IsShort m.message_buffers)
          (feeds-cut s.net_mgr.decode_mgr blob (flatten blobs)) short) in
      let v1 = feeds-IsValid s.net_mgr.decode_mgr blob v in
      let got' =
        subst (λ x. receive_data ws fuel s.net_mgr.socket x ≡ some (success, blob, w1)) (sym here)
          got in
      let s1 = arrived_stream o ws s blob w1 in
      rw (run_frame-piece o ws fuel ticks t s w1 blob l timely.0 v short1 got', run_frames)
        (run_frames-arrived ts fuel ticks s1 blobs w1 w'
            (record { on = l.on; subscribed = l.subscribed; taken = refl; silent = l.silent }) refl
            timely.1 (record { open_part = v1.open_part; in_range = v1.in_range }) short2 rest
          ∙ ap some (arrived_stream-append s blob (flatten blobs) w1 w'))
  run_frames-arrived (t ∷ ts) fuel ticks s pieces w w' l here timely v short
        (nothing w1 status out got bad rest) =
      let got' =
        subst (λ x. receive_data ws fuel s.net_mgr.socket x ≡ some (status, out, w1)) (sym here)
          got in
      rw (run_frame-nothing o ws fuel ticks t s w1 status out l timely.0 got' bad, run_frames)
        (run_frames-arrived ts fuel ticks (record s { world = w1 }) pieces w1 w'
          (record { on = l.on; subscribed = l.subscribed; taken = l.taken; silent = l.silent }) refl
          timely.1 v short rest)

module _ (o : Outside) (ws : Winsock) (c : CodecLaws o.packets) where
  open o use {Float, packets}

  pub parse-serialize_all : (ps : List FvPacket) → map packets.parse (map packets.serialize ps) ≡ ps
  parse-serialize_all [] = refl
  parse-serialize_all (p ∷ ps) =
      ap (λ q. q ∷ map packets.parse (map packets.serialize ps)) (c.parse-serialize p)
      ∙ ap (◌∷◌ p) (parse-serialize_all ps)

  -- With packets that are read back as they were written, each below 2 ^ 31 bytes as it is
  -- written: turns of the loop on a connected daemon with the handlers of `init`, nothing to
  -- send, an idle parser and no message waiting, each less than seven seconds after the last
  -- heartbeat, while the successful receives on its socket return the packets' frames, cut
  -- anywhere, among others that have no success. They end; the data of each DATA packet is behind
  -- what waits to be decoded, a task is started for each packet of another type that has a
  -- handler, both in the order sent, and the rest of the daemon is as it was, with its parser
  -- idle and its queue empty.
  pub run_frames-packets :
      (ts : List Moment) (fuel ticks : ℕ) (s : System Float ws.World) (pieces : List (List ℕ))
      (ps : List FvPacket) (w' : ws.World)
      → IsListening o ws s
      → IsIdle s.net_mgr.decode_mgr
      → All (IsTimely o ws ticks s.daemon) ts
      → All IsShort (map packets.serialize ps)
      → flatten pieces ≡ frames (map packets.serialize ps)
      → Receives ws fuel s.net_mgr.socket (length ts) pieces s.world w'
      → (m : MessageManager) × IsIdle m
        × (run_frames o ws fuel ticks ts s ≡ some (arrived o ws s m ps w'))
  run_frames-packets ts fuel ticks s pieces ps w' l idle timely short cut received =
      let start = s.net_mgr.decode_mgr in
      let messages = map packets.serialize ps in
      let (idle', grown) = feeds-frames messages start idle short in
      let m = foldl feed start (frames messages) in
      let queued : m.message_buffers ≡ messages = grown ∙ ap (λ q. q ++ messages) l.taken in
      let parsed = subst (All IsShort) (sym queued) short in
      (
        m,
        idle',
        run_frames-arrived o ws ts fuel ticks s pieces s.world w' l refl timely
              (IsIdle-IsValid start idle)
              (subst (λ b. All IsShort (foldl feed start b).message_buffers) (sym cut) parsed)
              received
            ∙ ap (λ b. some (arrived_stream o ws s b w')) cut
            ∙ ap (λ q. some (arrived o ws s m (map packets.parse q) w')) queued
            ∙ ap (λ qs. some (arrived o ws s m qs w')) (parse-serialize_all ps),
      )
