-- ===== src/Daemon/Video.antt =====
-- The video between two daemons: from the thread of the host that encodes, over the connection, to
-- the buffer of a client from which frames are decoded.
use mathlib.Core.List.{flatten}
use mathlib.Core.Path.{subst}
use friendviewer.Prelude.{
  ℕ, ◌+◌, ◌^◌, ◌≤◌, ◌<◌, ◌≡◌, refl, sym, ◌∙◌, ap, true, false, some, List, [], ◌∷◌, ◌++◌, map, All,
  length, arith,
}
use friendviewer.Packet.{FvPacketType, FvPacket, CodecLaws}
use friendviewer.MessageManager.Wire.{frames}
use friendviewer.MessageManager.RoundTrip.{IsShort, IsIdle}
use friendviewer.ClientSocket.{Winsock}
use friendviewer.ClientSocket.Send.{SendLaws}
use friendviewer.ClientSocket.SendEnds.{Progress, Unbroken}
use friendviewer.NetworkManager.{Task}
use friendviewer.NetworkManager.Stream.{Receives}
use friendviewer.Daemon.Messages.{VideoParams, Data, Inner, VideoLaws}
use friendviewer.Daemon.{Daemon, Outside}
use friendviewer.Daemon.Control.{Handler, on_video_params, Moment}
use friendviewer.Daemon.Frame.{System}
use friendviewer.Daemon.Flush.{Fits, Fits-All}
use friendviewer.Daemon.Frames.{run_frames}
use friendviewer.Daemon.Threads.{Encoding, first_encoding, Encoded, params_of, data_of}
use friendviewer.Daemon.Stream.{sent_packet}
use friendviewer.Daemon.Hosting.{
  HostStep, sends, encoded_in, host_steps, packets_from, host_steps-AllSent,
}
use friendviewer.Daemon.Receiving.{data_of_packets, tasks_of_packets}
use friendviewer.Daemon.Turn.{IsListening, IsTimely}
use friendviewer.Daemon.Arrival.{run_frames-packets}

module _ (o : Outside) where
  open o use {Float, packets, inner}

  -- The contents of the DATA packets of some frames, numbered from `pts` on.
  abbrev pub numbered : ℕ → List Encoded → List Data
  numbered pts [] = []
  numbered pts (e ∷ es) = data_of o pts e ∷ numbered (pts + 1) es

  abbrev data_packet_of : Data → FvPacket
  data_packet_of d = record {
    type = FvPacketType.data_packet;
    inner_packet = inner.serialize (Inner.data_packet d);
  }

  -- What a host has to send of its video.
  abbrev pub video_packets : Daemon Float → Encoded → List Encoded → List FvPacket
  video_packets d e es =
      record {
        type = FvPacketType.video_params;
        inner_packet = inner.serialize (Inner.video_params (params_of o d e));
      }
      ∷ map data_packet_of (numbered 0 (e ∷ es))

  packets_from-numbered :
      (es : List Encoded) (pts : ℕ) (params : Encoded → VideoParams)
      → packets_from o true pts params es
        ≡ map packets.serialize (map data_packet_of (numbered pts es))
  unfolding packets_from
  packets_from-numbered [] pts params = refl
  packets_from-numbered (e ∷ es) pts params =
      ap (◌∷◌ (sent_packet o FvPacketType.data_packet (Inner.data_packet (data_of o pts e))))
        (packets_from-numbered es (pts + 1) params)

  packets_from-video :
      (d : Daemon Float) (e : Encoded) (es : List Encoded)
      → packets_from o false 0 (params_of o d) (e ∷ es)
        ≡ map packets.serialize (video_packets d e es)
  unfolding packets_from
  packets_from-video d e es =
      ap
        (λ q.
          sent_packet o FvPacketType.video_params (Inner.video_params (params_of o d e))
          ∷ sent_packet o FvPacketType.data_packet (Inner.data_packet (data_of o 0 e))
          ∷ q)
        (packets_from-numbered es (0 + 1) (params_of o d))

  data_of_packets-numbered :
      (es : List Encoded) (pts : ℕ)
      → VideoLaws inner
      → pts + length es ≤ 2 ^ 31
      → data_of_packets o (map data_packet_of (numbered pts es)) ≡ numbered pts es
  unfolding data_of_packets
  data_of_packets-numbered [] pts v h = refl
  data_of_packets-numbered (e ∷ es) pts v h =
      ap (λ d. d ∷ data_of_packets o (map data_packet_of (numbered (pts + 1) es)))
        (v.parse_data-serialize (data_of o pts e) (omega arith) (omega arith))
      ∙ ap (◌∷◌ (data_of o pts e)) (data_of_packets-numbered es (pts + 1) v (omega arith))

  tasks_of_packets-numbered : (ds : List Data) → tasks_of_packets o (map data_packet_of ds) ≡ []
  unfolding tasks_of_packets
  tasks_of_packets-numbered [] = refl
  tasks_of_packets-numbered (d ∷ ds) = tasks_of_packets-numbered ds

module _ (o : Outside) (c : CodecLaws o.packets) (laws : VideoLaws o.inner) {ws : Winsock} where
  open o use {Float, packets, inner}

  -- With packets that are read back as they were written, and `send` taking a front of what it is
  -- given, or nothing, and saying so. A host whose encoder runs, with nothing else to send and a
  -- screen below 2 ^ 31 in both directions, encodes some frames, at least one and at most 2 ^ 31
  -- of them, in packets below 2 ^ 31 bytes, while its loop sends what waits, in any order of the
  -- rounds of the two that ends with a sending, on a connection that stays up to a peer that
  -- reads, with fuel for the longest packet. A client that is connected and has the handlers of
  -- `init`, nothing to send, an idle parser and no message waiting takes turns of its loop, each
  -- less than seven seconds after its last heartbeat, and its receives return the frames of the
  -- video's packets, cut anywhere. Then the host's rounds end and have put just these bytes on
  -- its connection; the client's turns end, and behind what waits to be decoded there is the
  -- output of the host's encoder, frame by frame, in order and numbered from 0 on, each once; and
  -- one task is started, for VIDEO_PARAMS, whose bytes are read as the host's parameters.
  pub host_to_client :
      (l : SendLaws ws) (p : Progress ws) (u : Unbroken ws) (steps : List HostStep) (e : Encoded)
      (es : List Encoded) (h : System Float ws.World) (fuel : ℕ) (ts : List Moment) (ticks : ℕ)
      (s : System Float ws.World) (pieces : List (List ℕ)) (w' : ws.World)
      → encoded_in steps ≡ e ∷ es
      → h.daemon.encoder_running ≡ true
      → h.daemon.send_buffer.queue ≡ []
      → h.daemon.width < 2 ^ 31
      → h.daemon.height < 2 ^ 31
      → length (e ∷ es) ≤ 2 ^ 31
      → All IsShort (map packets.serialize (video_packets o h.daemon e es))
      → p.busy h.world + 4 < fuel
      → All
          (λ chunk. p.busy h.world + length chunk < fuel)
          (map packets.serialize (video_packets o h.daemon e es))
      → IsListening o ws s
      → IsIdle s.net_mgr.decode_mgr
      → All (IsTimely o ws ticks s.daemon) ts
      → flatten pieces ≡ frames (map packets.serialize (video_packets o h.daemon e es))
      → Receives ws fuel s.net_mgr.socket (length ts) pieces s.world w'
      → (v : Encoding) × (host : System Float ws.World) × (client : System Float ws.World)
        × (bytes : List ℕ) × (host_steps o ws fuel (steps ++ (sends ∷ [])) (first_encoding, h)
            ≡ some (v, host))
        × (l.sent host.world h.net_mgr.socket.socket
            ≡ l.sent h.world h.net_mgr.socket.socket ++ flatten pieces)
        × (run_frames o ws fuel ticks ts s ≡ some client)
        × (client.daemon.encoded_buffer.queue
            ≡ s.daemon.encoded_buffer.queue ++ numbered o 0 (e ∷ es))
        × (client.net_mgr.nonblocking_tasks
            ≡ s.net_mgr.nonblocking_tasks
              ++ (record { callback = on_video_params; inner = bytes } ∷ []))
        × (inner.parse_video_params bytes ≡ params_of o h.daemon e)
  unfolding data_of_packets tasks_of_packets
  host_to_client l p u steps e es h fuel ts ticks s pieces w' given on none_waits wide high few
        short f fs listens idle timely cut received =
      let same =
        ap (λ q. q ++ packets_from o false 0 (params_of o h.daemon) (encoded_in steps)) none_waits
        ∙ ap (packets_from o false 0 (params_of o h.daemon)) given
        ∙ packets_from-video o h.daemon e es in
      let (v, d, w, ends, empty, grown) = host_steps-AllSent o l p u steps fuel false 0 h on f (
        subst (All (Fits o l p u fuel h.world)) (sym same) (
          Fits-All o l p u fuel h.world (map packets.serialize (video_packets o h.daemon e es)) fs
            short)) in
      let (m, idle', runs) =
        run_frames-packets o ws c ts fuel ticks s pieces (video_packets o h.daemon e es) w' listens
          idle timely short cut received in
      let sent = l.sent h.world h.net_mgr.socket.socket in
      let bytes = inner.serialize (Inner.video_params (params_of o h.daemon e)) in
      let task : Task Handler = record { callback = on_video_params; inner = bytes } in
      (
        v,
        record { daemon = d; net_mgr = h.net_mgr; world = w },
        _,
        bytes,
        ends,
        grown ∙ ap (λ q. sent ++ frames q) same ∙ ap (◌++◌ sent) (sym cut),
        runs,
        ap (◌++◌ s.daemon.encoded_buffer.queue)
            (data_of_packets-numbered o (e ∷ es) 0 laws (omega (arith, few))),
        ap (λ others. s.net_mgr.nonblocking_tasks ++ (task ∷ others))
            (tasks_of_packets-numbered o (numbered o 0 (e ∷ es))),
        laws.parse_video_params-serialize (params_of o h.daemon e) wide high (omega arith)
            (omega arith),
      )
