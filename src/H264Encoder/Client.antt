-- ===== src/H264Encoder/Client.antt =====
-- The encoder of a host in its daemon, and the client at the other end: from what libav gives to the
-- buffer of encoded frames, through prototype/daemon/decoder/h264_encoder.cc, the two daemons and the
-- connection.
use mathlib.Core.List.{flatten}
use friendviewer.Prelude.{
  ℕ, ◌+◌, ◌^◌, ◌≤◌, ◌<◌, ◌≡◌, ◌≢◌, refl, ◌∙◌, ap, true, some, List, [], ◌∷◌, ◌++◌, map, All, length,
}
use friendviewer.Packet.{CodecLaws}
use friendviewer.MessageManager.Wire.{frames}
use friendviewer.MessageManager.RoundTrip.{IsShort, IsIdle}
use friendviewer.ClientSocket.{Winsock}
use friendviewer.ClientSocket.Send.{SendLaws}
use friendviewer.ClientSocket.SendEnds.{Progress, Unbroken}
use friendviewer.NetworkManager.Stream.{Receives}
use friendviewer.Daemon.Messages.{VideoParams, Data, VideoLaws}
use friendviewer.Daemon.{Outside}
use friendviewer.Daemon.Control.{on_video_params, Moment}
use friendviewer.Daemon.Frame.{System}
use friendviewer.Daemon.Frames.{run_frames}
use friendviewer.Daemon.Threads.{Encoding, first_encoding, Encoded}
use friendviewer.Daemon.Hosting.{HostStep, sends, encoded_in, host_steps}
use friendviewer.Daemon.Turn.{IsListening, IsTimely}
use friendviewer.Daemon.Video.{numbered, video_packets, host_to_client}
use friendviewer.Libav.{Libav}
use friendviewer.H264Encoder.{H264Encoder}
use friendviewer.H264Encoder.Host.{encode_rounds, encode_rounds_whole}

module _ (o : Outside) where
  numbered-frames :
      (es : List Encoded) (pts : ℕ)
      → map (λ (d : Data). d.encoded_frame) (numbered o pts es)
        ≡ map (λ (e : Encoded). e.packet_out) es
  numbered-frames [] pts = refl
  numbered-frames (e ∷ es) pts = ap (◌∷◌ e.packet_out) (numbered-frames es (pts + 1))

module _ (av : Libav) (o : Outside) (c : CodecLaws o.packets) (laws : VideoLaws o.inner)
    {ws : Winsock} where
  open o use {Float, packets, inner}

  -- With packets that are read back as they were written, and `send` taking a front of what it is
  -- given, or nothing, and saying so. The encoder of a host has counted no packet and holds no
  -- parameter sets; in its rounds, which end, at least one and at most 2 ^ 31, libav gives some
  -- packets, and the first round gives parameter sets. The host, with its encoder running,
  -- nothing else to send and a screen below 2 ^ 31 in both directions, enqueues what the rounds
  -- give, in packets below 2 ^ 31 bytes, while its loop sends what waits, in any order of the two
  -- that ends with a sending, on a connection that stays up to a peer that reads, with fuel for
  -- the longest packet. A client that is connected and has the handlers of `init`, nothing to
  -- send, an idle parser and no message waiting takes turns of its loop, each less than seven
  -- seconds after its last heartbeat, and its receives return the frames of the host's packets,
  -- cut anywhere. Then the host's rounds and the client's turns end, the host has put just these
  -- bytes on its connection, the client starts one task, for VIDEO_PARAMS, and the parameter sets
  -- that it reads there, with the frames that are now behind what waited to be decoded, are
  -- together the bytes that libav gave at the host, none lost, none changed and none twice.
  pub encoder_to_client :
      (picture : List ℕ) (pictures : List (List ℕ)) (enc enc' : H264Encoder) (x x' : av.World)
      (given : List (List ℕ)) (l : SendLaws ws) (p : Progress ws) (u : Unbroken ws)
      (steps : List HostStep) (e : Encoded) (es : List Encoded) (h : System Float ws.World)
      (fuel : ℕ) (ts : List Moment) (ticks : ℕ) (s : System Float ws.World) (pieces : List (List ℕ))
      (w' : ws.World)
      → enc.pts ≡ 0
      → enc.pps_sps ≡ []
      → encode_rounds av (picture ∷ pictures) enc x ≡ some (e ∷ es, given, enc', x')
      → e.pps_sps ≢ []
      → encoded_in steps ≡ e ∷ es
      → h.daemon.encoder_running ≡ true
      → h.daemon.send_buffer.queue ≡ []
      → h.daemon.width < 2 ^ 31
      → h.daemon.height < 2 ^ 31
      → length (e ∷ es) ≤ 2 ^ 31
      → All IsShort (map packets.serialize (video_packets o h.daemon e es))
      → p.busy h.world + 4 < fuel
      → All
          (λ chunk. p.busy h.world + length chunk < fuel)
          (map packets.serialize (video_packets o h.daemon e es))
      → IsListening o ws s
      → IsIdle s.net_mgr.decode_mgr
      → All (IsTimely o ws ticks s.daemon) ts
      → flatten pieces ≡ frames (map packets.serialize (video_packets o h.daemon e es))
      → Receives ws fuel s.net_mgr.socket (length ts) pieces s.world w'
      → (v : Encoding) × (host : System Float ws.World) × (client : System Float ws.World)
        × (bytes : List ℕ) × (ds : List Data) × (host_steps o ws fuel
              (steps ++ (sends ∷ []))
              (first_encoding, h)
            ≡ some (v, host))
        × (l.sent host.world h.net_mgr.socket.socket
            ≡ l.sent h.world h.net_mgr.socket.socket ++ flatten pieces)
        × (run_frames o ws fuel ticks ts s ≡ some client)
        × (client.daemon.encoded_buffer.queue ≡ s.daemon.encoded_buffer.queue ++ ds)
        × (client.net_mgr.nonblocking_tasks
            ≡ s.net_mgr.nonblocking_tasks
              ++ (record { callback = on_video_params; inner = bytes } ∷ []))
        × ((inner.parse_video_params bytes).pps_sps
              ++ flatten (map (λ (d : Data). d.encoded_frame) ds)
            ≡ flatten given)
  encoder_to_client picture pictures enc enc' x x' given l p u steps e es h fuel ts ticks s pieces
        w' none_counted no_sets gives sets taken on none_waits wide high few short f fs listens idle
        timely cut received =
      let (v, host, client, bytes, ends, sent, runs, queue, tasks, params) =
        host_to_client o c laws l p u steps e es h fuel ts ticks s pieces w' taken on none_waits
          wide high few short f fs listens idle timely cut received in
      (
        v,
        host,
        client,
        bytes,
        numbered o 0 (e ∷ es),
        ends,
        sent,
        runs,
        queue,
        tasks,
        ap
              (λ (q : VideoParams).
                q.pps_sps ++ flatten (map (λ (d : Data). d.encoded_frame) (numbered o 0 (e ∷ es))))
              params
            ∙ ap (λ fs. e.pps_sps ++ flatten fs) (numbered-frames o (e ∷ es) 0)
            ∙ encode_rounds_whole av picture pictures enc enc' x x' e es given none_counted no_sets
                gives sets,
      )
