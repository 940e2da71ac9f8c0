-- ===== src/Daemon/Threads.antt =====
-- prototype/daemon/daemon_backend_controller.cc: the bodies of the threads of a session. A round of
-- a loop is one step; between two rounds other threads run.
use friendviewer.Prelude.{
  ℕ, zero, suc, ◌+◌, Bool, true, false, Option, none, some, List, [], ◌∷◌, if◌then◌else◌,
}
use friendviewer.Packet.{FvPacketType}
use friendviewer.ChunkBuffer.{enqueue_chunk, dequeue_chunk}
use friendviewer.Daemon.Messages.{VideoParams, Data, Inner}
use friendviewer.Daemon.{Daemon, Outside, create_window, render_frame, effect}
use friendviewer.Daemon.Control.{enqueue_msg}

-- The local variables of `handle_encode`.
pub record Encoding : Type 0 where
  pub sent_param : Bool
  pub pts : ℕ

abbrev pub first_encoding : Encoding
first_encoding = record { sent_param = false; pts = 0 }

-- What the encoder gives in a round: the packet of the frame, and the parameter sets.
pub record Encoded : Type 0 where
  pub packet_out : List ℕ
  pub pps_sps : List ℕ

module _ (o : Outside) where
  open o use {Float}

  abbrev pub params_of : Daemon Float → Encoded → VideoParams
  params_of d e = record {
    width = d.width;
    height = d.height;
    pps_sps = e.pps_sps;
    framerate_num = 30;
    framerate_denom = 1;
  }

  abbrev pub data_of : ℕ → Encoded → Data
  data_of pts e = record { pts = pts; dts = 0; encoded_frame = e.packet_out }

  unfoldable pub send_params : Bool → Encoded → Daemon Float → Daemon Float
  send_params true e d = d
  send_params false e d =
      enqueue_msg o FvPacketType.video_params (Inner.video_params (params_of d e)) d

  unfoldable pub encode_round : Encoded → Encoding × Daemon Float → Encoding × Daemon Float
  encode_round e (v, d) = (
    record { sent_param = true; pts = v.pts + 1 },
    enqueue_msg o FvPacketType.data_packet (Inner.data_packet (data_of v.pts e))
        (send_params v.sent_param e d),
  )

  -- The loop, for the rounds that the encoder has something for.
  unfoldable pub handle_encode : List Encoded → Encoding × Daemon Float → Encoding × Daemon Float
  handle_encode [] s = s
  handle_encode (e ∷ es) s =
      let rest = handle_encode es (encode_round e s) in if s.1.encoder_running then rest else s

-- `decode` is `decode_packet`: it changes the decoder, and may give a frame.
module _ {Float : Type 0} {D : Type 0} (decode : D → List ℕ → D × Option (List ℕ)) where
  abbrev pub enqueue_decoded : Option (List ℕ) → Daemon Float → Daemon Float
  enqueue_decoded none d = d
  enqueue_decoded (some frame) d = record d { decode_buffer = enqueue_chunk d.decode_buffer frame }

  -- The answer of `dequeue_chunk`, and the decoder.
  unfoldable pub decode_dequeued : Bool → Data → D × Daemon Float → D × Daemon Float
  decode_dequeued false packet (c, d) = (c, d)
  decode_dequeued true packet (c, d) =
      let (c', frame) = decode c packet.encoded_frame in (c', enqueue_decoded frame d)

  unfoldable pub decode_ready : D × Daemon Float → D × Daemon Float
  decode_ready (c, d) =
      let (got, packet, b) =
        dequeue_chunk d.encoded_buffer (record { pts = 0; dts = 0; encoded_frame = [] }) in
      decode_dequeued got packet (c, record d { encoded_buffer = b })

  unfoldable pub decode_round : D × Daemon Float → D × Daemon Float
  decode_round (c, d) = if d.got_pps_sps then decode_ready (c, d) else (c, d)

  -- The loop, for a number of rounds.
  unfoldable pub handle_decode : ℕ → D × Daemon Float → D × Daemon Float
  handle_decode zero s = s
  handle_decode (suc rounds) s =
      let rest = handle_decode rounds (decode_round s) in if s.1.decoder_running then rest else s

module _ {Float : Type 0} where
  unfoldable pub render_dequeued : Bool → List ℕ → Daemon Float → Daemon Float
  render_dequeued false raw_frame d = d
  render_dequeued true raw_frame d = effect (render_frame raw_frame) d

  -- The chunk that the caller keeps is not used when there is none to dequeue.
  unfoldable pub render_round : Daemon Float → Daemon Float
  render_round d =
      let (got, raw_frame, b) = dequeue_chunk d.decode_buffer [] in
      render_dequeued got raw_frame (record d { decode_buffer = b })

  unfoldable pub render_rounds : ℕ → Daemon Float → Daemon Float
  render_rounds zero d = d
  render_rounds (suc rounds) d =
      let rest = render_rounds rounds (render_round d) in if d.renderer_running then rest else d

  unfoldable pub handle_render : ℕ → ℕ → ℕ → Daemon Float → Daemon Float
  handle_render rounds w h d = render_rounds rounds (effect (create_window w h) d)
