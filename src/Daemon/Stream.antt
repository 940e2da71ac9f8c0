-- ===== src/Daemon/Stream.antt =====
-- The video of a session: what the host's thread sends, and what the client's threads show.
use friendviewer.Prelude.{
  ℕ, ◌+◌, ◌≡◌, refl, sym, ◌∙◌, ap, true, Option, none, some, List, [], ◌∷◌, ◌++◌, arith, length,
  append-nil, append_assoc, map, if◌then◌else◌,
}
use friendviewer.Packet.{FvPacketType}
use friendviewer.ChunkBuffer.{ChunkBuffer, enqueue_chunk, dequeue_chunk}
use friendviewer.Daemon.Messages.{Data, Inner}
use friendviewer.Daemon.{Daemon, Outside, render_frame}
use friendviewer.Daemon.Control.{enqueue_msg}
use friendviewer.Daemon.Threads.{
  first_encoding, Encoded, params_of, data_of, send_params, encode_round, handle_encode,
  enqueue_decoded, decode_dequeued, decode_ready, decode_round, handle_decode, render_dequeued,
  render_round, render_rounds,
}

module _ (o : Outside) where
  open o use {Float, packets, inner}

  -- A packet as it is sent.
  abbrev pub sent_packet : FvPacketType → Inner Float → List ℕ
  sent_packet type message =
      packets.serialize (record { type = type; inner_packet = inner.serialize message })

  -- The DATA packets of some frames, numbered from `pts` on.
  unfoldable pub data_packets : ℕ → List Encoded → List (List ℕ)
  data_packets pts [] = []
  data_packets pts (e ∷ es) =
      sent_packet FvPacketType.data_packet (Inner.data_packet (data_of o pts e))
      ∷ data_packets (pts + 1) es

  handle_encode-data :
      (es : List Encoded) (pts : ℕ) (d : Daemon Float)
      → d.encoder_running ≡ true
      → (handle_encode o es (record { sent_param = true; pts = pts }, d)).1.send_buffer.queue
        ≡ d.send_buffer.queue ++ data_packets pts es
  unfolding handle_encode encode_round send_params enqueue_msg enqueue_chunk data_packets
  handle_encode-data [] pts d on = sym (append-nil _)
  handle_encode-data (e ∷ es) pts d on =
      let s = encode_round o e (record { sent_param = true; pts = pts }, d) in
      ap
        (λ b.
          (if b
            then handle_encode o es s
            else (record { sent_param = true; pts = pts }, d)).1.send_buffer.queue)
        on
      ∙ handle_encode-data es (pts + 1) s.1 on
      ∙ append_assoc d.send_buffer.queue _ _

  -- While the encoder runs, the thread of the host enqueues VIDEO_PARAMS once, before all else, with
  -- the screen's size and the parameter sets of the first frame, and then for each frame one DATA
  -- packet, in order, numbered from 0 on.
  pub handle_encode-packets :
      (e : Encoded) (es : List Encoded) (d : Daemon Float)
      → d.encoder_running ≡ true
      → (handle_encode o (e ∷ es) (first_encoding, d)).1.send_buffer.queue
        ≡ d.send_buffer.queue
          ++ (sent_packet FvPacketType.video_params (Inner.video_params (params_of o d e))
              ∷ data_packets 0 (e ∷ es))
  unfolding handle_encode encode_round send_params enqueue_msg enqueue_chunk data_packets
  handle_encode-packets e es d on =
      let s = encode_round o e (first_encoding, d) in
      ap (λ b. (if b then handle_encode o es s else (first_encoding, d)).1.send_buffer.queue) on
      ∙ handle_encode-data es (0 + 1) s.1 on
      ∙ append_assoc
          (d.send_buffer.queue
            ++ (sent_packet FvPacketType.video_params (Inner.video_params (params_of o d e)) ∷ []))
          _ _
      ∙ append_assoc d.send_buffer.queue _ _

abbrev pub cons_if : Option (List ℕ) → List (List ℕ) → List (List ℕ)
cons_if none l = l
cons_if (some f) l = f ∷ l

cons_if-append :
    (frame : Option (List ℕ)) (l : List (List ℕ)) → cons_if frame [] ++ l ≡ cons_if frame l
cons_if-append none l = refl
cons_if-append (some f) l = refl

module _ {D : Type 0} (decode : D → List ℕ → D × Option (List ℕ)) where
  -- The frames that the decoder gives for some packets, one after the other.
  unfoldable pub decoded : D → List Data → List (List ℕ)
  decoded c [] = []
  decoded c (p ∷ ps) = let (c', frame) = decode c p.encoded_frame in cons_if frame (decoded c' ps)

module _ {Float : Type 0} {D : Type 0} (decode : D → List ℕ → D × Option (List ℕ)) where
  enqueue_decoded-keeps :
      (frame : Option (List ℕ)) (d : Daemon Float)
      → ((enqueue_decoded decode frame d).decoder_running ≡ d.decoder_running)
        × ((enqueue_decoded decode frame d).got_pps_sps ≡ d.got_pps_sps)
        × ((enqueue_decoded decode frame d).encoded_buffer ≡ d.encoded_buffer)
        × ((enqueue_decoded decode frame d).decode_buffer.queue
            ≡ d.decode_buffer.queue ++ cons_if frame [])
  unfolding enqueue_chunk
  enqueue_decoded-keeps none d = (refl, refl, refl, sym (append-nil _))
  enqueue_decoded-keeps (some f) d = (refl, refl, refl, refl)

  abbrev decoded_one : Data → List Data → D × Daemon Float → D × Daemon Float
  decoded_one p ps (c, d) =
      let (c', frame) = decode c p.encoded_frame in
      (c', enqueue_decoded decode frame (record d { encoded_buffer = record { queue = ps } }))

  decode_round-next :
      (p : Data) (ps : List Data) (c : D) (d : Daemon Float)
      → d.got_pps_sps ≡ true
      → d.encoded_buffer.queue ≡ p ∷ ps
      → decode_round decode (c, d) ≡ decoded_one p ps (c, d)
  unfolding decode_round decode_ready decode_dequeued dequeue_chunk
  decode_round-next p ps c d got e = ground arith

  -- Rounds of the decoding thread, as many as packets wait, while it runs and has the parameter sets:
  -- no packet is left, and behind the frames that waited there are those that the decoder gave, in
  -- order.
  pub handle_decode-frames :
      (ps : List Data) (c : D) (d : Daemon Float)
      → d.decoder_running ≡ true
      → d.got_pps_sps ≡ true
      → d.encoded_buffer.queue ≡ ps
      → ((handle_decode decode (length ps) (c, d)).1.encoded_buffer.queue ≡ [])
        × ((handle_decode decode (length ps) (c, d)).1.decode_buffer.queue
            ≡ d.decode_buffer.queue ++ decoded decode c ps)
  unfolding handle_decode decoded
  handle_decode-frames [] c d on got e = (e, sym (append-nil _))
  handle_decode-frames (p ∷ ps) c d on got e =
      let (c', frame) = decode c p.encoded_frame in
      let before : Daemon Float = record d { encoded_buffer = record { queue = ps } } in
      let d' = enqueue_decoded decode frame before in
      let (k1, k2, k3, k4) = enqueue_decoded-keeps frame before in
      let (none_left, frames) =
        handle_decode-frames ps c' d' (k1 ∙ on) (k2 ∙ got)
          (ap (λ (b : ChunkBuffer Data). b.queue) k3) in
      let same =
        ap
          (λ b. if b then handle_decode decode (length ps) (decode_round decode (c, d)) else (c, d))
          on
        ∙ ap (handle_decode decode (length ps)) (decode_round-next p ps c d got e) in
      (
        ap (λ s. s.1.encoded_buffer.queue) same ∙ none_left,
        ap (λ s. s.1.decode_buffer.queue) same
            ∙ frames
            ∙ ap (λ q. q ++ decoded decode c' ps) k4
            ∙ append_assoc d.decode_buffer.queue _ _
            ∙ ap (◌++◌ d.decode_buffer.queue) (cons_if-append frame (decoded decode c' ps)),
      )

module _ {Float : Type 0} where
  render_round-next :
      (f : List ℕ) (fs : List (List ℕ)) (d : Daemon Float)
      → d.decode_buffer.queue ≡ f ∷ fs
      → render_round d ≡ record d {
        decode_buffer = record { queue = fs };
        effects = d.effects ++ (render_frame f ∷ []);
      }
  unfolding render_round render_dequeued dequeue_chunk
  render_round-next f fs d e = ground arith

  -- Rounds of the rendering thread, as many as frames wait, while it runs: no frame is left, and the
  -- window has been given each of them, in order.
  pub render_rounds-frames :
      (frames : List (List ℕ)) (d : Daemon Float)
      → d.renderer_running ≡ true
      → d.decode_buffer.queue ≡ frames
      → ((render_rounds (length frames) d).decode_buffer.queue ≡ [])
        × ((render_rounds (length frames) d).effects ≡ d.effects ++ map render_frame frames)
  unfolding render_rounds
  render_rounds-frames [] d on e = (e, sym (append-nil _))
  render_rounds-frames (f ∷ fs) d on e =
      let d' : Daemon Float = record d {
        decode_buffer = record { queue = fs };
        effects = d.effects ++ (render_frame f ∷ []);
      } in
      let (none_left, shown) = render_rounds-frames fs d' on refl in
      let same =
        ap (λ b. if b then render_rounds (length fs) (render_round d) else d) on
        ∙ ap (render_rounds (length fs)) (render_round-next f fs d e) in
      (
        ap (λ (x : Daemon Float). x.decode_buffer.queue) same ∙ none_left,
        ap (λ (x : Daemon Float). x.effects) same ∙ shown ∙ append_assoc d.effects _ _,
      )
