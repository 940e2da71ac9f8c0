-- ===== src/H264Decoder/Owned.antt =====
-- The smart pointers of h264_decoder.cc own libav's objects: none is leaked, and none is freed twice.
use friendviewer.Prelude.{ℕ, ◌+◌, ◌≡◌, inl, inr, Bool, Option-cases, arith}
use friendviewer.Libav.{Libav, delete_context, delete_scaler, delete_frame, delete_packet}
use friendviewer.Libav.Owned.{
  held, LiveLaws, live-delete_context, live-delete_scaler, live-delete_frame, live-delete_packet,
}
use friendviewer.H264Decoder.{
  H264Decoder, H264Params, fields_of, init_scaler, init_packet, init_frame, init, shutdown,
}

-- How many objects the decoder holds.
abbrev pub owned : H264Decoder → ℕ
owned d = held d.decoder_context + held d.sws_context + held d.frame_buffer + held d.packet_buffer

module _ {av : Libav} (l : LiveLaws av) where
  -- What an answer of a step of `init` has to keep.
  abbrev Keeps : ℕ → Bool × H264Decoder × av.World → Type 0
  Keeps others r = l.live r.2 ≡ others + owned r.1

  init_scaler-owned :
      (others : ℕ) (params : H264Params) (context : ℕ) (d : H264Decoder) (w : av.World)
      → l.live w ≡ others + owned d
      → Keeps others (init_scaler av params context d w)
  unfolding init_scaler
  init_scaler-owned others params context d w h =
      let w1 = (av.alloc_scaler w params.width params.height).1 in
      let a1 = l.allocs_scaler w params.width params.height in
      let w2 = delete_scaler av d.sws_context w1 in
      let a2 = live-delete_scaler l d.sws_context w1 (omega arith) in
      let a3 = l.opens w2 context in
      elim (Option-cases (av.alloc_scaler w params.width params.height).0) [
        | inl null ↦ ground arith
        | inr (s, made) ↦ ground arith
      ]

  init_packet-owned :
      (others : ℕ) (params : H264Params) (context : ℕ) (d : H264Decoder) (w : av.World)
      → l.live w ≡ others + owned d
      → Keeps others (init_packet av params context d w)
  unfolding init_packet
  init_packet-owned others params context d w h =
      let w1 = (av.alloc_packet w).1 in
      let a1 = l.allocs_packet w in
      let w2 = delete_packet av d.packet_buffer w1 in
      let a2 = live-delete_packet l d.packet_buffer w1 (omega arith) in
      let next =
        init_scaler-owned others params context (record d { packet_buffer = (av.alloc_packet w).0 })
          w2 (omega arith) in
      elim (Option-cases (av.alloc_packet w).0) [
        | inl null ↦ ground arith
        | inr (p, made) ↦ ground arith
      ]

  init_frame-owned :
      (others : ℕ) (params : H264Params) (context : ℕ) (d : H264Decoder) (w : av.World)
      → l.live w ≡ others + owned d
      → Keeps others (init_frame av params context d w)
  unfolding init_frame
  init_frame-owned others params context d w h =
      let w1 = (av.alloc_frame w).1 in
      let a1 = l.allocs_frame w in
      let w2 = delete_frame av d.frame_buffer w1 in
      let a2 = live-delete_frame l d.frame_buffer w1 (omega arith) in
      let next =
        init_packet-owned others params context (record d { frame_buffer = (av.alloc_frame w).0 })
          w2 (omega arith) in
      elim (Option-cases (av.alloc_frame w).0) [
        | inl null ↦ ground arith
        | inr (f, made) ↦ ground arith
      ]

  init-owned :
      (others : ℕ) (params : H264Params) (d : H264Decoder) (w : av.World)
      → l.live w ≡ others + owned d
      → Keeps others (init av params d w)
  unfolding init
  init-owned others params d w h =
      let w1 = (av.alloc_context w).1 in
      let a1 = l.allocs_context w in
      let w2 = delete_context av d.decoder_context w1 in
      let a2 = live-delete_context l d.decoder_context w1 (omega arith) in
      elim (Option-cases (av.alloc_context w).0) [
        | inl null ↦ ground arith
        | inr (c, made) ↦
            let d1 = record d {
              width = params.width;
              height = params.height;
              decoder_context = (av.alloc_context w).0;
            } in
            let a3 = l.sets_context w2 c (fields_of params) in
            let next =
              init_frame-owned others params c d1 (av.set_context w2 c (fields_of params))
                (ground arith) in
            ground arith
      ]

  shutdown-owned :
      (others : ℕ) (d : H264Decoder) (w : av.World)
      → l.live w ≡ others + owned d
      → l.live (shutdown av d w).1 ≡ others
  unfolding shutdown
  shutdown-owned others d w h =
      let w1 = delete_context av d.decoder_context w in
      let a1 = live-delete_context l d.decoder_context w (omega arith) in
      let w2 = delete_scaler av d.sws_context w1 in
      let a2 = live-delete_scaler l d.sws_context w1 (omega arith) in
      let w3 = delete_frame av d.frame_buffer w2 in
      let a3 = live-delete_frame l d.frame_buffer w2 (omega arith) in
      let a4 = live-delete_packet l d.packet_buffer w3 (omega arith) in omega arith

  -- When libav's live objects are those of others and those of the decoder, then so they are after
  -- `init`, on every path, with the objects that the decoder holds then; and `shutdown` after that
  -- leaves those of others.
  pub init-shutdown-owned :
      (others : ℕ) (params : H264Params) (d : H264Decoder) (w : av.World)
      → l.live w ≡ others + owned d
      → let (ok, d1, w1) = init av params d w in
        (l.live w1 ≡ others + owned d1) × (l.live (shutdown av d1 w1).1 ≡ others)
  init-shutdown-owned others params d w h =
      let (ok, d1, w1) = init av params d w in
      let kept = init-owned others params d w h in (kept, shutdown-owned others d1 w1 kept)
