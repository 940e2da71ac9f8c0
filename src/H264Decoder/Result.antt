-- ===== src/H264Decoder/Result.antt =====
-- What `decode_packet` and `init` of h264_decoder.cc give, on every path.
use friendviewer.Prelude.{
  ℕ, ◌*◌, ◌^◌, ◌≤◌, ◌<◌, ◌≡◌, ◌≢◌, ◌⊎◌, ◌↔◌, inl, inr, refl, true, false, Bool-cases, some,
  Option-cases, List, ◌++◌, ◌==◌, ==_iff, length, drop, arith, length-append, length-drop,
  length-resize,
}
use friendviewer.Prelude.Words.{ℤ, pos, negsuc, same_int}
use friendviewer.Libav.{Libav, delete_context, delete_frame, delete_packet, is_error}
use friendviewer.H264Decoder.{
  DecodeStatus, success, send_fail, again, eof, other, H264Decoder, H264Params, frame_size,
  fit_frame, fields_of, receive_status, write_frame, receive_frame, decode_packet, init_scaler,
  init_packet, init_frame, init,
}

-- What libav documents: its error codes are negative, and the scaler writes at most the rows that
-- it was asked for.
pub record FrameLaws (av : Libav) : Type 0 where
  pub eagain_negative : is_error av.averror_eagain ≡ true
  pub eof_negative : is_error av.averror_eof ≡ true
  pub scales_within :
      (w : av.World) (s f height stride : ℕ)
      → length (av.scale_out w s f height stride) ≤ height * stride

-- A decoder that can decode: nothing is null, and the size is an `int` above 0.
pub record Ready (d : H264Decoder) : Type 0 where
  pub context : ℕ
  pub scaler : ℕ
  pub frame : ℕ
  pub packet : ℕ
  pub has_context : d.decoder_context ≡ some context
  pub has_scaler : d.sws_context ≡ some scaler
  pub has_frame : d.frame_buffer ≡ some frame
  pub has_packet : d.packet_buffer ≡ some packet
  pub fits : frame_size d < 2 ^ 31
  pub some_bytes : 0 < frame_size d

abbrev pub Sized : H264Decoder → DecodeStatus → List ℕ → List ℕ → Type 0
Sized d status out out' =
    ((status ≡ success) × (length out' ≡ frame_size d)) ⊎ ((status ≢ success) × (out' ≡ out))

same_int_negative : (x y : ℤ) → is_error x ≡ false → is_error y ≡ true → same_int x y ≡ false
same_int_negative (pos m) (pos n) a b = absurd (ground arith)
same_int_negative (pos m) (negsuc n) a b = refl
same_int_negative (negsuc m) (pos n) a b = absurd (ground arith)
same_int_negative (negsuc m) (negsuc n) a b = absurd (ground arith)

length-fit_frame : (d : H264Decoder) (out : List ℕ) → length (fit_frame d out) ≡ frame_size d
unfolding fit_frame
length-fit_frame d out = elim (Bool-cases (length out == frame_size d)) [
  | inl same ↦ ground (arith, ==_iff (length out) (frame_size d))
  | inr differs ↦ ground (arith, length-resize (frame_size d) 0 out)
]

status_cases : (s : DecodeStatus) → (s ≡ success) ⊎ (s ≢ success)
status_cases success = inl refl
status_cases send_fail = inr (ground arith)
status_cases again = inr (ground arith)
status_cases eof = inr (ground arith)
status_cases other = inr (ground arith)

module _ {av : Libav} (l : FrameLaws av) where
  write_frame_size :
      (frame : ℕ) (d : H264Decoder) (out : List ℕ) (w : av.World)
      → Ready d
      → (out' : List ℕ) × (write_frame av frame d out w ≡ some out') × (length out' ≡ frame_size d)
  unfolding write_frame
  write_frame_size frame d out w r =
      let bytes = av.scale_out w r.scaler frame d.height (d.width * 3) in
      let within : length bytes ≤ frame_size d =
        omega (arith, l.scales_within w r.scaler frame d.height (d.width * 3)) in
      let sized = length-fit_frame d out in
      (
        bytes ++ drop (length bytes) (fit_frame d out),
        ground arith,
        omega (
          arith,
          length-append bytes (drop (length bytes) (fit_frame d out)),
          length-drop (length bytes) (fit_frame d out),
        ),
      )

  receive_status-success : (ret : ℤ) → (receive_status av ret ≡ success) ↔ (is_error ret ≡ false)
  unfolding receive_status
  receive_status-success ret = (
    λ h. elim (Bool-cases (is_error ret)) [ inr fine ↦ fine | inl bad ↦ absurd (ground arith) ],
    λ h.
        let a = same_int_negative ret av.averror_eagain h l.eagain_negative in
        let b = same_int_negative ret av.averror_eof h l.eof_negative in ground arith,
  )

  receive_frame_outcome :
      (d : H264Decoder) (out : List ℕ) (w : av.World) (r : Ready d)
      → (status : DecodeStatus) × (out' : List ℕ) × (w' : av.World) × (receive_frame av r.context d
            out w
          ≡ some (status, out', w'))
        × Sized d status out out'
        × ((status ≡ success) ↔ (is_error (av.receive_frame w r.context r.frame).0 ≡ false))
  unfolding receive_frame
  receive_frame_outcome d out w r =
      let (ret, w1) = av.receive_frame w r.context r.frame in
      let (up, down) = receive_status-success ret in
      let (written, wrote, size) = write_frame_size r.frame d out w1 r in
      elim (status_cases (receive_status av ret)) [
        | inl done ↦
            (success, written, w1, ground arith, inl (refl, size), (λ _. up done, λ _. refl))
        | inr fails ↦ (receive_status av ret, out, w1, ground arith, inr (fails, refl), (up, down))
      ]

  -- Where libav's error codes are negative and its scaler stays within the rows that it was asked
  -- for: with a ready decoder a packet always gives an answer. It is a success exactly when libav
  -- neither refuses the packet nor fails to give a frame; then `frame_out` has three bytes for each
  -- pixel, and with every other status `frame_out` is as before.
  pub decode_packet_outcome :
      (packet_in : List ℕ) (d : H264Decoder) (out : List ℕ) (w : av.World) (r : Ready d)
      → let (sent, w1) = av.send_packet (av.set_packet w r.packet packet_in) r.context r.packet in
        (status : DecodeStatus) × (out' : List ℕ) × (w' : av.World) × (decode_packet av packet_in d
            out w
          ≡ some (status, out', w'))
        × Sized d status out out'
        × ((status ≡ success) ↔ (
            (is_error sent ≡ false) × (is_error (av.receive_frame w1 r.context r.frame).0 ≡ false)))
  unfolding decode_packet
  decode_packet_outcome packet_in d out w r =
      let (sent, w1) = av.send_packet (av.set_packet w r.packet packet_in) r.context r.packet in
      elim (Bool-cases (is_error sent)) [
        | inl refused ↦ (
          send_fail,
          out,
          w1,
          ground arith,
          inr (ground arith, refl),
          (ground arith, ground arith),
        )
        | inr took ↦
            let (status, out', w', same, sized, (up, down)) = receive_frame_outcome d out w1 r in
            (status, out', w', ground arith, sized, (λ s. (took, up s), λ b. down b.1))
      ]

module _ (av : Libav) where
  init_scaler-true :
      (params : H264Params) (context : ℕ) (d : H264Decoder) (w : av.World)
      → let r = init_scaler av params context d w in
        r.0 ≡ true → (s : ℕ) × (r.1 ≡ record d { sws_context = some s })
  unfolding init_scaler
  init_scaler-true params context d w h =
      elim (Option-cases (av.alloc_scaler w params.width params.height).0) [
        | inl null ↦ absurd (ground arith)
        | inr (s, made) ↦ (s, ground arith)
      ]

  init_packet-true :
      (params : H264Params) (context : ℕ) (d : H264Decoder) (w : av.World)
      → let r = init_packet av params context d w in
        r.0 ≡ true → (s p : ℕ) × (r.1 ≡ record d { sws_context = some s; packet_buffer = some p })
  unfolding init_packet
  init_packet-true params context d w h =
      let w2 = delete_packet av d.packet_buffer (av.alloc_packet w).1 in
      let d1 = record d { packet_buffer = (av.alloc_packet w).0 } in
      elim (Option-cases (av.alloc_packet w).0) [
        | inl null ↦ absurd (ground arith)
        | inr (p, made) ↦
            let (s, e) = init_scaler-true params context d1 w2 (ground arith) in
            (s, p, ground arith)
      ]

  init_frame-true :
      (params : H264Params) (context : ℕ) (d : H264Decoder) (w : av.World)
      → let r = init_frame av params context d w in
        r.0 ≡ true
        → (s p f : ℕ) × (r.1
            ≡ record d { sws_context = some s; packet_buffer = some p; frame_buffer = some f })
  unfolding init_frame
  init_frame-true params context d w h =
      let w2 = delete_frame av d.frame_buffer (av.alloc_frame w).1 in
      let d1 = record d { frame_buffer = (av.alloc_frame w).0 } in
      elim (Option-cases (av.alloc_frame w).0) [
        | inl null ↦ absurd (ground arith)
        | inr (f, made) ↦
            let (s, p, e) = init_packet-true params context d1 w2 (ground arith) in
            (s, p, f, ground arith)
      ]

  -- When `init` returns true and three bytes per pixel are more than none and fit in an `int`, the
  -- decoder is ready, with the size of the parameters.
  pub init-Ready :
      (params : H264Params) (d : H264Decoder) (w : av.World)
      → (init av params d w).0 ≡ true
      → 0 < params.width * params.height * 3
      → params.width * params.height * 3 < 2 ^ 31
      → Ready (init av params d w).1
        × (frame_size (init av params d w).1 ≡ params.width * params.height * 3)
  unfolding init
  init-Ready params d w h low high =
      let w2 = delete_context av d.decoder_context (av.alloc_context w).1 in
      let d1 = record d {
        width = params.width;
        height = params.height;
        decoder_context = (av.alloc_context w).0;
      } in
      elim (Option-cases (av.alloc_context w).0) [
        | inl null ↦ absurd (ground arith)
        | inr (c, made) ↦
            let (s, p, f, e) =
              init_frame-true params c d1 (av.set_context w2 c (fields_of params)) (ground arith) in
            (
              record {
                context = c;
                scaler = s;
                frame = f;
                packet = p;
                has_context = ground arith;
                has_scaler = ground arith;
                has_frame = ground arith;
                has_packet = ground arith;
                fits = ground arith;
                some_bytes = ground arith;
              },
              ground arith,
            )
      ]
