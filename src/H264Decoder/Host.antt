-- ===== src/H264Decoder/Host.antt =====
-- The decoder in the loop of `handle_decode`: the frames that wait for the window.
use mathlib.Core.Path.{subst}
use friendviewer.Prelude.{
  ℕ, ◌*◌, ◌≡◌, ◌⊎◌, ◌<◌, ◌^◌, inl, inr, refl, sym, ◌∙◌, ap, true, Option, none, some, List, [], ◌∷◌,
  length, All, All-append, arith,
}
use friendviewer.Libav.{Libav}
use friendviewer.H264Decoder.{
  DecodeStatus, success, send_fail, again, eof, other, H264Decoder, H264Params, frame_size, init,
  decode_packet,
}
use friendviewer.H264Decoder.Result.{FrameLaws, Ready, Sized, decode_packet_outcome, init-Ready}
use friendviewer.Daemon.{Daemon}
use friendviewer.Daemon.Messages.{Data}
use friendviewer.Daemon.Threads.{handle_decode}
use friendviewer.Daemon.Stream.{cons_if, decoded, handle_decode-frames}

-- A frame for the status `success` only.
abbrev pub frame_if : DecodeStatus → List ℕ → Option (List ℕ)
frame_if success out = some out
frame_if send_fail out = none
frame_if again out = none
frame_if eof out = none
frame_if other out = none

module _ (av : Libav) where
  -- The decoder of `handle_decode`, which starts each round from an empty `decoded_frame`. Where
  -- `decode_packet` has no answer, it is taken to do nothing.
  unfoldable pub decode_of :
      H264Decoder × av.World → List ℕ → (H264Decoder × av.World) × Option (List ℕ)
  decode_of (d, w) packet_in = elim (decode_packet av packet_in d [] w) [
    | none ↦ ((d, w), none)
    | some (status, out, w1) ↦ ((d, w1), frame_if status out)
  ]

abbrev pub AllSized : H264Decoder → List (List ℕ) → Type 0
AllSized d frames = All (λ frame. length frame ≡ frame_size d) frames

module _ {av : Libav} (l : FrameLaws av) where
  frame_if-Sized :
      (d : H264Decoder) (status : DecodeStatus) (out : List ℕ)
      → Sized d status [] out
      → (frame_if status out ≡ none)
        ⊎ ((frame_if status out ≡ some out) × (length out ≡ frame_size d))
  frame_if-Sized d success out s = inr (refl, ground arith)
  frame_if-Sized d send_fail out s = inl refl
  frame_if-Sized d again out s = inl refl
  frame_if-Sized d eof out s = inl refl
  frame_if-Sized d other out s = inl refl

  decoded-AllSized :
      (ps : List Data) (d : H264Decoder) (w : av.World)
      → Ready d
      → AllSized d (decoded (decode_of av) (d, w) ps)
  unfolding decoded decode_of
  decoded-AllSized [] d w r = tt
  decoded-AllSized (p ∷ ps) d w r =
      let (status, out, w1, e, sized, _) = decode_packet_outcome l p.encoded_frame d [] w r in
      let rest = decoded-AllSized ps d w1 r in
      let step : decode_of av (d, w) p.encoded_frame ≡ ((d, w1), frame_if status out) =
        ground arith in
      let next : decoded (decode_of av) (d, w) (p ∷ ps)
          ≡ cons_if (frame_if status out) (decoded (decode_of av) (d, w1) ps) =
        ap (λ s. cons_if s.1 (decoded (decode_of av) s.0 ps)) step in
      elim (frame_if-Sized d status out sized) [
        | inl nothing ↦
            subst (AllSized d)
              (sym (next ∙ ap (λ f. cons_if f (decoded (decode_of av) (d, w1) ps)) nothing)) rest
        | inr (given, size) ↦
            subst (AllSized d)
              (sym (next ∙ ap (λ f. cons_if f (decoded (decode_of av) (d, w1) ps)) given))
              (size, rest)
      ]

  -- With a ready decoder, all frames that wait for the window have three bytes for each pixel after
  -- as many rounds of the decoding thread as packets wait, when they had before; and no packet is
  -- left.
  handle_decode-AllSized :
      {Float : Type 0} (ps : List Data) (d : H264Decoder) (w : av.World) (daemon : Daemon Float)
      → Ready d
      → daemon.decoder_running ≡ true
      → daemon.got_pps_sps ≡ true
      → daemon.encoded_buffer.queue ≡ ps
      → AllSized d daemon.decode_buffer.queue
      → let daemon' = (handle_decode (decode_of av) (length ps) ((d, w), daemon)).1 in
        (daemon'.encoded_buffer.queue ≡ []) × AllSized d daemon'.decode_buffer.queue
  handle_decode-AllSized ps d w daemon r on got e before =
      let (empty, frames) = handle_decode-frames (decode_of av) ps (d, w) daemon on got e in
      let after = decoded-AllSized ps d w r in
      (
        empty,
        subst (λ q. AllSized d q) (sym frames)
            (All-append (λ f. length f ≡ frame_size d) daemon.decode_buffer.queue
              (decoded (decode_of av) (d, w) ps) before after),
      )

  -- Where libav's error codes are negative and its scaler stays within the rows that it was asked
  -- for: after an `init` that returned true, for a size whose three bytes per pixel are more than
  -- none and fit in an `int`, while the decoding thread runs and has the parameter sets: when the
  -- frames that wait for the window have that many bytes, so they have after as many rounds of the
  -- decoding thread as packets wait, whatever the packets hold; and no packet is left.
  pub init-handle_decode :
      {Float : Type 0} (params : H264Params) (d : H264Decoder) (w : av.World) (ps : List Data)
      (daemon : Daemon Float)
      → (init av params d w).0 ≡ true
      → 0 < params.width * params.height * 3
      → params.width * params.height * 3 < 2 ^ 31
      → daemon.decoder_running ≡ true
      → daemon.got_pps_sps ≡ true
      → daemon.encoded_buffer.queue ≡ ps
      → All (λ frame. length frame ≡ params.width * params.height * 3) daemon.decode_buffer.queue
      → let daemon' =
          (handle_decode
            (decode_of av)
            (length ps)
            (((init av params d w).1, (init av params d w).2), daemon)).1 in
        (daemon'.encoded_buffer.queue ≡ [])
        × All (λ frame. length frame ≡ params.width * params.height * 3) daemon'.decode_buffer.queue
  init-handle_decode params d w ps daemon ok low high on got e before =
      let (_, d1, w1) = init av params d w in
      let (r, size) = init-Ready av params d w ok low high in
      let (empty, frames) = handle_decode-AllSized ps d1 w1 daemon r on got e (
        subst (λ n. All (λ frame. length frame ≡ n) daemon.decode_buffer.queue) (sym size)
          before) in
      (
        empty,
        subst
            (λ n.
              All (λ frame. length frame ≡ n)
                (handle_decode (decode_of av) (length ps) ((d1, w1), daemon)).1.decode_buffer.queue)
            size frames,
      )
