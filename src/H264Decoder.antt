-- ===== src/H264Decoder.antt =====
-- prototype/daemon/decoder/h264_decoder.{hh,cc}: packets in, frames of three bytes per pixel out. The
-- two overloads of `decode_packet` differ in the type of the bytes only, and are one function here.
-- The widths and heights are not negative.
pub mod Result
pub mod Owned
pub mod Host
pub mod Runs
use friendviewer.Prelude.{
  ℕ, ◌+◌, ◌*◌, ◌^◌, Bool, true, false, Option, none, some, List, [], ◌∷◌, ◌++◌, ◌==◌, leb, ltb,
  length, drop, resize, if◌then◌else◌,
}
use friendviewer.Prelude.Words.{ℤ, pos, negsuc, same_int}
use friendviewer.Prelude.Faults.{◌>>=◌, ◌>>◌, guard}
use friendviewer.Libav.{
  Libav, ContextFields, delete_context, delete_scaler, delete_frame, delete_packet, is_error,
}

pub data DecodeStatus : Type 0 where
  success : DecodeStatus
  send_fail : DecodeStatus
  again : DecodeStatus
  eof : DecodeStatus
  other : DecodeStatus

pub record H264Params : Type 0 where
  pub width : ℕ
  pub height : ℕ
  pub bit_rate : ℕ
  pub framerate_num : ℕ
  pub framerate_den : ℕ

pub record H264Decoder : Type 0 where
  pub decoder_context : Option ℕ
  pub sws_context : Option ℕ
  pub frame_buffer : Option ℕ
  pub packet_buffer : Option ℕ
  pub width : ℕ
  pub height : ℕ
  pub pts : ℤ

-- The constructor, which leaves `width_` and `height_` unset.
abbrev pub initial : H264Decoder
initial = record {
  decoder_context = none;
  sws_context = none;
  frame_buffer = none;
  packet_buffer = none;
  width = 0;
  height = 0;
  pts = negsuc 1;
}

abbrev pub fields_of : H264Params → ContextFields
fields_of p = record {
  width = p.width;
  height = p.height;
  bit_rate = p.bit_rate;
  time_base = (p.framerate_den, p.framerate_num);
  framerate = (p.framerate_num, p.framerate_den);
  gop_size = none;
  max_b_frames = none;
  tuned = false;
}

-- The `int` that says how many bytes a frame has.
abbrev pub frame_size : H264Decoder → ℕ
frame_size d = d.width * d.height * 3

-- The test and the `resize` of `frame_out`.
unfoldable pub fit_frame : H264Decoder → List ℕ → List ℕ
fit_frame d frame_out =
    if length frame_out == frame_size d then frame_out else resize (frame_size d) 0 frame_out

module _ (av : Libav) where
  -- The tests of the status of `avcodec_receive_frame`.
  unfoldable pub receive_status : ℤ → DecodeStatus
  receive_status ret =
      if same_int ret av.averror_eagain
      then again
      else if same_int ret av.averror_eof
      then eof
      else if is_error ret
      then other
      else success

  -- From the scaler on.
  unfoldable pub init_scaler :
      H264Params → ℕ → H264Decoder → av.World → Bool × H264Decoder × av.World
  init_scaler params context d w =
      let (scaler, w1) = av.alloc_scaler w params.width params.height in
      let w2 = delete_scaler av d.sws_context w1 in
      let d1 = record d { sws_context = scaler } in
      elim scaler [
        | none ↦ (false, d1, w2)
        | some s ↦
            let (ret, w3) = av.open_codec w2 context in
            (elim (is_error ret) [ true ↦ false | false ↦ true ], d1, w3)
      ]

  unfoldable pub init_packet :
      H264Params → ℕ → H264Decoder → av.World → Bool × H264Decoder × av.World
  init_packet params context d w =
      let (packet, w1) = av.alloc_packet w in
      let w2 = delete_packet av d.packet_buffer w1 in
      let d1 = record d { packet_buffer = packet } in
      elim packet [ none ↦ (false, d1, w2) | some p ↦ init_scaler params context d1 w2 ]

  unfoldable pub init_frame :
      H264Params → ℕ → H264Decoder → av.World → Bool × H264Decoder × av.World
  init_frame params context d w =
      let (frame, w1) = av.alloc_frame w in
      let w2 = delete_frame av d.frame_buffer w1 in
      let d1 = record d { frame_buffer = frame } in
      elim frame [ none ↦ (false, d1, w2) | some f ↦ init_packet params context d1 w2 ]

  unfoldable pub init : H264Params → H264Decoder → av.World → Bool × H264Decoder × av.World
  init params d w =
      let (context, w1) = av.alloc_context w in
      let w2 = delete_context av d.decoder_context w1 in
      let d1 = record d {
        width = params.width;
        height = params.height;
        decoder_context = context;
      } in
      elim context [
        | none ↦ (false, d1, w2)
        | some c ↦ init_frame params c d1 (av.set_context w2 c (fields_of params))
      ]

  -- The frame of libav is written over `frame_out`. The product of the `int`s must not overflow, and
  -- the first byte must be there.
  unfoldable pub write_frame : ℕ → H264Decoder → List ℕ → av.World → Option (List ℕ)
  write_frame frame d frame_out w = do
    guard (ltb (frame_size d) (2 ^ 31))
    guard (ltb 0 (frame_size d))
    scaler ← d.sws_context
    let sized = fit_frame d frame_out
    let bytes = av.scale_out w scaler frame d.height (d.width * 3)
    guard (leb (length bytes) (length sized))
    some (bytes ++ drop (length bytes) sized)

  -- From `avcodec_receive_frame` on.
  unfoldable pub receive_frame :
      ℕ → H264Decoder → List ℕ → av.World → Option (DecodeStatus × List ℕ × av.World)
  receive_frame context d frame_out w = do
    frame ← d.frame_buffer
    let (ret, w1) = av.receive_frame w context frame
    elim (receive_status ret) [
      | success ↦ do written ← write_frame frame d frame_out w1; some (success, written, w1)
      | send_fail ↦ some (send_fail, frame_out, w1)
      | again ↦ some (again, frame_out, w1)
      | eof ↦ some (eof, frame_out, w1)
      | other ↦ some (other, frame_out, w1)
    ]

  -- The status, `frame_out` and libav. The decoder's own fields stay as they are.
  unfoldable pub decode_packet :
      List ℕ → H264Decoder → List ℕ → av.World → Option (DecodeStatus × List ℕ × av.World)
  decode_packet packet_in d frame_out w = do
    packet ← d.packet_buffer
    context ← d.decoder_context
    let (ret, w1) = av.send_packet (av.set_packet w packet packet_in) context packet
    elim (is_error ret) [
      | true ↦ some (send_fail, frame_out, w1)
      | false ↦ receive_frame context d frame_out w1
    ]

  unfoldable pub shutdown : H264Decoder → av.World → H264Decoder × av.World
  shutdown d w = (
    record initial { pts = pos 0 },
    delete_packet av d.packet_buffer (
        delete_frame av d.frame_buffer
          (delete_scaler av d.sws_context (delete_context av d.decoder_context w))),
  )
