-- ===== src/H264Encoder.antt =====
-- prototype/daemon/decoder/h264_encoder.{hh,cc}: pixels in, packets out. The two overloads of
-- `encode_frame` have the same body, and one function here. The widths and heights are not
-- negative, and the time stamp stays below 2 ^ 31.
pub mod Nalu
pub mod Split
pub mod Host
pub mod Client
pub mod Again
pub mod Rows
pub mod Owned
pub mod Runs
pub mod ClientRuns
use friendviewer.Prelude.{
  ℕ, zero, suc, ◌+◌, ◌-◌, ◌*◌, ◌^◌, ltb, Bool, true, false, Option, none, some, List, [], ◌∷◌, ◌++◌,
  ◌==◌, leb, length, take, drop, if◌then◌else◌,
}
use friendviewer.Prelude.Words.{ℤ, pos}
use friendviewer.Prelude.Faults.{◌>>=◌, ◌>>◌, guard}
use friendviewer.Libav.{
  Libav, ContextFields, delete_context, delete_scaler, delete_frame, delete_packet, is_ok,
}

pub record H264Params : Type 0 where
  pub width : ℕ
  pub height : ℕ
  pub bit_rate : ℕ
  pub framerate_num : ℕ
  pub framerate_den : ℕ

pub record H264Encoder : Type 0 where
  pub encoder_context : Option ℕ
  pub sws_context : Option ℕ
  pub frame_buffer : Option ℕ
  pub packet_buffer : Option ℕ
  pub params : H264Params
  pub pts : ℕ
  pub pps_sps : List ℕ

-- The two tests of `seek_nalu`, on the memory from `data + tmp` on. They stop at the first byte that
-- differs; `none` is a read behind the memory.
abbrev pub starts_with : List ℕ → List ℕ → Option Bool
starts_with [] mem = some true
starts_with (b ∷ bs) [] = none
starts_with (b ∷ bs) (m ∷ mem) = elim (m == b) [ true ↦ starts_with bs mem | false ↦ some false ]

unfoldable pub starts_nalu : List ℕ → Option Bool
starts_nalu mem = do
  long ← starts_with (0 ∷ 0 ∷ 0 ∷ 1 ∷ []) mem
  if long then some true else starts_with (0 ∷ 0 ∷ 1 ∷ []) mem

-- The inner loop, with `tmp` and the memory there.
unfoldable pub seek_next : List ℕ → ℕ → Option ℕ
seek_next [] tmp = none
seek_next (m ∷ mem) tmp = elim (starts_nalu (m ∷ mem)) [
  | none ↦ none
  | some found ↦ elim found [ true ↦ some tmp | false ↦ seek_next mem (tmp + 1) ]
]

-- The outer loop, from the offset `off` with `num_nalu` rounds left.
unfoldable pub seek_from : List ℕ → ℕ → ℕ → Option ℕ
seek_from mem zero off = some off
seek_from mem (suc num_nalu) off = do
  tmp ← seek_next (drop (off + 2) mem) (off + 2)
  seek_from mem num_nalu tmp

unfoldable pub seek_nalu : List ℕ → ℕ → Option ℕ
seek_nalu data_in num_nalu = seek_from data_in num_nalu 0

-- The rows that `sws_scale` reads from `image_end` on with a negative stride: the last row first.
-- `none` is a read behind the frame.
unfoldable pub rows_up : List ℕ → ℕ → ℕ → Option (List (List ℕ))
rows_up frame width zero = some []
rows_up frame width (suc y) = do
  guard (leb ((y + 1) * (4 * width)) (length frame))
  rows ← rows_up frame width y
  some (take (4 * width) (drop (y * (4 * width)) frame) ∷ rows)

-- The `stride` and the offset of `image_end` are computed in `int`: `none` where one overflows.
unfoldable pub bottom_up : List ℕ → ℕ → ℕ → Option (List (List ℕ))
bottom_up frame width height = do
  guard (leb (4 * width) (2 ^ 31))
  guard (ltb ((height - 1) * 4) (2 ^ 31))
  guard (ltb ((height - 1) * 4 * width) (2 ^ 31))
  rows_up frame width height

abbrev pub empty_params : H264Params
empty_params = record { width = 0; height = 0; bit_rate = 0; framerate_num = 0; framerate_den = 0 }

-- The constructor, which leaves `params_` unset.
abbrev pub initial : H264Encoder
initial = record {
  encoder_context = none;
  sws_context = none;
  frame_buffer = none;
  packet_buffer = none;
  params = empty_params;
  pts = 0;
  pps_sps = [];
}

abbrev pub fields_of : H264Params → ContextFields
fields_of p = record {
  width = p.width;
  height = p.height;
  bit_rate = p.bit_rate;
  time_base = (p.framerate_den, p.framerate_num);
  framerate = (p.framerate_num, p.framerate_den);
  gop_size = some 40;
  max_b_frames = some 0;
  tuned = true;
}

module _ (av : Libav) where
  -- From the scaler on, when the codec is open.
  unfoldable pub init_buffers : H264Encoder → av.World → Option (Bool × H264Encoder × av.World)
  init_buffers e w =
      let (scaler, w1) = av.alloc_scaler w e.params.width e.params.height in
      let w2 = delete_scaler av e.sws_context w1 in
      let (frame, w3) = av.alloc_frame w2 in
      let w4 = delete_frame av e.frame_buffer w3 in
      do
        f ← frame
        let w5 = av.set_frame w4 f e.params.width e.params.height
        let (packet, w6) = av.alloc_packet w5
        let w7 = delete_packet av e.packet_buffer w6
        some (
          true,
          record e { sws_context = scaler; frame_buffer = frame; packet_buffer = packet },
          w7,
        )

  unfoldable pub init_context :
      Option ℕ → H264Encoder → av.World → Option (Bool × H264Encoder × av.World)
  init_context none e w = some (false, e, w)
  init_context (some c) e w =
      let (status, w1) = av.open_codec (av.set_context w c (fields_of e.params)) c in
      elim (is_ok status) [ true ↦ init_buffers e w1 | false ↦ some (false, e, w1) ]

  unfoldable pub init : H264Params → H264Encoder → av.World → Option (Bool × H264Encoder × av.World)
  init params e w =
      let (context, w1) = av.alloc_context w in
      init_context context (record e { params = params; encoder_context = context })
        (delete_context av e.encoder_context w1)

  -- The packet that was received: the first one gives its first two units to `pps_sps_`.
  unfoldable pub take_packet : ℕ → List ℕ → H264Encoder → List ℕ → Option (H264Encoder × List ℕ)
  take_packet size memory e packet_out = elim (e.pts == 0) [
    | true ↦ do
      pps_sps_end ← seek_nalu memory 2
      guard (leb pps_sps_end size)
      some (
        record e { pts = e.pts + 1; pps_sps = e.pps_sps ++ take pps_sps_end memory },
        packet_out ++ drop pps_sps_end (take size memory),
      )
    | false ↦ some (record e { pts = e.pts + 1 }, packet_out ++ take size memory)
  ]

  -- The status, the encoder and `packet_out`, from `avcodec_receive_packet` on.
  unfoldable pub receive :
      ℕ → ℕ → H264Encoder → List ℕ → av.World → Option (ℤ × H264Encoder × List ℕ × av.World)
  receive context packet e packet_out w =
      let (received, w1) = av.receive_packet w context packet in
      elim (is_ok received) [
        | false ↦ some (received, e, packet_out, w1)
        | true ↦ do
          done ← take_packet (av.packet_size w1 packet) (av.packet_memory w1 packet) e packet_out
          some (pos 0, done.0, done.1, w1)
      ]

  unfoldable pub send_and_receive :
      ℕ → ℕ → H264Encoder → List ℕ → av.World → Option (ℤ × H264Encoder × List ℕ × av.World)
  send_and_receive context frame e packet_out w =
      let (sent, w1) = av.send_frame w context frame in
      elim (is_ok sent) [
        | false ↦ some (sent, e, packet_out, w1)
        | true ↦ do packet ← e.packet_buffer; receive context packet e packet_out w1
      ]

  unfoldable pub encode_frame :
      List ℕ → H264Encoder → List ℕ → av.World → Option (ℤ × H264Encoder × List ℕ × av.World)
  encode_frame frame_in e packet_out w = do
    scaler ← e.sws_context
    frame ← e.frame_buffer
    context ← e.encoder_context
    rows ← bottom_up frame_in e.params.width e.params.height
    send_and_receive context frame e packet_out
        (av.set_pts (av.scale_in w scaler rows frame) frame e.pts)

  unfoldable pub shutdown : H264Encoder → av.World → H264Encoder × av.World
  shutdown e w = (
    record initial { params = e.params },
    delete_packet av e.packet_buffer (
        delete_frame av e.frame_buffer
          (delete_scaler av e.sws_context (delete_context av e.encoder_context w))),
  )

-- The flag, and `packet_out` afterwards.
unfoldable pub get_pps_sps : H264Encoder → List ℕ → Bool × List ℕ
get_pps_sps e packet_out = elim e.pps_sps [ [] ↦ (false, packet_out) | b ∷ bs ↦ (true, e.pps_sps) ]
