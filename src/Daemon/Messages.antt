-- ===== src/Daemon/Messages.antt =====
-- prototype/protobuf/control.proto and session.proto: the inner packets. Texts are lists of bytes,
-- an `int64` is its bit pattern, and the type of a `float` is a parameter.
use friendviewer.Prelude.{ℕ, ◌^◌, ◌<◌, ◌≡◌, List}
use friendviewer.Prelude.Words.{ℤ}

pub data ServerMessageType : Type 0 where
  success name_taken user_not_found session_starting user_already_in_session : ServerMessageType

pub record VideoParams : Type 0 where
  pub width : ℕ
  pub height : ℕ
  pub pps_sps : List ℕ
  pub framerate_num : ℕ
  pub framerate_denom : ℕ

pub record Data : Type 0 where
  pub pts : ℕ
  pub dts : ℕ
  pub encoded_frame : List ℕ

pub record ControlInput (Float : Type 0) : Type 0 where
  pub abs_x : Float
  pub abs_y : Float
  pub mouse_bitfield : ℤ
  pub virtual_key : ℤ

-- The inner packets that the daemon sends.
pub data Inner (Float : Type 0) : Type 0 where
  handshake : ℕ → Inner Float
  heartbeat : ℕ → Inner Float
  new_user : List ℕ → Inner Float
  session_request : List ℕ → Inner Float
  session_close : Inner Float
  video_params : VideoParams → Inner Float
  data_packet : Data → Inner Float
  control_input : ControlInput Float → Inner Float

-- What protoc generates for them: `SerializeAsString`, and what `ParseFromArray` leaves in a new
-- message, for the fields that the daemon reads.
pub record InnerCodec (Float : Type 0) : Type 0 where
  pub serialize : Inner Float → List ℕ
  pub parse_handshake : List ℕ → ℕ
  pub parse_server_message : List ℕ → ServerMessageType
  pub parse_user_list : List ℕ → List (List ℕ)
  pub parse_video_params : List ℕ → VideoParams
  pub parse_data : List ℕ → Data
  pub parse_control_input : List ℕ → ControlInput Float

-- A packet of the video that was written is read back, if its numbers are those of an `int32` that
-- is not negative.
pub record VideoLaws {Float : Type 0} (inner : InnerCodec Float) : Type 0 where
  pub parse_data-serialize :
      (d : Data)
      → d.pts < 2 ^ 31
      → d.dts < 2 ^ 31
      → inner.parse_data (inner.serialize (data_packet d)) ≡ d
  pub parse_video_params-serialize :
      (p : VideoParams)
      → p.width < 2 ^ 31
      → p.height < 2 ^ 31
      → p.framerate_num < 2 ^ 31
      → p.framerate_denom < 2 ^ 31
      → inner.parse_video_params (inner.serialize (video_params p)) ≡ p
