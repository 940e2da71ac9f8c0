-- ===== src/Packet.antt =====
-- prototype/protobuf/fv_packet.proto: the wrapper of every packet. The code that protoc generates
-- from it is a parameter.
use friendviewer.Prelude.{ℕ, List, ◌≡◌}

pub data FvPacketType : Type 0 where
  unspecified handshake server_message new_user user_list : FvPacketType
  session_request session_close heartbeat video_params data_packet control_input : FvPacketType

pub record FvPacket : Type 0 where
  pub type : FvPacketType
  pub inner_packet : List ℕ

-- `serialize` is `SerializeAsString`, `parse` is what a packet holds after `ParseFromArray`, and
-- `moved_from` what it holds after it was moved away.
pub record PacketCodec : Type 0 where
  pub serialize : FvPacket → List ℕ
  pub parse : List ℕ → FvPacket
  pub moved_from : FvPacket → FvPacket

-- A packet that was written is read back.
pub record CodecLaws (codec : PacketCodec) : Type 0 where
  pub parse-serialize : (p : FvPacket) → codec.parse (codec.serialize p) ≡ p

-- The numbers of the enumeration, by which the array of handlers is indexed.
abbrev pub type_number : FvPacketType → ℕ
type_number unspecified = 0
type_number handshake = 1
type_number server_message = 2
type_number new_user = 3
type_number user_list = 4
type_number session_request = 5
type_number session_close = 6
type_number heartbeat = 7
type_number video_params = 8
type_number data_packet = 9
type_number control_input = 10
