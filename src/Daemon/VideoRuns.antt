-- ===== src/Daemon/VideoRuns.antt =====
-- The video of two frames, on the network of Daemon/WireRuns.
use mathlib.Core.List.{flatten}
use friendviewer.Prelude.{ℕ, ◌≡◌, refl, true, some, List, [], ◌∷◌, ◌++◌, map, arith}
use friendviewer.Prelude.Words.{le32}
use friendviewer.MessageManager.{MessageManager}
use friendviewer.MessageManager.RoundTrip.{IsIdle}
use friendviewer.MessageManager.Wire.{frame, frames}
use friendviewer.ClientSocket.{success, continue, receive_data, receive_loop}
use friendviewer.ClientSocket.Runs.{Net, quiet, opened}
use friendviewer.NetworkManager
use friendviewer.NetworkManager.{NetworkManager, Polled, subscribe_to_packet}
use friendviewer.NetworkManager.Stream.{Receives, piece, nothing, done}
use friendviewer.NetworkManager.Runs.{plain, plain-CodecLaws}
use friendviewer.Daemon.{Daemon}
use friendviewer.Daemon.Control.{Handler, on_video_params, subscribe_all}
use friendviewer.Daemon.Session.{subscribe_all-handlers}
use friendviewer.Daemon.Frame.{System}
use friendviewer.Daemon.Frames.{run_frames}
use friendviewer.Daemon.Threads.{Encoding, first_encoding, Encoded, params_of}
use friendviewer.MessageManager.Feed.{IsValid}
use friendviewer.Packet.{FvPacketType, FvPacket}
use friendviewer.Daemon.Partial.{run_frames-front}
use friendviewer.Daemon.Hosting.{HostStep, encodes, sends, host_steps}
use friendviewer.Daemon.Turn.{IsListening, arrived}
use friendviewer.Daemon.Arrival.{run_frames-packets}
use friendviewer.Daemon.Video.{numbered, video_packets, host_to_client}
use friendviewer.Daemon.Runs.{idle, now}
use friendviewer.Daemon.WireRuns.{
  read_params, showing, showing-VideoLaws, bursts, bursts-SendLaws, bursts-Progress,
  bursts-Unbroken,
}

abbrev pub hosting : Daemon ℕ
hosting = record idle { encoder_running = true; width = 4; height = 2 }

abbrev frame_one : Encoded
frame_one = record { packet_out = 5 ∷ 6 ∷ []; pps_sps = 103 ∷ [] }

abbrev frame_two : Encoded
frame_two = record { packet_out = 7 ∷ []; pps_sps = 103 ∷ [] }

abbrev pub host_manager : NetworkManager Handler
host_manager = NetworkManager.initial opened

-- The frames of the three packets, cut within the second.
abbrev first_piece : List ℕ
first_piece = 6 ∷ 0 ∷ 0 ∷ 0 ∷ 8 ∷ 4 ∷ 2 ∷ 30 ∷ 1 ∷ 103 ∷ 5 ∷ 0 ∷ []

abbrev second_piece : List ℕ
second_piece = 0 ∷ 0 ∷ 9 ∷ 0 ∷ 0 ∷ 5 ∷ 6 ∷ 4 ∷ 0 ∷ 0 ∷ 0 ∷ 9 ∷ 1 ∷ 0 ∷ 7 ∷ []

abbrev inbox : List (List ℕ)
inbox = first_piece ∷ [] ∷ [] ∷ second_piece ∷ []

abbrev pub client : System ℕ Net
client = record {
  daemon = idle;
  net_mgr = record (subscribe_all (NetworkManager.initial opened)) { connected = true };
  world = record quiet { inbox = inbox };
}

abbrev read_first : Net
read_first = record quiet { inbox = [] ∷ second_piece ∷ [] }

abbrev read_all : Net
read_all = record quiet { inbox = [] }

receive_first : receive_data bursts 30 opened client.world ≡ some (success, first_piece, read_first)
unfolding receive_data receive_loop
receive_first = refl

receive_pause :
    receive_data bursts 30 opened read_first
    ≡ some (continue, [], record quiet { inbox = second_piece ∷ [] })
unfolding receive_data receive_loop
receive_pause = refl

receive_second :
    receive_data bursts 30 opened (record quiet { inbox = second_piece ∷ [] })
    ≡ some (success, second_piece, read_all)
unfolding receive_data receive_loop
receive_second = refl

received : Receives bursts 30 opened 3 (first_piece ∷ second_piece ∷ []) client.world read_all
received = piece (second_piece ∷ []) read_first first_piece receive_first (
    nothing (record quiet { inbox = second_piece ∷ [] }) continue [] receive_pause (λ e. cc)
      (piece [] read_all second_piece receive_second done))

pub client_listens : IsListening showing bursts client
unfolding subscribe_all subscribe_to_packet
client_listens = record {
  on = refl;
  subscribed = λ t. subscribe_all-handlers (NetworkManager.initial opened) t (λ u. refl);
  taken = refl;
  silent = refl;
}

pub client_idle : IsIdle client.net_mgr.decode_mgr
unfolding subscribe_all subscribe_to_packet
client_idle = record { at_length = refl; nothing_open = refl; in_range = omega arith }

pieces_frames :
    flatten (first_piece ∷ second_piece ∷ [])
    ≡ frames (map plain.serialize (video_packets showing hosting frame_one (frame_two ∷ [])))
unfolding flatten frames frame le32
pieces_frames = refl

run_frames-packets_example :
    (m : MessageManager) × IsIdle m
    × (run_frames showing bursts 30 100 (now ∷ now ∷ now ∷ []) client
        ≡ some (
            arrived showing bursts client m
              (video_packets showing hosting frame_one (frame_two ∷ []))
              read_all))
unfolding subscribe_all subscribe_to_packet
run_frames-packets_example =
    run_frames-packets showing bursts plain-CodecLaws (now ∷ now ∷ now ∷ []) 30 100 client
      (first_piece ∷ second_piece ∷ []) (video_packets showing hosting frame_one (frame_two ∷ []))
      read_all client_listens client_idle (omega arith, (omega arith, (omega arith, tt)))
      (omega arith, (omega arith, (omega arith, tt))) pieces_frames received

-- The first receive and the pause: VIDEO_PARAMS has come, and the start of a length.
received_first :
    Receives bursts 30 opened 2
      (first_piece ∷ [])
      client.world
      (record quiet { inbox = second_piece ∷ [] })
received_first =
    piece [] read_first first_piece receive_first (
      nothing (record quiet { inbox = second_piece ∷ [] }) continue [] receive_pause (λ e. cc) done)

abbrev params_packet : FvPacket
params_packet = record {
  type = FvPacketType.video_params;
  inner_packet = 4 ∷ 2 ∷ 30 ∷ 1 ∷ 103 ∷ [];
}

abbrev frame_packet : FvPacket
frame_packet = record { type = FvPacketType.data_packet; inner_packet = 0 ∷ 0 ∷ 5 ∷ 6 ∷ [] }

first_cut :
    flatten (first_piece ∷ []) ≡ frames (map plain.serialize (params_packet ∷ [])) ++ (5 ∷ 0 ∷ [])
unfolding flatten frames frame le32
first_cut = refl

within_length :
    (5 ∷ 0 ∷ []) ++ (0 ∷ 0 ∷ 9 ∷ 0 ∷ 0 ∷ 5 ∷ 6 ∷ []) ≡ frame (plain.serialize frame_packet)
unfolding frame le32
within_length = refl

run_frames-front_example :
    (m : MessageManager) × IsValid m
    × (run_frames showing bursts 30 100 (now ∷ now ∷ []) client
        ≡ some (
            arrived showing bursts client m
              (params_packet ∷ [])
              (record quiet { inbox = second_piece ∷ [] })))
unfolding subscribe_all subscribe_to_packet
run_frames-front_example =
    run_frames-front showing bursts plain-CodecLaws (now ∷ now ∷ []) 30 100 client
      (first_piece ∷ []) (5 ∷ 0 ∷ []) (0 ∷ 0 ∷ 9 ∷ 0 ∷ 0 ∷ 5 ∷ 6 ∷ []) (params_packet ∷ [])
      frame_packet (record quiet { inbox = second_piece ∷ [] }) client_listens client_idle
      (omega arith, (omega arith, tt)) (omega arith, tt) (omega arith) first_cut within_length
      (λ e. cc) received_first

abbrev pub hosting_system : System ℕ Net
hosting_system = record { daemon = hosting; net_mgr = host_manager; world = quiet }

-- The loop sends between the two frames, and twice before the first.
abbrev rounds : List HostStep
rounds = sends ∷ sends ∷ encodes frame_one ∷ sends ∷ encodes frame_two ∷ []

host_to_client_example :
    (v : Encoding) × (host : System ℕ Net) × (shown : System ℕ Net) × (bytes : List ℕ) × (host_steps
        showing bursts 30
        (rounds ++ (sends ∷ []))
        (first_encoding, hosting_system)
      ≡ some (v, host))
    × (host.world.sent ≡ [] ++ flatten (first_piece ∷ second_piece ∷ []))
    × (run_frames showing bursts 30 100 (now ∷ now ∷ now ∷ []) client ≡ some shown)
    × (shown.daemon.encoded_buffer.queue ≡ [] ++ numbered showing 0 (frame_one ∷ frame_two ∷ []))
    × (shown.net_mgr.nonblocking_tasks
        ≡ [] ++ (record { callback = on_video_params; inner = bytes } ∷ []))
    × (read_params bytes ≡ params_of showing hosting frame_one)
unfolding subscribe_all subscribe_to_packet
host_to_client_example =
    host_to_client showing plain-CodecLaws showing-VideoLaws bursts-SendLaws bursts-Progress
      bursts-Unbroken rounds frame_one (frame_two ∷ []) hosting_system 30 (now ∷ now ∷ now ∷ []) 100
      client (first_piece ∷ second_piece ∷ []) read_all refl refl refl (omega arith) (omega arith)
      (omega arith) (omega arith, (omega arith, (omega arith, tt))) (omega arith)
      (omega arith, (omega arith, (omega arith, tt))) client_listens client_idle
      (omega arith, (omega arith, (omega arith, tt))) pieces_frames received
