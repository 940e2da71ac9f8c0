-- ===== src/H264Encoder/ClientRuns.antt =====
-- Two rounds of the encoder of Runs, shown to the client of Daemon/VideoRuns.
use mathlib.Core.List.{flatten}
use friendviewer.Prelude.{ℕ, ◌≡◌, refl, some, List, [], ◌∷◌, ◌++◌, map, arith}
use friendviewer.Prelude.Words.{le32}
use friendviewer.MessageManager.Wire.{frame, frames}
use friendviewer.ClientSocket.{success, receive_data, receive_loop}
use friendviewer.ClientSocket.Runs.{Net, quiet, opened}
use friendviewer.NetworkManager.{subscribe_to_packet}
use friendviewer.NetworkManager.Stream.{Receives, piece, done}
use friendviewer.NetworkManager.Runs.{plain, plain-CodecLaws}
use friendviewer.Daemon.Messages.{Data}
use friendviewer.Daemon.Control.{on_video_params, subscribe_all}
use friendviewer.Daemon.Frame.{System}
use friendviewer.Daemon.Frames.{run_frames}
use friendviewer.Daemon.Threads.{Encoding, first_encoding}
use friendviewer.Daemon.Hosting.{HostStep, encodes, sends, host_steps}
use friendviewer.Daemon.Turn.{IsListening}
use friendviewer.Daemon.Video.{video_packets}
use friendviewer.Daemon.Runs.{now}
use friendviewer.Daemon.WireRuns.{
  read_params, showing, showing-VideoLaws, bursts, bursts-SendLaws, bursts-Progress,
  bursts-Unbroken,
}
use friendviewer.Daemon.VideoRuns.{hosting, hosting_system, client, client_listens, client_idle}
use friendviewer.Libav.Bench.{bench}
use friendviewer.H264Encoder.Runs.{
  pixels, encoder, started, given, after_two, ended, enc_one, enc_two, two_rounds, sets_there,
}
use friendviewer.H264Encoder.Client.{encoder_to_client}

abbrev stream : List ℕ
stream =
    15 ∷ 0 ∷ 0 ∷ 0 ∷ 8 ∷ 4 ∷ 2 ∷ 30 ∷ 1 ∷ 0 ∷ 0 ∷ 0 ∷ 1 ∷ 103 ∷ 0 ∷ 0 ∷ 0 ∷ 1 ∷ 104 ∷ 8 ∷ 0 ∷ 0 ∷ 0
    ∷ 9 ∷ 0 ∷ 0 ∷ 0 ∷ 0 ∷ 1 ∷ 101 ∷ 9 ∷ 9 ∷ 0 ∷ 0 ∷ 0 ∷ 9 ∷ 1 ∷ 0 ∷ 0 ∷ 0 ∷ 0 ∷ 1 ∷ 65 ∷ 8 ∷ []

abbrev watching : System ℕ Net
watching = record client { world = record quiet { inbox = stream ∷ [] } }

abbrev read_all : Net
read_all = record quiet { inbox = [] }

receive_stream : receive_data bursts 30 opened watching.world ≡ some (success, stream, read_all)
unfolding receive_data receive_loop
receive_stream = refl

received : Receives bursts 30 opened 1 (stream ∷ []) watching.world read_all
received = piece [] read_all stream receive_stream done

watching_listens : IsListening showing bursts watching
watching_listens = record {
  on = client_listens.on;
  subscribed = client_listens.subscribed;
  taken = client_listens.taken;
  silent = client_listens.silent;
}

stream-frames :
    flatten (stream ∷ [])
    ≡ frames (map plain.serialize (video_packets showing hosting enc_one (enc_two ∷ [])))
unfolding flatten frames frame le32
stream-frames = refl

abbrev rounds : List HostStep
rounds = encodes enc_one ∷ sends ∷ encodes enc_two ∷ []

encoder_to_client_example :
    (v : Encoding) × (host : System ℕ Net) × (shown : System ℕ Net) × (bytes : List ℕ) × (ds : List
      Data)
    × (host_steps showing bursts 30 (rounds ++ (sends ∷ [])) (first_encoding, hosting_system)
        ≡ some (v, host))
    × (host.world.sent ≡ [] ++ flatten (stream ∷ []))
    × (run_frames showing bursts 30 100 (now ∷ []) watching ≡ some shown)
    × (shown.daemon.encoded_buffer.queue ≡ [] ++ ds)
    × (shown.net_mgr.nonblocking_tasks
        ≡ [] ++ (record { callback = on_video_params; inner = bytes } ∷ []))
    × ((read_params bytes).pps_sps ++ flatten (map (λ (d : Data). d.encoded_frame) ds)
        ≡ flatten given)
unfolding subscribe_all subscribe_to_packet
encoder_to_client_example =
    encoder_to_client bench showing plain-CodecLaws showing-VideoLaws pixels (pixels ∷ []) encoder
      after_two started ended given bursts-SendLaws bursts-Progress bursts-Unbroken rounds enc_one
      (enc_two ∷ []) hosting_system 30 (now ∷ []) 100 watching (stream ∷ []) read_all refl refl
      two_rounds sets_there refl refl refl (omega arith) (omega arith) (omega arith)
      (omega arith, (omega arith, (omega arith, tt))) (omega arith)
      (omega arith, (omega arith, (omega arith, tt))) watching_listens client_idle (omega arith, tt)
      stream-frames received
