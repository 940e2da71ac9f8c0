-- ===== src/Daemon/FrameRuns.antt =====
-- Turns of the daemon's loop, lines of the terminal and the threads of a session, at concrete inputs.
use friendviewer.Prelude.{
  Option, Bool, ℕ, ◌≡◌, refl, ap, true, false, none, some, List, [], ◌∷◌, ◌++◌, arith,
}
use friendviewer.MessageManager.Wire.{frames}
use friendviewer.ChunkBuffer
use friendviewer.ChunkBuffer.{ChunkBuffer, dequeue_chunk}
use friendviewer.ClientSocket.{Winsock, continue, connect, receive_data, receive_loop}
use friendviewer.ClientSocket.SendEnds.{Unbroken}
use friendviewer.ClientSocket.Runs.{Net, net, quiet, opened, net-SendLaws, net-Progress}
use friendviewer.NetworkManager
use friendviewer.NetworkManager.{NetworkManager, poll_network, poll_connected, poll_received}
use friendviewer.Daemon.Messages.{Data}
use friendviewer.Daemon.{Daemon, check_heartbeat, stop}
use friendviewer.Daemon.Control.{Handler}
use friendviewer.Daemon.Frame.{fv_dist_port, System, flush, flush_all, frame_connected, run_frame}
use friendviewer.Daemon.Threads.{Encoded}
use friendviewer.Daemon.Flush.{flush_all-frames}
use friendviewer.Daemon.Frames.{run_frames, run_frames_waits, greeting, run_frame_greets}
use friendviewer.Daemon.Greeting.{run_frames_greet}
use friendviewer.Daemon.Main.{main_loop, main_loop_late}
use friendviewer.Daemon.Split.{text, tokens, split-tokens}
use friendviewer.Daemon.Cli.{split}
use friendviewer.Daemon.Runs.{outside, idle, in_session, now}

-- A network that does not break: it always asks again.
net-Unbroken : Unbroken net
net-Unbroken = record { asks_again = λ w s bytes e. refl }

abbrev speaking : Daemon ℕ
speaking = record idle { send_buffer = record { queue = (7 ∷ []) ∷ (8 ∷ 9 ∷ []) ∷ [] } }

abbrev manager : NetworkManager Handler
manager = NetworkManager.initial opened

flush_all-frames_example :
    (w : Net) × (flush_all outside net 20 manager speaking quiet
      ≡ some (record {
        daemon = record speaking { send_buffer = ChunkBuffer.empty };
        net_mgr = manager;
        world = w;
      }))
    × (w.sent ≡ [] ++ frames ((7 ∷ []) ∷ (8 ∷ 9 ∷ []) ∷ []))
flush_all-frames_example =
    flush_all-frames outside net-SendLaws net-Progress net-Unbroken 20 manager speaking quiet
      (omega arith) (omega arith, (omega arith, tt)) (omega arith, (omega arith, tt))

split-tokens_example :
    split (text b' ' ((97 ∷ []) ∷ (98 ∷ []) ∷ []) (99 ∷ [])) b' '
    ≡ some (tokens b' ' 0 ((97 ∷ []) ∷ (98 ∷ []) ∷ []) (99 ∷ []))
split-tokens_example =
    split-tokens b' ' ((97 ∷ []) ∷ (98 ∷ []) ∷ []) (99 ∷ [])
      (((λ e. cc), tt), (((λ e. cc), tt), tt)) ((λ e. cc), tt)

abbrev connected_manager : NetworkManager Handler
connected_manager = record manager { connected = true }

abbrev silent : Net
silent = record quiet { inbox = [] }

-- A connected daemon whose terminal has just read `connect`.
abbrev waiting : System ℕ Net
waiting = record {
  daemon = record idle { connect_signal = true };
  net_mgr = connected_manager;
  world = silent;
}

abbrev stopped : System ℕ Net
stopped = record waiting { daemon = record (waiting.daemon) { running = false } }

late_frame : run_frame outside net 3 10 now waiting ≡ some stopped
unfolding run_frame frame_connected check_heartbeat stop poll_network poll_connected poll_received
    receive_data receive_loop flush_all flush dequeue_chunk
late_frame = refl

main_loop_late_example :
    (main_loop outside net 3 10 (now ∷ now ∷ []) waiting ≡ some stopped)
    × (stopped.daemon.running ≡ false)
main_loop_late_example =
    main_loop_late outside net 3 10 now (now ∷ []) waiting stopped refl refl (omega arith)
      late_frame

two_frames : run_frames outside net 3 10 (now ∷ now ∷ []) waiting ≡ some stopped
unfolding run_frames run_frame frame_connected check_heartbeat stop poll_network poll_connected
    poll_received receive_data receive_loop flush_all flush dequeue_chunk
two_frames = refl

run_frames_waits_example :
    (connected_manager.connected ≡ true) × (stopped.daemon.connect_signal ≡ true)
run_frames_waits_example =
    run_frames_waits outside net (now ∷ now ∷ []) 3 10 waiting stopped refl refl two_frames

-- A network on which nothing answers.
abbrev unreachable : Winsock
unreachable = record net { connect_to = λ n s a p. (false, n) }

abbrev dialing : System ℕ Net
dialing = record {
  daemon = record idle { connect_signal = true };
  net_mgr = manager;
  world = silent;
}

dial_fails : (connect unreachable opened (49 ∷ []) fv_dist_port silent).0 ≡ false
unfolding connect
dial_fails = refl

run_frame_greets_example :
    (s : System ℕ Net) × (run_frame outside unreachable 3 10 now dialing ≡ some s)
    × (s.daemon.send_buffer.queue ≡ [] ++ greeting outside net 200)
    × (s.daemon.connect_signal ≡ false)
    × (run_frame outside unreachable 3 10 now s ≡ some s)
run_frame_greets_example =
    run_frame_greets outside unreachable 3 10 now now dialing refl refl dial_fails

abbrev frame_one : Encoded
frame_one = record { packet_out = 5 ∷ []; pps_sps = 103 ∷ [] }

-- A decoder that needs one packet before it gives frames.
abbrev slow_decode : Bool → List ℕ → Bool × Option (List ℕ)
slow_decode false bytes = (true, none)
slow_decode true bytes = (true, some bytes)

abbrev data_two : List Data
data_two =
    record { pts = 0; dts = 0; encoded_frame = 5 ∷ [] }
    ∷ record { pts = 1; dts = 0; encoded_frame = 6 ∷ [] }
    ∷ []

abbrev watching : Daemon ℕ
watching = record in_session {
  encoded_buffer = record { queue = data_two };
  decoder_running = true;
  renderer_running = true;
  got_pps_sps = true;
}

-- A daemon with a packet that waits, on a network that connects.
abbrev calling : System ℕ Net
calling = record dialing {
  daemon = record (dialing.daemon) { send_buffer = record { queue = (7 ∷ []) ∷ [] } };
}

dial_works :
    connect net opened (49 ∷ []) fv_dist_port silent
    ≡ (true, record opened { port = fv_dist_port }, silent)
unfolding connect
dial_works = refl

nothing_there :
    receive_data net 20
      (connect net opened (49 ∷ []) fv_dist_port silent).1
      (connect net opened (49 ∷ []) fv_dist_port silent).2
    ≡ some (continue, [], silent)
unfolding connect receive_data receive_loop
nothing_there = refl

run_frames_greet_example :
    (s : System ℕ Net) × (run_frames outside net 20 10 (now ∷ now ∷ []) calling ≡ some s)
    × (s.net_mgr.connected ≡ true)
    × (s.daemon.connect_signal ≡ false)
    × (s.daemon.send_buffer.queue ≡ [])
    × (s.world.sent ≡ [] ++ frames ((7 ∷ []) ∷ greeting outside net 200))
run_frames_greet_example =
    run_frames_greet outside net-SendLaws net-Progress net-Unbroken 20 10 now now calling silent
      continue [] refl refl (ap (λ r. r.0) dial_works) nothing_there (λ e. cc) (omega arith)
      (omega arith) (omega arith, (omega arith, (omega arith, tt)))
      (omega arith, (omega arith, (omega arith, tt)))
