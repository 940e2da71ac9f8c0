-- ===== src/H264Encoder/Runs.antt =====
-- The encoder over the small libav: two packets, of which the first has the parameter sets.
use friendviewer.Prelude.{ℕ, ◌≡◌, ◌≢◌, refl, true, some, List, [], ◌∷◌, ◌++◌, arith}
use friendviewer.Libav.Bench.{Bench, bench, bench_live, quiet}
use friendviewer.H264Encoder.{
  H264Encoder, H264Params, initial, init, init_context, init_buffers, encode_frame,
  send_and_receive, receive, take_packet, seek_nalu, seek_from, seek_next, starts_nalu, bottom_up,
  rows_up, shutdown, get_pps_sps,
}
use friendviewer.H264Encoder.Host.{encode_rounds}
use friendviewer.H264Encoder.Again.{init_second_session}
use friendviewer.H264Encoder.Nalu.{long, short, stream, seek_nalu-stream}
use friendviewer.H264Encoder.Owned.{shutdown-encode_rounds-init}
use friendviewer.Daemon.Threads.{Encoded}

abbrev two_by_one : H264Params
two_by_one = record { width = 2; height = 1; bit_rate = 9; framerate_num = 30; framerate_den = 1 }

abbrev pub pixels : List ℕ
pixels = 1 ∷ 2 ∷ 3 ∷ 0 ∷ 4 ∷ 5 ∷ 6 ∷ 0 ∷ []

abbrev pub encoder : H264Encoder
encoder = record initial {
  encoder_context = some 3;
  sws_context = some 4;
  frame_buffer = some 5;
  packet_buffer = some 6;
  params = two_by_one;
}

abbrev pub started : Bench
started = record quiet { alive = 7 }

abbrev pub sets : List ℕ
sets = 0 ∷ 0 ∷ 0 ∷ 1 ∷ 103 ∷ 0 ∷ 0 ∷ 0 ∷ 1 ∷ 104 ∷ []

abbrev pub ended : Bench
ended = record started { packets = []; packet = 0 ∷ 0 ∷ 0 ∷ 1 ∷ 65 ∷ 8 ∷ [] }

abbrev pub first_part : List ℕ
first_part = 0 ∷ 0 ∷ 1 ∷ 101 ∷ 9 ∷ []

abbrev pub second_part : List ℕ
second_part = 0 ∷ 0 ∷ 0 ∷ 1 ∷ 65 ∷ 8 ∷ []

abbrev pub given : List (List ℕ)
given = (sets ++ first_part) ∷ second_part ∷ []

abbrev pub after_two : H264Encoder
after_two = record encoder { pts = 2; pps_sps = sets }

abbrev pub enc_one : Encoded
enc_one = record { packet_out = first_part; pps_sps = sets }

abbrev pub enc_two : Encoded
enc_two = record { packet_out = second_part; pps_sps = sets }

init_run : init bench two_by_one initial quiet ≡ some (true, encoder, started)
unfolding init init_context init_buffers
init_run = refl

pub two_rounds :
    encode_rounds bench (pixels ∷ pixels ∷ []) encoder started
    ≡ some (enc_one ∷ enc_two ∷ [], given, after_two, ended)
unfolding encode_rounds encode_frame send_and_receive receive take_packet seek_nalu seek_from
    seek_next starts_nalu bottom_up rows_up get_pps_sps
two_rounds = refl

pub sets_there : sets ≢ []
sets_there = ground arith

shutdown-encode_rounds-init_example : (shutdown bench after_two ended).1.alive ≡ 3
shutdown-encode_rounds-init_example =
    shutdown-encode_rounds-init bench_live 3 two_by_one (pixels ∷ pixels ∷ []) initial encoder
      after_two quiet started ended true (enc_one ∷ enc_two ∷ []) given refl init_run two_rounds

-- A session after that one, without `shutdown`.
abbrev again : H264Encoder
again = record after_two {
  encoder_context = some 7;
  sws_context = some 7;
  frame_buffer = some 7;
  packet_buffer = some 7;
}

abbrev restarted : Bench
restarted = record ended { packets = quiet.packets }

again_run : init bench two_by_one after_two restarted ≡ some (true, again, restarted)
unfolding init init_context init_buffers
again_run = refl

abbrev after_again : H264Encoder
after_again = record again { pts = 3 }

abbrev once : Bench
once = record restarted { packets = second_part ∷ []; packet = sets ++ first_part }

again_rounds :
    encode_rounds bench (pixels ∷ []) again restarted
    ≡ some (
      record { packet_out = sets ++ first_part; pps_sps = sets } ∷ [],
      (sets ++ first_part) ∷ [],
      after_again,
      once,
    )
unfolding encode_rounds encode_frame send_and_receive receive take_packet bottom_up rows_up
    get_pps_sps
again_rounds = refl

init_second_session_example :
    (sets ≡ sets) × ((sets ++ first_part) ∷ [] ≡ (sets ++ first_part) ∷ [])
init_second_session_example =
    init_second_session bench two_by_one after_two again after_again restarted restarted once true
      pixels [] (record { packet_out = sets ++ first_part; pps_sps = sets }) []
      ((sets ++ first_part) ∷ []) (ground arith) again_run again_rounds

seek_nalu-stream_example : seek_nalu (sets ++ first_part) 2 ≡ some 10
unfolding stream
seek_nalu-stream_example =
    seek_nalu-stream
      (record { code = long; payload = 103 ∷ [] } ∷ record { code = long; payload = 104 ∷ [] } ∷ [])
      short (101 ∷ 9 ∷ []) (ground arith, (ground arith, tt))
