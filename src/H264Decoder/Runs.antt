-- ===== src/H264Decoder/Runs.antt =====
-- The decoder over the small libav, from `init` to the frames that wait for the window.
use friendviewer.Prelude.{
  ℕ, ◌*◌, ◌≡◌, ◌↔◌, refl, true, false, some, List, [], ◌∷◌, length, arith, length-replicate, All,
}
use friendviewer.Prelude.Words.{pos}
use friendviewer.Libav.{is_error}
use friendviewer.Libav.Bench.{Bench, bench, quiet}
use friendviewer.H264Decoder.{
  H264Decoder, H264Params, DecodeStatus, success, initial, init, init_frame, init_packet,
  init_scaler, decode_packet,
}
use friendviewer.H264Decoder.Result.{FrameLaws, Ready, Sized, decode_packet_outcome}
use friendviewer.H264Decoder.Host.{decode_of, init-handle_decode}
use friendviewer.Daemon.{Daemon}
use friendviewer.Daemon.Messages.{Data}
use friendviewer.Daemon.Threads.{handle_decode}
use friendviewer.Daemon.Runs.{in_session}

abbrev laws : FrameLaws bench
laws = record {
  eagain_negative = refl;
  eof_negative = refl;
  scales_within = λ w s f height stride.
      let grey : ℕ = 127 in omega (arith, length-replicate (height * stride) grey);
}

abbrev two_by_one : H264Params
two_by_one = record { width = 2; height = 1; bit_rate = 0; framerate_num = 30; framerate_den = 1 }

abbrev decoder : H264Decoder
decoder = record initial {
  decoder_context = some 3;
  frame_buffer = some 4;
  packet_buffer = some 5;
  sws_context = some 6;
  width = 2;
  height = 1;
}

abbrev decoder-Ready : Ready decoder
decoder-Ready = record {
  context = 3;
  scaler = 6;
  frame = 4;
  packet = 5;
  has_context = refl;
  has_scaler = refl;
  has_frame = refl;
  has_packet = refl;
  fits = omega arith;
  some_bytes = omega arith;
}

started : (init bench two_by_one initial quiet).0 ≡ true
unfolding init init_frame init_packet init_scaler
started = refl

decode_packet_outcome_example :
    (status : DecodeStatus) × (out' : List ℕ) × (w' : Bench) × (decode_packet bench
        (9 ∷ [])
        decoder
        []
        quiet
      ≡ some (status, out', w'))
    × Sized decoder status [] out'
    × ((status ≡ success) ↔ ((is_error (pos 0) ≡ false) × (is_error (pos 0) ≡ false)))
decode_packet_outcome_example = decode_packet_outcome laws (9 ∷ []) decoder [] quiet decoder-Ready

-- The second packet is empty, which libav refuses.
abbrev two_packets : List Data
two_packets =
    record { pts = 0; dts = 0; encoded_frame = 5 ∷ [] }
    ∷ record { pts = 1; dts = 0; encoded_frame = [] }
    ∷ []

abbrev watching : Daemon ℕ
watching = record in_session {
  encoded_buffer = record { queue = two_packets };
  decode_buffer = record { queue = (1 ∷ 2 ∷ 3 ∷ 4 ∷ 5 ∷ 6 ∷ []) ∷ [] };
  decoder_running = true;
  got_pps_sps = true;
}

init-handle_decode_example :
    let (_, d1, w1) = init bench two_by_one initial quiet in
    ((handle_decode (decode_of bench) 2 ((d1, w1), watching)).1.encoded_buffer.queue ≡ [])
    × All
        (λ frame. length frame ≡ 6)
        (handle_decode (decode_of bench) 2 ((d1, w1), watching)).1.decode_buffer.queue
init-handle_decode_example =
    init-handle_decode laws two_by_one initial quiet two_packets watching started (omega arith)
      (omega arith) refl refl refl (refl, tt)
