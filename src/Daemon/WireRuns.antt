-- ===== src/Daemon/WireRuns.antt =====
-- What two daemons run on in the examples: inner packets that are written as their numbers and their
-- bytes, and a network that delivers in bursts.
use friendviewer.Prelude.{Option, ℕ, zero, suc, refl, none, some, List, [], ◌∷◌, ◌++◌}
use friendviewer.Prelude.Words.{ℤ, pos, negsuc}
use friendviewer.ClientSocket.{Winsock}
use friendviewer.ClientSocket.Send.{SendLaws}
use friendviewer.ClientSocket.SendEnds.{Progress, Unbroken}
use friendviewer.ClientSocket.Runs.{Net, net, net-SendLaws, net-Progress}
use friendviewer.Daemon.Messages.{VideoParams, Data, ControlInput, Inner, VideoLaws}
use friendviewer.Daemon.{Outside}
use friendviewer.Daemon.Runs.{small_inner, outside}

abbrev write_int : ℤ → List ℕ
write_int (pos n) = 0 ∷ n ∷ []
write_int (negsuc n) = 1 ∷ n ∷ []

abbrev read_int : ℕ → ℕ → ℤ
read_int zero n = pos n
read_int (suc sign) n = negsuc n

abbrev write_inner : Inner ℕ → List ℕ
write_inner (Inner.video_params p) =
    p.width ∷ p.height ∷ p.framerate_num ∷ p.framerate_denom ∷ p.pps_sps
write_inner (Inner.data_packet d) = d.pts ∷ d.dts ∷ d.encoded_frame
write_inner (Inner.control_input c) =
    c.abs_x ∷ c.abs_y ∷ (write_int c.mouse_bitfield ++ write_int c.virtual_key)
write_inner _ = 1 ∷ []

abbrev pub read_params : List ℕ → VideoParams
read_params (w ∷ h ∷ n ∷ d ∷ sets) = record {
  width = w;
  height = h;
  pps_sps = sets;
  framerate_num = n;
  framerate_denom = d;
}
read_params _ = record {
  width = 0;
  height = 0;
  pps_sps = [];
  framerate_num = 0;
  framerate_denom = 0;
}

abbrev read_data : List ℕ → Data
read_data (p ∷ d ∷ bytes) = record { pts = p; dts = d; encoded_frame = bytes }
read_data _ = record { pts = 0; dts = 0; encoded_frame = [] }

abbrev read_input : List ℕ → ControlInput ℕ
read_input (x ∷ y ∷ s ∷ m ∷ r ∷ k ∷ rest) = record {
  abs_x = x;
  abs_y = y;
  mouse_bitfield = read_int s m;
  virtual_key = read_int r k;
}
read_input _ = record { abs_x = 0; abs_y = 0; mouse_bitfield = pos 0; virtual_key = pos 0 }

abbrev pub showing : Outside
showing = record outside {
  inner = record small_inner {
    serialize = write_inner;
    parse_video_params = read_params;
    parse_data = read_data;
    parse_control_input = read_input;
  };
}

pub showing-VideoLaws : VideoLaws showing.inner
showing-VideoLaws = record {
  parse_data-serialize = λ d h k. refl;
  parse_video_params-serialize = λ p a b c d. refl;
}

-- An empty chunk of the inbox stands for a pause.
abbrev burst_recv : Net → List (List ℕ) → Option (List ℕ) × Net
burst_recv n [] = (none, n)
burst_recv n ([] ∷ rest) = (none, record n { inbox = rest })
burst_recv n ((b ∷ bs) ∷ rest) = (some (b ∷ bs), record n { inbox = rest })

abbrev pub bursts : Winsock
bursts = record net { recv = λ n s k. burst_recv n n.inbox }

abbrev pub bursts-SendLaws : SendLaws bursts
bursts-SendLaws = record {
  sent = λ n s. n.sent;
  accepts = net-SendLaws.accepts;
  refuses = net-SendLaws.refuses;
}

abbrev pub bursts-Progress : Progress bursts
bursts-Progress = record {
  busy = λ n. n.tries;
  keeps = net-Progress.keeps;
  takes = net-Progress.takes;
  waits = net-Progress.waits;
}

pub bursts-Unbroken : Unbroken bursts
bursts-Unbroken = record { asks_again = λ w s bytes e. refl }
