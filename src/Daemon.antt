-- ===== src/Daemon.antt =====
-- prototype/daemon/daemon_backend_controller.{hh,cc}: the state of the daemon and its handlers.
-- Each handler is one step, but for the wait of `handle_heartbeat`, which is cut in two. Calls of
-- the codec, the window and the input component are recorded in the order in which they are made.
pub mod Messages
pub mod Control
pub mod Frame
pub mod Flush
pub mod Kept
pub mod Frames
pub mod Naming
pub mod Cli
pub mod Split
pub mod Terminal
pub mod Threads
pub mod Stream
pub mod Receiving
pub mod Turn
pub mod Arrival
pub mod Partial
pub mod Greeting
pub mod Hosting
pub mod Video
pub mod Steps
pub mod Unseen
pub mod Session
pub mod Runs
pub mod Main
pub mod FrameRuns
pub mod WireRuns
pub mod VideoRuns
use friendviewer.Prelude.{
  ℕ, zero, suc, ◌+◌, Bool, true, false, ◌&&◌, Option, none, some, List, [], ◌∷◌, ◌++◌, ◌==◌, ◌-◌,
  ◌/◌, ltb, if◌then◌else◌,
}
use friendviewer.Prelude.Words.{ℤ, pos, negsuc}
use friendviewer.Packet.{FvPacketType, FvPacket, PacketCodec}
use friendviewer.ChunkBuffer
use friendviewer.ChunkBuffer.{ChunkBuffer, enqueue_chunk, dequeue_chunk, clear}
use Messages.{ServerMessageType, VideoParams, Data, ControlInput, Inner, InnerCodec}

pub data SessionState : Type 0 where
  lobby client host : SessionState

-- A `std::thread *`: not set or deleted, to a thread that can be joined, or to one that was.
pub data ThreadPtr : Type 0 where
  dangling joinable joined : ThreadPtr

-- The calls of other components.
pub data Effect (Float : Type 0) : Type 0 where
  init_encoder : ℕ → ℕ → Effect Float
  shutdown_encoder : Effect Float
  init_decoder : VideoParams → Effect Float
  feed_decoder : List ℕ → Effect Float
  shutdown_decoder : Effect Float
  close_window : Effect Float
  create_window : ℕ → ℕ → Effect Float
  render_frame : List ℕ → Effect Float
  move_cursor : Float → Float → Effect Float
  send_input : ℤ → Effect Float

pub record Daemon (Float : Type 0) : Type 0 where
  pub running : Bool
  pub decode_buffer : ChunkBuffer (List ℕ)
  pub send_buffer : ChunkBuffer (List ℕ)
  pub encoded_buffer : ChunkBuffer Data
  pub connect_address : List ℕ
  pub connect_signal : Bool
  pub last_heartbeat_time : ℕ
  pub username : List ℕ
  pub remote_users : List (List ℕ)
  pub state : SessionState
  pub width : ℕ
  pub height : ℕ
  pub got_pps_sps : Bool
  pub encoder_running : Bool
  pub renderer_running : Bool
  pub decoder_running : Bool
  pub encoding_thread : ThreadPtr
  pub rendering_thread : ThreadPtr
  pub decoding_thread : ThreadPtr
  pub effects : List (Effect Float)

-- What the daemon takes from outside: the generated packets, `float`, and `double` with its cast to
-- `float`.
pub record Outside : Type 1 where
  pub Float : Type 0
  pub float_zero : Float
  pub float_minus_one : Float
  pub float_lt : Float → Float → Bool
  pub Double : Type 0
  pub to_float : Double → Float
  pub packets : PacketCodec
  pub inner : InnerCodec Float

abbrev pub handshake_magic : ℕ
handshake_magic = 0x12341234ABCDABCD

abbrev pub server_magic : ℕ
server_magic = 0xABCDABCABA123456

module _ {Float : Type 0} where
  unfoldable pub stop : Daemon Float → Daemon Float
  stop d = record d { running = false }

  abbrev pub effect : Effect Float → Daemon Float → Daemon Float
  effect e d = record d { effects = d.effects ++ (e ∷ []) }

  unfoldable pub handle_user_list : List (List ℕ) → Daemon Float → Daemon Float
  handle_user_list users d = record d { remote_users = users }

  -- Lines 283 to 291, once both threads were joined.
  abbrev pub closed_client : Daemon Float → Daemon Float
  closed_client d = record d {
    decoder_running = false;
    decoding_thread = joined;
    renderer_running = false;
    rendering_thread = dangling;
    effects = (d.effects ++ (close_window ∷ [])) ++ (shutdown_decoder ∷ []);
    state = lobby;
    decode_buffer = clear d.decode_buffer;
  }

  abbrev pub closed_host : Daemon Float → Daemon Float
  closed_host d = record d {
    encoder_running = false;
    encoding_thread = dangling;
    effects = d.effects ++ (shutdown_encoder ∷ []);
    state = lobby;
  }

  -- `join` on a pointer that is not to a thread is undefined, which is `none`. On a thread that was
  -- joined it throws; the handler is a task whose future nobody reads, so it ends there, and what
  -- it has changed stays.
  abbrev pub close_client : ThreadPtr → ThreadPtr → Daemon Float → Option (Daemon Float)
  close_client dangling rendering d = none
  close_client joined rendering d = some (record d { decoder_running = false })
  close_client joinable dangling d = none
  close_client joinable joined d =
      some
        (record d { decoder_running = false; decoding_thread = joined; renderer_running = false })
  close_client joinable joinable d = some (closed_client d)

  abbrev pub close_host : ThreadPtr → Daemon Float → Option (Daemon Float)
  close_host dangling d = none
  close_host joined d = some (record d { encoder_running = false })
  close_host joinable d = some (closed_host d)

  unfoldable pub close_session_inner : Daemon Float → Option (Daemon Float)
  close_session_inner d = elim d.state [
    | lobby ↦ some d
    | client ↦ close_client d.decoding_thread d.rendering_thread d
    | host ↦ close_host d.encoding_thread d
  ]

  unfoldable pub handle_session_close : Daemon Float → Option (Daemon Float)
  unfolding close_session_inner
  handle_session_close d = close_session_inner d

  unfoldable pub handle_session_request : Daemon Float → Daemon Float
  handle_session_request d = record d {
    effects = d.effects ++ (init_encoder d.width d.height ∷ []);
    encoder_running = true;
    encoding_thread = joinable;
  }

  -- `ready` is the result of the decoder's `init`, and `fed` is whether its `decode_packet` returns:
  -- this is called after an `init` that failed, too, and then may use a null pointer, which is
  -- `none`.
  unfoldable pub handle_video_params :
      Bool → Bool → VideoParams → Daemon Float → Option (Daemon Float)
  unfolding stop
  handle_video_params ready fed param d =
      let d' = if ready then d else stop d in
      let started = record d' {
        effects = (d.effects ++ (init_decoder param ∷ [])) ++ (feed_decoder param.pps_sps ∷ []);
        renderer_running = true;
        rendering_thread = joinable;
        decoding_thread = joinable;
        got_pps_sps = true;
      } in
      if fed then some started else none

  unfoldable pub handle_data : Data → Daemon Float → Daemon Float
  handle_data frame d = record d { encoded_buffer = enqueue_chunk d.encoded_buffer frame }

  -- Lines 199 to 204. `ticks` is the clock's rate; `duration_cast` drops the fraction.
  unfoldable pub check_heartbeat : ℕ → ℕ → Daemon Float → Daemon Float
  check_heartbeat ticks now d = if ltb 6 ((now - d.last_heartbeat_time) / ticks) then stop d else d
