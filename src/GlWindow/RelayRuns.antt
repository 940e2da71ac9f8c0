-- ===== src/GlWindow/RelayRuns.antt =====
-- A key that is pressed and released, a button and a move of the cursor to the upper edge, over the
-- network of Daemon/WireRuns.
use mathlib.Core.List.{flatten, filter_map, Perm}
use mathlib.Core.List.Perm
use friendviewer.Prelude.{ℕ, ◌≡◌, refl, some, List, [], ◌∷◌, ◌++◌, map, foldl, arith}
use friendviewer.Prelude.Words.{ℤ, pos, negsuc, le32}
use friendviewer.MessageManager.Wire.{frame, frames}
use friendviewer.ClientSocket.{success, receive_data, receive_loop}
use friendviewer.ClientSocket.Runs.{Net, quiet, opened}
use friendviewer.NetworkManager
use friendviewer.NetworkManager.{NetworkManager, subscribe_to_packet}
use friendviewer.NetworkManager.Stream.{Receives, piece, done}
use friendviewer.NetworkManager.Runs.{plain, plain-CodecLaws}
use friendviewer.Daemon.{Daemon}
use friendviewer.Daemon.Messages.{Inner}
use friendviewer.Daemon.Control.{subscribe_all}
use friendviewer.Daemon.Frame.{System, flush_all}
use friendviewer.Daemon.Frames.{run_frames}
use friendviewer.Daemon.Runs.{idle, now}
use friendviewer.Daemon.Turn.{IsListening}
use friendviewer.Daemon.WireRuns.{
  showing, bursts, bursts-SendLaws, bursts-Progress, bursts-Unbroken,
}
use friendviewer.Daemon.VideoRuns.{client, client_listens, client_idle}
use friendviewer.GlWindow.Mapping.{find_case, get_key_mapping}
use friendviewer.GlWindow.Remote.{
  WindowEvent, key_event, button_event, cursor_event, InputLaws, window_event, packet_of, task_of,
  action_of,
}
use friendviewer.GlWindow.Relay.{run_tasks, input_relay}
use friendviewer.GlWindow.Runs.{glfw, window}

written_int :
    (x y : ℕ) (m k : ℤ)
    → showing.inner.parse_control_input (
        showing.inner.serialize (
          Inner.control_input
            (record { abs_x = x; abs_y = y; mouse_bitfield = m; virtual_key = k })))
      ≡ record { abs_x = x; abs_y = y; mouse_bitfield = m; virtual_key = k }
written_int x y (pos m) (pos k) = refl
written_int x y (pos m) (negsuc k) = refl
written_int x y (negsuc m) (pos k) = refl
written_int x y (negsuc m) (negsuc k) = refl

showing-InputLaws : InputLaws showing
showing-InputLaws = record {
  parse_control_input-serialize =
      λ i h k. written_int i.abs_x i.abs_y i.mouse_bitfield i.virtual_key;
  minus_one_below = refl;
}

abbrev keep : ℕ → ℕ → ℕ
keep x n = x

abbrev events : List (WindowEvent ℕ)
events =
    key_event (pos 65) (pos 0) (pos 1) (pos 0)
    ∷ button_event 0 (pos 1) (pos 0)
    ∷ key_event (pos 65) (pos 0) (pos 0) (pos 0)
    ∷ cursor_event 30 0
    ∷ []

-- The button's task runs before that of the key.
abbrev order : List (WindowEvent ℕ)
order =
    button_event 0 (pos 1) (pos 0)
    ∷ key_event (pos 65) (pos 0) (pos 1) (pos 0)
    ∷ key_event (pos 65) (pos 0) (pos 0) (pos 0)
    ∷ cursor_event 30 0
    ∷ []

abbrev first_piece : List ℕ
first_piece = 7 ∷ 0 ∷ 0 ∷ 0 ∷ 10 ∷ 0 ∷ 0 ∷ 0 ∷ 0 ∷ 0 ∷ 65 ∷ 7 ∷ 0 ∷ []

abbrev second_piece : List ℕ
second_piece =
    0 ∷ 0 ∷ 10 ∷ 0 ∷ 0 ∷ 0 ∷ 1 ∷ 0 ∷ 0 ∷ 7 ∷ 0 ∷ 0 ∷ 0 ∷ 10 ∷ 0 ∷ 0 ∷ 0 ∷ 0 ∷ 0 ∷ 65 ∷ 7 ∷ 0 ∷ 0 ∷ 0
    ∷ 10 ∷ 30 ∷ 0 ∷ 0 ∷ 0 ∷ 0 ∷ 0 ∷ []

abbrev host : System ℕ Net
host = record client { world = record quiet { inbox = first_piece ∷ [] ∷ second_piece ∷ [] } }

abbrev read_first : Net
read_first = record quiet { inbox = second_piece ∷ [] }

abbrev read_all : Net
read_all = record quiet { inbox = [] }

receive_first : receive_data bursts 30 opened host.world ≡ some (success, first_piece, read_first)
unfolding receive_data receive_loop
receive_first = refl

receive_second : receive_data bursts 30 opened read_first ≡ some (success, second_piece, read_all)
unfolding receive_data receive_loop
receive_second = refl

received : Receives bursts 30 opened 2 (first_piece ∷ second_piece ∷ []) host.world read_all
received =
    piece (second_piece ∷ []) read_first first_piece receive_first
      (piece [] read_all second_piece receive_second done)

host_listens : IsListening showing bursts host
host_listens = record {
  on = client_listens.on;
  subscribed = client_listens.subscribed;
  taken = client_listens.taken;
  silent = client_listens.silent;
}

pieces_frames :
    flatten (first_piece ∷ second_piece ∷ [])
    ≡ frames (map plain.serialize (map (packet_of glfw showing keep window) events))
unfolding flatten frames frame le32 get_key_mapping find_case
pieces_frames = refl

input_relay_example :
    (sender : System ℕ Net) × (shown : System ℕ Net) × (after : Daemon ℕ) × (flush_all showing
        bursts 30
        (NetworkManager.initial opened)
        (foldl (λ x e. window_event glfw showing keep window e x) idle events)
        quiet
      ≡ some sender)
    × (sender.world.sent ≡ [] ++ flatten (first_piece ∷ second_piece ∷ []))
    × (run_frames showing bursts 30 100 (now ∷ now ∷ []) host ≡ some shown)
    × (shown.net_mgr.nonblocking_tasks ≡ [] ++ map (task_of glfw showing keep window) events)
    × (shown.daemon.effects ≡ [])
    × (run_tasks showing bursts now (map (task_of glfw showing keep window) order) shown.daemon
        ≡ some after)
    × (after.effects ≡ [] ++ filter_map (action_of glfw showing keep window) order)
    × Perm
        (filter_map (action_of glfw showing keep window) order)
        (filter_map (action_of glfw showing keep window) events)
unfolding subscribe_all subscribe_to_packet get_key_mapping find_case
input_relay_example =
    input_relay glfw showing keep window plain-CodecLaws showing-InputLaws bursts-SendLaws
      bursts-Progress bursts-Unbroken events order idle (NetworkManager.initial opened) quiet 30
      (now ∷ now ∷ []) 100 host (first_piece ∷ second_piece ∷ []) read_all now refl
      (omega arith, (omega arith, (omega arith, (omega arith, tt)))) (omega arith)
      (omega arith, (omega arith, (omega arith, (omega arith, tt)))) host_listens client_idle
      (omega arith, (omega arith, tt)) pieces_frames received (Perm.swap _ _ _)
      (omega arith, (omega arith, (omega arith, (omega arith, tt))))
