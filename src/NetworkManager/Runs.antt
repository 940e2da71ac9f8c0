-- ===== src/NetworkManager/Runs.antt =====
-- The network manager over the network of ClientSocket/Runs, with handlers that are numbers and a
-- shared list of what they were called on.
use mathlib.Core.List.{flatten}
use friendviewer.Prelude.{
  ℕ, zero, suc, ◌≡◌, refl, ap, Bool, true, false, some, List, [], ◌∷◌, ◌++◌, map, arith, ◌==◌,
  append-nil,
}
use friendviewer.Prelude.Words.{le32}
use friendviewer.Packet.{FvPacketType, FvPacket, PacketCodec, CodecLaws, type_number}
use friendviewer.MessageManager.{MessageManager}
use friendviewer.MessageManager.Wire.{frame, frames}
use friendviewer.MessageManager.RoundTrip.{IsIdle}
use friendviewer.ClientSocket.{success, continue, receive_data, receive_loop}
use friendviewer.ClientSocket.Runs.{Net, net, quiet, opened}
use friendviewer.NetworkManager
use friendviewer.NetworkManager.{
  NetworkManager, Task, Dispatch, Polled, call_handlers, poll_network, subscribe_to_packet,
  unpolled, sweep,
}
use friendviewer.NetworkManager.Poll.{polled}
use friendviewer.NetworkManager.Delivery.{delivered, call_handlers_moved, tasks_of}
use friendviewer.NetworkManager.Stream.{Receives, done, piece, nothing, polls, polls-packets}
use friendviewer.NetworkManager.Processor.{
  TaskStep, starts, passes, task_steps, waiting, added, task_steps-waiting,
}

abbrev read_type : ℕ → FvPacketType
read_type zero = FvPacketType.unspecified
read_type (suc zero) = FvPacketType.handshake
read_type (suc (suc zero)) = FvPacketType.server_message
read_type (suc (suc (suc zero))) = FvPacketType.new_user
read_type (suc (suc (suc (suc zero)))) = FvPacketType.user_list
read_type (suc (suc (suc (suc (suc zero))))) = FvPacketType.session_request
read_type (suc (suc (suc (suc (suc (suc zero)))))) = FvPacketType.session_close
read_type (suc (suc (suc (suc (suc (suc (suc zero))))))) = FvPacketType.heartbeat
read_type (suc (suc (suc (suc (suc (suc (suc (suc zero)))))))) = FvPacketType.video_params
read_type (suc (suc (suc (suc (suc (suc (suc (suc (suc zero))))))))) = FvPacketType.data_packet
read_type (suc (suc (suc (suc (suc (suc (suc (suc (suc (suc n)))))))))) = FvPacketType.control_input

abbrev read_packet : List ℕ → FvPacket
read_packet [] = record { type = FvPacketType.unspecified; inner_packet = [] }
read_packet (t ∷ inner) = record { type = read_type t; inner_packet = inner }

-- A packet as the number of its type and its bytes.
abbrev pub plain : PacketCodec
plain = record {
  serialize = λ p. type_number p.type ∷ p.inner_packet;
  parse = read_packet;
  moved_from = λ p. record p { inner_packet = [] };
}

read_type_number : (t : FvPacketType) → read_type (type_number t) ≡ t
read_type_number FvPacketType.unspecified = refl
read_type_number FvPacketType.handshake = refl
read_type_number FvPacketType.server_message = refl
read_type_number FvPacketType.new_user = refl
read_type_number FvPacketType.user_list = refl
read_type_number FvPacketType.session_request = refl
read_type_number FvPacketType.session_close = refl
read_type_number FvPacketType.heartbeat = refl
read_type_number FvPacketType.video_params = refl
read_type_number FvPacketType.data_packet = refl
read_type_number FvPacketType.control_input = refl

pub plain-CodecLaws : CodecLaws plain
plain-CodecLaws = record {
  parse-serialize =
      λ p. ap (λ t. record { type = t; inner_packet = p.inner_packet }) (read_type_number p.type);
}

abbrev log : ℕ → List (ℕ × List ℕ) → List ℕ → List (ℕ × List ℕ)
log cb calls bytes = calls ++ ((cb, bytes) ∷ [])

manager : NetworkManager ℕ
unfolding subscribe_to_packet
manager =
    record (subscribe_to_packet (NetworkManager.initial opened) FvPacketType.data_packet 40 false) {
      connected = true;
    }

abbrev packets : List FvPacket
packets =
    record { type = FvPacketType.data_packet; inner_packet = 7 ∷ 8 ∷ [] }
    ∷ record { type = FvPacketType.data_packet; inner_packet = 5 ∷ [] }
    ∷ []

abbrev busy_net : Net
busy_net = record quiet {
  inbox = (3 ∷ 0 ∷ 0 ∷ 0 ∷ 9 ∷ []) ∷ (7 ∷ 8 ∷ 2 ∷ 0 ∷ 0 ∷ 0 ∷ 9 ∷ 5 ∷ []) ∷ [];
}

abbrev read_net : Net
read_net = record quiet {
  inbox = [];
  received = 3 ∷ 0 ∷ 0 ∷ 0 ∷ 9 ∷ 7 ∷ 8 ∷ 2 ∷ 0 ∷ 0 ∷ 0 ∷ 9 ∷ 5 ∷ [];
}

receive_packets :
    receive_data net 3 opened busy_net
    ≡ some (success, frames (map plain.serialize packets), read_net)
unfolding receive_data receive_loop frames frame le32
receive_packets = refl

manager_idle : IsIdle manager.decode_mgr
unfolding manager
manager_idle = record { at_length = refl; nothing_open = refl; in_range = omega arith }

receive_rest : receive_data net 3 opened read_net ≡ some (continue, [], read_net)
unfolding receive_data receive_loop
receive_rest = refl

abbrev silent : Net
silent = record quiet { inbox = [] }

receive_nothing : receive_data net 3 opened silent ≡ some (continue, [], silent)
unfolding receive_data receive_loop
receive_nothing = refl

-- Two polls: the first one finds the packets, the second one nothing.
received : Receives net 3 opened 2 (frames (map plain.serialize packets) ∷ []) busy_net read_net
received =
    piece [] read_net (frames (map plain.serialize packets)) receive_packets
      (nothing read_net continue [] receive_rest (λ e. cc) done)

polls-packets_example :
    (m : MessageManager) × IsIdle m
    × (polls net log plain 2 3 manager [] busy_net
        ≡ some (
            polled net log plain manager m
              (delivered log plain-CodecLaws false manager.handlers
                (record { shared = []; tasks = []; nonblocking_tasks = [] })
                packets)
              read_net))
unfolding manager flatten
polls-packets_example =
    polls-packets net log plain-CodecLaws 2 3 manager [] (frames (map plain.serialize packets) ∷ [])
      packets busy_net read_net refl manager_idle refl (omega arith, (omega arith, tt))
      (append-nil _) received

call_handlers_moved_example :
    (call_handlers log plain false
      (record { type = FvPacketType.data_packet; inner_packet = 7 ∷ [] })
      (map (λ cb. (true, cb)) (1 ∷ 2 ∷ 3 ∷ []))
      (record { shared = []; tasks = []; nonblocking_tasks = [] })).nonblocking_tasks
    ≡ [] ++ (tasks_of log plain (7 ∷ []) (1 ∷ []) ++ tasks_of log plain [] (2 ∷ 3 ∷ []))
call_handlers_moved_example =
    call_handlers_moved log plain 1 (2 ∷ 3 ∷ [])
      (record { type = FvPacketType.data_packet; inner_packet = 7 ∷ [] })
      (record { shared = []; tasks = []; nonblocking_tasks = [] }) (λ p. refl)

abbrev even_task : Task ℕ → Bool
even_task t = t.callback == 2

abbrev started : List (Task ℕ)
started =
    record { callback = 2; inner = [] }
    ∷ record { callback = 2; inner = [] }
    ∷ record { callback = 3; inner = [] }
    ∷ []

abbrev steps : List (TaskStep ℕ)
steps =
    starts (record { callback = 5; inner = 1 ∷ [] })
    ∷ passes even_task
    ∷ starts (record { callback = 2; inner = [] })
    ∷ []

task_steps-waiting_example : task_steps steps started ≡ some (waiting steps started ++ added steps)
task_steps-waiting_example = task_steps-waiting steps started
