-- ===== src/Daemon/Receiving.antt =====
-- prototype/daemon/daemon_backend_controller.cc, `run_frame` with the handlers of `init`: what turns
-- of a connected daemon's loop make of the packets that it receives.
use friendviewer.Prelude.{
  ℕ, ◌/◌, ◌-◌, ◌≤◌, ◌≡◌, refl, sym, ◌∙◌, ap, false, Option, some, List, [], ◌∷◌, ◌++◌, foldl, map,
  append-nil, append_assoc, arith,
}
use friendviewer.Packet.{FvPacketType, FvPacket}
use friendviewer.ChunkBuffer.{enqueue_chunk, dequeue_chunk}
use friendviewer.ClientSocket.{Winsock}
use friendviewer.NetworkManager.{
  NetworkManager, Task, Handlers, Dispatch, call_handlers, handle_message,
}
use friendviewer.Daemon.Messages.{Data}
use friendviewer.Daemon.{Daemon, Outside, check_heartbeat, handle_data}
use friendviewer.Daemon.Control.{Handler, Moment, handle}
use friendviewer.Daemon.Session.{handlers_of}
use friendviewer.Daemon.Frame.{run_handler, flush, flush_all}

module _ (o : Outside) where
  open o use {Float, packets, inner}

  -- What a packet puts into the buffer of encoded frames.
  abbrev pub data_in : FvPacketType → List ℕ → List Data
  data_in FvPacketType.data_packet bytes = inner.parse_data bytes ∷ []
  data_in _ bytes = []

  -- The task that a packet starts.
  abbrev pub task_in : FvPacketType → List ℕ → List (Task Handler)
  task_in FvPacketType.data_packet bytes = []
  task_in type bytes = map (λ h. record { callback = h.1; inner = bytes }) (handlers_of type)

  -- The same of packets, in their order.
  unfoldable pub data_of_packets : List FvPacket → List Data
  data_of_packets [] = []
  data_of_packets (p ∷ ps) = data_in p.type p.inner_packet ++ data_of_packets ps

  unfoldable pub tasks_of_packets : List FvPacket → List (Task Handler)
  tasks_of_packets [] = []
  tasks_of_packets (p ∷ ps) = task_in p.type p.inner_packet ++ tasks_of_packets ps

  abbrev pub with_data : Daemon Float → List Data → Daemon Float
  with_data d more = record d { encoded_buffer = record { queue = d.encoded_buffer.queue ++ more } }

  abbrev pub outcome :
      Daemon Float
      → List (Task Handler)
      → List Data
      → List (Task Handler)
      → Dispatch Handler (Option (Daemon Float))
  outcome d started more tasks = record {
    shared = some (with_data d more);
    tasks = [];
    nonblocking_tasks = started ++ tasks;
  }

  -- Packets behind others.
  pub data_of_packets-append :
      (ps qs : List FvPacket)
      → data_of_packets (ps ++ qs) ≡ data_of_packets ps ++ data_of_packets qs
  unfolding data_of_packets
  data_of_packets-append [] qs = refl
  data_of_packets-append (p ∷ ps) qs =
      ap (◌++◌ (data_in p.type p.inner_packet)) (data_of_packets-append ps qs)
      ∙ sym (append_assoc (data_in p.type p.inner_packet) _ _)

  pub tasks_of_packets-append :
      (ps qs : List FvPacket)
      → tasks_of_packets (ps ++ qs) ≡ tasks_of_packets ps ++ tasks_of_packets qs
  unfolding tasks_of_packets
  tasks_of_packets-append [] qs = refl
  tasks_of_packets-append (p ∷ ps) qs =
      ap (◌++◌ (task_in p.type p.inner_packet)) (tasks_of_packets-append ps qs)
      ∙ sym (append_assoc (task_in p.type p.inner_packet) _ _)

module _ (o : Outside) (ws : Winsock) where
  open o use {Float, packets, inner}

  call_handlers-type :
      (type : FvPacketType) (bytes : List ℕ) (t : Moment) (d : Daemon Float)
      (started : List (Task Handler))
      → call_handlers
          (run_handler o ws t)
          packets
          false
          (record { type = type; inner_packet = bytes })
          (handlers_of type)
          (record { shared = some d; tasks = []; nonblocking_tasks = started })
        ≡ outcome o d started (data_in o type bytes) (task_in o type bytes)
  unfolding call_handlers run_handler handle handle_data enqueue_chunk
  call_handlers-type FvPacketType.data_packet bytes t d started = rw append-nil refl
  call_handlers-type FvPacketType.unspecified bytes t d started =
      rw (append-nil d.encoded_buffer.queue, append-nil started) refl
  call_handlers-type FvPacketType.new_user bytes t d started =
      rw (append-nil d.encoded_buffer.queue, append-nil started) refl
  call_handlers-type _ bytes t d started = rw (append-nil d.encoded_buffer.queue) refl

  -- The dispatch of messages, by the packets that they hold.
  pub handle_messages-outcome :
      (messages : List (List ℕ)) (handlers : Handlers Handler) (t : Moment) (d : Daemon Float)
      (started : List (Task Handler))
      → ((type : FvPacketType) → handlers type ≡ handlers_of type)
      → foldl
          (handle_message (run_handler o ws t) packets false handlers)
          (record { shared = some d; tasks = []; nonblocking_tasks = started })
          messages
        ≡ outcome o d started
            (data_of_packets o (map packets.parse messages))
            (tasks_of_packets o (map packets.parse messages))
  unfolding handle_message data_of_packets tasks_of_packets
  handle_messages-outcome [] handlers t d started h =
      rw (append-nil d.encoded_buffer.queue, append-nil started) refl
  handle_messages-outcome (x ∷ xs) handlers t d started h =
      let p = packets.parse x in
      let data1 = data_in o p.type p.inner_packet in
      let tasks1 = task_in o p.type p.inner_packet in
      let start : Dispatch Handler (Option (Daemon Float)) = record {
        shared = some d;
        tasks = [];
        nonblocking_tasks = started;
      } in
      let rounds = foldl (handle_message (run_handler o ws t) packets false handlers) in
      ap (λ hs. rounds (call_handlers (run_handler o ws t) packets false p hs start) xs) (h p.type)
      ∙ ap (λ s. rounds s xs) (call_handlers-type p.type p.inner_packet t d started)
      ∙ handle_messages-outcome xs handlers t (with_data o d data1) (started ++ tasks1) h
      ∙ rw (append_assoc d.encoded_buffer.queue data1 _, append_assoc started tasks1 _) refl

  pub flush_all-nothing :
      (fuel : ℕ) (nm : NetworkManager Handler) (d : Daemon Float) (w : ws.World)
      → d.send_buffer.queue ≡ []
      → flush_all o ws fuel nm d w ≡ some (record { daemon = d; net_mgr = nm; world = w })
  unfolding flush_all flush dequeue_chunk
  flush_all-nothing fuel nm d w e = ground arith

  pub check_heartbeat-timely :
      (ticks now : ℕ) (d : Daemon Float)
      → (now - d.last_heartbeat_time) / ticks ≤ 6
      → check_heartbeat ticks now d ≡ d
  unfolding check_heartbeat
  check_heartbeat-timely ticks now d h = ground arith
