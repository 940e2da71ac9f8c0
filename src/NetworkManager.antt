-- ===== src/NetworkManager.antt =====
-- prototype/daemon/networking/network_manager.{hh,cc}: subscriptions, and the dispatch of what the
-- socket receives. `Cb` stands for the callbacks and `S` for the state that they share with the
-- caller; `call` is what a callback does to it with the bytes of an inner packet.
pub mod Poll
pub mod Delivery
pub mod Stream
pub mod Shared
pub mod Tasks
pub mod Processor
pub mod Runs
use friendviewer.Prelude.{
  ℕ, zero, suc, Bool, true, false, Option, none, some, List, [], ◌∷◌, ◌++◌, ◌==◌, length, get_elem?,
  if◌then◌else◌,
}
use friendviewer.Packet.{FvPacketType, FvPacket, PacketCodec, type_number}
use friendviewer.MessageManager
use friendviewer.MessageManager.{MessageManager, parse_blob, retrieve_message}
use friendviewer.ClientSocket.{
  Winsock, ClientSocket, ReceiveStatus, success, failure, continue, connect, send_data,
  receive_data,
}

-- What `std::async` was given: a callback and the bytes that the packet had for it.
pub record Task {ℓ} (Cb : Type ℓ) : Type ℓ where
  pub callback : Cb
  pub inner : List ℕ

-- The first component says whether the handler runs as a task.
abbrev pub Handlers {ℓ} : Type ℓ → Type ℓ
Handlers Cb = FvPacketType → List (Bool × Cb)

pub record NetworkManager {ℓ} (Cb : Type ℓ) : Type ℓ where
  pub socket : ClientSocket
  pub decode_mgr : MessageManager
  pub handlers : Handlers Cb
  pub connected : Bool
  pub nonblocking_tasks : List (Task Cb)

-- The constructor, but for the thread that it starts.
abbrev pub initial {ℓ} : {Cb : Type ℓ} → ClientSocket → NetworkManager Cb
initial c = record {
  socket = c;
  decode_mgr = MessageManager.initial;
  handlers = λ _. [];
  connected = false;
  nonblocking_tasks = [];
}

module _ {ℓ} {Cb : Type ℓ} where
  unfoldable pub subscribe_to_packet :
      NetworkManager Cb → FvPacketType → Cb → Bool → NetworkManager Cb
  subscribe_to_packet nm type handler task = record nm {
    handlers = λ t.
        if type_number t == type_number type
        then (task, handler) ∷ nm.handlers t
        else nm.handlers t;
  }

-- What a poll changes beside the parser: the shared state, the futures of this poll, newest
-- first, and those that nobody waits for.
pub record Dispatch {ℓ κ} (Cb : Type ℓ) (S : Type κ) : Type (ℓ ⊔ κ) where
  pub shared : S
  pub tasks : List (Task Cb)
  pub nonblocking_tasks : List (Task Cb)

module _ {ℓ κ} {Cb : Type ℓ} {S : Type κ} (call : Cb → S → List ℕ → S) (codec : PacketCodec) where
  -- The loop over the handlers of one packet. A task takes the packet by `std::move`.
  unfoldable pub call_handlers : Bool → FvPacket → List (Bool × Cb) → Dispatch Cb S → Dispatch Cb S
  call_handlers block packet [] d = d
  call_handlers block packet ((true, cb) ∷ rest) d =
      call_handlers block (codec.moved_from packet) rest (
        if block
        then record d { tasks = spawned ∷ d.tasks }
        else record d { nonblocking_tasks = d.nonblocking_tasks ++ (spawned ∷ []) })
    where
      spawned : Task Cb
      spawned = record { callback = cb; inner = packet.inner_packet }
  call_handlers block packet ((false, cb) ∷ rest) d =
      call_handlers block packet rest (record d { shared = call cb d.shared packet.inner_packet })

  -- Lines 66 and 67: one message.
  unfoldable pub handle_message : Bool → Handlers Cb → Dispatch Cb S → List ℕ → Dispatch Cb S
  handle_message block handlers d buffer =
      let packet = codec.parse buffer in call_handlers block packet (handlers packet.type) d

  -- The loop on `retrieve_message`. `none`: not ended within the fuel.
  unfoldable pub handle_messages :
      ℕ
      → Bool
      → Handlers Cb
      → List ℕ
      → MessageManager
      → Dispatch Cb S
      → Option (MessageManager × Dispatch Cb S)
  handle_messages zero block handlers buffer m d = none
  handle_messages (suc fuel) block handlers buffer m d =
      let (got, buffer', m') = retrieve_message m buffer in
      elim got [
        | false ↦ some (m', d)
        | true ↦
            handle_messages fuel block handlers buffer' m' (handle_message block handlers d buffer')
      ]

-- What `poll_network` leaves; it returns when the tasks in `waited` have ended.
pub record Polled {ℓ κ} (Cb : Type ℓ) (S : Type κ) (W : Type 0) : Type (ℓ ⊔ κ) where
  pub manager : NetworkManager Cb
  pub shared : S
  pub waited : List (Task Cb)
  pub world : W

module _ (ws : Winsock) where
  unfoldable pub connect_manager {ℓ} :
      {Cb : Type ℓ}
      → NetworkManager Cb
      → List ℕ
      → ℕ
      → ws.World
      → Bool × NetworkManager Cb × ws.World
  connect_manager nm address port w =
      let (ok, c, w') = connect ws nm.socket address port w in
      (ok, record nm { socket = c; connected = ok }, w')

  -- The result of `send_data` is dropped.
  unfoldable pub send_message {ℓ} :
      {Cb : Type ℓ} → ℕ → NetworkManager Cb → List ℕ → ws.World → Option ws.World
  send_message fuel nm message w = elim (send_data ws fuel nm.socket message w) [
    | none ↦ none
    | some (sent, w') ↦ some w'
  ]

module _ {ℓ κ} {Cb : Type ℓ} {S : Type κ} (ws : Winsock) (call : Cb → S → List ℕ → S)
    (codec : PacketCodec) where
  -- Lines 60 to 85: the blob that was received, with the queue's length for fuel.
  unfoldable pub poll_blob :
      Bool → NetworkManager Cb → S → List ℕ → ws.World → Option (Polled Cb S ws.World)
  poll_blob block nm shared blob w = elim (parse_blob nm.decode_mgr blob) [
    | none ↦ none
    | some m ↦
        elim (handle_messages call codec (suc (length m.message_buffers)) block nm.handlers blob m
          (record { shared = shared; tasks = []; nonblocking_tasks = nm.nonblocking_tasks })) [
            | none ↦ none
            | some (m', d) ↦ some (record {
              manager = record nm { decode_mgr = m'; nonblocking_tasks = d.nonblocking_tasks };
              shared = d.shared;
              waited = d.tasks;
              world = w;
            })
          ]
  ]

  abbrev pub unpolled : NetworkManager Cb → S → ws.World → Polled Cb S ws.World
  unpolled nm shared w = record { manager = nm; shared = shared; waited = []; world = w }

  -- Lines 52 to 85: by what `receive_data` returned.
  unfoldable pub poll_received :
      Bool
      → NetworkManager Cb
      → S
      → ReceiveStatus
      → List ℕ
      → ws.World
      → Option (Polled Cb S ws.World)
  poll_received block nm shared continue buffer w = some (unpolled nm shared w)
  poll_received block nm shared failure buffer w = some (unpolled nm shared w)
  poll_received block nm shared success buffer w = poll_blob block nm shared buffer w

  unfoldable pub poll_connected :
      ℕ → Bool → NetworkManager Cb → S → ws.World → Option (Polled Cb S ws.World)
  poll_connected fuel block nm shared w = elim (receive_data ws fuel nm.socket w) [
    | none ↦ none
    | some (status, buffer, w') ↦ poll_received block nm shared status buffer w'
  ]

  unfoldable pub poll_network :
      ℕ → Bool → NetworkManager Cb → S → ws.World → Option (Polled Cb S ws.World)
  poll_network fuel block nm shared w =
      if nm.connected then poll_connected fuel block nm shared w else some (unpolled nm shared w)

-- One pass of `async_task_processor` over the futures; `ready` is what `wait_for` answers.
-- The `i--` behind an `erase` and the `i++` of the loop leave the index as it is.
module _ {ℓ} {Cb : Type ℓ} (ready : Task Cb → Bool) where
  unfoldable pub erase_at : List (Task Cb) → ℕ → List (Task Cb)
  erase_at [] i = []
  erase_at (t ∷ ts) zero = ts
  erase_at (t ∷ ts) (suc i) = t ∷ erase_at ts i

  unfoldable pub sweep : ℕ → ℕ → List (Task Cb) → Option (List (Task Cb))
  sweep zero i tasks = none
  sweep (suc fuel) i tasks = elim (get_elem? tasks i) [
    | none ↦ some tasks
    | some t ↦ elim (ready t) [
      | true ↦ sweep fuel i (erase_at tasks i)
      | false ↦ sweep fuel (suc i) tasks
    ]
  ]
