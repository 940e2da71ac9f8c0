-- ===== src/NetworkManager/Poll.antt =====
-- What a poll does with the messages that it receives.
use mathlib.Core.Path.{subst}
use friendviewer.Prelude.{
  ℕ, zero, suc, ◌<◌, ◌≡◌, refl, sym, ◌∙◌, ap, inl, inr, Bool, true, false, Bool-cases, Option, some,
  List, [], ◌∷◌, ◌++◌, foldl, arith, length, All, if◌then◌else◌, ◌≢◌,
}
use friendviewer.Packet.{PacketCodec}
use friendviewer.MessageManager.{MessageManager, parse_blob, retrieve_message}
use friendviewer.MessageManager.Wire.{frames}
use friendviewer.MessageManager.RoundTrip.{IsShort, IsIdle, parse_blob-frames}
use friendviewer.MessageManager.Queue.{retrieve_front, retrieve_empty}
use friendviewer.ClientSocket.{Winsock, ReceiveStatus, success, failure, continue, receive_data}
use friendviewer.NetworkManager.{
  NetworkManager, Handlers, Dispatch, Polled, handle_message, handle_messages, unpolled, poll_blob,
  poll_received, poll_connected, poll_network,
}

module _ {ℓ κ} {Cb : Type ℓ} {S : Type κ} (call : Cb → S → List ℕ → S) (codec : PacketCodec) where
  -- One round of the loop, from what `retrieve_message` returns.
  unfoldable pub round :
      ℕ
      → Bool
      → Handlers Cb
      → Dispatch Cb S
      → Bool × List ℕ × MessageManager
      → Option (MessageManager × Dispatch Cb S)
  round fuel block handlers d (got, buffer, m) = elim got [
    | false ↦ some (m, d)
    | true ↦
        handle_messages call codec fuel block handlers buffer m
          (handle_message call codec block handlers d buffer)
  ]

  pub handle_messages-round :
      (fuel : ℕ) (block : Bool) (handlers : Handlers Cb) (buffer : List ℕ) (m : MessageManager)
      (d : Dispatch Cb S)
      → handle_messages call codec (suc fuel) block handlers buffer m d
        ≡ round fuel block handlers d (retrieve_message m buffer)
  unfolding handle_messages round
  handle_messages-round fuel block handlers buffer m d = refl

  handle_messages-fold :
      (queue : List (List ℕ)) (fuel : ℕ) (block : Bool) (handlers : Handlers Cb) (buffer : List ℕ)
      (m : MessageManager) (d : Dispatch Cb S)
      → m.message_buffers ≡ queue
      → All IsShort queue
      → length queue < fuel
      → handle_messages call codec fuel block handlers buffer m d
        ≡ some (
          record m { message_buffers = [] },
          foldl (handle_message call codec block handlers) d queue,
        )
  unfolding round
  handle_messages-fold queue zero block handlers buffer m d e h k = absurd (omega arith)
  handle_messages-fold [] (suc fuel) block handlers buffer m d e h k =
      handle_messages-round fuel block handlers buffer m d
      ∙ ap (round fuel block handlers d) (retrieve_empty m buffer e).0
      ∙ ap (λ q. some (record m { message_buffers = q }, d)) e
  handle_messages-fold (x ∷ xs) (suc fuel) block handlers buffer m d e h k =
      handle_messages-round fuel block handlers buffer m d
      ∙ ap (round fuel block handlers d) (retrieve_front m x xs buffer e h.0).0
      ∙ handle_messages-fold xs fuel block handlers x (record m { message_buffers = xs })
          (handle_message call codec block handlers d x) refl h.1 (omega arith)

module _ {ℓ κ} {Cb : Type ℓ} {S : Type κ} (ws : Winsock) (call : Cb → S → List ℕ → S)
    (codec : PacketCodec) where
  -- The dispatch of some messages, from the start of a poll.
  abbrev pub dispatched : Bool → NetworkManager Cb → S → List (List ℕ) → Dispatch Cb S
  dispatched block nm shared messages =
      foldl (handle_message call codec block nm.handlers)
        (record { shared = shared; tasks = []; nonblocking_tasks = nm.nonblocking_tasks }) messages

  abbrev pub polled :
      NetworkManager Cb → MessageManager → Dispatch Cb S → ws.World → Polled Cb S ws.World
  polled nm m d w = record {
    manager = record nm {
      decode_mgr = record m { message_buffers = [] };
      nonblocking_tasks = d.nonblocking_tasks;
    };
    shared = d.shared;
    waited = d.tasks;
    world = w;
  }

module _ {ℓ κ} {Cb : Type ℓ} {S : Type κ} (ws : Winsock) (call : Cb → S → List ℕ → S)
    (codec : PacketCodec) where
  pub poll_blob-polled :
      (block : Bool) (nm : NetworkManager Cb) (shared : S) (blob : List ℕ) (w : ws.World)
      (m : MessageManager)
      → parse_blob nm.decode_mgr blob ≡ some m
      → All IsShort m.message_buffers
      → poll_blob ws call codec block nm shared blob w
        ≡ some (
            polled ws call codec nm m
              (dispatched ws call codec block nm shared m.message_buffers)
              w)
  unfolding poll_blob
  poll_blob-polled block nm shared blob w m parsed short =
      let handled =
        handle_messages-fold call codec m.message_buffers (suc (length m.message_buffers)) block
          nm.handlers blob m
          (record { shared = shared; tasks = []; nonblocking_tasks = nm.nonblocking_tasks }) refl
          short (omega arith) in
      rw (parsed, poll_blob) (rw (handled, poll_blob))

  pub poll_network-connected :
      (fuel : ℕ) (block : Bool) (nm : NetworkManager Cb) (shared : S) (w w' : ws.World)
      (status : ReceiveStatus) (out : List ℕ)
      → nm.connected ≡ true
      → receive_data ws fuel nm.socket w ≡ some (status, out, w')
      → poll_network ws call codec fuel block nm shared w
        ≡ poll_received ws call codec block nm shared status out w'
  unfolding poll_network poll_connected
  poll_network-connected fuel block nm shared w w' status out on got =
      ap
        (λ b.
          if b
          then poll_connected ws call codec fuel block nm shared w
          else some (unpolled ws call codec nm shared w))
        on
      ∙ rw (got, poll_connected)

  -- A poll on a connected manager whose parser is idle with no message waiting, when the socket
  -- receives the frames of some messages, each below 2 ^ 31 bytes: it ends, has handed each of
  -- these messages, in order, to the handlers of its packet type, and leaves the parser idle
  -- with an empty queue.
  pub poll_network-frames :
      (fuel : ℕ) (block : Bool) (nm : NetworkManager Cb) (shared : S) (w w' : ws.World)
      (messages : List (List ℕ))
      → nm.connected ≡ true
      → IsIdle nm.decode_mgr
      → nm.decode_mgr.message_buffers ≡ []
      → All IsShort messages
      → receive_data ws fuel nm.socket w ≡ some (success, frames messages, w')
      → (m : MessageManager) × IsIdle m
        × (poll_network ws call codec fuel block nm shared w
            ≡ some
                (polled ws call codec nm m (dispatched ws call codec block nm shared messages) w'))
  unfolding poll_received
  poll_network-frames fuel block nm shared w w' messages on idle empty short got =
      let (m, parsed, i, q) = parse_blob-frames nm.decode_mgr messages idle short in
      let whole : m.message_buffers ≡ messages = q ∙ ap (λ l. l ++ messages) empty in
      (
        m,
        i,
        poll_network-connected fuel block nm shared w w' success (frames messages) on got
            ∙ poll_blob-polled block nm shared (frames messages) w' m parsed
                (subst (All IsShort) (sym whole) short)
            ∙ ap
                (λ q.
                  some (polled ws call codec nm m (dispatched ws call codec block nm shared q) w'))
                whole,
      )

  pub poll_received-nothing :
      (block : Bool) (nm : NetworkManager Cb) (shared : S) (status : ReceiveStatus) (out : List ℕ)
      (w : ws.World)
      → status ≢ success
      → poll_received ws call codec block nm shared status out w
        ≡ some (unpolled ws call codec nm shared w)
  unfolding poll_received
  poll_received-nothing block nm shared success out w h = absurd (h refl)
  poll_received-nothing block nm shared failure out w h = refl
  poll_received-nothing block nm shared continue out w h = refl

  -- Where a receive on the socket ends, and reports success only if the manager is not connected: a
  -- poll ends, leaves the manager and the shared state as they were and starts no task.
  pub poll_network-nothing :
      (fuel : ℕ) (block : Bool) (nm : NetworkManager Cb) (shared : S) (w w' : ws.World)
      (status : ReceiveStatus) (out : List ℕ)
      → receive_data ws fuel nm.socket w ≡ some (status, out, w')
      → (nm.connected ≡ true → status ≢ success)
      → (u : ws.World) × (poll_network ws call codec fuel block nm shared w
          ≡ some (unpolled ws call codec nm shared u))
  poll_network-nothing fuel block nm shared w w' status out got h = elim (Bool-cases nm.connected) [
    | inr off ↦ (
      w,
      unfold poll_network in
          ap
            (λ b.
              if b
              then poll_connected ws call codec fuel block nm shared w
              else some (unpolled ws call codec nm shared w))
            off,
    )
    | inl on ↦ (
      w',
      poll_network-connected fuel block nm shared w w' status out on got
          ∙ poll_received-nothing block nm shared status out w' (h on),
    )
  ]
