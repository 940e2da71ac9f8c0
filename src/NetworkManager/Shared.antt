-- ===== src/NetworkManager/Shared.antt =====
-- What every callback keeps, a poll keeps.
use mathlib.Core.Path.{subst}
use friendviewer.Prelude.{
  ℕ, zero, suc, ◌≡◌, sym, ◌∙◌, ap, inl, inr, Bool, true, false, Bool-cases, some, Option-cases,
  List, [], ◌∷◌, arith, length, if◌then◌else◌,
}
use friendviewer.Packet.{FvPacket, PacketCodec}
use friendviewer.MessageManager.{MessageManager, parse_blob, retrieve_message}
use friendviewer.ClientSocket.{Winsock, ReceiveStatus, success, failure, continue, receive_data}
use friendviewer.NetworkManager.{
  NetworkManager, Handlers, Dispatch, Polled, call_handlers, handle_message, handle_messages,
  unpolled, poll_blob, poll_received, poll_connected, poll_network,
}
use friendviewer.NetworkManager.Poll.{round, handle_messages-round, poll_network-connected}

module _ {ℓ κ} {Cb : Type ℓ} {S : Type κ} (call : Cb → S → List ℕ → S) (codec : PacketCodec)
    (P : S → Type 0) (keeps : (cb : Cb) (s : S) (bytes : List ℕ) → P s → P (call cb s bytes)) where
  call_handlers-P :
      (block : Bool) (packet : FvPacket) (handlers : List (Bool × Cb)) (d : Dispatch Cb S)
      → P d.shared
      → P (call_handlers call codec block packet handlers d).shared
  unfolding call_handlers
  call_handlers-P block packet [] d h = h
  call_handlers-P true packet ((true, cb) ∷ rest) d h =
      call_handlers-P true (codec.moved_from packet) rest _ h
  call_handlers-P false packet ((true, cb) ∷ rest) d h =
      call_handlers-P false (codec.moved_from packet) rest _ h
  call_handlers-P block packet ((false, cb) ∷ rest) d h =
      call_handlers-P block packet rest _ (keeps cb d.shared packet.inner_packet h)

  round-P :
      (fuel : ℕ) (block : Bool) (handlers : Handlers Cb) (d : Dispatch Cb S)
      (loop : (b : List ℕ) (n m' : MessageManager) (e d' : Dispatch Cb S)
        → handle_messages call codec fuel block handlers b n e ≡ some (m', d')
        → P e.shared
        → P d'.shared)
      (answer : Bool × List ℕ × MessageManager) (m' : MessageManager) (d' : Dispatch Cb S)
      → round call codec fuel block handlers d answer ≡ some (m', d')
      → P d.shared
      → P d'.shared
  unfolding round handle_message
  round-P fuel block handlers d loop (false, b, n) m' d' a h =
      let e : d ≡ d' = cc in subst (λ (x : Dispatch Cb S). P x.shared) e h
  round-P fuel block handlers d loop (true, b, n) m' d' a h =
      loop b n m' _ d' a (call_handlers-P block (codec.parse b) (handlers (codec.parse b).type) d h)

  handle_messages-P :
      (fuel : ℕ) (block : Bool) (handlers : Handlers Cb) (buffer : List ℕ) (m m' : MessageManager)
      (d d' : Dispatch Cb S)
      → handle_messages call codec fuel block handlers buffer m d ≡ some (m', d')
      → P d.shared
      → P d'.shared
  handle_messages-P zero block handlers buffer m m' d d' e h = absurd (unfold handle_messages in cc)
  handle_messages-P (suc fuel) block handlers buffer m m' d d' e h =
      round-P fuel block handlers d
        (λ b n m1 d1 d2. handle_messages-P fuel block handlers b n m1 d1 d2)
        (retrieve_message m buffer) m' d'
        (sym (handle_messages-round call codec fuel block handlers buffer m d) ∙ e) h

module _ {ℓ κ} {Cb : Type ℓ} {S : Type κ} (ws : Winsock) (call : Cb → S → List ℕ → S)
    (codec : PacketCodec) (P : S → Type 0)
    (keeps : (cb : Cb) (s : S) (bytes : List ℕ) → P s → P (call cb s bytes)) where
  poll_blob-P :
      (block : Bool) (nm : NetworkManager Cb) (shared : S) (blob : List ℕ) (w : ws.World)
      (p : Polled Cb S ws.World)
      → poll_blob ws call codec block nm shared blob w ≡ some p
      → P shared
      → P p.shared × (p.manager.connected ≡ nm.connected)
  unfolding poll_blob
  poll_blob-P block nm shared blob w p e h = elim (Option-cases (parse_blob nm.decode_mgr blob)) [
    | inl a ↦ absurd (ground arith)
    | inr (m, a) ↦
        elim (Option-cases (
          handle_messages call codec (suc (length m.message_buffers)) block nm.handlers blob m
            (record { shared = shared; tasks = []; nonblocking_tasks = nm.nonblocking_tasks }))) [
              | inl b ↦ absurd (ground arith)
              | inr ((m', d), b) ↦
                  let kept =
                    handle_messages-P call codec P keeps _ block nm.handlers blob m m' _ d b h in
                  let s : d.shared ≡ p.shared = ground arith in (subst P s kept, ground arith)
            ]
  ]

  unpolled-P :
      (nm : NetworkManager Cb) (shared : S) (w : ws.World) (p : Polled Cb S ws.World)
      → some (unpolled ws call codec nm shared w) ≡ some p
      → P shared
      → P p.shared × (p.manager.connected ≡ nm.connected)
  unpolled-P nm shared w p e h =
      let s : shared ≡ p.shared = ground arith in (subst P s h, ground arith)

  poll_received-P :
      (block : Bool) (nm : NetworkManager Cb) (shared : S) (status : ReceiveStatus) (blob : List ℕ)
      (w : ws.World) (p : Polled Cb S ws.World)
      → poll_received ws call codec block nm shared status blob w ≡ some p
      → P shared
      → P p.shared × (p.manager.connected ≡ nm.connected)
  unfolding poll_received
  poll_received-P block nm shared success blob w p e h = poll_blob-P block nm shared blob w p e h
  poll_received-P block nm shared failure blob w p e h = unpolled-P nm shared w p e h
  poll_received-P block nm shared continue blob w p e h = unpolled-P nm shared w p e h

  -- A property of the shared state that every callback keeps holds after a poll that ends, which
  -- leaves `connected` as it was.
  pub poll_network-P :
      (fuel : ℕ) (block : Bool) (nm : NetworkManager Cb) (shared : S) (w : ws.World)
      (p : Polled Cb S ws.World)
      → poll_network ws call codec fuel block nm shared w ≡ some p
      → P shared
      → P p.shared × (p.manager.connected ≡ nm.connected)
  unfolding poll_network poll_connected
  poll_network-P fuel block nm shared w p e h = elim (Bool-cases nm.connected) [
    | inr off ↦
        unpolled-P nm shared w p
          (sym (
              ap
                (λ b.
                  if b
                  then poll_connected ws call codec fuel block nm shared w
                  else some (unpolled ws call codec nm shared w))
                off)
            ∙ e)
          h
    | inl on ↦ elim (Option-cases (receive_data ws fuel nm.socket w)) [
      | inl a ↦ absurd (ground arith)
      | inr ((status, buffer, w'), a) ↦
          poll_received-P block nm shared status buffer w' p
            (sym (poll_network-connected ws call codec fuel block nm shared w w' status buffer on a)
              ∙ e)
            h
    ]
  ]
