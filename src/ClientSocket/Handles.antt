-- ===== src/ClientSocket/Handles.antt =====
-- Sockets that are opened and closed: the state after `connect` and `close`, and their handles.
use friendviewer.Prelude.{
  ℕ, ◌+◌, ◌%◌, ◌^◌, ◌<◌, ◌≡◌, ◌≢◌, refl, ap, inl, inr, Bool, true, false, Bool-cases, ◌⊎◌, Option,
  none, some, Option-cases, List, ◌++◌, arith, length, take, length-take, length-append,
}
use friendviewer.ClientSocket.{
  Winsock, ClientSocket, no_socket, close, dial_fresh, connect, send_data_vector,
}
use friendviewer.Prelude.Words.{le32, length-le32}
use friendviewer.MessageManager.Wire.{frame}
use friendviewer.ClientSocket.Send.{SendLaws}

abbrev pub held : Option ℕ → ℕ
held none = 0
held (some s) = 1

-- How many handles the process has open.
pub record HandleLaws (ws : Winsock) : Type 0 where
  pub open_handles : ws.World → ℕ
  pub creates :
      (w : ws.World) → open_handles (ws.create w).1 ≡ open_handles w + held (ws.create w).0
  pub connects :
      (w : ws.World) (s a p : ℕ) → open_handles (ws.connect_to w s a p).1 ≡ open_handles w
  pub sets : (w : ws.World) (s : ℕ) → open_handles (ws.set_nonblocking w s) ≡ open_handles w
  pub closes :
      (w : ws.World) (s : ℕ)
      → 0 < open_handles w
      → open_handles (ws.close_handle w s) + 1 ≡ open_handles w

abbrev pub Connects : List ℕ → ℕ → Bool → ClientSocket → Type 0
Connects address port ok c =
    ((ok ≡ true) × (s : ℕ) × (c ≡ record { socket = some s; remote_addr = address; port = port }))
    ⊎ ((ok ≡ false) × (c ≡ no_socket))

module _ (ws : Winsock) (c : ClientSocket) (address : List ℕ) (port : ℕ) (w : ws.World) where
  abbrev outcome : Bool × ClientSocket × ws.World
  outcome = dial_fresh ws c address port w

  dial_fresh_result : c ≡ no_socket → Connects address port outcome.0 outcome.1
  unfolding dial_fresh
  dial_fresh_result e = elim (Option-cases (ws.create w).0) [
    | inl a ↦ inr (ground arith, ground arith)
    | inr (s, a) ↦
        elim (Bool-cases
          (ws.connect_to (ws.create w).1 s (ws.inet_addr address) (ws.htons port)).0) [
            | inl t ↦ inl (ground arith, s, ground arith)
            | inr f ↦ inr (ground arith, ground arith)
          ]
  ]

  dial_fresh_handles :
      (l : HandleLaws ws) (others : ℕ)
      → c.socket ≡ none
      → l.open_handles w ≡ others
      → l.open_handles outcome.2 ≡ others + held outcome.1.socket
  unfolding dial_fresh
  dial_fresh_handles l others e h = elim (Option-cases (ws.create w).0) [
    | inl a ↦ ground (arith, l.creates w)
    | inr (s, a) ↦
        let w1 = (ws.create w).1 in
        let dialled = ws.connect_to w1 s (ws.inet_addr address) (ws.htons port) in
        ground (
          arith,
          l.creates w,
          l.connects w1 s (ws.inet_addr address) (ws.htons port),
          l.sets dialled.1 s,
          l.closes dialled.1 s,
        )
  ]

module _ (ws : Winsock) (c : ClientSocket) (address : List ℕ) (port : ℕ) (w : ws.World) where
  connect-none : c.socket ≡ none → connect ws c address port w ≡ dial_fresh ws c address port w
  unfolding connect
  connect-none e = rw (e, connect)

  connect-some :
      (s : ℕ)
      → c.socket ≡ some s
      → connect ws c address port w ≡ dial_fresh ws no_socket address port (ws.close_handle w s)
  unfolding connect close
  connect-some s e =
      let closed : close ws c w ≡ (no_socket, ws.close_handle w s) = rw (e, close) in
      rw (e, connect)
        (ap (λ (p : ClientSocket × ws.World). dial_fresh ws p.0 address port p.1) closed)

-- `connect` on a socket that has an address only with a handle either returns true and leaves a
-- handle with the given address and port, or returns false and leaves neither handle nor address.
pub connect_result :
    (ws : Winsock) (c : ClientSocket) (address : List ℕ) (port : ℕ) (w : ws.World)
    → (c.socket ≡ none → c ≡ no_socket)
    → Connects address port (connect ws c address port w).0 (connect ws c address port w).1
connect_result ws c address port w v = elim (Option-cases c.socket) [
  | inl e ↦ rw (connect-none ws c address port w e) (dial_fresh_result ws c address port w (v e))
  | inr (s, e) ↦
      rw (connect-some ws c address port w s e)
        (dial_fresh_result ws no_socket address port (ws.close_handle w s) refl)
]

-- Where `create` opens a handle and `closesocket` closes one, `connect` leaks none: it leaves as
-- many beside the socket's own as there were before.
pub connect_handles :
    {ws : Winsock} (l : HandleLaws ws) (others : ℕ) (c : ClientSocket) (address : List ℕ) (port : ℕ)
    (w : ws.World)
    → l.open_handles w ≡ others + held c.socket
    → l.open_handles (connect ws c address port w).2
      ≡ others + held (connect ws c address port w).1.socket
connect_handles {ws} l others c address port w h = elim (Option-cases c.socket) [
  | inl e ↦
      rw (connect-none ws c address port w e)
        (dial_fresh_handles ws c address port w l others e (ground arith))
  | inr (s, e) ↦ rw (connect-some ws c address port w s e) (
      dial_fresh_handles ws no_socket address port (ws.close_handle w s) l others refl
        (ground (arith, l.closes w s)))
]

-- The overload of `send_data` on a vector asks `send` once for each part and does not look at how
-- much was taken: where `send` takes the length whole and then a part of the message, it returns
-- true, and the connection has not got the frame.
pub send_data_vector_short :
    {ws : Winsock} (l : SendLaws ws) (c : ClientSocket) (bytes : List ℕ) (w : ws.World) (n : ℕ)
    → (ws.send w c.socket (le32 (length bytes % 2 ^ 32))).0 ≡ some 4
    → (ws.send (ws.send w c.socket (le32 (length bytes % 2 ^ 32))).1 c.socket bytes).0 ≡ some n
    → n < length bytes
    → ((send_data_vector ws c bytes w).0 ≡ true)
      × (l.sent (send_data_vector ws c bytes w).1 c.socket ≢ l.sent w c.socket ++ frame bytes)
unfolding send_data_vector frame
send_data_vector_short {ws} l c bytes w n h k short = (
  ground arith,
  λ e.
      let header = le32 (length bytes % 2 ^ 32) in
      let w1 = (ws.send w c.socket header).1 in
      omega (
        arith,
        ap length e,
        ap length (l.accepts w c.socket header 4 h).1,
        ap length (l.accepts w1 c.socket bytes n k).1,
        length-append (l.sent w c.socket) (header ++ bytes),
        length-append header bytes,
        length-append (l.sent w c.socket) (take 4 header),
        length-append (l.sent w1 c.socket) (take n bytes),
        length-take 4 header,
        length-take n bytes,
        length-le32 (length bytes % 2 ^ 32),
      ),
)
