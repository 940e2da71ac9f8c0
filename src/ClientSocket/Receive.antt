-- ===== src/ClientSocket/Receive.antt =====
-- What `receive_data` takes from the connection, when its loop ends and when it does not.
use friendviewer.Prelude.{
  ℕ, zero, suc, ◌+◌, ◌<◌, ◌≤◌, length, length-append, ◌≡◌, ◌≢◌, refl, sym, ◌∙◌, ap, inl, inr, Bool,
  true, false, Bool-cases, ◌⊎◌, ◌↔◌, Option, none, some, Option-cases, List, [], ◌++◌, arith, ◌==◌,
  if◌then◌else◌, append-nil, append_assoc,
}
use friendviewer.ClientSocket.{
  Winsock, ClientSocket, ReceiveStatus, success, failure, continue, receive_loop, receive_data,
}

-- `recv` takes bytes from the connection, in order, or none.
pub record ReceiveLaws (ws : Winsock) : Type 0 where
  pub received : ws.World → Option ℕ → List ℕ
  pub takes :
      (w : ws.World) (s : Option ℕ) (n : ℕ) (bytes : List ℕ)
      → (ws.recv w s n).0 ≡ some bytes
      → received (ws.recv w s n).1 s ≡ received w s ++ bytes
  pub fails :
      (w : ws.World) (s : Option ℕ) (n : ℕ)
      → (ws.recv w s n).0 ≡ none
      → received (ws.recv w s n).1 s ≡ received w s

-- The peer does not close the connection, and sends at most `limit` bytes over it in all: `recv`
-- gives no bytes but where the peer has closed, so what it gives is at least one byte, and what has
-- been received is within the limit. `P` is where this is so, and it stays so.
pub record IsOpen {ws : Winsock} (l : ReceiveLaws ws) (s : Option ℕ) (limit : ℕ)
    (P : ws.World → Type 0) : Type 0 where
  pub some_bytes :
      (w : ws.World) (n : ℕ) (bytes : List ℕ)
      → P w
      → (ws.recv w s n).0 ≡ some bytes
      → 0 < length bytes
  pub bounded : (w : ws.World) → P w → length (l.received w s) ≤ limit
  pub stays : (w : ws.World) (n : ℕ) → P w → P (ws.recv w s n).1

-- The peer has closed the connection: `recv` succeeds with no byte, and it stays so.
pub record PeerClosed (ws : Winsock) (s : Option ℕ) (P : ws.World → Type 0) : Type 0 where
  pub empty : (w : ws.World) (n : ℕ) → P w → (ws.recv w s n).0 ≡ some []
  pub stays : (w : ws.World) (n : ℕ) → P w → P (ws.recv w s n).1

module _ (ws : Winsock) (fuel : ℕ) (s : Option ℕ) (r : Bool) (out : List ℕ) (w : ws.World) where
  abbrev next : ws.World
  next = (ws.recv w s 4096).1

  receive_loop-end :
      (ws.recv w s 4096).0 ≡ none → receive_loop ws (suc fuel) s r out w ≡ some (r, out, next)
  unfolding receive_loop
  receive_loop-end e = ground arith

  receive_loop-more :
      (bytes : List ℕ)
      → (ws.recv w s 4096).0 ≡ some bytes
      → receive_loop ws (suc fuel) s r out w ≡ receive_loop ws fuel s true (out ++ bytes) next
  unfolding receive_loop
  receive_loop-more bytes e = ground arith

module _ {ws : Winsock} (l : ReceiveLaws ws) where
  -- What the loop has added to `out`, and whether it has added at all.
  abbrev Took : Option ℕ → Bool → List ℕ → ws.World → Bool → List ℕ → ws.World → Type 0
  Took s r out w r' out' w' =
      (bytes : List ℕ) × (out' ≡ out ++ bytes)
      × (l.received w' s ≡ l.received w s ++ bytes)
      × (r' ≡ false → (r ≡ false) × (bytes ≡ []))

module _ {ws : Winsock} (l : ReceiveLaws ws) where
  receive_loop-Took :
      (fuel : ℕ) (s : Option ℕ) (r : Bool) (out : List ℕ) (w : ws.World) (r' : Bool) (out' : List ℕ)
      (w' : ws.World)
      → receive_loop ws fuel s r out w ≡ some (r', out', w')
      → Took l s r out w r' out' w'
  receive_loop-Took zero s r out w r' out' w' e = unfold receive_loop in cc
  receive_loop-Took (suc fuel) s r out w r' out' w' e = elim (Option-cases (ws.recv w s 4096).0) [
    | inl a ↦
        let b = receive_loop-end ws fuel s r out w a in
        let e1 : r' ≡ r = cc in
        let e2 : out' ≡ out = cc in
        let e3 : w' ≡ next ws fuel s r out w = cc in
        (
          [],
          e2 ∙ sym (append-nil out),
          ap (λ u. l.received u s) e3 ∙ l.fails w s 4096 a ∙ sym (append-nil _),
          λ f. (sym e1 ∙ f, refl),
        )
    | inr (bytes, a) ↦
        let b = receive_loop-more ws fuel s r out w bytes a in
        let (more, o, t, n) =
          receive_loop-Took fuel s true (out ++ bytes) (next ws fuel s r out w) r' out' w'
            (sym b ∙ e) in
        (
          bytes ++ more,
          o ∙ append_assoc out bytes more,
          t ∙ ap (λ x. x ++ more) (l.takes w s 4096 bytes a) ∙ append_assoc _ bytes more,
          λ f. absurd (let (c, _) = n f in cc),
        )
  ]

  -- What an ended call reports: the bytes in `data_out` are those taken from the connection, in
  -- order; failure exactly if the last error is not "would block"; and it is not continue, or
  -- nothing was taken.
  pub receive_data_lem :
      (fuel : ℕ) (c : ClientSocket) (w w' : ws.World) (status : ReceiveStatus) (out : List ℕ)
      → receive_data ws fuel c w ≡ some (status, out, w')
      → (l.received w' c.socket ≡ l.received w c.socket ++ out)
        × ((status ≡ failure) ↔ (ws.last_error w' ≢ ws.wsa_would_block))
        × ((status ≢ continue) ⊎ (out ≡ []))
  unfolding receive_data
  receive_data_lem fuel c w w' status out e =
      elim (Option-cases (receive_loop ws fuel c.socket false [] w)) [
        | inl a ↦ absurd (ground arith)
        | inr ((r, out1, w1), a) ↦
            let e1 : out1 ≡ out = ground arith in
            let e2 : w1 ≡ w' = ground arith in
            let (bytes, o, t, n) = receive_loop-Took fuel c.socket false [] w r out1 w1 a in
            (
              ap (λ u. l.received u c.socket) (sym e2) ∙ t ∙ ap (◌++◌ _) (sym o ∙ e1),
              (λ f h. ground arith, λ h. ground arith),
              elim (Bool-cases r) [
                | inl took ↦ inl (λ k. ground arith)
                | inr nothing ↦ inr (sym e1 ∙ o ∙ (n nothing).1)
              ],
            )
      ]

module _ {ws : Winsock} {l : ReceiveLaws ws} {s : Option ℕ} {limit : ℕ} {P : ws.World → Type 0}
    (q : IsOpen l s limit P) where
  -- A `recv` that succeeds brings the bytes received nearer to the limit.
  received-grows :
      (w : ws.World) (n : ℕ) (bytes : List ℕ)
      → P w
      → (ws.recv w s n).0 ≡ some bytes
      → length (l.received w s) < length (l.received (ws.recv w s n).1 s)
  received-grows w n bytes h e = omega (
    arith,
    q.some_bytes w n bytes h e,
    ap (λ (b : List ℕ). length b) (l.takes w s n bytes e),
    length-append (l.received w s) bytes,
  )

  receive_loop_ends :
      (fuel : ℕ) (r : Bool) (out : List ℕ) (w : ws.World)
      → P w
      → limit < fuel + length (l.received w s)
      → (r' : Bool) × (out' : List ℕ) × (w' : ws.World) × (receive_loop ws fuel s r out w
          ≡ some (r', out', w'))
  receive_loop_ends zero r out w h k = absurd (omega (arith, q.bounded w h))
  receive_loop_ends (suc fuel) r out w h k = elim (Option-cases (ws.recv w s 4096).0) [
    | inl a ↦ (r, out, next ws fuel s r out w, receive_loop-end ws fuel s r out w a)
    | inr (bytes, a) ↦
        let (r', out', w', e) =
          receive_loop_ends fuel true (out ++ bytes) (next ws fuel s r out w) (q.stays w 4096 h)
            (omega (arith, received-grows w 4096 bytes h a)) in
        (r', out', w', receive_loop-more ws fuel s r out w bytes a ∙ e)
  ]

-- While the peer has not closed the connection, and where it sends at most `limit` bytes over it in
-- all, `receive_data` ends: fuel above the bytes of the limit that have not been received yet is
-- enough.
pub receive_data_ends :
    {ws : Winsock} {l : ReceiveLaws ws} {limit : ℕ} {P : ws.World → Type 0} (c : ClientSocket)
    (q : IsOpen l c.socket limit P) (fuel : ℕ) (w : ws.World)
    → P w
    → limit < fuel + length (l.received w c.socket)
    → (status : ReceiveStatus) × (out : List ℕ) × (w' : ws.World) × (receive_data ws fuel c w
        ≡ some (status, out, w'))
unfolding receive_data
receive_data_ends {ws} c q fuel w h k =
    let (r, out, w', e) = receive_loop_ends q fuel false [] w h k in
    (
      if ws.last_error w' == ws.wsa_would_block then (if r then success else continue) else failure,
      out,
      w',
      rw (e, receive_data),
    )

module _ {ws : Winsock} {s : Option ℕ} {P : ws.World → Type 0} (q : PeerClosed ws s P) where
  receive_loop_spins :
      (fuel : ℕ) (r : Bool) (out : List ℕ) (w : ws.World)
      → P w
      → receive_loop ws fuel s r out w ≡ none
  receive_loop_spins zero r out w h = unfold receive_loop in refl
  receive_loop_spins (suc fuel) r out w h =
      receive_loop-more ws fuel s r out w [] (q.empty w 4096 h)
      ∙ receive_loop_spins fuel true (out ++ []) (next ws fuel s r out w) (q.stays w 4096 h)

-- Once the peer has closed the connection, `receive_data` does not end, whatever the fuel: its
-- loop takes an answer of no bytes for success.
pub receive_data_closed :
    {ws : Winsock} {P : ws.World → Type 0} (c : ClientSocket) (q : PeerClosed ws c.socket P)
    (fuel : ℕ) (w : ws.World)
    → P w
    → receive_data ws fuel c w ≡ none
unfolding receive_data
receive_data_closed c q fuel w h = rw (receive_loop_spins q fuel false [] w h, receive_data)
