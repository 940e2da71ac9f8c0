-- ===== src/ClientSocket/SendEnds.antt =====
-- That `send_data` ends, and that it succeeds on a connection that does not break.
use friendviewer.Prelude.{
  ℕ, zero, suc, ◌+◌, ◌%◌, ◌^◌, ◌≤◌, ◌<◌, ◌≡◌, sym, ◌∙◌, inl, inr, Bool, true, false, ◌&&◌, Option,
  none, some, Option-cases, List, arith, length, drop, length-drop,
}
use friendviewer.Prelude.Words.{le32, length-le32}
use friendviewer.ClientSocket.{Winsock, ClientSocket, send_loop, send_data}
use friendviewer.ClientSocket.Send.{
  failed, retried, empty, partly, whole, round, next, send_short, send_data_short,
}

-- The peer reads: `send` takes a byte at least of what is not empty, and asks for another try
-- (error 10035) a bounded number of times.
pub record Progress (ws : Winsock) : Type 0 where
  pub busy : ws.World → ℕ
  pub keeps : (w : ws.World) (s : Option ℕ) (bytes : List ℕ) → busy (ws.send w s bytes).1 ≤ busy w
  pub takes :
      (w : ws.World) (s : Option ℕ) (bytes : List ℕ) (n : ℕ)
      → 0 < length bytes
      → (ws.send w s bytes).0 ≡ some n
      → 0 < n
  pub waits :
      (w : ws.World) (s : Option ℕ) (bytes : List ℕ)
      → 0 < length bytes
      → (ws.send w s bytes).0 ≡ none
      → ws.last_error (ws.send w s bytes).1 ≡ 10035
      → busy (ws.send w s bytes).1 < busy w

-- The connection does not break: what `send` does not take, it asks for again.
pub record Unbroken (ws : Winsock) : Type 0 where
  pub asks_again :
      (w : ws.World) (s : Option ℕ) (bytes : List ℕ)
      → (ws.send w s bytes).0 ≡ none
      → ws.last_error (ws.send w s bytes).1 ≡ 10035

-- The loop of `send_block` ends when the peer reads.
module _ {ws : Winsock} (p : Progress ws) where
  abbrev Ends : Option (Bool × ws.World) → ws.World → Type 0
  Ends o w = (r : Bool) × (w' : ws.World) × (o ≡ some (r, w')) × (p.busy w' ≤ p.busy w)

  send_loop-Ends :
      (fuel : ℕ) (s : Option ℕ) (bytes : List ℕ) (w : ws.World)
      → p.busy w + length bytes < fuel
      → Ends (send_loop ws fuel s bytes w) w
  send_loop-Ends zero s bytes w h = absurd (omega arith)
  send_loop-Ends (suc fuel) s bytes w h =
      let w1 = next ws fuel s bytes w in
      let kept = p.keeps w s bytes in
      elim (round ws fuel s bytes w) [
        | failed a x b ↦ (false, w1, b, kept)
        | empty a x b ↦ (true, w1, b, kept)
        | whole n a x b ↦ (true, w1, b, kept)
        | retried a x q b ↦
            let fewer = p.waits w s bytes q a x in
            let (r, w', e, le) = send_loop-Ends fuel s bytes w1 (omega arith) in
            (r, w', b ∙ e, omega arith)
        | partly n a q b ↦
            let taken = p.takes w s bytes n (omega (arith, length-drop n bytes)) a in
            let (r, w', e, le) =
              send_loop-Ends fuel s (drop n bytes) w1 (omega (arith, length-drop n bytes)) in
            (r, w', b ∙ e, omega arith)
      ]

  pub send_data-Ends :
      (fuel : ℕ) (c : ClientSocket) (message : List ℕ) (w : ws.World)
      → p.busy w + 4 < fuel
      → p.busy w + length message < fuel
      → length message < 2 ^ 31
      → Ends (send_data ws fuel c message w) w
  unfolding send_short
  send_data-Ends fuel c message w h k short =
      let header = le32 (length message % 2 ^ 32) in
      let (r1, w1, e1, le1) =
        send_loop-Ends fuel c.socket header w
          (omega (arith, length-le32 (length message % 2 ^ 32))) in
      let (r2, w2, e2, le2) = send_loop-Ends fuel c.socket message w1 (omega arith) in
      (
        r1 && r2,
        w2,
        send_data_short ws fuel c message w short ∙ rw (e1, send_short) (rw (e2, send_short)),
        omega arith,
      )

  -- When the peer reads, both blocks of `send_data` end for a message below 2 ^ 31 bytes: fuel above the tries that it may ask
  -- for and the bytes to send, at least the 4 of the length, is enough.
  pub send_data_ends :
      (fuel : ℕ) (c : ClientSocket) (message : List ℕ) (w : ws.World)
      → p.busy w + 4 < fuel
      → p.busy w + length message < fuel
      → length message < 2 ^ 31
      → (r : Bool) × (w' : ws.World) × (send_data ws fuel c message w ≡ some (r, w'))
  send_data_ends fuel c message w h k short =
      let (r, w', e, _) = send_data-Ends fuel c message w h k short in (r, w', e)

module _ {ws : Winsock} (u : Unbroken ws) where
  send_loop_succeeds :
      (fuel : ℕ) (s : Option ℕ) (bytes : List ℕ) (w w' : ws.World) (r : Bool)
      → send_loop ws fuel s bytes w ≡ some (r, w')
      → r ≡ true
  send_loop_succeeds zero s bytes w w' r e = unfold send_loop in cc
  send_loop_succeeds (suc fuel) s bytes w w' r e = elim (round ws fuel s bytes w) [
    | failed a x b ↦ absurd (x (u.asks_again w s bytes a))
    | empty a x b ↦ cc
    | whole n a x b ↦ cc
    | retried a x q b ↦ send_loop_succeeds fuel s bytes (next ws fuel s bytes w) w' r (sym b ∙ e)
    | partly n a q b ↦
        send_loop_succeeds fuel s (drop n bytes) (next ws fuel s bytes w) w' r (sym b ∙ e)
  ]

  send_short_succeeds :
      (fuel : ℕ) (c : ClientSocket) (message : List ℕ) (w w' : ws.World) (r : Bool)
      → send_short ws fuel c message w ≡ some (r, w')
      → r ≡ true
  unfolding send_short
  send_short_succeeds fuel c message w w' r e =
      elim (Option-cases (send_loop ws fuel c.socket (le32 (length message % 2 ^ 32)) w)) [
        | inl a ↦ absurd (ground arith)
        | inr ((r1, w1), a) ↦ elim (Option-cases (send_loop ws fuel c.socket message w1)) [
          | inl b ↦ absurd (ground arith)
          | inr ((r2, w2), b) ↦
              let e1 = send_loop_succeeds fuel c.socket _ w w1 r1 a in
              let e2 = send_loop_succeeds fuel c.socket message w1 w2 r2 b in ground arith
        ]
      ]

  pub send_data_succeeds :
      (fuel : ℕ) (c : ClientSocket) (message : List ℕ) (w w' : ws.World) (r : Bool)
      → length message < 2 ^ 31
      → send_data ws fuel c message w ≡ some (r, w')
      → r ≡ true
  send_data_succeeds fuel c message w w' r h e =
      send_short_succeeds fuel c message w w' r (sym (send_data_short ws fuel c message w h) ∙ e)
