-- ===== src/ClientSocket/Send.antt =====
-- What `send_data` puts on the connection.
use friendviewer.Prelude.{
  ℕ, zero, suc, ◌%◌, ◌^◌, ◌≤◌, ◌<◌, ◌≡◌, ◌≢◌, refl, sym, ◌∙◌, ap, inl, inr, Bool, true, false,
  Bool-cases, ==_iff, Option, none, some, Option-cases, List, [], ◌∷◌, ◌++◌, arith, ◌==◌, ltb,
  length, take, drop, append-nil, append_assoc, take-append-drop, take-length, ◌&&◌,
}
use friendviewer.Prelude.Words.{pos, signed32, le32, length-le32}
use friendviewer.MessageManager.Wire.{frame}
use friendviewer.ClientSocket.{Winsock, ClientSocket, send_loop, send_block, send_data}

-- `send` takes a front of what it is given and says how long that is, or takes nothing.
pub record SendLaws (ws : Winsock) : Type 0 where
  pub sent : ws.World → Option ℕ → List ℕ
  pub accepts :
      (w : ws.World) (s : Option ℕ) (bytes : List ℕ) (n : ℕ)
      → (ws.send w s bytes).0 ≡ some n
      → (n ≤ length bytes) × (sent (ws.send w s bytes).1 s ≡ sent w s ++ take n bytes)
  pub refuses :
      (w : ws.World) (s : Option ℕ) (bytes : List ℕ)
      → (ws.send w s bytes).0 ≡ none
      → sent (ws.send w s bytes).1 s ≡ sent w s

length-zero : (l : List ℕ) → ltb 0 (length l) ≡ false → l ≡ []
length-zero [] h = refl
length-zero (x ∷ xs) h = absurd (ground arith)

-- One round of the loop of `send_block`, by what `send` answers.
module _ (ws : Winsock) (fuel : ℕ) (s : Option ℕ) (bytes : List ℕ) (w : ws.World) where
  abbrev pub next : ws.World
  next = (ws.send w s bytes).1

  pub data Round : Type 0 where
    failed :
        (ws.send w s bytes).0 ≡ none
        → ws.last_error next ≢ 10035
        → send_loop ws (suc fuel) s bytes w ≡ some (false, next)
        → Round
    retried :
        (ws.send w s bytes).0 ≡ none
        → ws.last_error next ≡ 10035
        → 0 < length bytes
        → send_loop ws (suc fuel) s bytes w ≡ send_loop ws fuel s bytes next
        → Round
    empty :
        (ws.send w s bytes).0 ≡ none
        → bytes ≡ []
        → send_loop ws (suc fuel) s bytes w ≡ some (true, next)
        → Round
    partly :
        (n : ℕ)
        → (ws.send w s bytes).0 ≡ some n
        → 0 < length (drop n bytes)
        → send_loop ws (suc fuel) s bytes w ≡ send_loop ws fuel s (drop n bytes) next
        → Round
    whole :
        (n : ℕ)
        → (ws.send w s bytes).0 ≡ some n
        → drop n bytes ≡ []
        → send_loop ws (suc fuel) s bytes w ≡ some (true, next)
        → Round

  pub round : Round
  unfolding send_loop
  round = elim (Option-cases (ws.send w s bytes).0) [
    | inl e ↦ elim (Bool-cases (ws.last_error next == 10035)) [
      | inl b ↦ elim (Bool-cases (ltb 0 (length bytes))) [
        | inl p ↦ retried e ((==_iff _ _).0 b) (ground arith) (ground arith)
        | inr p ↦ empty e (length-zero bytes p) (ground arith)
      ]
      | inr b ↦ failed e (λ q. absurd (let t = (==_iff _ _).1 q in cc)) (ground arith)
    ]
    | inr (n, e) ↦ elim (Bool-cases (ltb 0 (length (drop n bytes)))) [
      | inl p ↦ partly n e (ground arith) (ground arith)
      | inr p ↦ whole n e (length-zero (drop n bytes) p) (ground arith)
    ]
  ]

module _ {ws : Winsock} (l : SendLaws ws) where
  -- How far a block got.
  abbrev pub Sends : ws.World → Option ℕ → List ℕ → Bool → ws.World → Type 0
  Sends w s bytes r w' =
      (front rest : List ℕ) × (bytes ≡ front ++ rest)
      × (l.sent w' s ≡ l.sent w s ++ front)
      × (r ≡ true → rest ≡ [])

-- What `send_data` does with a message whose length is a positive `int`.
unfoldable pub send_short :
    (ws : Winsock) → ℕ → ClientSocket → List ℕ → ws.World → Option (Bool × ws.World)
send_short ws fuel c message w =
    elim (send_loop ws fuel c.socket (le32 (length message % 2 ^ 32)) w) [
      | none ↦ none
      | some (r1, w1) ↦ elim (send_loop ws fuel c.socket message w1) [
        | none ↦ none
        | some (r2, w2) ↦ some (r1 && r2, w2)
      ]
    ]

signed32_short : (n : ℕ) → n < 2 ^ 31 → signed32 (n % 2 ^ 32) ≡ pos n
signed32_short n h = ground arith

send_block-loop :
    (ws : Winsock) (fuel : ℕ) (s : Option ℕ) (bytes : List ℕ) (w : ws.World) (n : ℕ)
    → length bytes ≡ n
    → send_block ws fuel s bytes (pos n) w ≡ send_loop ws fuel s bytes w
unfolding send_block
send_block-loop ws fuel s bytes w n h =
    ap (λ b. send_loop ws fuel s b w) (take-length n bytes (omega (arith, h)))

send_block_whole :
    (ws : Winsock) (fuel : ℕ) (s : Option ℕ) (bytes : List ℕ) (w : ws.World)
    → length bytes < 2 ^ 31
    → send_block ws fuel s bytes (signed32 (length bytes % 2 ^ 32)) w ≡ send_loop ws fuel s bytes w
send_block_whole ws fuel s bytes w h =
    ap (λ z. send_block ws fuel s bytes z w) (signed32_short (length bytes) h)
    ∙ send_block-loop ws fuel s bytes w (length bytes) refl

pub send_data_short :
    (ws : Winsock) (fuel : ℕ) (c : ClientSocket) (message : List ℕ) (w : ws.World)
    → length message < 2 ^ 31
    → send_data ws fuel c message w ≡ send_short ws fuel c message w
unfolding send_data send_short
send_data_short ws fuel c message w h =
    let n = length message % 2 ^ 32 in
    let head = send_block-loop ws fuel c.socket (le32 n) w 4 (length-le32 n) in
    elim (Option-cases (send_loop ws fuel c.socket (le32 n) w)) [
      | inl e ↦ rw (head ∙ e, send_data) (rw (e, send_short) refl)
      | inr ((r1, w1), e) ↦
          rw (head ∙ e, send_data)
            (rw (e, send_short)
              (rw (send_block_whole ws fuel c.socket message w1 h, send_data) refl))
    ]

-- Both blocks of a message that was sent.
send_data-both :
    (ws : Winsock) (fuel : ℕ) (c : ClientSocket) (message : List ℕ) (w w' : ws.World)
    → send_short ws fuel c message w ≡ some (true, w')
    → (w1 : ws.World) × (send_loop ws fuel c.socket (le32 (length message % 2 ^ 32)) w
        ≡ some (true, w1))
      × (send_loop ws fuel c.socket message w1 ≡ some (true, w'))
unfolding send_short
send_data-both ws fuel c message w w' e =
    elim (Option-cases (send_loop ws fuel c.socket (le32 (length message % 2 ^ 32)) w)) [
      | inl e1 ↦ absurd (ground arith)
      | inr ((r1, w1), e1) ↦ elim (Option-cases (send_loop ws fuel c.socket message w1)) [
        | inl e2 ↦ absurd (ground arith)
        | inr ((r2, w2), e2) ↦ (w1, ground arith, ground arith)
      ]
    ]

module _ {ws : Winsock} (l : SendLaws ws) where
  send_loop_round :
      (w w' : ws.World) (s : Option ℕ) (bytes : List ℕ) (n : ℕ) (r : Bool)
      → (ws.send w s bytes).0 ≡ some n
      → Sends l (ws.send w s bytes).1 s (drop n bytes) r w'
      → Sends l w s bytes r w'
  send_loop_round w w' s bytes n r e (front, rest, cut, grown, all) = (
    take n bytes ++ front,
    rest,
    sym (take-append-drop n bytes)
        ∙ ap (◌++◌ (take n bytes)) cut
        ∙ sym (append_assoc (take n bytes) front rest),
    grown
        ∙ ap (λ b. b ++ front) (l.accepts w s bytes n e).1
        ∙ append_assoc (l.sent w s) (take n bytes) front,
    all,
  )

  -- A block that ends has sent a front of its data, and all of it if it returns true.
  pub send_loop-Sends :
      (fuel : ℕ) (s : Option ℕ) (bytes : List ℕ) (w w' : ws.World) (r : Bool)
      → send_loop ws fuel s bytes w ≡ some (r, w')
      → Sends l w s bytes r w'
  send_loop-Sends zero s bytes w w' r e = unfold send_loop in cc
  send_loop-Sends (suc fuel) s bytes w w' r e = elim (round ws fuel s bytes w) [
    | failed a x b ↦
        let n : w' ≡ next ws fuel s bytes w = cc in ([], bytes, refl, unsent n a, λ t. cc)
    | retried a x p b ↦
        let (front, rest, cut, grown, all) =
          send_loop-Sends fuel s bytes (next ws fuel s bytes w) w' r (sym b ∙ e) in
        (front, rest, cut, grown ∙ ap (λ o. o ++ front) (l.refuses w s bytes a), all)
    | empty a x b ↦
        let n : w' ≡ next ws fuel s bytes w = cc in ([], bytes, refl, unsent n a, λ t. x)
    | partly n a p b ↦
        send_loop_round w w' s bytes n r a
          (send_loop-Sends fuel s (drop n bytes) (next ws fuel s bytes w) w' r (sym b ∙ e))
    | whole n a x b ↦
        let m : w' ≡ next ws fuel s bytes w = cc in
        send_loop_round w w' s bytes n r a
          ([], drop n bytes, refl, ap (λ u. l.sent u s) m ∙ sym (append-nil _), λ t. x)
  ]
    where
      unsent :
          w' ≡ next ws fuel s bytes w
          → (ws.send w s bytes).0 ≡ none
          → l.sent w' s ≡ l.sent w s ++ []
      unsent n a = ap (λ u. l.sent u s) n ∙ l.refuses w s bytes a ∙ sym (append-nil _)

  -- A block that ends with true has sent its data, and nothing else.
  pub send_loop_sent :
      (fuel : ℕ) (s : Option ℕ) (bytes : List ℕ) (w w' : ws.World)
      → send_loop ws fuel s bytes w ≡ some (true, w')
      → l.sent w' s ≡ l.sent w s ++ bytes
  send_loop_sent fuel s bytes w w' e =
      let (front, rest, cut, grown, all) = send_loop-Sends fuel s bytes w w' true e in
      grown ∙ ap (◌++◌ (l.sent w s)) (sym (cut ∙ ap (◌++◌ front) (all refl) ∙ append-nil front))

  -- Where `send` takes a front of what it is given, or nothing, and says so: when `send_data` returns
  -- true for a message below 2 ^ 31 bytes, the connection has got the message in its frame, whole
  -- and once, behind what it had got before.
  pub send_data-frame :
      (fuel : ℕ) (c : ClientSocket) (message : List ℕ) (w w' : ws.World)
      → length message < 2 ^ 31
      → send_data ws fuel c message w ≡ some (true, w')
      → l.sent w' c.socket ≡ l.sent w c.socket ++ frame message
  unfolding frame
  send_data-frame fuel c message w w' h e =
      let header = le32 (length message % 2 ^ 32) in
      let (w1, e1, e2) =
        send_data-both ws fuel c message w w' (sym (send_data_short ws fuel c message w h) ∙ e) in
      send_loop_sent fuel c.socket message w1 w' e2
      ∙ ap (λ o. o ++ message) (send_loop_sent fuel c.socket header w w1 e1)
      ∙ append_assoc (l.sent w c.socket) header message
