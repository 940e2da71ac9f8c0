-- ===== src/ChunkBuffer/Schedule.antt =====
-- Calls of several threads on one buffer, in the order in which they get the mutex.
use friendviewer.Prelude.{
  ◌≡◌, refl, Bool, true, false, List, [], ◌∷◌, ◌++◌, append_assoc, append-nil, ◌∙◌, ap, sym, arith,
}
use friendviewer.ChunkBuffer.{ChunkBuffer, dequeue_chunk, enqueue_chunk, clear}

-- A call by some thread.
pub data Call {ℓ} (T : Type ℓ) : Type ℓ where
  enqueues : T → Call T
  dequeues : Call T
  clears : Call T

module _ {ℓ} {T : Type ℓ} where
  chunk_if : Bool → T → List T
  chunk_if true c = c ∷ []
  chunk_if false c = []

  -- A schedule of calls: the chunks handed out so far, and the buffer. `blank` is what the
  -- callers' chunks hold before they dequeue.
  pub serve : T → ChunkBuffer T → Call T → List T × ChunkBuffer T
  unfolding dequeue_chunk enqueue_chunk clear chunk_if
  serve blank b (enqueues c) = ([], enqueue_chunk b c)
  serve blank b dequeues = let (got, c, b') = dequeue_chunk b blank in (chunk_if got c, b')
  serve blank b clears = ([], clear b)

  pub run : T → ChunkBuffer T → List (Call T) → List T × ChunkBuffer T
  run blank b [] = ([], b)
  run blank b (c ∷ cs) =
      let (out, b') = serve blank b c in let (rest, b'') = run blank b' cs in (out ++ rest, b'')

  -- What a schedule puts in.
  pub inputs : List (Call T) → List T
  inputs [] = []
  inputs (enqueues c ∷ cs) = c ∷ inputs cs
  inputs (dequeues ∷ cs) = inputs cs
  inputs (clears ∷ cs) = inputs cs

  abbrev pub HasNoClear : List (Call T) → Type 0
  HasNoClear [] = Unit
  HasNoClear (enqueues c ∷ cs) = HasNoClear cs
  HasNoClear (dequeues ∷ cs) = HasNoClear cs
  HasNoClear (clears ∷ cs) = ⊥

  dequeue_fifo :
      (q : List T) (blank : T) (b : ChunkBuffer T)
      → b.queue ≡ q
      → (serve blank b dequeues).0 ++ (serve blank b dequeues).1.queue ≡ b.queue
  unfolding serve
  dequeue_fifo [] blank b e = ground arith
  dequeue_fifo (c ∷ q) blank b e = ground arith

  -- In every schedule of enqueues and dequeues, the chunks that were handed out and those still
  -- in the buffer are, in order, what the buffer held and what was enqueued.
  pub run_fifo :
      (blank : T) (b : ChunkBuffer T) (cs : List (Call T))
      → HasNoClear cs
      → (run blank b cs).0 ++ (run blank b cs).1.queue ≡ b.queue ++ inputs cs
  unfolding run inputs serve
  run_fifo blank b [] h = sym (append-nil b.queue)
  run_fifo blank b (enqueues c ∷ cs) h =
      run_fifo blank (enqueue_chunk b c) cs h ∙ append_assoc b.queue (c ∷ []) (inputs cs)
  run_fifo blank b (dequeues ∷ cs) h =
      append_assoc (serve blank b dequeues).0 _ _
      ∙ ap (◌++◌ (serve blank b dequeues).0) (run_fifo blank (serve blank b dequeues).1 cs h)
      ∙ sym (append_assoc (serve blank b dequeues).0 _ _)
      ∙ ap (λ l. l ++ inputs cs) (dequeue_fifo b.queue blank b refl)
  run_fifo blank b (clears ∷ cs) h = absurd h

  run-append :
      (blank : T) (b : ChunkBuffer T) (cs ds : List (Call T))
      → run blank b (cs ++ ds) ≡ (
        (run blank b cs).0 ++ (run blank (run blank b cs).1 ds).0,
        (run blank (run blank b cs).1 ds).1,
      )
  unfolding run
  run-append blank b [] ds = refl
  run-append blank b (c ∷ cs) ds =
      let b' = (serve blank b c).1 in
      let out = (serve blank b c).0 in
      ap (λ (p : List T × ChunkBuffer T). (out ++ p.0, p.1)) (run-append blank b' cs ds)
      ∙ ap (λ (o : List T). (o, (run blank (run blank b' cs).1 ds).1)) (sym (append_assoc out _ _))

  -- A chunk that was in the buffer at a `clear` is never handed out: with no further `clear`,
  -- what comes out later and what is left are what was enqueued later.
  pub run_cleared :
      (blank : T) (b : ChunkBuffer T) (cs ds : List (Call T))
      → HasNoClear ds
      → (out : List T) × ((run blank b (cs ++ clears ∷ ds)).0 ≡ (run blank b cs).0 ++ out)
        × (out ++ (run blank b (cs ++ clears ∷ ds)).1.queue ≡ inputs ds)
  run_cleared blank b cs ds h =
      let b' = (run blank b cs).1 in
      let e = run-append blank b cs (clears ∷ ds) in
      (
        (run blank b' (clears ∷ ds)).0,
        ap (λ p. p.0) e,
        ap (λ p. (run blank b' (clears ∷ ds)).0 ++ p.1.queue) e
            ∙ unfold run serve in run_fifo blank (clear b') ds h,
      )
