-- ===== src/ChunkBuffer/Runs.antt =====
-- The buffer at a concrete schedule.
use friendviewer.Prelude.{ℕ, ◌≡◌, List, [], ◌∷◌, ◌++◌}
use friendviewer.ChunkBuffer.{empty}
use friendviewer.ChunkBuffer.Schedule.{Call, enqueues, dequeues, run, inputs, run_fifo}

abbrev calls : List (Call ℕ)
calls = enqueues 4 ∷ dequeues ∷ dequeues ∷ enqueues 5 ∷ enqueues 6 ∷ dequeues ∷ []

run_fifo_example : (run 0 empty calls).0 ++ (run 0 empty calls).1.queue ≡ inputs calls
run_fifo_example = run_fifo 0 empty calls tt
