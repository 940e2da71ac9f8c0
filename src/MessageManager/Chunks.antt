-- ===== src/MessageManager/Chunks.antt =====
-- The calls of `parse_blob` on the pieces of a stream.
use mathlib.Core.List.{foldl-append, flatten}
use friendviewer.Prelude.{ℕ, ◌≡◌, sym, ◌∙◌, ap, Option, none, some, List, [], ◌∷◌, ◌++◌, foldl}
use friendviewer.MessageManager.{MessageManager, parse_blob}
use friendviewer.MessageManager.Feed.{IsValid, feed, parse_blob-feed, feeds-IsValid}

-- A list of blobs, one call for each.
pub parse_blobs : MessageManager → List (List ℕ) → Option MessageManager
parse_blobs m [] = some m
parse_blobs m (blob ∷ blobs) = elim (parse_blob m blob) [
  | none ↦ none
  | some m' ↦ parse_blobs m' blobs
]

-- From a valid state, the calls on the pieces of a stream leave what one call on the whole
-- stream leaves, wherever the stream is cut.
pub parse_blobs-flatten :
    (m : MessageManager) (blobs : List (List ℕ))
    → IsValid m
    → parse_blobs m blobs ≡ parse_blob m (flatten blobs)
unfolding parse_blobs flatten
parse_blobs-flatten m [] v = sym (parse_blob-feed m [] v)
parse_blobs-flatten m (blob ∷ blobs) v =
    rw (parse_blob-feed m blob v, parse_blobs)
      (parse_blobs-flatten (foldl feed m blob) blobs (feeds-IsValid m blob v)
        ∙ parse_blob-feed _ (flatten blobs) (feeds-IsValid m blob v)
        ∙ ap some (sym (foldl-append feed m blob (flatten blobs)))
        ∙ sym (parse_blob-feed m (blob ++ flatten blobs) v))

-- The state after the blobs, and what it takes to be a state.
pub parse_blobs-feed :
    (m : MessageManager) (blobs : List (List ℕ))
    → IsValid m
    → parse_blobs m blobs ≡ some (foldl feed m (flatten blobs))
parse_blobs-feed m blobs v = parse_blobs-flatten m blobs v ∙ parse_blob-feed m (flatten blobs) v
