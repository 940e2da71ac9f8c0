-- ===== src/MessageManager/Batches.antt =====
-- The parser does not look at its queue: what waits in it stays in front of what is parsed.
use friendviewer.Prelude.{
  ℕ, ◌≡◌, refl, sym, ◌∙◌, ap, inl, inr, Bool-cases, List, [], ◌∷◌, ◌++◌, foldl, arith, append_assoc,
}
use friendviewer.MessageManager.{MessageManager, finish_length, finish_message, insert_partial}
use friendviewer.MessageManager.Feed.{absorb-length, absorb-message, feed}

-- `m` with some messages in front of those that wait.
abbrev pub behind : List (List ℕ) → MessageManager → MessageManager
behind front m = record m { message_buffers = front ++ m.message_buffers }

finish_length-behind :
    (front : List (List ℕ)) (m : MessageManager)
    → finish_length (behind front m) ≡ behind front (finish_length m)
unfolding finish_length
finish_length-behind front m = ground (arith, append_assoc front m.message_buffers ([] ∷ []))

finish_message-behind :
    (front : List (List ℕ)) (m : MessageManager)
    → finish_message (behind front m) ≡ behind front (finish_message m)
unfolding finish_message
finish_message-behind front m =
    ground (arith, append_assoc front m.message_buffers (m.partial_message_buffer ∷ []))

feed-behind :
    (front : List (List ℕ)) (m : MessageManager) (b : ℕ)
    → feed (behind front m) b ≡ behind front (feed m b)
unfolding feed insert_partial
feed-behind front m b = elim (Bool-cases m.reading_length) [
  | inl r ↦
      absorb-length (behind front m) (b ∷ []) r
      ∙ finish_length-behind front (insert_partial m (b ∷ []))
      ∙ ap (behind front) (sym (absorb-length m (b ∷ []) r))
  | inr r ↦
      absorb-message (behind front m) (b ∷ []) r
      ∙ finish_message-behind front (insert_partial m (b ∷ []))
      ∙ ap (behind front) (sym (absorb-message m (b ∷ []) r))
]

pub feeds-behind :
    (bytes : List ℕ) (front : List (List ℕ)) (m : MessageManager)
    → foldl feed (behind front m) bytes ≡ behind front (foldl feed m bytes)
feeds-behind [] front m = refl
feeds-behind (b ∷ bs) front m =
    ap (λ n. foldl feed n bs) (feed-behind front m b) ∙ feeds-behind bs front (feed m b)
