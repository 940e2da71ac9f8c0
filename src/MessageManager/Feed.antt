-- ===== src/MessageManager/Feed.antt =====
-- The parser against a reference that takes one byte at a time: it ends, keeps its invariant, and
-- does not see how the stream was cut into blobs.
use mathlib.Core.List.{foldl-append}
use friendviewer.Prelude.{
  ℕ, zero, suc, ◌+◌, ◌-◌, ◌≤◌, ◌<◌, ◌≡◌, refl, sym, ◌∙◌, ap, inl, inr, Bool, Bool-cases, true,
  false, some, List, [], ◌∷◌, ◌++◌, foldl, arith, ◌==◌, if◌then◌else◌, length, take, drop, min,
  length-append, take-append-drop, length-take, length-drop, append_assoc,
}
use friendviewer.Prelude.Words.{
  ℤ, pos, negsuc, sub64, signed32, to_size, from_le, IsInt32, signed32-IsInt32, to_size-lt,
  sub64-sub,
}
use friendviewer.MessageManager.{
  MessageManager, initial, is_zero, finish_length, finish_message, insert_partial, parse_step,
  parse_loop, parse_blob,
}

-- How many bytes the current part of a message has.
abbrev pub target : Bool → ℤ → ℕ
target true next = 4
target false next = to_size next

-- Between calls the current part is not complete.
pub record IsValid (m : MessageManager) : Type 0 where
  pub open_part : length m.partial_message_buffer < target m.reading_length m.next_message
  pub in_range : IsInt32 m.next_message

-- The bytes join the current part, which is then checked for its end.
unfoldable pub absorb : MessageManager → List ℕ → MessageManager
absorb m bytes =
    if m.reading_length
    then finish_length (insert_partial m bytes)
    else finish_message (insert_partial m bytes)

-- The reference: one byte of the stream.
unfoldable pub feed : MessageManager → ℕ → MessageManager
feed m b = absorb m (b ∷ [])

module _ (m : MessageManager) (bytes : List ℕ) where
  pub absorb-length :
      m.reading_length ≡ true → absorb m bytes ≡ finish_length (insert_partial m bytes)
  unfolding absorb
  absorb-length r =
      ap
        (λ b.
          if b
          then finish_length (insert_partial m bytes)
          else finish_message (insert_partial m bytes))
        r

  pub absorb-message :
      m.reading_length ≡ false → absorb m bytes ≡ finish_message (insert_partial m bytes)
  unfolding absorb
  absorb-message r =
      ap
        (λ b.
          if b
          then finish_length (insert_partial m bytes)
          else finish_message (insert_partial m bytes))
        r

to_size-pos : (z : ℤ) → is_zero z ≡ false → IsInt32 z → 0 < to_size z
to_size-pos (pos n) e h = ground arith
to_size-pos (negsuc n) e h = omega arith

finish_length-IsValid :
    (m : MessageManager)
    → m.reading_length ≡ true
    → length m.partial_message_buffer ≤ 4
    → IsInt32 m.next_message
    → IsValid (finish_length m)
unfolding finish_length
finish_length-IsValid m r h k =
    let next = signed32 (from_le m.partial_message_buffer) in
    let range = signed32-IsInt32 (from_le m.partial_message_buffer) in
    elim (Bool-cases (length m.partial_message_buffer == 4)) [
      | inl full ↦ rw full (elim (Bool-cases (is_zero next)) [
        | inl z ↦ rw z (record { open_part = omega arith; in_range = range })
        | inr z ↦ rw z (record { open_part = to_size-pos next z range; in_range = range })
      ])
      | inr more ↦ rw (more, r) (record { open_part = ground arith; in_range = k })
    ]

finish_message-IsValid :
    (m : MessageManager)
    → m.reading_length ≡ false
    → length m.partial_message_buffer ≤ to_size m.next_message
    → IsInt32 m.next_message
    → IsValid (finish_message m)
unfolding finish_message
finish_message-IsValid m r h k = ground arith

pub absorb-IsValid :
    (m : MessageManager) (bytes : List ℕ)
    → IsValid m
    → length m.partial_message_buffer + length bytes ≤ target m.reading_length m.next_message
    → IsValid (absorb m bytes)
unfolding absorb insert_partial
absorb-IsValid m bytes v h = ground (
  arith,
  length-append m.partial_message_buffer bytes,
  finish_length-IsValid (insert_partial m bytes),
  finish_message-IsValid (insert_partial m bytes),
)

pub feed-IsValid : (m : MessageManager) (b : ℕ) → IsValid m → IsValid (feed m b)
unfolding feed
feed-IsValid m b v = absorb-IsValid m (b ∷ []) v (omega arith)

-- Short of the end of its part, a byte is only kept.
feed-short :
    (m : MessageManager) (b : ℕ)
    → length m.partial_message_buffer + 1 < target m.reading_length m.next_message
    → feed m b ≡ insert_partial m (b ∷ [])
unfolding feed absorb finish_length finish_message insert_partial
feed-short m b h = ground (arith, length-append m.partial_message_buffer (b ∷ []))

absorb-insert :
    (m : MessageManager) (xs ys : List ℕ) → absorb (insert_partial m xs) ys ≡ absorb m (xs ++ ys)
unfolding absorb insert_partial
absorb-insert m xs ys = rw append_assoc

insert-IsValid :
    (m : MessageManager) (b : ℕ)
    → IsValid m
    → length m.partial_message_buffer + 1 < target m.reading_length m.next_message
    → IsValid (insert_partial m (b ∷ []))
unfolding insert_partial
insert-IsValid m b v h = record {
  open_part = omega (arith, length-append m.partial_message_buffer (b ∷ []));
  in_range = v.in_range;
}

-- Bytes up to the end of the part: one by one, or all at once.
pub feeds-absorb :
    (m : MessageManager) (b : ℕ) (bs : List ℕ)
    → IsValid m
    → length m.partial_message_buffer + suc (length bs) ≤ target m.reading_length m.next_message
    → foldl feed m (b ∷ bs) ≡ absorb m (b ∷ bs)
feeds-absorb m b [] v h = unfold feed in refl
feeds-absorb m b (c ∷ cs) v h =
    let short = feed-short m b (omega arith) in
    ap (λ n. foldl feed n (c ∷ cs)) short
    ∙ feeds-absorb (insert_partial m (b ∷ [])) c cs (insert-IsValid m b v (omega arith))
        (unfold insert_partial in omega (arith, length-append m.partial_message_buffer (b ∷ [])))
    ∙ absorb-insert m (b ∷ []) (c ∷ cs)

-- What one round of the loop takes.
abbrev portion : MessageManager → List ℕ → ℕ
portion m blob =
    min (target m.reading_length m.next_message - length m.partial_message_buffer) (length blob)

room-sub64 :
    (r : Bool) (z : ℤ) (n : ℕ)
    → n < target r z
    → IsInt32 z
    → (if r then sub64 4 n else sub64 (to_size z) n) ≡ target r z - n
room-sub64 true z n h k = sub64-sub 4 n (omega arith) (omega arith)
room-sub64 false z n h k = sub64-sub (to_size z) n (omega arith) (to_size-lt z k)

parse_step-absorb :
    (m : MessageManager) (blob : List ℕ)
    → IsValid m
    → parse_step m blob ≡ (absorb m (take (portion m blob) blob), drop (portion m blob) blob)
unfolding parse_step absorb
parse_step-absorb m blob v =
    let room = room-sub64 m.reading_length m.next_message _ v.open_part v.in_range in
    elim (Bool-cases m.reading_length) [
      | inl r ↦ rw r (rw (rw r at room))
      | inr r ↦ rw r (rw (rw r at room))
    ]

feeds-cut :
    (m : MessageManager) (k b : ℕ) (bs : List ℕ)
    → IsValid m
    → length m.partial_message_buffer + suc k ≤ target m.reading_length m.next_message
    → foldl feed (absorb m (b ∷ take k bs)) (drop k bs) ≡ foldl feed m (b ∷ bs)
feeds-cut m k b bs v h =
    ap (λ n. foldl feed n (drop k bs))
      (sym (feeds-absorb m b (take k bs) v (omega (arith, length-take k bs))))
    ∙ sym (foldl-append feed m (b ∷ take k bs) (drop k bs))
    ∙ ap (λ l. foldl feed m (b ∷ l)) (take-append-drop k bs)

-- What a round takes is not empty, and does not go past the end of the part.
portion-suc :
    (m : MessageManager) (b : ℕ) (bs : List ℕ)
    → IsValid m
    → (k : ℕ) × (portion m (b ∷ bs) ≡ suc k)
      × (k ≤ length bs)
      × (length m.partial_message_buffer + suc k ≤ target m.reading_length m.next_message)
portion-suc m b bs v = (portion m (b ∷ bs) - 1, omega arith, omega arith, omega arith)

parse_loop-feed :
    (fuel : ℕ) (m : MessageManager) (blob : List ℕ)
    → IsValid m
    → length blob ≤ fuel
    → parse_loop fuel m blob ≡ some (foldl feed m blob)
unfolding parse_loop
parse_loop-feed fuel m [] v h = refl
parse_loop-feed zero m (b ∷ bs) v h = absurd (omega arith)
parse_loop-feed (suc fuel) m (b ∷ bs) v h =
    let (k, e, fits, room) = portion-suc m b bs v in
    ap (λ p. parse_loop fuel p.0 p.1) (rw e at (parse_step-absorb m (b ∷ bs) v))
    ∙ parse_loop-feed fuel (absorb m (b ∷ take k bs)) (drop k bs)
        (absorb-IsValid m (b ∷ take k bs) v (omega (arith, length-take k bs)))
        (omega (arith, length-drop k bs))
    ∙ ap some (feeds-cut m k b bs v room)

-- From a valid state `parse_blob` ends, and leaves what feeding the bytes one by one leaves.
pub parse_blob-feed :
    (m : MessageManager) (blob : List ℕ) → IsValid m → parse_blob m blob ≡ some (foldl feed m blob)
unfolding parse_blob
parse_blob-feed m blob v = parse_loop-feed (length blob) m blob v (omega arith)

pub feeds-IsValid : (m : MessageManager) (blob : List ℕ) → IsValid m → IsValid (foldl feed m blob)
feeds-IsValid m [] v = v
feeds-IsValid m (b ∷ bs) v = feeds-IsValid (feed m b) bs (feed-IsValid m b v)

pub initial-IsValid : IsValid initial
initial-IsValid = omega arith

-- `parse_blob` ends in a valid state when it starts in one.
pub parse_blob-IsValid :
    (m : MessageManager) (blob : List ℕ)
    → IsValid m
    → (m' : MessageManager) × (parse_blob m blob ≡ some m') × IsValid m'
parse_blob-IsValid m blob v = (_, parse_blob-feed m blob v, feeds-IsValid m blob v)
