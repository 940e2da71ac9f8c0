-- ===== src/MessageManager/Unfinished.antt =====
-- The parser within a frame: before its last byte nothing is queued.
use mathlib.Core.List.{foldl-append, tail-eq_of_cons-eq}
use friendviewer.Prelude.{
  ℕ, ◌%◌, ◌^◌, ◌≤◌, ◌<◌, ◌≡◌, ◌≢◌, refl, ◌∙◌, ap, inl, inr, List, [], ◌∷◌, ◌++◌, foldl, length,
  length-append, arith, ltb, Bool-cases,
}
use friendviewer.Prelude.Words.{signed32, from_le, le32, length-le32, signed32-IsInt32}
use friendviewer.MessageManager.{MessageManager, is_zero, insert_partial}
use friendviewer.MessageManager.Branches.{finish_length-more}
use friendviewer.MessageManager.Feed.{absorb-length, feed, feeds-absorb}
use friendviewer.MessageManager.Wire.{frame}
use friendviewer.MessageManager.RoundTrip.{
  IsShort, IsIdle, IsIdle-IsValid, expecting, feeds-descriptor, feeds-open, signed32-length,
}

-- A front of `header ++ message` that has the header.
append_front :
    (header message xs ys : List ℕ)
    → xs ++ ys ≡ header ++ message
    → length header ≤ length xs
    → (body : List ℕ) × (xs ≡ header ++ body) × (body ++ ys ≡ message)
append_front [] message xs ys e h = (xs, refl, e)
append_front (b ∷ bs) message [] ys e h = absurd (omega arith)
append_front (b ∷ bs) message (x ∷ xs) ys e h =
    let (body, front, rest) = append_front bs message xs ys (tail-eq_of_cons-eq e) (omega arith) in
    (body, cc, rest)

-- Less than a length descriptor is only kept.
feeds-short :
    (m : MessageManager) (part : List ℕ)
    → IsIdle m
    → length part < 4
    → (foldl feed m part).message_buffers ≡ m.message_buffers
unfolding insert_partial
feeds-short m [] i h = refl
feeds-short m (b ∷ bs) i h =
    ap (λ n. n.message_buffers)
      (feeds-absorb m b bs (IsIdle-IsValid m i) (ground (arith, i.at_length, i.nothing_open))
        ∙ absorb-length m (b ∷ bs) i.at_length
        ∙ finish_length-more (insert_partial m (b ∷ bs)) (λ e.
          omega (arith, length-append m.partial_message_buffer (b ∷ bs), ap length i.nothing_open)))

length-pos : (rest : List ℕ) → rest ≢ [] → 0 < length rest
length-pos [] h = absurd (h refl)
length-pos (b ∷ bs) h = omega arith

-- A length descriptor and less than its message.
feeds-body_short :
    (m : MessageManager) (message body : List ℕ)
    → IsIdle m
    → IsShort message
    → length body < length message
    → (foldl feed m (le32 (length message % 2 ^ 32) ++ body)).message_buffers ≡ m.message_buffers
feeds-body_short m message body i h short =
    let header = le32 (length message % 2 ^ 32) in
    let z = signed32-length message h in
    ap (λ n. n.message_buffers)
      (foldl-append feed m header body
        ∙ ap (λ n. foldl feed n body)
            (feeds-descriptor m header i (length-le32 _) (ap is_zero z ∙ ground arith)))
    ∙ feeds-open (expecting m (signed32 (from_le header))) body
        (record { open_part = rw z (omega arith); in_range = signed32-IsInt32 _ }) refl
        (rw z (omega arith))

-- A front of a frame without its last byte, from an idle state.
pub feeds-part :
    (m : MessageManager) (message part rest : List ℕ)
    → IsIdle m
    → IsShort message
    → part ++ rest ≡ frame message
    → rest ≢ []
    → (foldl feed m part).message_buffers ≡ m.message_buffers
unfolding frame
feeds-part m message part rest i h cut more =
    let header = le32 (length message % 2 ^ 32) in
    elim (Bool-cases (ltb (length part) 4)) [
      | inl short ↦ feeds-short m part i (ground arith)
      | inr long ↦
          let (body, front, end) =
            append_front header message part rest cut
              (ground (arith, length-le32 (length message % 2 ^ 32))) in
          ap (λ b. (foldl feed m b).message_buffers) front
          ∙ feeds-body_short m message body i h
              (omega (arith, ap length end, length-append body rest, length-pos rest more))
    ]
