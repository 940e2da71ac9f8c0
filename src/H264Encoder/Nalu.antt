-- ===== src/H264Encoder/Nalu.antt =====
-- The units of an H.264 byte stream, and where `seek_nalu` finds them.
use friendviewer.Prelude.{
  ℕ, ◌+◌, ◌≤◌, ◌<◌, ◌≡◌, ◌≢◌, ◌⊎◌, inl, inr, refl, ◌∙◌, ap, false, some, List, [], ◌∷◌, ◌++◌,
  length, drop, length-append, append_assoc, arith, All, drop-add, drop-append, ◌-◌,
}
use friendviewer.H264Encoder.{starts_nalu, seek_next, seek_from, seek_nalu}

pub data StartCode : Type 0 where
  short long : StartCode

abbrev pub code_bytes : StartCode → List ℕ
code_bytes short = 0 ∷ 0 ∷ 1 ∷ []
code_bytes long = 0 ∷ 0 ∷ 0 ∷ 1 ∷ []

-- A unit of the byte stream format: a start code, and bytes among which no two zeros are followed by
-- a byte below 2, the last of them not 0.
pub record Nalu : Type 0 where
  pub code : StartCode
  pub payload : List ℕ

abbrev pub IsPayload : List ℕ → Type 0
IsPayload [] = ⊥
IsPayload (x ∷ []) = x ≢ 0
IsPayload (x ∷ y ∷ []) = y ≢ 0
IsPayload (x ∷ y ∷ z ∷ p) = ((x ≢ 0) ⊎ (y ≢ 0) ⊎ (1 < z)) × IsPayload (y ∷ z ∷ p)

abbrev pub nalu_bytes : Nalu → List ℕ
nalu_bytes n = code_bytes n.code ++ n.payload

unfoldable pub stream : List Nalu → List ℕ
stream [] = []
stream (n ∷ ns) = nalu_bytes n ++ stream ns

abbrev pub IsNalu : Nalu → Type 0
IsNalu n = IsPayload n.payload

seek_next-skip :
    (x : ℕ) (mem : List ℕ) (tmp : ℕ)
    → starts_nalu (x ∷ mem) ≡ some false
    → seek_next (x ∷ mem) tmp ≡ seek_next mem (tmp + 1)
unfolding seek_next
seek_next-skip x mem tmp e = rw (e, seek_next)

starts_nalu-first : (x : ℕ) (mem : List ℕ) → x ≢ 0 → starts_nalu (x ∷ mem) ≡ some false
unfolding starts_nalu
starts_nalu-first x mem h = ground arith

starts_nalu-second : (x y : ℕ) (mem : List ℕ) → y ≢ 0 → starts_nalu (x ∷ y ∷ mem) ≡ some false
unfolding starts_nalu
starts_nalu-second x y mem h = ground arith

starts_nalu-third :
    (x y z : ℕ) (mem : List ℕ)
    → (x ≢ 0) ⊎ (y ≢ 0) ⊎ (1 < z)
    → starts_nalu (x ∷ y ∷ z ∷ mem) ≡ some false
unfolding starts_nalu
starts_nalu-third x y z mem (inl h) = ground arith
starts_nalu-third x y z mem (inr (inl h)) = ground arith
starts_nalu-third x y z mem (inr (inr h)) = ground arith

-- The search passes a payload.
seek_next-payload :
    (p rest : List ℕ) (tmp : ℕ)
    → IsPayload p
    → seek_next (p ++ rest) tmp ≡ seek_next rest (tmp + length p)
seek_next-payload [] rest tmp h = absurd h
seek_next-payload (x ∷ []) rest tmp h = seek_next-skip x rest tmp (starts_nalu-first x rest h)
seek_next-payload (x ∷ y ∷ []) rest tmp h =
    seek_next-skip x (y ∷ rest) tmp (starts_nalu-second x y rest h)
    ∙ seek_next-skip y rest (tmp + 1) (starts_nalu-first y rest h)
    ∙ ap (seek_next rest) (omega arith)
seek_next-payload (x ∷ y ∷ z ∷ p) rest tmp h =
    seek_next-skip x (y ∷ z ∷ (p ++ rest)) tmp (starts_nalu-third x y z (p ++ rest) h.0)
    ∙ seek_next-payload (y ∷ z ∷ p) rest (tmp + 1) h.1
    ∙ ap (seek_next rest) (omega arith)

-- It stops at the start code of the next unit.
seek_next-code :
    (c : StartCode) (rest : List ℕ) (tmp : ℕ) → seek_next (code_bytes c ++ rest) tmp ≡ some tmp
unfolding seek_next starts_nalu
seek_next-code short rest tmp = refl
seek_next-code long rest tmp = refl

-- The rest of the own start code holds no start.
seek_next-code_rest :
    (c : StartCode) (p : List ℕ) (tmp : ℕ)
    → seek_next (drop 2 (code_bytes c ++ p)) tmp ≡ seek_next p (tmp + length (code_bytes c) - 2)
seek_next-code_rest short p tmp =
    seek_next-skip 1 p tmp (starts_nalu-first 1 p (λ e. cc)) ∙ ap (seek_next p) (omega arith)
seek_next-code_rest long p tmp =
    seek_next-skip 0 (1 ∷ p) tmp (starts_nalu-second 0 1 p (λ e. cc))
    ∙ seek_next-skip 1 p (tmp + 1) (starts_nalu-first 1 p (λ e. cc))
    ∙ ap (seek_next p) (omega arith)

length-code_bytes : (c : StartCode) → 2 ≤ length (code_bytes c)
length-code_bytes short = omega arith
length-code_bytes long = omega arith

seek_next-nalu :
    (n : Nalu) (rest : List ℕ) (off : ℕ)
    → IsNalu n
    → seek_next (drop 2 (nalu_bytes n ++ rest)) (off + 2)
      ≡ seek_next rest (off + length (nalu_bytes n))
seek_next-nalu n rest off h =
    ap (λ l. seek_next (drop 2 l) (off + 2)) (append_assoc (code_bytes n.code) n.payload rest)
    ∙ seek_next-code_rest n.code (n.payload ++ rest) (off + 2)
    ∙ seek_next-payload n.payload rest (off + 2 + length (code_bytes n.code) - 2) h
    ∙ ap (seek_next rest)
        (omega (arith, length-append (code_bytes n.code) n.payload, length-code_bytes n.code))

-- Where a further start code follows.
seek_next-stream :
    (ns : List Nalu) (c : StartCode) (rest : List ℕ) (tmp : ℕ)
    → seek_next (stream ns ++ (code_bytes c ++ rest)) tmp ≡ some tmp
unfolding stream
seek_next-stream [] c rest tmp = seek_next-code c rest tmp
seek_next-stream (n ∷ ns) c rest tmp =
    ap (λ l. seek_next l tmp)
      (append_assoc (nalu_bytes n) (stream ns) _ ∙ append_assoc (code_bytes n.code) n.payload _)
    ∙ seek_next-code n.code _ tmp

seek_from-stream :
    (ns : List Nalu) (c : StartCode) (rest mem : List ℕ) (off : ℕ)
    → All IsNalu ns
    → drop off mem ≡ stream ns ++ (code_bytes c ++ rest)
    → seek_from mem (length ns) off ≡ some (off + length (stream ns))
unfolding seek_from stream
seek_from-stream [] c rest mem off h e = ap some (omega arith)
seek_from-stream (n ∷ ns) c rest mem off h e =
    let tail = stream ns ++ (code_bytes c ++ rest) in
    let next = off + length (nalu_bytes n) in
    let here : drop off mem ≡ nalu_bytes n ++ tail =
      e ∙ append_assoc (nalu_bytes n) (stream ns) _ in
    let found : seek_next (drop (off + 2) mem) (off + 2) ≡ some next =
      ap (λ l. seek_next l (off + 2)) (drop-add off 2 mem ∙ ap (drop 2) here)
      ∙ seek_next-nalu n tail off h.0
      ∙ seek_next-stream ns c rest next in
    rw (found, seek_from)
      (seek_from-stream ns c rest mem next h.1 (
          drop-add off (length (nalu_bytes n)) mem
          ∙ ap (drop (length (nalu_bytes n))) here
          ∙ drop-append (nalu_bytes n) tail)
        ∙ ap some (omega (arith, length-append (nalu_bytes n) (stream ns))))

-- In memory that holds some units, a further start code and anything, `seek_nalu` for as many units
-- as there are ends, reads nothing behind the memory, and finds where the units end.
pub seek_nalu-stream :
    (ns : List Nalu) (c : StartCode) (rest : List ℕ)
    → All IsNalu ns
    → seek_nalu (stream ns ++ (code_bytes c ++ rest)) (length ns) ≡ some (length (stream ns))
unfolding seek_nalu
seek_nalu-stream ns c rest h = seek_from-stream ns c rest _ 0 h refl ∙ ap some (omega arith)
