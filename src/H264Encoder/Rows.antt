-- ===== src/H264Encoder/Rows.antt =====
-- The rows that the encoder hands to the scaler: the frame turned upside down.
use friendviewer.Prelude.{
  ℕ, zero, suc, ◌+◌, ◌*◌, ◌-◌, ◌^◌, ◌<◌, ◌≤◌, ◌≡◌, refl, sym, ◌∙◌, ap, some, List, [], ◌∷◌, ◌++◌,
  length, take, drop, take-length, arith,
}
use friendviewer.H264Encoder.{bottom_up, rows_up}

-- The bytes of rows, the last row first.
abbrev pub upward : List (List ℕ) → List ℕ
upward [] = []
upward (row ∷ rows) = upward rows ++ row

take_more : (m n : ℕ) (l : List ℕ) → take m l ++ take n (drop m l) ≡ take (m + n) l
take_more zero n l = ap (λ k. take k l) (omega arith)
take_more (suc m) n [] =
    take-length n [] (omega arith) ∙ sym (take-length (suc m + n) [] (omega arith))
take_more (suc m) n (x ∷ l) =
    ap (◌∷◌ x) (take_more m n l)
    ∙ ap (λ k. take k (x ∷ l)) (let e : suc (m + n) ≡ suc m + n = omega arith in e)

rows_up-take :
    (frame : List ℕ) (width y : ℕ)
    → y * (4 * width) ≤ length frame
    → (rows : List (List ℕ)) × (rows_up frame width y ≡ some rows)
      × (upward rows ≡ take (y * (4 * width)) frame)
unfolding rows_up
rows_up-take frame width zero h =
    ([], refl, ap (λ n. take n frame) (let e : 0 ≡ 0 * (4 * width) = omega arith in e))
rows_up-take frame width (suc y) h =
    let (rows, same, whole) = rows_up-take frame width y (ground arith) in
    (
      take (4 * width) (drop (y * (4 * width)) frame) ∷ rows,
      ground arith,
      ap (λ l. l ++ take (4 * width) (drop (y * (4 * width)) frame)) whole
          ∙ take_more (y * (4 * width)) (4 * width) frame
          ∙ ap (λ n. take n frame) (omega arith),
    )

-- The numbers of a frame that is not empty are `int`s when its size is one.
int_sizes :
    (width height : ℕ)
    → 0 < width * height * 4
    → width * height * 4 < 2 ^ 31
    → (4 * width ≤ 2 ^ 31) × ((height - 1) * 4 < 2 ^ 31) × ((height - 1) * 4 * width < 2 ^ 31)
int_sizes zero height low fits = absurd (omega (arith, low))
int_sizes (suc w) zero low fits = absurd (omega (arith, low))
int_sizes (suc w) (suc h) low fits =
    let all : suc w * suc h * 4 ≡ 4 + 4 * w + 4 * h + 4 * (w * h) = omega arith in
    let less : suc h - 1 ≡ h = omega arith in
    let tall : (suc h - 1) * 4 ≡ h * 4 = ap (λ k. k * 4) less in
    let high : (suc h - 1) * 4 * suc w ≡ 4 * h + 4 * (w * h) =
      ap (λ k. k * suc w) tall ∙ omega arith in
    (omega (arith, fits, all), omega (arith, fits, all, tall), omega (arith, fits, all, high))

-- A frame of four bytes for each pixel, with a size that is not 0 and is an `int`, is read within
-- its bounds, and the rows that are read, the last one first, are the whole frame.
pub bottom_up_whole :
    (frame : List ℕ) (width height : ℕ)
    → length frame ≡ width * height * 4
    → 0 < width * height * 4
    → width * height * 4 < 2 ^ 31
    → (rows : List (List ℕ)) × (bottom_up frame width height ≡ some rows) × (upward rows ≡ frame)
unfolding bottom_up
bottom_up_whole frame width height size low fits =
    let e : height * (4 * width) ≡ width * height * 4 = omega arith in
    let (rows, same, whole) = rows_up-take frame width height (omega arith) in
    let (a, b, c) = int_sizes width height low fits in
    (rows, ground (arith, same), whole ∙ take-length (height * (4 * width)) frame (omega arith))
