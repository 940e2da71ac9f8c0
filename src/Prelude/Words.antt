-- ===== src/Prelude/Words.antt =====
-- Machine integers as native numbers: `size_t` arithmetic wraps at 2 ^ 64, and a 32-bit length
-- travels as four bytes, lowest first. An `int32_t` is kept as the integer that it stands for.
use friendviewer.Prelude.Tests.{ltb, ◌==◌, ==_iff, if◌then◌else◌}
use friendviewer.Prelude.Lists.{length, All}
use Prim.Native.Nat.{ℕ, suc, ◌+◌, ◌-◌, ◌*◌, ◌/◌, ◌%◌, ◌^◌, ◌≤◌, ◌<◌}
use mathlib.Core.Path.{◌≡◌, refl, ap}
use mathlib.Core.List.{List, [], ◌∷◌}
use mathlib.Core.Bool.{Bool, true, false}
use native.Mathlib.Omega.{arith}

-- `negsuc n` is -(n + 1).
pub data ℤ : Type 0 where
  pos : ℕ → ℤ
  negsuc : ℕ → ℤ

-- `a - b` on `size_t`.
abbrev pub sub64 : ℕ → ℕ → ℕ
sub64 a b = (a + 2 ^ 64 - b % 2 ^ 64) % 2 ^ 64

-- An `int32_t` from its bit pattern.
abbrev pub signed32 : ℕ → ℤ
signed32 w = if ltb w (2 ^ 31) then pos w else negsuc (2 ^ 32 - w - 1)

-- `static_cast<size_t>` of an `int32_t`: the sign is extended.
abbrev pub to_size : ℤ → ℕ
to_size (pos n) = n
to_size (negsuc n) = 2 ^ 64 - suc n

-- `static_cast<int32_t>` of a `size_t`.
abbrev pub to_int32 : ℕ → ℤ
to_int32 n = signed32 (n % 2 ^ 32)

abbrev pub IsByte : ℕ → Type 0
IsByte b = b < 256

-- The four bytes of a `uint32_t` in memory, on the little-endian machines that the program runs on.
unfoldable pub le32 : ℕ → List ℕ
le32 w = w % 256 ∷ w / 256 % 256 ∷ w / 65536 % 256 ∷ w / 16777216 % 256 ∷ []

-- The number that bytes in memory stand for, lowest byte first.
abbrev pub from_le : List ℕ → ℕ
from_le [] = 0
from_le (b ∷ bs) = b + 256 * from_le bs

pub from_le-le32 : (w : ℕ) → w < 2 ^ 32 → from_le (le32 w) ≡ w
unfolding le32
from_le-le32 w h = omega arith

-- The bit pattern of an `int32_t`.
abbrev pub pattern32 : ℤ → ℕ
pattern32 (pos n) = n
pattern32 (negsuc n) = 2 ^ 32 - suc n

abbrev pub IsInt32 : ℤ → Type 0
IsInt32 (pos n) = n < 2 ^ 31
IsInt32 (negsuc n) = n < 2 ^ 31

pub signed32-IsInt32 : (w : ℕ) → IsInt32 (signed32 w)
signed32-IsInt32 w = ground arith

pub to_size-lt : (z : ℤ) → IsInt32 z → to_size z < 2 ^ 64
to_size-lt (pos n) h = omega arith
to_size-lt (negsuc n) h = omega arith

pub sub64-sub : (a b : ℕ) → b ≤ a → a < 2 ^ 64 → sub64 a b ≡ a - b
sub64-sub a b h k = omega arith

pattern32-signed32 : (w : ℕ) → w < 2 ^ 32 → pattern32 (signed32 w) ≡ w
pattern32-signed32 w h = ground arith

pub pattern32-to_size : (z : ℤ) → IsInt32 z → to_size z % 2 ^ 32 ≡ pattern32 z
pattern32-to_size (pos n) h = omega arith
pattern32-to_size (negsuc n) h = omega arith

le32-bytes :
    (a b c d : ℕ)
    → a < 256
    → b < 256
    → c < 256
    → d < 256
    → le32 (from_le (a ∷ b ∷ c ∷ d ∷ [])) ≡ a ∷ b ∷ c ∷ d ∷ []
unfolding le32
le32-bytes a b c d ha hb hc hd = ground arith

pub le32-from_le :
    (bs : List ℕ) → length bs ≡ 4 → All IsByte bs → le32 (pattern32 (signed32 (from_le bs))) ≡ bs
le32-from_le (a ∷ b ∷ c ∷ d ∷ []) h (ha, (hb, (hc, (hd, _)))) =
    rw (pattern32-signed32 (from_le (a ∷ b ∷ c ∷ d ∷ [])) (omega arith))
      (le32-bytes a b c d ha hb hc hd)
le32-from_le [] h v = absurd (omega arith)
le32-from_le (a ∷ []) h v = absurd (omega arith)
le32-from_le (a ∷ b ∷ []) h v = absurd (omega arith)
le32-from_le (a ∷ b ∷ c ∷ []) h v = absurd (omega arith)
le32-from_le (a ∷ b ∷ c ∷ d ∷ e ∷ r) h v = absurd (omega arith)

pub length-le32 : (w : ℕ) → length (le32 w) ≡ 4
unfolding le32
length-le32 w = refl

-- `==` of two `int`s.
abbrev pub same_int : ℤ → ℤ → Bool
same_int (pos m) (pos n) = m == n
same_int (negsuc m) (negsuc n) = m == n
same_int (pos m) (negsuc n) = false
same_int (negsuc m) (pos n) = false

pub same_int_refl : (x : ℤ) → same_int x x ≡ true
same_int_refl (pos n) = (==_iff n n).1 refl
same_int_refl (negsuc n) = (==_iff n n).1 refl

pub same_int_sym : (x y : ℤ) → same_int x y ≡ same_int y x
same_int_sym (pos m) (pos n) = ground arith
same_int_sym (negsuc m) (negsuc n) = ground arith
same_int_sym (pos m) (negsuc n) = refl
same_int_sym (negsuc m) (pos n) = refl

pub same_int_eq : (x y : ℤ) → same_int x y ≡ true → x ≡ y
same_int_eq (pos m) (pos n) h = ap pos ((==_iff m n).0 h)
same_int_eq (negsuc m) (negsuc n) h = ap negsuc ((==_iff m n).0 h)
same_int_eq (pos m) (negsuc n) h = absurd (ground arith)
same_int_eq (negsuc m) (pos n) h = absurd (ground arith)
