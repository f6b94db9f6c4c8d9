-- ===== src/Base/Bytes.antt =====
-- Byte strings as lists of numbers below 256: big-endian integers, comparison, texts.
use Prim.Native.Nat.{ℕ, zero, suc, ◌+◌, ◌*◌, ◌/◌, ◌%◌, ◌^◌, ◌<◌}
use Prim.Native.Char.{code}
use Prim.Native.String.{String}
use mathlib.Core.Path.{◌≡◌, refl, ap, ◌∙◌}
use mathlib.Core.Logic.{◌↔◌}
use mathlib.Core.Bool.{Bool, true, false, ◌&&◌}
use mathlib.Core.List.{List, [], ◌∷◌}
use native.Mathlib.Omega.{arith}
use native.Mathlib.Nat.{pow-suc, mul-add-mod_self_left, mod-eq_of_lt, mod-lt, div-add-mod}
use ferricstore_go.Base.Tests.{ltb, ◌==◌, if◌then◌else◌}
use ferricstore_go.Base.Lists.{length}

abbrev pub Bytes : Type 0
Bytes = List ℕ

-- The bytes of an ASCII text.
abbrev pub codes : String → Bytes
codes String.[] = []
codes (String.◌∷◌ c s) = code c ∷ codes s

-- `binary.BigEndian.PutUint16/32/64` for 2, 4 and 8 bytes.
unfoldable pub be : ℕ → ℕ → Bytes
be zero n = []
be (suc k) n = (n / 256 ^ k % 256) ∷ be k n

-- `binary.BigEndian.Uint16/32/64`.
unfoldable pub read_be : ℕ → Bytes → ℕ
read_be acc [] = acc
read_be acc (b ∷ bs) = read_be (acc * 256 + b) bs

pub length-be : (k n : ℕ) → length (be k n) ≡ k
unfolding be
length-be zero n = refl
length-be (suc k) n = ap suc (length-be k n)

-- One more digit of a remainder.
mod_digit : (n p : ℕ) → 0 < p → n % (p * 256) ≡ n / p % 256 * p + n % p
mod_digit n p h =
    ap (λ (t : ℕ). t % (p * 256)) whole
    ∙ mul-add-mod_self_left (p * 256) (n / p / 256) (n / p % 256 * p + n % p)
    ∙ mod-eq_of_lt (grind (arith, mod-lt n h, small))
  where
    small : n / p % 256 < 256
    small = omega arith

    whole : n ≡ p * 256 * (n / p / 256) + (n / p % 256 * p + n % p)
    whole = omega (arith, div-add-mod n p, ap (λ (t : ℕ). p * t) (div-add-mod (n / p) 256))

pow_pos : (k : ℕ) → 0 < 256 ^ k
pow_pos zero = omega arith
pow_pos (suc k) = omega (arith, pow_pos k, pow-suc 256 k)

read_be-be_acc : (k acc n : ℕ) → read_be acc (be k n) ≡ acc * 256 ^ k + n % 256 ^ k
unfolding read_be be
read_be-be_acc zero acc n = omega arith
read_be-be_acc (suc k) acc n = omega (
  arith,
  read_be-be_acc k (acc * 256 + n / 256 ^ k % 256) n,
  mod_digit n (256 ^ k) (pow_pos k),
  ap (λ (t : ℕ). acc * t) (pow-suc 256 k),
  ap (λ (t : ℕ). n % t) (pow-suc 256 k),
)

pub read_be-be : (k n : ℕ) → n < 256 ^ k → read_be 0 (be k n) ≡ n
read_be-be k n h = read_be-be_acc k 0 n ∙ omega (arith, mod-eq_of_lt h)

unfoldable pub bytes_eq : Bytes → Bytes → Bool
bytes_eq [] [] = true
bytes_eq [] (y ∷ ys) = false
bytes_eq (x ∷ xs) [] = false
bytes_eq (x ∷ xs) (y ∷ ys) = x == y && bytes_eq xs ys

pub bytes_eq_iff : (xs ys : Bytes) → (bytes_eq xs ys ≡ true) ↔ (xs ≡ ys)
unfolding bytes_eq
bytes_eq_iff [] [] = ground arith
bytes_eq_iff [] (y ∷ ys) = ground arith
bytes_eq_iff (x ∷ xs) [] = ground arith
bytes_eq_iff (x ∷ xs) (y ∷ ys) = ground (arith, bytes_eq_iff xs ys)

pub bytes_eq_comm : (xs ys : Bytes) → bytes_eq xs ys ≡ bytes_eq ys xs
unfolding bytes_eq
bytes_eq_comm [] [] = refl
bytes_eq_comm [] (y ∷ ys) = refl
bytes_eq_comm (x ∷ xs) [] = refl
bytes_eq_comm (x ∷ xs) (y ∷ ys) = ground (arith, bytes_eq_comm xs ys)

-- `xs < ys` on Go strings: the first byte that differs decides, a proper prefix is smaller.
unfoldable pub bytes_lt : Bytes → Bytes → Bool
bytes_lt xs [] = false
bytes_lt [] (y ∷ ys) = true
bytes_lt (x ∷ xs) (y ∷ ys) = if x == y then bytes_lt xs ys else ltb x y
