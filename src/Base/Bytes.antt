-- ===== src/Base/Bytes.antt =====
-- Go strings and byte slices as lists of numbers: comparison, prefixes, and encoding/binary's
-- big-endian words.
use golang_db.Base.Lists.{All}
use Prim.Native.Nat.{compare, Ordering}
use golang_db.Base.Tests.{◌==◌, Bool-cases, if◌then◌else◌}
use golang_db.Base.Lists.{length}
use Prim.Native.Nat.{ℕ, ◌+◌, ◌*◌, ◌/◌, ◌%◌, ◌^◌, ◌<◌}
use mathlib.Core.Path.{◌≡◌, refl}
use mathlib.Core.Logic.{◌≢◌, ◌↔◌, inl, inr}
use mathlib.Core.Bool.{Bool, true, false}
use mathlib.Core.List.{List, [], ◌∷◌, ◌++◌}
use native.Mathlib.Omega.{arith}

abbrev pub Bytes : Type 0
Bytes = List ℕ

abbrev pub IsU32 : ℕ → Type 0
IsU32 n = n < 2 ^ 32

-- The order of Go strings: byte by byte, a proper prefix first.
unfoldable pub cmp : Bytes → Bytes → Ordering
cmp [] [] = Ordering.eq
cmp [] (y ∷ ys) = Ordering.lt
cmp (x ∷ xs) [] = Ordering.gt
cmp (x ∷ xs) (y ∷ ys) = elim (compare x y) [
  | Ordering.lt ↦ Ordering.lt
  | Ordering.gt ↦ Ordering.gt
  | Ordering.eq ↦ cmp xs ys
]

-- a == b, a < b and a <= b on strings.
abbrev pub str_eq : Bytes → Bytes → Bool
str_eq a b = elim (cmp a b) [ Ordering.eq ↦ true | _ ↦ false ]

abbrev pub str_lt : Bytes → Bytes → Bool
str_lt a b = elim (cmp a b) [ Ordering.lt ↦ true | _ ↦ false ]

abbrev pub str_le : Bytes → Bytes → Bool
str_le a b = elim (cmp a b) [ Ordering.gt ↦ false | _ ↦ true ]

pub cmp_refl : (a : Bytes) → cmp a a ≡ Ordering.eq
unfolding cmp
cmp_refl [] = refl
cmp_refl (x ∷ xs) = ground (arith, cmp_refl xs)

pub cmp-eq : (a b : Bytes) → cmp a b ≡ Ordering.eq → a ≡ b
unfolding cmp
cmp-eq [] [] h = refl
cmp-eq [] (y ∷ ys) h = cc
cmp-eq (x ∷ xs) [] h = cc
cmp-eq (x ∷ xs) (y ∷ ys) h = ground (arith, cmp-eq xs ys)

abbrev flip : Ordering → Ordering
flip Ordering.lt = Ordering.gt
flip Ordering.gt = Ordering.lt
flip Ordering.eq = Ordering.eq

pub cmp-swap : (a b : Bytes) → cmp b a ≡ flip (cmp a b)
unfolding cmp
cmp-swap [] [] = refl
cmp-swap [] (y ∷ ys) = refl
cmp-swap (x ∷ xs) [] = refl
cmp-swap (x ∷ xs) (y ∷ ys) = ground (arith, cmp-swap xs ys)

pub cmp_trans :
    (a b c : Bytes) → cmp a b ≡ Ordering.lt → cmp b c ≡ Ordering.lt → cmp a c ≡ Ordering.lt
unfolding cmp
cmp_trans [] [] c h k = cc
cmp_trans [] (y ∷ ys) [] h k = cc
cmp_trans [] (y ∷ ys) (z ∷ zs) h k = refl
cmp_trans (x ∷ xs) [] c h k = cc
cmp_trans (x ∷ xs) (y ∷ ys) [] h k = cc
cmp_trans (x ∷ xs) (y ∷ ys) (z ∷ zs) h k = ground (arith, cmp_trans xs ys zs)

pub str_eq_iff : (a b : Bytes) → (str_eq a b ≡ true) ↔ (a ≡ b)
str_eq_iff a b = (λ h. cmp-eq a b (ground arith), λ e. rw e (ground (arith, cmp_refl b)))

pub str_eq-ne : (a b : Bytes) → a ≢ b → str_eq a b ≡ false
str_eq-ne a b h = elim (Bool-cases (str_eq a b)) [
  | inl e ↦ absurd (h ((str_eq_iff a b).0 e))
  | inr e ↦ e
]

-- strings.HasPrefix(s, p)
unfoldable pub has_prefix : Bytes → Bytes → Bool
has_prefix s [] = true
has_prefix [] (p ∷ ps) = false
has_prefix (x ∷ s) (p ∷ ps) = let rest = has_prefix s ps in if x == p then rest else false

-- binary.BigEndian.AppendUint32(nil, uint32(n)): the conversion keeps the low 32 bits.
unfoldable pub put_u32 : ℕ → Bytes
put_u32 n = n / 2 ^ 24 % 256 ∷ n / 2 ^ 16 % 256 ∷ n / 2 ^ 8 % 256 ∷ n % 256 ∷ []

-- binary.BigEndian.Uint32 of the four bytes at the front.
unfoldable pub get_u32 : Bytes → ℕ
get_u32 (a ∷ b ∷ c ∷ d ∷ rest) = a * 2 ^ 24 + b * 2 ^ 16 + c * 2 ^ 8 + d
get_u32 _ = 0

pub length-put_u32 : (n : ℕ) → length (put_u32 n) ≡ 4
unfolding put_u32
length-put_u32 n = refl

-- A word is read back, whatever follows it.
pub get-put_u32 : (n : ℕ) (rest : Bytes) → IsU32 n → get_u32 (put_u32 n ++ rest) ≡ n
unfolding put_u32 get_u32
get-put_u32 n rest h = omega arith

pub get-put_u32_word : (n : ℕ) → IsU32 n → get_u32 (put_u32 n) ≡ n
unfolding put_u32 get_u32
get-put_u32_word n h = omega arith

abbrev pub IsByte : ℕ → Type 0
IsByte b = b < 256

-- Four bytes are the word that they spell.
pub put-get_u32 : (b : Bytes) → length b ≡ 4 → All IsByte b → put_u32 (get_u32 b) ≡ b
unfolding put_u32 get_u32
put-get_u32 [] h all = absurd (omega arith)
put-get_u32 (a ∷ []) h all = absurd (omega arith)
put-get_u32 (a ∷ b ∷ []) h all = absurd (omega arith)
put-get_u32 (a ∷ b ∷ c ∷ []) h all = absurd (omega arith)
put-get_u32 (a ∷ b ∷ c ∷ d ∷ []) h all = ground arith
put-get_u32 (a ∷ b ∷ c ∷ d ∷ e ∷ r) h all = absurd (omega arith)
