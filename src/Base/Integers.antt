-- ===== src/Base/Integers.antt =====
-- Go's int with strconv.Atoi, the conversion to uint32, and strconv.FormatUint in base two.
use golang_db.Base.Tests.{ltb, leb, ltb→lt, ltb→ge, Bool-cases, ◌==◌, if◌then◌else◌}
use golang_db.Base.Bytes.{Bytes}
use golang_db.Base.Decimal.{digits, decimal}
use golang_db.Base.Errors.{Result, ok, err, not_an_integer}
use Prim.Native.Nat.{ℕ, zero, suc, ◌+◌, ◌-◌, ◌*◌, ◌/◌, ◌%◌, ◌^◌, ◌<◌, ◌≤◌}
use mathlib.Core.Path.{◌≡◌, refl, sym}
use mathlib.Core.Logic.{inl, inr}
use mathlib.Core.Bool.{true, false, ◌&&◌}
use mathlib.Core.Option.{Option, none, some}
use mathlib.Core.List.{[], ◌∷◌, ◌++◌}
use native.Mathlib.Omega.{arith}

-- `negsuc n` is -1 - n.
pub data ℤ : Type 0 where
  pos negsuc : ℕ → ℤ

-- uint32(n)
unfoldable pub to_u32 : ℤ → ℕ
to_u32 (pos n) = n % 2 ^ 32
to_u32 (negsuc n) = 2 ^ 32 - 1 - n % 2 ^ 32

-- The number that decimal digits make behind those that make `acc`.
unfoldable pub digits_value : ℕ → Bytes → Option ℕ
digits_value acc [] = some acc
digits_value acc (c ∷ s) =
    let rest = digits_value (acc * 10 + (c - 48)) s in if leb 48 c && leb c 57 then rest else none

-- One digit at least.
unfoldable pub magnitude : Bytes → Option ℕ
magnitude [] = none
magnitude (c ∷ s) = digits_value 0 (c ∷ s)

at_most : ℕ → (ℕ → ℤ) → Option ℕ → Result ℤ
at_most limit make none = err not_an_integer
at_most limit make (some n) = if leb n limit then ok (make n) else err not_an_integer

-- -n
unfoldable pub negative : ℕ → ℤ
negative zero = pos zero
negative (suc n) = negsuc n

-- strconv.Atoi: an optional sign and digits, of a value that 64 bits hold. Its errors, for the syntax and
-- for the range, are one.
unfoldable pub atoi : Bytes → Result ℤ
unfolding at_most
atoi [] = err not_an_integer
atoi (c ∷ s) =
    if c == 45
    then at_most (2 ^ 63) negative (magnitude s)
    else if c == 43
    then at_most (2 ^ 63 - 1) pos (magnitude s)
    else at_most (2 ^ 63 - 1) pos (magnitude (c ∷ s))

-- strconv.FormatUint(n, 2)
unfoldable pub bits : ℕ → ℕ → Bytes
bits zero n = []
bits (suc fuel) n =
    let front = bits fuel (n / 2) in if ltb n 2 then (48 + n) ∷ [] else front ++ (48 + n % 2) ∷ []

unfoldable pub binary : ℕ → Bytes
unfolding bits
binary n = bits (suc n) n

digits_value-append :
    (acc m : ℕ) (xs ys : Bytes)
    → digits_value acc xs ≡ some m
    → digits_value acc (xs ++ ys) ≡ digits_value m ys
unfolding digits_value
digits_value-append acc m [] ys h = ground (arith)
digits_value-append acc m (x ∷ xs) ys h =
    ground (arith, digits_value-append (acc * 10 + (x - 48)) m xs ys)

digits_value-digit : (acc d : ℕ) → d < 10 → digits_value acc ((48 + d) ∷ []) ≡ some (acc * 10 + d)
unfolding digits_value
digits_value-digit acc d h = ground arith

pub digits_value-digits : (fuel n : ℕ) → n < fuel → digits_value 0 (digits fuel n) ≡ some n
unfolding digits
digits_value-digits zero n h = absurd (omega arith)
digits_value-digits (suc fuel) n h = elim (Bool-cases (ltb n 10)) [
  | inl e ↦
      let z : 0 * 10 + n ≡ n = omega arith in rw (e, digits_value-digit 0 n (ltb→lt n 10 e), z) refl
  | inr e ↦
      let big = ltb→ge n 10 e in
      let digit : n % 10 < 10 = omega arith in
      let whole : n / 10 * 10 + n % 10 ≡ n = omega arith in
      rw
        (
          e,
          digits_value-append 0 (n / 10) (digits fuel (n / 10)) ((48 + n % 10) ∷ [])
              (digits_value-digits fuel (n / 10) (omega arith)),
          digits_value-digit (n / 10) (n % 10) digit,
          whole,
        )
        refl
]

-- The first digit.
first_digit : (fuel n : ℕ) → n < fuel → (c : ℕ) × (s : Bytes) × (digits fuel n ≡ c ∷ s) × (48 ≤ c)
unfolding digits
first_digit zero n h = absurd (omega arith)
first_digit (suc fuel) n h = elim (Bool-cases (ltb n 10)) [
  | inl e ↦ (48 + n, [], rw e refl, omega arith)
  | inr e ↦
      let big = ltb→ge n 10 e in
      let (c, s, first, digit) = first_digit fuel (n / 10) (omega arith) in
      (c, s ++ (48 + n % 10) ∷ [], rw (e, first) refl, digit)
]

-- Atoi reads the digits of a number back.
pub atoi-decimal : (n : ℕ) → n < 2 ^ 63 → atoi (decimal n) ≡ ok (pos n)
unfolding atoi magnitude at_most decimal
atoi-decimal n h =
    let (c, s, e, digit) = first_digit (suc n) n (omega arith) in
    let v : digits_value 0 (c ∷ s) ≡ some n =
      rw (sym e) (digits_value-digits (suc n) n (omega arith)) in
    let minus : (c == 45) ≡ false = ground arith in
    let plus : (c == 43) ≡ false = ground arith in
    let in_range : leb n (2 ^ 63 - 1) ≡ true = ground arith in rw (e, minus, plus, v, in_range) refl
