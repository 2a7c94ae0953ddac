-- ===== src/Db/Schema/Positions.antt =====
-- The positions of columns that db/create.go stores for a secondary index are read back.
use golang_db.Base.Cursor.{drop-behind, length-left}
use golang_db.Base.{
  ℕ, suc, ◌+◌, ◌≤◌, ◌≡◌, refl, ap, ◌∙◌, ◌⊎◌, inl, inr, Option, none, some, Bool-cases, List, [],
  ◌∷◌, ◌++◌, arith, length, drop, get_elem?, get_elem?-lt, length-append, append_assoc, append-nil,
  ok, >>=-eq-ok,
}
use golang_db.Base.Bytes.{Bytes, IsU32, str_eq, str_eq_iff, put_u32, length-put_u32}
use golang_db.Db.Schema.{
  Column, column_position, append_position, serialise_positions, name_at, read_positions,
}
use golang_db.Db.Schema.RoundTrip.{read_u32_lem}

-- The column of that name which the position is one of.
abbrev IsNamed : Bytes → List Column → ℕ → Type 0
IsNamed name cols n = (c : Column) × (get_elem? cols n ≡ some c) × (c.column_name ≡ name)

column_position_inv :
    (name : Bytes) (cols : List Column) (i p : ℕ) (found : Option ℕ)
    → column_position name cols i found ≡ some p
    → (found ≡ some p) ⊎ ((n : ℕ) × (p ≡ i + n) × IsNamed name cols n)
unfolding column_position
column_position_inv name [] i p found h = inl h
column_position_inv name (c ∷ cols) i p found h = elim (Bool-cases (str_eq c.column_name name)) [
  | inl same ↦ elim (column_position_inv name cols (i + 1) p (some i) (rw same at h)) [
    | inl e ↦ inr (0, ground (arith, e), (c, refl, (str_eq_iff c.column_name name).0 same))
    | inr (n, e, there) ↦ inr (suc n, omega arith, there)
  ]
  | inr other ↦ elim (column_position_inv name cols (i + 1) p found (rw other at h)) [
    | inl e ↦ inl e
    | inr (n, e, there) ↦ inr (suc n, omega arith, there)
  ]
]

position-IsNamed :
    (name : Bytes) (cols : List Column) (p : ℕ)
    → column_position name cols 0 none ≡ some p
    → IsNamed name cols p
position-IsNamed name cols p h = elim (column_position_inv name cols 0 p none h) [
  | inl e ↦ cc
  | inr (n, e, there) ↦ let e' : n ≡ p = omega arith in rw e' at there
]

append_position_inv :
    (buf out : Bytes) (o : Option ℕ)
    → append_position buf o ≡ ok out
    → (p : ℕ) × (o ≡ some p) × (out ≡ buf ++ put_u32 p)
unfolding append_position
append_position_inv buf out none h = cc
append_position_inv buf out (some p) h = (p, refl, ground arith)

-- The bytes that the encoder has appended are what the decoder takes for the columns.
abbrev pub ReadsPositions : List Column → List Bytes → Bytes → Type 0
ReadsPositions cols names bytes =
    (buf rest : Bytes) (i : ℕ)
    → i ≤ length buf
    → drop i buf ≡ bytes ++ rest
    → read_positions (length names) cols buf i ≡ ok (names, i + length bytes)

module _ (cols : List Column) (small : IsU32 (length cols)) where
  reads_one :
      (p : ℕ) (name : Bytes) (names : List Bytes) (bytes : Bytes)
      → IsNamed name cols p
      → ReadsPositions cols names bytes
      → ReadsPositions cols (name ∷ names) (put_u32 p ++ bytes)
  unfolding read_positions name_at
  reads_one p name names bytes (c, here, named) reads buf rest i hi h = rw (
    read_u32_lem _ buf (bytes ++ rest) p i hi (omega (arith, get_elem?-lt cols p c here)) shape,
    here,
    named,
    reads buf rest (i + 4) (omega (arith, length-left buf (put_u32 p) _ i shape, length-put_u32 p))
        (drop-behind buf (put_u32 p) (bytes ++ rest) i 4 (length-put_u32 p) shape),
    long,
  )
    where
      shape : drop i buf ≡ put_u32 p ++ (bytes ++ rest)
      shape = h ∙ append_assoc (put_u32 p) bytes rest

      long : i + 4 + length bytes ≡ i + length (put_u32 p ++ bytes)
      long = omega (arith, length-append (put_u32 p) bytes, length-put_u32 p)

  pub serialise_positions_inv :
      (buf out : Bytes) (names : List Bytes)
      → serialise_positions buf cols names ≡ ok out
      → (bytes : Bytes) × (out ≡ buf ++ bytes)
        × ReadsPositions cols names bytes
        × (length names ≤ length bytes)
  unfolding serialise_positions read_positions
  serialise_positions_inv buf out [] h = (
    [],
    ground (arith, append-nil buf),
    λ b rest i hi d. ap (λ (n : ℕ). ok ([], n)) (omega arith),
    omega arith,
  )
  serialise_positions_inv buf out (name ∷ names) h =
      let (buf₁, first, others) =
        >>=-eq-ok (append_position buf (column_position name cols 0 none)) _ h in
      let (p, found, e₁) = append_position_inv buf buf₁ _ first in
      let (bytes, e, reads, many) = serialise_positions_inv buf₁ out names others in
      (
        put_u32 p ++ bytes,
        e ∙ ap (λ (t : Bytes). t ++ bytes) e₁ ∙ append_assoc buf (put_u32 p) bytes,
        reads_one p name names bytes (position-IsNamed name cols p found) reads,
        omega (arith, many, length-append (put_u32 p) bytes, length-put_u32 p),
      )
