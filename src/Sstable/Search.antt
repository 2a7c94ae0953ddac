-- ===== src/Sstable/Search.antt =====
-- getLowerBound of sstable/sstable.go: the last block whose first key is not above the key.
use golang_db.Base.{
  ℕ, zero, suc, ◌+◌, ◌-◌, ◌/◌, ◌≤◌, ◌<◌, ◌≡◌, refl, Option, none, some, true, false, Bool,
  Bool-cases, inl, inr, List, [], ◌∷◌, arith,
}
use golang_db.Base.{ltb, ltb→lt, ltb→ge, if◌then◌else◌, length, All, get_elem?}
use golang_db.Base.Bytes.{Bytes, str_le, str_lt, cmp-swap, cmp-eq, cmp_trans}
use golang_db.Sstable.Blocks.{IndexEntry}

-- index[mid].key <= key
not_above : Bytes → Option IndexEntry → Bool
not_above key none = false
not_above key (some e) = str_le e.key key

-- `bound` is one more than Go's `high`, and the result -1 is `none`. The range shrinks in each
-- round, so that its length is fuel enough.
lower_bound_loop : ℕ → Bytes → List IndexEntry → ℕ → ℕ → Option ℕ → Option ℕ
unfolding not_above
lower_bound_loop zero key index low bound found = found
lower_bound_loop (suc fuel) key index low bound found =
    let mid = low + (bound - 1 - low) / 2 in
    let right = lower_bound_loop fuel key index (mid + 1) bound (some mid) in
    let left = lower_bound_loop fuel key index low mid found in
    if ltb low bound then (if not_above key (get_elem? index mid) then right else left) else found

unfoldable pub get_lower_bound : Bytes → List IndexEntry → Option ℕ
unfolding lower_bound_loop
get_lower_bound key index = lower_bound_loop (length index) key index 0 (length index) none

-- The first keys of the blocks ascend.
abbrev pub IsAscending : List IndexEntry → Type 0
IsAscending [] = Unit {0}
IsAscending (e ∷ rest) = All (λ (f : IndexEntry). str_lt e.key f.key ≡ true) rest × IsAscending rest

abbrev NotAbove : Bytes → List IndexEntry → ℕ → Type 0
NotAbove key index n =
    (j : ℕ) (e : IndexEntry) → j < n → get_elem? index j ≡ some e → str_le e.key key ≡ true

abbrev Above : Bytes → List IndexEntry → ℕ → Type 0
Above key index n =
    (j : ℕ) (e : IndexEntry) → n ≤ j → get_elem? index j ≡ some e → str_lt key e.key ≡ true

-- All blocks before the bound `n` begin at or below the key, and all from `n` on above it.
abbrev IsBound : Bytes → List IndexEntry → ℕ → Type 0
IsBound key index n = NotAbove key index n × Above key index n

-- What a search promises: no block begins at or below the key, or the block `i` is the last that does.
abbrev pub IsLowerBound : Bytes → List IndexEntry → Option ℕ → Type 0
IsLowerBound key index none = Above key index 0
IsLowerBound key index (some i) =
    ((e : IndexEntry) × (get_elem? index i ≡ some e))
    × NotAbove key index (suc i)
    × Above key index (suc i)

ascending :
    (index : List IndexEntry) (i j : ℕ) (a b : IndexEntry)
    → IsAscending index
    → i < j
    → get_elem? index i ≡ some a
    → get_elem? index j ≡ some b
    → str_lt a.key b.key ≡ true
ascending [] i j a b s h p q = cc
ascending (x ∷ xs) i zero a b s h p q = absurd (omega arith)
ascending (x ∷ xs) zero (suc j) a b s h p q = ground (arith, below xs j s.0 q)
  where
    below :
        (xs : List IndexEntry) (j : ℕ)
        → All (λ (f : IndexEntry). str_lt x.key f.key ≡ true) xs
        → get_elem? xs j ≡ some b
        → str_lt x.key b.key ≡ true
    below [] j h q = cc
    below (y ∷ ys) zero h q = ground arith
    below (y ∷ ys) (suc j) h q = below ys j h.1 q
ascending (x ∷ xs) (suc i) (suc j) a b s h p q = ascending xs i j a b s.1 (omega arith) p q

found_at :
    (index : List IndexEntry) (i : ℕ)
    → i < length index
    → (e : IndexEntry) × (get_elem? index i ≡ some e)
found_at [] i h = absurd (omega arith)
found_at (x ∷ xs) zero h = (x, refl)
found_at (x ∷ xs) (suc i) h = found_at xs i (omega arith)

out_of_range :
    (index : List IndexEntry) (j : ℕ) (e : IndexEntry)
    → length index ≤ j
    → get_elem? index j ≡ some e
    → ⊥
out_of_range [] j e h p = cc
out_of_range (x ∷ xs) zero e h p = omega arith
out_of_range (x ∷ xs) (suc j) e h p = out_of_range xs j e (omega arith) p

-- `low` and what was found agree.
abbrev Agrees : ℕ → Option ℕ → Type 0
Agrees low none = low ≡ 0
Agrees low (some i) = low ≡ suc i

module _ (key : Bytes) (index : List IndexEntry) (s : IsAscending index) where
  mid-NotAbove :
      (mid : ℕ) (m : IndexEntry)
      → get_elem? index mid ≡ some m
      → str_le m.key key ≡ true
      → NotAbove key index (suc mid)
  mid-NotAbove mid m hm le j e hj he = elim (Bool-cases (ltb j mid)) [
    | inl lt ↦ ground (
      arith,
      ascending index j mid e m s (ltb→lt j mid lt) he hm,
      cmp_trans e.key m.key key,
      cmp-eq m.key key,
      cmp-swap e.key key,
    )
    | inr ge ↦
        let same : j ≡ mid = omega (arith, ltb→ge j mid ge) in
        let he' : get_elem? index mid ≡ some e = rw same at he in ground (arith, he', hm)
  ]

  mid-Above :
      (mid : ℕ) (m : IndexEntry)
      → get_elem? index mid ≡ some m
      → str_le m.key key ≡ false
      → Above key index mid
  mid-Above mid m hm gt j e hj he = elim (Bool-cases (ltb mid j)) [
    | inl lt ↦ ground (
      arith,
      ascending index mid j m e s (ltb→lt mid j lt) hm he,
      cmp_trans key m.key e.key,
      cmp-swap m.key key,
    )
    | inr ge ↦
        let same : j ≡ mid = omega (arith, ltb→ge mid j ge) in
        let he' : get_elem? index mid ≡ some e = rw same at he in
        ground (arith, he', hm, cmp-swap m.key key)
  ]

  ends :
      (low bound : ℕ) (found : Option ℕ)
      → bound ≤ low
      → low ≤ bound
      → bound ≤ length index
      → IsBound key index low
      → Agrees low found
      → IsLowerBound key index found
  ends low bound none a b c bounds agrees = rw agrees at bounds.1
  ends low bound (some i) a b c bounds agrees =
      let at : IsBound key index (suc i) = rw agrees at bounds in
      (found_at index i (omega arith), at.0, at.1)

  lower_bound_loop-IsLowerBound :
      (fuel low bound : ℕ) (found : Option ℕ)
      → bound ≤ low + fuel
      → low ≤ bound
      → bound ≤ length index
      → NotAbove key index low
      → Above key index bound
      → Agrees low found
      → IsLowerBound key index (lower_bound_loop fuel key index low bound found)
  unfolding lower_bound_loop
  lower_bound_loop-IsLowerBound zero low bound found hf hl hb na ab agrees =
      let same : bound ≡ low = omega arith in
      ends low bound found (omega arith) hl hb (na, rw same at ab) agrees
  lower_bound_loop-IsLowerBound (suc fuel) low bound found hf hl hb na ab agrees =
      let mid : ℕ = low + (bound - 1 - low) / 2 in
      elim (Bool-cases (ltb low bound)) [
        | inl more ↦
            let lt = ltb→lt low bound more in
            let (m, hm) = found_at index mid (omega arith) in
            elim (Bool-cases (str_le m.key key)) [
              | inl le ↦
                  rw (more, hm, le)
                    (lower_bound_loop-IsLowerBound fuel (mid + 1) bound (some mid) (omega arith)
                      (omega arith) hb (λ j e hj he. mid-NotAbove mid m hm le j e (omega arith) he)
                      ab (omega arith))
              | inr gt ↦
                  rw (more, hm, gt)
                    (lower_bound_loop-IsLowerBound fuel low mid found (omega arith) (omega arith)
                      (omega arith) na (mid-Above mid m hm gt) agrees)
            ]
        | inr done ↦
            let same : bound ≡ low = omega (arith, ltb→ge low bound done) in
            rw done (ends low bound found (omega arith) hl hb (na, rw same at ab) agrees)
      ]

-- On an index whose first keys ascend, the binary search ends and finds the last block that begins at
-- or below the key: that block and all before it do, and all behind it begin above the key. It returns
-- none exactly where every block begins above the key.
pub get_lower_bound-IsLowerBound :
    (key : Bytes) (index : List IndexEntry)
    → IsAscending index
    → IsLowerBound key index (get_lower_bound key index)
unfolding get_lower_bound
get_lower_bound-IsLowerBound key index s =
    lower_bound_loop-IsLowerBound key index s (length index) 0 (length index) none (omega arith)
      (omega arith) (omega arith) (λ j e hj he. absurd (omega arith))
      (λ j e hj he. absurd (out_of_range index j e hj he)) refl
