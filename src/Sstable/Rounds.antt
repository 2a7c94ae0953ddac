-- ===== src/Sstable/Rounds.antt =====
-- The loops of sstable/ over the entries of a buffer end on any bytes.
use golang_db.Base.{
  ℕ, zero, suc, ◌+◌, ◌≤◌, ◌<◌, ◌≡◌, ◌≢◌, drop, refl, Bool-cases, inl, inr, arith, ltb, ge→ltb,
  length, take, out_of_fuel, Result, ok, err, ◌>>=◌, >>=-eq-ok,
}
use golang_db.Base.Bytes.{Bytes, get_u32, str_eq, str_lt, has_prefix}
use golang_db.Base.Dict
use golang_db.Base.Dict.{Dict}
use golang_db.Memtable.{Entry}
use golang_db.Sstable.Blocks.{extract_value, extract_entry, find_in_block, put_entries}
use golang_db.Sstable.Scan.{add_absent, scan_entries}

-- The result is not that of the model's rounds having run out.
abbrev pub Ends {ℓ} : {A : Type ℓ} → Result A → Type 0
Ends (ok a) = Unit {0}
Ends (err e) = e ≢ out_of_fuel

>>=-Ends {ℓ κ} :
    {A : Type ℓ} {B : Type κ} (r : Result A) (f : A → Result B)
    → Ends r
    → ((a : A) → r ≡ ok a → Ends (f a))
    → Ends (r >>= f)
>>=-Ends (ok a) f h g = g a refl
>>=-Ends (err e) f h g = h

extract_value-Ends : (buf : Bytes) (i : ℕ) → Ends (extract_value buf i)
unfolding extract_value
extract_value-Ends buf i = elim (Bool-cases (ltb (length buf) (i + 4))) [
  | inl b ↦ rw b (λ h. cc)
  | inr b ↦ elim (Bool-cases (ltb (length buf) (i + 4 + get_u32 (take 4 (drop i buf))))) [
    | inl c ↦ rw (b, c) (λ h. cc)
    | inr c ↦ rw (b, c) tt
  ]
]

extract_entry-Ends : (buf : Bytes) (i : ℕ) → Ends (extract_entry buf i)
unfolding extract_entry
extract_entry-Ends buf i = >>=-Ends (extract_value buf i) _ (extract_value-Ends buf i) (λ key h.
    >>=-Ends (extract_value buf (i + (4 + length key))) _
      (extract_value-Ends buf (i + (4 + length key))) (λ value g. tt))

-- Each round moves on.
extract_entry-moves : (buf : Bytes) (i : ℕ) (a : Entry × ℕ) → extract_entry buf i ≡ ok a → i < a.1
unfolding extract_entry
extract_entry-moves buf i (e, i') h =
    let (key, _, h₁) = >>=-eq-ok (extract_value buf i) _ h in
    let (value, _, h₂) = >>=-eq-ok (extract_value buf (i + (4 + length key))) _ h₁ in
    ground (arith, h₂)

module _ (buf : Bytes) where
  find_in_block-Ends :
      (fuel i : ℕ) (key : Bytes) → length buf ≤ i + fuel → Ends (find_in_block fuel buf i key)
  unfolding find_in_block
  find_in_block-Ends zero i key h = rw (ge→ltb i (length buf) (omega arith)) tt
  find_in_block-Ends (suc fuel) i key h = elim (Bool-cases (ltb i (length buf))) [
    | inl b ↦ rw b (
        >>=-Ends (extract_entry buf i) _ (extract_entry-Ends buf i) (λ a g.
          elim (Bool-cases (str_eq a.0.key key)) [
            | inl c ↦ rw c tt
            | inr c ↦
                rw c
                  (find_in_block-Ends fuel a.1 key (omega (arith, extract_entry-moves buf i a g)))
          ]))
    | inr b ↦ rw b tt
  ]

  put_entries-Ends :
      (fuel i : ℕ) (m : Dict Bytes) → length buf ≤ i + fuel → Ends (put_entries fuel buf i m)
  unfolding put_entries
  put_entries-Ends zero i m h = rw (ge→ltb i (length buf) (omega arith)) tt
  put_entries-Ends (suc fuel) i m h = elim (Bool-cases (ltb i (length buf))) [
    | inl b ↦ rw b (
        >>=-Ends (extract_entry buf i) _ (extract_entry-Ends buf i) (λ a g.
          put_entries-Ends fuel a.1 (Dict.put a.0.key a.0.value m)
            (omega (arith, extract_entry-moves buf i a g))))
    | inr b ↦ rw b tt
  ]

  scan_entries-Ends :
      (fuel i : ℕ) (p : Bytes) (m : Dict Bytes)
      → length buf ≤ i + fuel
      → Ends (scan_entries fuel buf i p m)
  unfolding scan_entries
  scan_entries-Ends zero i p m h = rw (ge→ltb i (length buf) (omega arith)) tt
  scan_entries-Ends (suc fuel) i p m h = elim (Bool-cases (ltb i (length buf))) [
    | inl b ↦ rw b (
        >>=-Ends (extract_entry buf i) _ (extract_entry-Ends buf i) (λ a g.
          elim (Bool-cases (has_prefix a.0.key p)) [
            | inl c ↦ rw c (
                scan_entries-Ends fuel a.1 p (add_absent a.0 m)
                  (omega (arith, extract_entry-moves buf i a g)))
            | inr c ↦ elim (Bool-cases (str_lt p (take (length p) a.0.key))) [
              | inl d ↦ rw (c, d) tt
              | inr d ↦
                  rw (c, d)
                    (scan_entries-Ends fuel a.1 p m (omega (arith, extract_entry-moves buf i a g)))
            ]
          ]))
    | inr b ↦ rw b tt
  ]

-- On any bytes, those of a corrupted file too, the three loops over the entries of a buffer end within
-- as many rounds as the buffer has bytes: that of Get, that of a compaction, and that of PrefixScan.
pub loops-Ends :
    (buf key : Bytes) (m : Dict Bytes)
    → Ends (find_in_block (length buf) buf 0 key)
      × Ends (put_entries (length buf) buf 0 m)
      × Ends (scan_entries (length buf) buf 0 key m)
loops-Ends buf key m = (
  find_in_block-Ends buf (length buf) 0 key (omega arith),
  put_entries-Ends buf (length buf) 0 m (omega arith),
  scan_entries-Ends buf (length buf) 0 key m (omega arith),
)
