-- ===== src/Sstable/Scan/Entries.antt =====
-- What a scan of sorted entries adds to the map of PrefixScan in sstable/sstable.go.
use golang_db.Base.{
  ℕ, zero, suc, ◌+◌, ◌≤◌, ◌≡◌, refl, sym, ap, ◌∙◌, Option, none, some, true, false, Bool-cases, inl,
  inr, List, [], ◌∷◌, arith, All, lt→ltb, ge→ltb, if◌then◌else◌, length, length-drop, take, drop,
  ok,
}
use golang_db.Base.Bytes.{Bytes, IsU32, str_eq, str_lt, cmp, has_prefix, str_eq_iff}
use golang_db.Base.Dict
use golang_db.Base.Dict.{Dict, lookup-put}
use golang_db.Btree.{SortedBy}
use golang_db.Memtable.{Entry, less}
use golang_db.Memtable.Prefixes.{no_prefix_above}
use golang_db.Sstable.Blocks.{encode}
use golang_db.Sstable.Blocks.Decoded.{
  encode_all, value_in, extract_entry_lem, behind_entry, within, length-encode,
}
use golang_db.Sstable.Scan.{put_if_absent, add_absent, scan_entries}

-- The loop on the entries themselves.
abbrev pub scan_list : Bytes → List Entry → Dict Bytes → Dict Bytes
scan_list p [] m = m
scan_list p (e ∷ es) m =
    if has_prefix e.key p
    then scan_list p es (add_absent e m)
    else if str_lt p (take (length p) e.key)
    then m
    else scan_list p es m

pub scan_entries_lem :
    (buf : Bytes) (es : List Entry) (fuel i : ℕ) (p : Bytes) (m : Dict Bytes)
    → IsU32 (length buf)
    → drop i buf ≡ encode_all es
    → length es ≤ fuel
    → i ≤ length buf
    → scan_entries fuel buf i p m ≡ ok (scan_list p es m)
unfolding scan_entries
scan_entries_lem buf [] zero i p m small h hf hi =
    rw (ge→ltb i (length buf) (omega (arith, ap length h, length-drop i buf)))
scan_entries_lem buf [] (suc fuel) i p m small h hf hi =
    rw (ge→ltb i (length buf) (omega (arith, ap length h, length-drop i buf)))
scan_entries_lem buf (e ∷ es) zero i p m small h hf hi = absurd (omega arith)
scan_entries_lem buf (e ∷ es) (suc fuel) i p m small h hf hi =
    let rest = λ (m' : Dict Bytes).
      scan_entries_lem buf es fuel (i + length (encode e)) p m' small
        (behind_entry buf (encode_all es) e i small h) (omega arith)
        (within buf (encode_all es) e i small h) in
    rw
      (
        lt→ltb i (length buf) (omega (arith, within buf _ e i small h, length-encode e)),
        extract_entry_lem buf (encode_all es) e i small h,
        rest (add_absent e m),
        rest m,
      )
      (ground arith)

abbrev pub or_else : Option Bytes → Option Bytes → Option Bytes
or_else none other = other
or_else (some v) other = some v

pub or_else-none : (o : Option Bytes) → or_else o none ≡ o
or_else-none none = refl
or_else-none (some v) = refl

lookup-put_if_absent :
    (j : Bytes) (e : Entry) (m : Dict Bytes) (o : Option Bytes)
    → Dict.lookup e.key m ≡ o
    → Dict.lookup j (put_if_absent o e m)
      ≡ or_else (Dict.lookup j m) (if str_eq e.key j then some e.value else none)
unfolding put_if_absent
lookup-put_if_absent j e m none h = elim (Bool-cases (str_eq e.key j)) [
  | inl same ↦
      let k : e.key ≡ j = (str_eq_iff e.key j).0 same in
      rw (lookup-put j e.key e.value m, same, rw k at h)
  | inr other ↦ rw (lookup-put j e.key e.value m, other) (sym (or_else-none (Dict.lookup j m)))
]
lookup-put_if_absent j e m (some v) h = elim (Bool-cases (str_eq e.key j)) [
  | inl same ↦ let k : e.key ≡ j = (str_eq_iff e.key j).0 same in rw (same, rw k at h)
  | inr other ↦ rw other (sym (or_else-none (Dict.lookup j m)))
]

lookup-add_absent :
    (j : Bytes) (e : Entry) (m : Dict Bytes)
    → Dict.lookup j (add_absent e m)
      ≡ or_else (Dict.lookup j m) (if str_eq e.key j then some e.value else none)
unfolding add_absent
lookup-add_absent j e m = lookup-put_if_absent j e m (Dict.lookup e.key m) refl

-- A front above the prefix: the key is not below the prefix.
front-above : (p k : Bytes) → str_lt p (take (length p) k) ≡ true → str_lt k p ≡ false
unfolding cmp
front-above [] k h = ground arith
front-above (x ∷ p) [] h = ground arith
front-above (x ∷ p) (y ∷ k) h = ground (arith, front-above p k)

pub value_in-no_prefix :
    (j p : Bytes) (es : List Entry)
    → has_prefix j p ≡ true
    → All (λ (e : Entry). has_prefix e.key p ≡ false) es
    → value_in j es ≡ none
value_in-no_prefix j p [] h n = refl
value_in-no_prefix j p (e ∷ es) h n = elim (Bool-cases (str_eq e.key j)) [
  | inl same ↦ let k : e.key ≡ j = (str_eq_iff e.key j).0 same in cc (rw k at n.0, h)
  | inr other ↦ rw other (value_in-no_prefix j p es h n.1)
]

or_else_assoc : (a b c : Option Bytes) → or_else (or_else a b) c ≡ or_else a (or_else b c)
or_else_assoc none b c = refl
or_else_assoc (some v) b c = refl

-- The value of a key in the rest, behind the entry that has been added.
value_of_both :
    (j : Bytes) (e : Entry) (es : List Entry)
    → or_else (if str_eq e.key j then some e.value else none) (value_in j es) ≡ value_in j (e ∷ es)
value_of_both j e es = elim (Bool-cases (str_eq e.key j)) [
  | inl same ↦ rw same
  | inr other ↦ rw other
]

pub All-weaken :
    (P Q : Entry → Type 0) (es : List Entry) → ((e : Entry) → P e → Q e) → All P es → All Q es
All-weaken P Q [] f h = tt
All-weaken P Q (e ∷ es) f h = (f e h.0, All-weaken P Q es f h.1)

-- Two keys of which one has the prefix and the other not.
differs_by : (k j p : Bytes) → has_prefix k p ≡ false → has_prefix j p ≡ true → str_eq k j ≡ false
differs_by k j p lacks h = elim (Bool-cases (str_eq k j)) [
  | inl same ↦ let e : k ≡ j = (str_eq_iff k j).0 same in cc (rw e at lacks, h)
  | inr other ↦ other
]

-- A key with the prefix has, behind the scan, its value in the map, or else that in the entries.
pub lookup-scan_list :
    (j p : Bytes) (es : List Entry) (m : Dict Bytes)
    → SortedBy less es
    → has_prefix j p ≡ true
    → Dict.lookup j (scan_list p es m) ≡ or_else (Dict.lookup j m) (value_in j es)
lookup-scan_list j p [] m s h = sym (or_else-none (Dict.lookup j m))
lookup-scan_list j p (e ∷ es) m s h = elim (Bool-cases (has_prefix e.key p)) [
  | inl here ↦ rw here (
      lookup-scan_list j p es (add_absent e m) s.1 h
      ∙ ap (λ (o : Option Bytes). or_else o (value_in j es)) (lookup-add_absent j e m)
      ∙ or_else_assoc (Dict.lookup j m) _ (value_in j es)
      ∙ ap (or_else (Dict.lookup j m)) (value_of_both j e es))
  | inr lacks ↦ elim (Bool-cases (str_lt p (take (length p) e.key))) [
    | inl beyond ↦
        rw (lacks, beyond)
          (sym (or_else-none (Dict.lookup j m))
            ∙ ap (or_else (Dict.lookup j m)) (
                sym (
                  value_in-no_prefix j p (e ∷ es) h (
                    lacks,
                    All-weaken (λ f. less e f ≡ true) (λ f. has_prefix f.key p ≡ false) es
                        (λ f above.
                          no_prefix_above e.key f.key p (front-above p e.key beyond) lacks above)
                        s.0,
                  ))))
    | inr before ↦
        let differs = differs_by e.key j p lacks h in
        rw (lacks, before) (lookup-scan_list j p es m s.1 h ∙ rw differs)
  ]
]

-- A key without the prefix is not touched.
pub lookup-scan_list_other :
    (j p : Bytes) (es : List Entry) (m : Dict Bytes)
    → has_prefix j p ≡ false
    → Dict.lookup j (scan_list p es m) ≡ Dict.lookup j m
lookup-scan_list_other j p [] m h = refl
lookup-scan_list_other j p (e ∷ es) m h = elim (Bool-cases (has_prefix e.key p)) [
  | inl here ↦ rw here (
      lookup-scan_list_other j p es (add_absent e m) h
      ∙ lookup-add_absent j e m
      ∙ rw (other_key here) (or_else-none (Dict.lookup j m)))
  | inr lacks ↦ elim (Bool-cases (str_lt p (take (length p) e.key))) [
    | inl beyond ↦ rw (lacks, beyond)
    | inr before ↦ rw (lacks, before) (lookup-scan_list_other j p es m h)
  ]
]
  where
    other_key : has_prefix e.key p ≡ true → str_eq e.key j ≡ false
    other_key here = elim (Bool-cases (str_eq e.key j)) [
      | inl same ↦ let k : e.key ≡ j = (str_eq_iff e.key j).0 same in cc (rw k at here, h)
      | inr other ↦ other
    ]
