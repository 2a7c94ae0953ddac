-- ===== src/Db/Indexes/Prefixes.antt =====
-- Which keys of a secondary index a prefix finds.
use golang_db.Base.{
  ℕ, ◌≡◌, ◌≢◌, refl, sym, ◌∙◌, Bool, eqb_refl, true, false, List, [], ◌∷◌, ◌++◌, append_assoc, All,
  arith, if◌then◌else◌,
}
use golang_db.Base.Bytes.{Bytes, cmp, has_prefix, str_eq, str_eq-ne}
use golang_db.Base.Text.{codes}
use golang_db.Db.Indexes.{colon_values, get_secondary_index_key_or_prefix}

has_prefix-append : (front s p : Bytes) → has_prefix (front ++ s) (front ++ p) ≡ has_prefix s p
unfolding has_prefix
has_prefix-append [] s p = refl
has_prefix-append (c ∷ front) s p = rw (eqb_refl c) (has_prefix-append front s p)

-- No colon in the text.
abbrev pub IsPlain : Bytes → Type 0
IsPlain s = All (λ (c : ℕ). c ≢ 58) s

-- What a value is compared with decides, where it has no colon.
plain_prefix :
    (a b s p : Bytes)
    → IsPlain a
    → IsPlain b
    → has_prefix (a ++ 58 ∷ s) (b ++ 58 ∷ p) ≡ (if str_eq a b then has_prefix s p else false)
unfolding has_prefix cmp
plain_prefix [] [] s p h k = refl
plain_prefix [] (y ∷ b) s p h (ne, k) = ground arith
plain_prefix (x ∷ a) [] s p (ne, h) k = ground arith
plain_prefix (x ∷ a) (y ∷ b) s p (nx, h) (ny, k) = ground (arith, plain_prefix a b s p h k)

plain_end : (a b p : Bytes) → IsPlain a → IsPlain b → has_prefix a (b ++ 58 ∷ p) ≡ false
unfolding has_prefix
plain_end [] [] p h k = refl
plain_end [] (y ∷ b) p h k = refl
plain_end (x ∷ a) [] p (ne, h) k = ground arith
plain_end (x ∷ a) (y ∷ b) p (nx, h) (ny, k) = ground (arith, plain_end a b p h k)

-- The values and what stands behind them start with a colon.
colon_first : (vals : List Bytes) (z : Bytes) → (t : Bytes) × (colon_values vals ++ 58 ∷ z ≡ 58 ∷ t)
unfolding colon_values
colon_first [] z = (z, refl)
colon_first (v ∷ vals) z = (_, refl)

-- The first values of the row are those of the prefix.
unfoldable pub starts_with : List Bytes → List Bytes → Bool
starts_with vals [] = true
starts_with [] (q ∷ qs) = false
starts_with (v ∷ vals) (q ∷ qs) =
    let rest = starts_with vals qs in if str_eq v q then rest else false

empty_prefix : (t : Bytes) → has_prefix (58 ∷ t) (58 ∷ []) ≡ true
unfolding has_prefix
empty_prefix [] = refl
empty_prefix (c ∷ t) = refl

has_prefix-colon : (s p : Bytes) → has_prefix (58 ∷ s) (58 ∷ p) ≡ has_prefix s p
unfolding has_prefix
has_prefix-colon s p = refl

colon_values-prefix :
    (vals qs : List Bytes) (pk : Bytes)
    → All IsPlain vals
    → All IsPlain qs
    → IsPlain pk
    → has_prefix (colon_values vals ++ 58 ∷ pk) (colon_values qs ++ 58 ∷ []) ≡ starts_with vals qs
unfolding starts_with colon_values
colon_values-prefix vals [] pk h k plain = let (t, e) = colon_first vals pk in rw e (empty_prefix t)
colon_values-prefix [] (q ∷ qs) pk h (kq, k) plain =
    let (u, e) = colon_first qs [] in
    rw (append_assoc q (colon_values qs) (58 ∷ []), e)
      (has_prefix-colon pk (q ++ 58 ∷ u) ∙ plain_end pk q u plain kq)
colon_values-prefix (v ∷ vals) (q ∷ qs) pk (hv, h) (kq, k) plain =
    let (t, e) = colon_first vals pk in
    let (u, e') = colon_first qs [] in
    let rest = colon_values-prefix vals qs pk h k plain in
    let both : has_prefix t u ≡ starts_with vals qs =
      sym (has_prefix-colon t u) ∙ (rw (e, e') at rest) in
    rw
      (
        append_assoc q (colon_values qs) (58 ∷ []),
        append_assoc v (colon_values vals) (58 ∷ pk),
        e,
        e',
      )
      (has_prefix-colon (v ++ 58 ∷ t) (q ++ 58 ∷ u) ∙ plain_prefix v q t u hv kq ∙ (rw both refl))

-- The prefix of some values in a secondary index is one of the key of a row's entry in this index
-- exactly when they are the row's first values in the order of the index, where no value has a colon
-- and the row's primary key is not empty.
pub index_prefix-starts_with :
    (table_name index_name : Bytes) (vals qs : List Bytes) (pk : Bytes)
    → All IsPlain vals
    → All IsPlain qs
    → IsPlain pk
    → pk ≢ []
    → has_prefix
        (get_secondary_index_key_or_prefix table_name index_name vals pk)
        (get_secondary_index_key_or_prefix table_name index_name qs [])
      ≡ starts_with vals qs
unfolding get_secondary_index_key_or_prefix cmp
index_prefix-starts_with table_name index_name vals qs pk h k plain some_key =
    let named = str_eq-ne pk [] some_key in
    let entry = colon_values vals ++ 58 ∷ pk in
    let prefix = colon_values qs ++ 58 ∷ [] in
    rw named (
      has_prefix-append (codes "index:") (table_name ++ 58 ∷ (index_name ++ entry))
        (table_name ++ 58 ∷ (index_name ++ prefix))
      ∙ has_prefix-append table_name (58 ∷ (index_name ++ entry)) (58 ∷ (index_name ++ prefix))
      ∙ has_prefix-colon (index_name ++ entry) (index_name ++ prefix)
      ∙ has_prefix-append index_name entry prefix
      ∙ colon_values-prefix vals qs pk h k plain)
