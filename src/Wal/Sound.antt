-- ===== src/Wal/Sound.antt =====
-- What ReadEntry of wal/wal.go accepts is an entry that WriteEntry writes.
use mathlib.Core.Path.{subst}
use golang_db.Base.{partial_length, partial_payload, partial_checksum}
use golang_db.Wal.{verify, check_length}
use golang_db.Wal.{rename}
use golang_db.Base.{ℕ, ◌≤◌, ◌≡◌, refl, sym, ◌∙◌, ap, ◌++◌, arith}
use golang_db.Base.{length, take, All, take-append-drop, drop-drop}
use golang_db.Base.{All-append_left, All-append_right, append_assoc, Result, ok, err, Error}
use golang_db.Base.Bytes.{Bytes, IsByte, put_u32, get_u32, put-get_u32}
use golang_db.Wal.Checksum.{checksum_ieee}
use golang_db.Wal.{
  Wal, ReadIo, frame, deliver, read_full, read_or, read_body, read_entry, max_payload, ◌>>=◌,
}
use golang_db.Wal.Frames.{unread, advance}

module _ {A B : Type 0} where
  >>=-inv :
      (m : ReadIo A) (f : A → ReadIo B) (w w' : Wal) (b : B)
      → (m >>= f) w ≡ (ok b, w')
      → (a : A) × (w₁ : Wal) × (m w ≡ (ok a, w₁)) × (f a w₁ ≡ (ok b, w'))
  >>=-inv m f w w' b h = go (m w).0 refl
    where
      go :
          (r : Result A)
          → (m w).0 ≡ r
          → (a : A) × (w₁ : Wal) × (m w ≡ (ok a, w₁)) × (f a w₁ ≡ (ok b, w'))
      go (ok a) e = (a, (m w).1, (λ i. (e i, (m w).1)), rw e at h)
      go (err x) e = cc (e, h)

deliver_inv :
    (n : ℕ) (got : Bytes) (w w' : Wal) (xs : Bytes)
    → deliver n got w ≡ (ok xs, w')
    → (got ≡ xs) × (advance w (length got) ≡ w') × (length got ≡ n)
unfolding deliver
deliver_inv n got w w' xs h = ground arith

read_full_inv :
    (n : ℕ) (w w' : Wal) (xs : Bytes)
    → read_full n w ≡ (ok xs, w')
    → (unread w ≡ xs ++ unread w') × (length xs ≡ n)
unfolding read_full
read_full_inv n w w' xs h =
    let (same, moved, long) = deliver_inv n (take n (unread w)) w w' xs h in
    (
      sym (take-append-drop n (unread w)) ∙ rw (same, drop-drop w.pos n w.contents, ← moved, long),
      ap length (sym same) ∙ long,
    )

rename_inv :
    (e : Error) (r : Result Bytes × Wal) (xs : Bytes) (w' : Wal)
    → rename e r ≡ (ok xs, w')
    → r ≡ (ok xs, w')
rename_inv e (ok b, w) xs w' h = h
rename_inv e (err x, w) xs w' h = cc h

read_or_inv :
    (e : Error) (n : ℕ) (w w' : Wal) (xs : Bytes)
    → read_or e n w ≡ (ok xs, w')
    → (unread w ≡ xs ++ unread w') × (length xs ≡ n)
unfolding read_or
read_or_inv e n w w' xs h = read_full_inv n w w' xs (rename_inv e (read_full n w) xs w' h)

module _ (e : Error) (n : ℕ) (f : Bytes → ReadIo Bytes) (w w' : Wal) (p : Bytes) where
  read_or-bind_inv :
      (read_or e n >>= f) w ≡ (ok p, w')
      → (q : Bytes) × (w₁ : Wal) × (unread w ≡ q ++ unread w₁)
        × (length q ≡ n)
        × (f q w₁ ≡ (ok p, w'))
  read_or-bind_inv h =
      let (q, w₁, hq, hf) = >>=-inv (read_or e n) f w w' p h in
      let (front, long) = read_or_inv e n w w₁ q hq in (q, w₁, front, long, hf)

verify_inv :
    (q c p : Bytes) (w w' : Wal)
    → verify q c w ≡ (ok p, w')
    → (get_u32 c ≡ checksum_ieee q) × (q ≡ p) × (w ≡ w')
unfolding verify
verify_inv q c p w w' h = ground arith

-- Four bytes that spell the word `n`.
word : (c : Bytes) (n : ℕ) → length c ≡ 4 → All IsByte c → get_u32 c ≡ n → c ≡ put_u32 n
word c n long bytes h = sym (put-get_u32 c long bytes) ∙ ap put_u32 h

bytes_behind :
    (w w' : Wal) (q : Bytes)
    → unread w ≡ q ++ unread w'
    → All IsByte (unread w)
    → All IsByte q × All IsByte (unread w')
bytes_behind w w' q h bytes =
    let moved : All IsByte (q ++ unread w') = subst (All IsByte) h bytes in
    (All-append_left IsByte q (unread w') moved, All-append_right IsByte q (unread w') moved)

read_body_inv :
    (n : ℕ) (w w' : Wal) (p : Bytes)
    → All IsByte (unread w)
    → read_body n w ≡ (ok p, w')
    → (unread w ≡ p ++ (put_u32 (checksum_ieee p) ++ unread w')) × (length p ≡ n)
read_body_inv n w w' p bytes h =
    let (q, w₁, uq, lq, h₁) =
      read_or-bind_inv partial_payload n (λ q. read_or partial_checksum 4 >>= verify q) w w' p
        (unfold read_body in h) in
    let (c, w₂, uc, lc, h₂) = read_or-bind_inv partial_checksum 4 (verify q) w₁ w' p h₁ in
    let (sum, same, moved) = verify_inv q c p w₂ w' h₂ in
    let (_, bytes₁) = bytes_behind w w₁ q uq bytes in
    let (bytes_c, _) = bytes_behind w₁ w₂ c uc bytes₁ in
    (
      rw (uq, uc, word c (checksum_ieee q) lc bytes_c sum, same, moved) refl,
      ap length (sym same) ∙ lq,
    )

check_length_inv :
    (c p : Bytes) (w w' : Wal)
    → check_length c w ≡ (ok p, w')
    → (get_u32 c ≤ max_payload) × (read_body (get_u32 c) w ≡ (ok p, w'))
unfolding check_length
check_length_inv c p w w' h = ground arith

frame-append :
    (p rest : Bytes)
    → frame p ++ rest ≡ put_u32 (length p) ++ (p ++ (put_u32 (checksum_ieee p) ++ rest))
unfolding frame
frame-append p rest =
    append_assoc (put_u32 (length p)) (p ++ put_u32 (checksum_ieee p)) rest
    ∙ ap (λ (t : Bytes). put_u32 (length p) ++ t) (append_assoc p (put_u32 (checksum_ieee p)) rest)

-- Whatever bytes, numbers below 256, the file holds: if `read_entry` returns a payload, then what stood there is the
-- entry that `write_entry` writes for it, of at most a megabyte, and the file is now behind it.
pub read_entry_sound :
    (w w' : Wal) (p : Bytes)
    → All IsByte (unread w)
    → read_entry w ≡ (ok p, w')
    → (unread w ≡ frame p ++ unread w') × (length p ≤ max_payload)
read_entry_sound w w' p bytes h =
    let (c, w₁, uc, lc, h₁) =
      read_or-bind_inv partial_length 4 check_length w w' p (unfold read_entry in h) in
    let (fits, h₂) = check_length_inv c p w₁ w' h₁ in
    let (bytes_c, bytes₁) = bytes_behind w w₁ c uc bytes in
    let (up, lp) = read_body_inv (get_u32 c) w₁ w' p bytes₁ h₂ in
    (
      rw (frame-append p (unread w'), uc, up, word c (length p) lc bytes_c (sym lp)),
      omega (arith, lp),
    )
