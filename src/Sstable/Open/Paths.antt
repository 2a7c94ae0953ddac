-- ===== src/Sstable/Open/Paths.antt =====
-- The paths of the files that NewFile of sstable/sstable.go makes are different.
use golang_db.Base.{suc}
use golang_db.Base.{
  ℕ, ◌≡◌, ap, sym, ◌∙◌, ◌++◌, some, length, length-append, take, drop, take-append, drop-append,
  arith, refl,
}
use golang_db.Base.Bytes.{Bytes}
use golang_db.Base.Text.{codes}
use golang_db.Base.Decimal.{decimal}
use golang_db.Sstable.Table.{log_path}
use golang_db.Base.Integers.{digits_value, digits_value-digits}

append_cancel_front : (s a b : Bytes) → s ++ a ≡ s ++ b → a ≡ b
append_cancel_front s a b h =
    sym (drop-append (length s) s a refl) ∙ ap (drop (length s)) h ∙ drop-append (length s) s b refl

append_cancel_back : (a b s : Bytes) → a ++ s ≡ b ++ s → a ≡ b
append_cancel_back a b s h =
    let e : length a ≡ length b =
      omega (arith, ap length h, length-append a s, length-append b s) in
    sym (take-append (length a) a s refl) ∙ ap (take (length a)) h ∙ take-append (length a) b s e

decimal_inj : (n m : ℕ) → decimal n ≡ decimal m → n ≡ m
unfolding decimal
decimal_inj n m h =
    let e : some n ≡ some m =
      sym (digits_value-digits (suc n) n (omega arith))
      ∙ ap (digits_value 0) h
      ∙ digits_value-digits (suc m) m (omega arith) in
    cc

pub log_path_inj :
    (directory : Bytes) (n m : ℕ) → log_path directory n ≡ log_path directory m → n ≡ m
log_path_inj directory n m h = decimal_inj n m (
    append_cancel_back (decimal n) (decimal m) (codes ".log")
      (append_cancel_front (codes "/") _ _ (append_cancel_front directory _ _ h)))
