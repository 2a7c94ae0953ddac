-- ===== src/Base/Cursor.antt =====
-- Reading a buffer from an offset: what stands behind what has been read.
use golang_db.Base.Lists.{length, drop, length-append, length-drop, drop-append, drop-drop}
use golang_db.Base.Bytes.{Bytes, put_u32, length-put_u32}
use Prim.Native.Nat.{ℕ, ◌+◌, ◌-◌}
use mathlib.Core.Path.{◌≡◌, sym, ap, ◌∙◌}
use mathlib.Core.List.{◌++◌}
use native.Mathlib.Omega.{arith}

pub drop-behind :
    (buf xs rest : Bytes) (offset n : ℕ)
    → length xs ≡ n
    → drop offset buf ≡ xs ++ rest
    → drop (offset + n) buf ≡ rest
drop-behind buf xs rest offset n hn h =
    sym (drop-drop offset n buf) ∙ ap (drop n) h ∙ drop-append n xs rest (sym hn)

-- What stands at the offset is within the buffer.
pub length-left :
    (buf xs rest : Bytes) (offset : ℕ)
    → drop offset buf ≡ xs ++ rest
    → length buf - offset ≡ length xs + length rest
length-left buf xs rest offset h =
    sym (length-drop offset buf) ∙ ap length h ∙ length-append xs rest

-- [length][bytes]
abbrev pub prefixed : Bytes → Bytes
prefixed s = put_u32 (length s) ++ s

pub length-prefixed : (s : Bytes) → length (prefixed s) ≡ length s + 4
length-prefixed s = omega (arith, length-append (put_u32 (length s)) s, length-put_u32 (length s))
