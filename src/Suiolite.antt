-- ===== src/Suiolite.antt =====
-- libahttp/suiolite.h and libahttp/suiolite.C: the ring of bytes between a socket and the buffer of
-- the parsers. Memory is a function from offsets in `buf` to bytes; `buf` is the offset 0 and `bep`
-- the offset `len`. The space callback is not modelled, and of `input` the two regions that it has
-- `readv` fill.
pub mod Ring
pub mod Fifo
pub mod Load
mod Tests
use okws.Prelude.{
  ℕ, zero, suc, ◌+◌, ◌-◌, Bool, true, false, ◌&&◌, Bytes, [], ◌∷◌, ◌++◌, length, ltb, leb, ◌==◌,
  min, get_or, if◌then◌else◌, Option, none, some,
}

-- `suiolite`; `dep0` and `dep1` are the ends of the data in the two regions.
pub record Suiolite : Type 0 where
  pub len : ℕ
  pub mem : ℕ → ℕ
  pub rp : ℕ
  pub dep0 : ℕ
  pub dep1 : ℕ
  pub bytes_read : ℕ

-- The constructor, with SUIOLITE_MAX_BUFLEN written out.
abbrev pub suiolite : ℕ → Suiolite
suiolite l = record {
  len = min l 0x40000;
  mem = λ _. 0;
  rp = 0;
  dep0 = 0;
  dep1 = 0;
  bytes_read = 0;
}

-- `clear`
unfoldable pub clear : Suiolite → Suiolite
clear s = record s { rp = 0; dep0 = 0; dep1 = 0; bytes_read = 0 }

unfoldable pub resid : Suiolite → ℕ
resid s = (s.dep1 - s.rp) + s.dep0

unfoldable pub capacity : Suiolite → ℕ
unfolding resid
capacity s = s.len - resid s

unfoldable pub full : Suiolite → Bool
unfolding resid
full s = resid s == s.len

-- The bytes of a piece of memory.
unfoldable pub slice : (ℕ → ℕ) → ℕ → ℕ → Bytes
slice mem from zero = []
slice mem from (suc n) = mem from ∷ slice mem (from + 1) n

-- `getdata`: the first piece of the data, up to the end of the buffer.
unfoldable pub getdata : Suiolite → Bytes
unfolding slice
getdata s = slice s.mem s.rp (s.dep1 - s.rp)

-- `memcpy` of the first `n` bytes of the input to the offset `at`.
unfoldable pub memcpy : ℕ → Bytes → ℕ → (ℕ → ℕ) → ℕ → ℕ
memcpy at input n mem i = if leb at i && ltb i (at + n) then get_or input (i - at) 0 else mem i

-- `input += nb`
unfoldable pub drop : ℕ → Bytes → Bytes
drop zero s = s
drop (suc n) [] = []
drop (suc n) (c ∷ s) = drop n s

-- The two `memcpy`s of `load_from_buffer`, with the number of bytes stored.
unfoldable pub load : Bytes → Suiolite → ℕ × Suiolite
unfolding memcpy drop
load input s =
    let nb = min (length input) (s.len - s.dep1) in
    let rest = drop nb input in
    let nb' = min (length rest) (s.rp - s.dep0) in
    (
      nb + nb',
      record s {
        mem = memcpy s.dep0 rest nb' (memcpy s.dep1 input nb s.mem);
        dep1 = s.dep1 + nb;
        dep0 = s.dep0 + nb';
        bytes_read = s.bytes_read + (nb + nb');
      },
    )

-- `SUIOLITE_MAX_BUFLEN`
abbrev pub max_buflen : ℕ
max_buflen = 0x40000

-- `grow`; `none` is its failed assertion.
unfoldable pub grow : ℕ → Suiolite → Option Suiolite
unfolding resid
grow ns s = if resid s == 0 && s.bytes_read == 0 then some (suiolite (min ns max_buflen)) else none

-- `load_from_buffer`
unfoldable pub load_from_buffer : Bytes → Suiolite → Option (ℕ × Suiolite)
unfolding load grow capacity
load_from_buffer input s =
    let grown : Option (ℕ × Suiolite) = elim (grow (length input + 10) s) [
      | none ↦ none
      | some s' ↦ some (load input s')
    ] in
    if ltb (capacity s) (length input) then grown else some (load input s)

-- `account_for_new_bytes (n)`, behind `load_iov`: the ends of the regions move over the bytes that
-- `readv` stored.
unfoldable pub account_for_new_bytes : ℕ → Suiolite → Suiolite
account_for_new_bytes n s =
    let l = min n (s.len - s.dep1) in
    let l' = min (n - l) (s.rp - s.dep0) in
    record s { bytes_read = s.bytes_read + n; dep1 = s.dep1 + l; dep0 = s.dep0 + l' }

-- `rembytes`; `none` is its failed assertion.
unfoldable pub rembytes : ℕ → Suiolite → Option Suiolite
unfolding resid
rembytes n s =
    let len2 = s.len - s.rp in
    if leb n (resid s)
    then some (
        if leb len2 n
        then record s { rp = n - len2; dep1 = s.dep0; dep0 = 0 }
        else record s { rp = s.rp + n })
    else none
