-- ===== src/Abuf/Yields.antt =====
-- A buffer from which the bytes of a text can be read without a wait, as from a string.
use okws.Prelude.{ℕ, ◌≡◌, refl, arith, false, Bytes, [], ◌∷◌, none}
use okws.Abuf.{abuf_ok, chr, eofchar, Abuf, abuf_t, abuf_str_t, get}

pub data Yields : Abuf → Bytes → Type 0 where
  yields_end : {a a' : Abuf} → get a ≡ (eofchar, a') → Yields a []
  yields_byte :
      {a a' : Abuf} {c : ℕ} {cs : Bytes}
      → get a ≡ (chr c, a')
      → a'.lch ≡ chr c
      → a'.bc ≡ false
      → Yields a' cs
      → Yields a (c ∷ cs)

-- A chunk is being read, and the source has ended.
record IsLastChunk (a : Abuf) (s : Bytes) : Type 0 where
  current : a.cur ≡ s
  ended : a.src ≡ []
  free : a.bc ≡ false
  no_lim : a.lim ≡ none
  status : a.erc ≡ abuf_ok

Yields-last : (s : Bytes) (a : Abuf) → IsLastChunk a s → Yields a s
unfolding get
Yields-last [] a h =
    yields_end {a' = (get a).1} (ground (arith, h.current, h.ended, h.free, h.no_lim, h.status))
Yields-last (c ∷ cs) a h =
    let e : get a ≡ (chr c, (get a).1) =
      ground (arith, h.current, h.ended, h.free, h.no_lim, h.status) in
    yields_byte e (ground arith) (ground arith)
      (Yields-last cs (get a).1 (ground (arith, h.current, h.ended, h.free, h.no_lim, h.status)))

-- A string source yields its string.
pub Yields-abuf_str_t : (s : Bytes) → Yields (abuf_t (abuf_str_t s)) s
unfolding get
Yields-abuf_str_t [] = yields_end refl
Yields-abuf_str_t (c ∷ cs) = yields_byte refl refl refl (
    Yields-last cs _
      (record { current = refl; ended = refl; free = refl; no_lim = refl; status = refl }))
