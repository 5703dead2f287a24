-- ===== src/Abuf/Limit.antt =====
-- The limit that `setlim` puts on a body.
use okws.Prelude.{ℕ, ◌≤◌, ◌≡◌, arith, false, some}
use okws.Abuf.{chr, eofchar, Abuf, get, unget, peek}

-- Whatever the source holds, no more bytes than the limit are taken from it.
pub get-le-lim : (a : Abuf) (l : ℕ) → a.lim ≡ some l → a.ccnt ≤ l → (get a).1.ccnt ≤ l
unfolding get
get-le-lim a l e le = ground arith

-- At the limit the push-back of the end of the file pushes back the last byte instead: `peek`
-- shows the end, and the `get` behind it returns the byte that was read before.
peek_at_limit :
    (a : Abuf) (c : ℕ)
    → a.lim ≡ some a.ccnt
    → a.bc ≡ false
    → a.lch ≡ chr c
    → ((peek a).0 ≡ eofchar) × ((get (peek a).1).0 ≡ chr c)
unfolding peek get unget
peek_at_limit a c e free last = ground arith
