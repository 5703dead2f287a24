-- ===== src/Mpfd/Dashes.antt =====
-- `parse_2dash` counts its dashes anew in each call.
use okws.Prelude.{ℕ, ◌≡◌, ◌≢◌, refl, arith, Bytes, List, [], ◌∷◌}
use okws.Abuf.{abuf_ok, abuf_wait, abuf_nomatch, AbufIndata, abuf_t, get, unget, can_read}
use okws.Mpfd.{Mpfd, parse_2dash, dashes}

-- `can_read`, which the source calls before a parser that waits is run again.
abbrev pub woken : Mpfd → Mpfd
woken p = record p { abuf = can_read p.abuf }

-- A parser whose buffer reads from the source.
abbrev pub reads_from : Mpfd → List AbufIndata → Mpfd
reads_from p src = record p { abuf = abuf_t src }

abbrev pub piece : Bytes → AbufIndata
piece s = record { erc = abuf_ok; bytes = s }

abbrev pub pause : AbufIndata
pause = record { erc = abuf_wait; bytes = [] }

-- Two dashes that come in one piece are found. If a wait comes between them, the call behind the
-- wait finds none, whatever byte but a dash follows them.
parse_2dash_forgets :
    (p : Mpfd) (c : ℕ) (s : Bytes) (ds : List AbufIndata)
    → c ≢ b'-'
    → ((parse_2dash (reads_from p (piece (b'-' ∷ b'-' ∷ c ∷ s) ∷ ds))).0 ≡ abuf_ok)
      × ((parse_2dash (reads_from p (piece (b'-' ∷ []) ∷ pause ∷ piece (b'-' ∷ c ∷ s) ∷ ds))).0
          ≡ abuf_wait)
      × ((parse_2dash (
            woken
              (parse_2dash
                (reads_from p (piece (b'-' ∷ []) ∷ pause ∷ piece (b'-' ∷ c ∷ s) ∷ ds))).1)).0
          ≡ abuf_nomatch)
unfolding parse_2dash dashes get unget can_read
parse_2dash_forgets p c s ds h = (refl, refl, ground (arith, h))
