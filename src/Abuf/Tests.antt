-- ===== src/Abuf/Tests.antt =====
-- Runs of the buffer, and the theorems at concrete sources.
use okws.Prelude.{◌≡◌, ◌≢◌, inl, inr, refl, arith, Bytes, List, [], ◌∷◌, some, codes}
use okws.Abuf.Stream.{IsChunk, chunks}
use okws.Abuf.Drain.{read_all, read_all-abuf_t}
use okws.Abuf.{abuf_ok, abuf_wait, AbufIndata, Abuf, abuf_t, abuf_str_t, can_read, get, setlim}

abbrev pause : AbufIndata
pause = record { erc = abuf_wait; bytes = [] }

abbrev chunk : Bytes → AbufIndata
chunk s = record { erc = abuf_ok; bytes = s }

abbrev script : List AbufIndata
script = pause ∷ chunk (codes "GE") ∷ pause ∷ pause ∷ chunk (codes "T /") ∷ []

read_all-script : read_all 30 (abuf_t script) ≡ some (codes "GET /")
unfolding read_all get can_read
read_all-script = refl

read_all-abuf_t_example : read_all 30 (abuf_t script) ≡ some (chunks script)
read_all-abuf_t_example =
    let full : (d : Bytes) → d ≢ [] → IsChunk (chunk d) = λ d ne. inl (refl, ne) in
    let wait : IsChunk pause = inr (refl, refl) in
    read_all-abuf_t script 30 (wait, (full _ (λ e. cc e), (wait, (wait, (full _ (λ e. cc e), tt)))))
      (omega arith)

-- A body of two bytes, with the next request behind it, read to its end.
abbrev body : Abuf
body = (get (get (setlim 2 (abuf_t (abuf_str_t (codes "abc"))))).1).1
