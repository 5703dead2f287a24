-- ===== src/Suiolite/Tests.antt =====
-- A ring that has wrapped around, and the theorems at it.
use okws.Prelude.{◌≡◌, refl, arith, inl, codes, get_or}
use okws.Suiolite.{Suiolite, capacity}
use okws.Suiolite.Fifo.{IsRing, contents, Removed, rembytes-Removed}
use okws.Suiolite.Load.{Loaded, load_from_buffer-Loaded}

-- Six bytes; "cd" waits at the end of the buffer and "e" at its start.
abbrev ring : Suiolite
ring = record {
  len = 6;
  mem = λ i. get_or (codes "exxxcd") i 0;
  rp = 4;
  dep0 = 1;
  dep1 = 6;
  bytes_read = 7;
}

ring-IsRing : IsRing ring
ring-IsRing = record { ordered = (omega arith, omega arith, omega arith); configuration = inl refl }

ring_contents : contents ring ≡ codes "cde"
unfolding contents
ring_contents = refl

rembytes-Removed_example : Removed 3 ring
unfolding contents
rembytes-Removed_example = rembytes-Removed 3 ring ring-IsRing (omega arith)

load_from_buffer-Loaded_example : Loaded (codes "fg") ring
unfolding capacity
load_from_buffer-Loaded_example =
    load_from_buffer-Loaded (codes "fg") ring ring-IsRing (omega arith)
