-- ===== src/Pair/Tests.antt =====
-- Runs of the table, and the theorem at one.
use okws.Prelude.{◌≡◌, refl, [], ◌∷◌, codes, true, false, some}
use okws.Pair.{Pairtab, insert, find, lookup_all, remove}
use okws.Pair.Laws.{inserted, find-insert}

abbrev one : Pairtab
one = insert (some (codes "id")) (some (codes "7")) true false []

two_values :
    lookup_all (codes "id") (insert (some (codes "id")) (some (codes "8")) true false one)
    ≡ some (codes "7" ∷ codes "8" ∷ [])
unfolding insert lookup_all
two_values = refl

find-insert_example :
    find (codes "id") (insert (some (codes "id")) (some (codes "8")) false false one)
    ≡ inserted (some (codes "id")) (some (codes "8")) false false (codes "id") one
find-insert_example =
    find-insert (some (codes "id")) (some (codes "8")) false false (codes "id") one

removed : remove (codes "id") one ≡ ([], true)
unfolding insert remove
removed = refl
