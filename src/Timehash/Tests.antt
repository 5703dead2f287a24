-- ===== src/Timehash/Tests.antt =====
-- A table of words, each its own key.
use okws.Prelude.{ℕ, ◌≡◌, refl, arith, Bytes, List, [], ◌∷◌, codes, none, some, false, true}
use okws.Keyed.{find}
use okws.Timehash.{Node, Timehash, timehash_t, insert, get, key_of}
use okws.Timehash.History.{Op, put, look, drop, run, spec_run, run-spec_run}
use okws.Timehash.Revived.{get_revives}

abbrev key : Bytes → Bytes
key w = w

unfoldable table : Timehash Bytes
unfolding timehash_t insert
table = insert key 13 (codes "b") (insert key 10 (codes "a") (timehash_t 5 false))

found : (get key 15 (codes "a") table).0 ≡ some (codes "a")
unfolding get table
found = refl

gone : (get key 16 (codes "a") table).0 ≡ none
unfolding get table
gone = refl

abbrev calls : List (ℕ × Op Bytes)
calls =
    (10, put (codes "a"))
    ∷ (13, put (codes "b"))
    ∷ (14, drop (codes "b"))
    ∷ (15, look (codes "a"))
    ∷ (16, look (codes "a"))
    ∷ []

run-spec_run_example : run key calls (timehash_t 5 false) ≡ spec_run key 5 calls (λ _. none)
run-spec_run_example = run-spec_run key 5 calls (omega arith)

abbrev old : Node Bytes
old = record { val = codes "a"; ctime = 10 }

get_revives_example :
    ((get key 90 (codes "a") (record { nodes = old ∷ []; timeout = 5; rejuvenating = true })).0
      ≡ some (codes "a"))
    × (find
          (key_of key)
          (codes "a")
          (get key 90
            (codes "a")
            (record { nodes = old ∷ []; timeout = 5; rejuvenating = true })).1.nodes
        ≡ some (record old { ctime = 90 }))
    × ((get key 90 (codes "a") (record { nodes = old ∷ []; timeout = 5; rejuvenating = false })).0
        ≡ none)
    × (find
          (key_of key)
          (codes "a")
          (get key 90
            (codes "a")
            (record { nodes = old ∷ []; timeout = 5; rejuvenating = false })).1.nodes
        ≡ none)
unfolding find
get_revives_example =
    get_revives key 5 90 10 (codes "a") (old ∷ []) old (tt, omega arith, tt) (tt, tt) refl
      (omega arith) (omega arith)
