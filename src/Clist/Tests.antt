-- ===== src/Clist/Tests.antt =====
-- Lists of the elements 1, 2 and 3.
use okws.Prelude.{ℕ, ◌≡◌, refl, arith, List, [], ◌∷◌, none, some}
use okws.Clist.{Links, Clist, clist_t, append_list}
use okws.Clist.Edits.{Holds}
use okws.Clist.Splice.{taken, append_list-Holds}
use okws.Clist.History.{
  Edit, put_front, put_back, cut, take_front, take_back, swap, step, run, spec_run, run-Holds,
}

abbrev blank : Links
blank = λ e. record { next = none; prev = none }

abbrev edits : List Edit
edits =
    put_front 2
    ∷ put_front 1
    ∷ put_back 3
    ∷ swap 2 4
    ∷ take_back
    ∷ cut 4
    ∷ take_front
    ∷ take_back
    ∷ []

popped :
    (run edits (blank, clist_t)).0 ≡ none ∷ none ∷ none ∷ none ∷ some 3 ∷ none ∷ some 1 ∷ none ∷ []
unfolding run step
popped = refl

empty-Holds : Holds (blank, clist_t) []
empty-Holds = record { chain = (refl, refl); distinct = tt; counted = refl }

run-Holds_example :
    ((run edits (blank, clist_t)).0 ≡ (spec_run edits []).0)
    × Holds ((run edits (blank, clist_t)).1, (run edits (blank, clist_t)).2) (spec_run edits []).1
run-Holds_example = run-Holds edits (blank, clist_t) [] (omega arith) empty-Holds

abbrev single : ℕ → Clist
single e = record { first = some e; last = some e; nelem = 1 }

single-Holds : (e : ℕ) → Holds (blank, single e) (e ∷ [])
single-Holds e = record { chain = (refl, refl, (refl, refl)); distinct = (tt, tt); counted = refl }

append_list-Holds_example : Holds (taken (append_list blank (single 1) (single 2))) (1 ∷ 2 ∷ [])
append_list-Holds_example =
    append_list-Holds blank (single 1) (single 2) (1 ∷ []) (2 ∷ []) (omega arith) (single-Holds 1)
      (single-Holds 2)
