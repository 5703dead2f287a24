-- ===== src/Clist.antt =====
-- libpub/clist.h: doubly linked lists whose links stand in the elements. An element is its address,
-- and `links` gives the link of each.
pub mod Segment
pub mod Edits
pub mod History
pub mod Splice
mod Tests
use okws.Prelude.{
  ℕ, zero, ◌+◌, ◌-◌, Bool, true, false, ◌==◌, if◌then◌else◌, Option, none, some, List, [], ◌∷◌,
}

-- `clist_entry`
pub record Link : Type 0 where
  pub next : Option ℕ
  pub prev : Option ℕ

abbrev pub Links : Type 0
Links = ℕ → Link

-- `clist_t`; an empty list has no first element.
pub record Clist : Type 0 where
  pub first : Option ℕ
  pub last : Option ℕ
  pub nelem : ℕ

abbrev pub clist_t : Clist
clist_t = record { first = none; last = none; nelem = 0 }

-- `e->next = v` and `e->prev = v`
abbrev pub set_next : ℕ → Option ℕ → Links → Links
set_next e v h = λ d. if d == e then record (h d) { next = v } else h d

abbrev pub set_prev : ℕ → Option ℕ → Links → Links
set_prev e v h = λ d. if d == e then record (h d) { prev = v } else h d

-- The same, unless the pointer is null.
abbrev pub link_next : Option ℕ → Option ℕ → Links → Links
link_next none v h = h
link_next (some e) v h = set_next e v h

abbrev pub link_prev : Option ℕ → Option ℕ → Links → Links
link_prev none v h = h
link_prev (some e) v h = set_prev e v h

-- The header's field, where the pointer is null.
abbrev pub or_header : Option ℕ → Option ℕ → Option ℕ → Option ℕ
or_header none v old = v
or_header (some e) v old = old

unfoldable pub insert_head : ℕ → Links → Clist → Links × Clist
insert_head e h c = (
  set_prev e none (link_prev c.first (some e) (set_next e c.first h)),
  record { first = some e; last = or_header c.first (some e) c.last; nelem = c.nelem + 1 },
)

unfoldable pub insert_tail : ℕ → Links → Clist → Links × Clist
insert_tail e h c = (
  link_next c.last (some e) (set_prev e c.last (set_next e none h)),
  record { first = or_header c.last (some e) c.first; last = some e; nelem = c.nelem + 1 },
)

-- `nelem` is not 0 here, since the list holds `e`.
unfoldable pub remove : ℕ → Links → Clist → Links × Clist
remove e h c =
    let h' = link_prev (h e).next (h e).prev h in
    (
      link_next (h' e).prev (h' e).next h',
      record {
        first = or_header (h' e).prev (h' e).next c.first;
        last = or_header (h e).next (h e).prev c.last;
        nelem = c.nelem - 1;
      },
    )

unfoldable pub pop_front : Links → Clist → Option ℕ × Links × Clist
unfolding remove
pop_front h c = elim c.first [
  | none ↦ (none, h, c)
  | some e ↦ let r = remove e h c in (some e, r.0, r.1)
]

unfoldable pub pop_tail : Links → Clist → Option ℕ × Links × Clist
unfolding remove
pop_tail h c = elim c.last [
  | none ↦ (none, h, c)
  | some e ↦ let r = remove e h c in (some e, r.0, r.1)
]

-- `replace (what, with)`
unfoldable pub replace : ℕ → ℕ → Links → Clist → Links × Clist
replace what e h c =
    let h1 = set_prev e (h what).prev h in
    let h2 = set_next e (h1 what).next h1 in
    let h3 = link_next (h2 e).prev (some e) h2 in
    (
      link_prev (h3 e).next (some e) h3,
      record c {
        first = or_header (h2 e).prev (some e) c.first;
        last = or_header (h3 e).next (some e) c.last;
      },
    )

-- `append_list`: the list, and the one that was appended.
abbrev pub or_list : Option ℕ → Clist → Clist → Clist
or_list none whole empty = empty
or_list (some e) whole empty = whole

unfoldable pub append_list : Links → Clist → Clist → Links × Clist × Clist
append_list h c l = elim l.first [
  | none ↦ (h, record c { nelem = c.nelem + l.nelem }, l)
  | some y ↦ elim c.first [
    | none ↦ (h, l, l)
    | some x ↦ (
      set_prev y c.last (link_next c.last (some y) h),
      record c { last = l.last; nelem = c.nelem + l.nelem },
      record l { first = c.first },
    )
  ]
]

-- `deleteall`, as far as the list goes.
abbrev pub clear : Clist → Clist
clear c = clist_t
