-- ===== src/Mpfd/Parts.antt =====
-- libahttp/mpfd.C: what a part's content disposition and its text put into the table of the form.
use okws.Prelude.{
  ◌≡◌, refl, Bool, true, false, Bytes, List, [], ◌∷◌, ◌++◌, if◌then◌else◌, Option, none, some,
  Bool-cases, inl, inr,
}
use okws.Abuf.{AbufStat, abuf_ok, abuf_parse_err}
use okws.Pair.{str_eq, is_empty, given, changed}
use okws.Keyed.{find}
use okws.Mpfd.Contdisp.{Contdisp, ContdispType, contdisp_none, formdat, attach}
use okws.Mpfd.Files.{CgiFile, FormPair, key_of, or_no_files, finsert, flookup, flookup-finsert}

-- The fields of `cgi_mpfd_t` that a part sets, and its table.
pub record Parts : Type 0 where
  pub cgi_key : Option Bytes
  pub filename : Option Bytes
  pub content_typ : Option Bytes
  pub is_attach : Bool
  pub tab : List FormPair

abbrev pub is_there : Option Bytes → Bool
is_there none = false
is_there (some s) = true

-- Behind the line of a content disposition.
abbrev pub dispose_as : ContdispType → Contdisp → Parts → AbufStat × Parts
dispose_as contdisp_none c p = (abuf_parse_err, p)
dispose_as formdat c p =
    (abuf_ok, record p { cgi_key = c.name; filename = c.filename; is_attach = is_there c.filename })
dispose_as attach c p = (abuf_ok, record p { filename = c.filename; is_attach = true })

unfoldable pub dispose : Contdisp → Parts → AbufStat × Parts
dispose c p = dispose_as c.typ c p

-- `insert (key, val)` of this table.
unfoldable pub insert_field : Bytes → Option Bytes → List FormPair → List FormPair
unfolding str_eq
insert_field k v [] =
    record { pair = record { key = k; vals = given v; encflag = true }; files = none } ∷ []
insert_field k v (p ∷ t) =
    if str_eq (key_of p) k
    then record p { pair = changed true v p.pair } ∷ t
    else p ∷ insert_field k v t

-- The text of a part was found.
abbrev pub store_at : Option Bytes → Option Bytes → Parts → Parts
store_at none dat p = p
store_at (some k) dat p = record p {
  cgi_key = none;
  tab =
      if p.is_attach
      then finsert k (record { filename = p.filename; file_type = p.content_typ; dat = dat }) p.tab
      else if is_empty k
      then p.tab
      else insert_field k dat p.tab;
}

unfoldable pub store : Option Bytes → Parts → Parts
unfolding finsert insert_field
store dat p = store_at p.cgi_key dat p

insert_field_files :
    (k j : Bytes) (v : Option Bytes) (t : List FormPair)
    → flookup j (insert_field k v t) ≡ flookup j t
unfolding flookup insert_field find
insert_field_files k j v [] = elim (Bool-cases (str_eq k j)) [
  | inl e ↦ rw e refl
  | inr e ↦ rw e refl
]
insert_field_files k j none (p ∷ t) = elim (Bool-cases (str_eq (key_of p) k)) [
  | inl e ↦ rw e (elim (Bool-cases (str_eq (key_of p) j)) [ inl g ↦ rw g refl | inr g ↦ rw g refl ])
  | inr e ↦ elim (Bool-cases (str_eq (key_of p) j)) [
    | inl g ↦ rw (e, g) refl
    | inr g ↦ rw (e, g) (insert_field_files k j none t)
  ]
]
insert_field_files k j (some v) (p ∷ t) = elim (Bool-cases (str_eq (key_of p) k)) [
  | inl e ↦ rw e (elim (Bool-cases (str_eq (key_of p) j)) [ inl g ↦ rw g refl | inr g ↦ rw g refl ])
  | inr e ↦ elim (Bool-cases (str_eq (key_of p) j)) [
    | inl g ↦ rw (e, g) refl
    | inr g ↦ rw (e, g) (insert_field_files k j (some v) t)
  ]
]

-- The files of a form after one more part: a field with a name and a file's name adds a file.
abbrev pub files_after :
    ContdispType
    → Option Bytes
    → Option Bytes
    → Option Bytes
    → Option Bytes
    → Bytes
    → List FormPair
    → Option (List CgiFile)
files_after formdat (some k) (some f) t dat j tab =
    if str_eq k j
    then some
        (or_no_files (flookup k tab) ++ record { filename = some f; file_type = t; dat = dat } ∷ [])
    else flookup j tab
files_after _ _ _ t dat j tab = flookup j tab

-- A part whose content disposition is taken and whose text is then found, while no key is set: if
-- it is form data with a name and a file's name, the files under that name have a new one at the
-- end, with the text and with the content type that was read last; a part of any other kind, an
-- attachment too, changes no files. No key is set afterwards.
pub store-dispose :
    (typ : ContdispType) (name filename dat : Option Bytes) (j : Bytes) (c : Contdisp) (p : Parts)
    → c.typ ≡ typ
    → c.name ≡ name
    → c.filename ≡ filename
    → p.cgi_key ≡ none
    → (flookup j (store dat (dispose c p).1).tab
        ≡ files_after typ name filename p.content_typ dat j p.tab)
      × ((store dat (dispose c p).1).cgi_key ≡ none)
unfolding store dispose
store-dispose contdisp_none name filename dat j c p a b d e = (rw (a, e) refl, rw (a, e) refl)
store-dispose attach name filename dat j c p a b d e = (rw (a, e) refl, rw (a, e) refl)
store-dispose formdat none filename dat j c p a b d e = (rw (a, b) refl, rw (a, b) refl)
store-dispose formdat (some k) none dat j c p a b d e = (
  rw (a, b, d)
      (elim (Bool-cases (is_empty k)) [
        | inl g ↦ rw g refl
        | inr g ↦ rw g (insert_field_files k j dat p.tab)
      ]),
  rw (a, b) refl,
)
store-dispose formdat (some k) (some f) dat j c p a b d e = (
  rw (a, b, d)
      (flookup-finsert k j (record { filename = some f; file_type = p.content_typ; dat = dat })
        p.tab).0,
  rw (a, b) refl,
)
