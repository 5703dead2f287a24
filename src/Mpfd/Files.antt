-- ===== src/Mpfd/Files.antt =====
-- libahttp/mpfd.C: the table of a form's fields, whose pairs also hold the files that were sent.
use okws.Prelude.{
  ◌≡◌, refl, sym, ap, ◌∙◌, true, false, Bytes, List, [], ◌∷◌, ◌++◌, if◌then◌else◌, Option, none,
  some, Bool-cases, inl, inr,
}
use okws.Pair.{Pair, str_eq, first_val}
use okws.Pair.Laws.{str_eq_iff}
use okws.Keyed.{find}

-- `cgi_file_t`, with strings that may be null.
pub record CgiFile : Type 0 where
  pub filename : Option Bytes
  pub file_type : Option Bytes
  pub dat : Option Bytes

-- `cgi_mpfd_pair_t`
pub record FormPair : Type 0 where
  pub pair : Pair
  pub files : Option (List CgiFile)

abbrev pub key_of : FormPair → Bytes
key_of p = p.pair.key

abbrev pub or_no_files : Option (List CgiFile) → List CgiFile
or_no_files none = []
or_no_files (some fs) = fs

abbrev add : CgiFile → FormPair → FormPair
add f p = record p { files = some (or_no_files p.files ++ f ∷ []) }

-- `cgi_mpfd_pair_t (k)`
abbrev pub cgi_mpfd_pair_t : Bytes → FormPair
cgi_mpfd_pair_t k = record { pair = record { key = k; vals = []; encflag = true }; files = none }

unfoldable pub finsert : Bytes → CgiFile → List FormPair → List FormPair
unfolding str_eq
finsert k f [] = add f (cgi_mpfd_pair_t k) ∷ []
finsert k f (p ∷ t) = if str_eq (key_of p) k then add f p ∷ t else p ∷ finsert k f t

abbrev files_of : Option FormPair → Option (List CgiFile)
files_of none = none
files_of (some p) = p.files

unfoldable pub flookup : Bytes → List FormPair → Option (List CgiFile)
unfolding find
flookup k t = files_of (find key_of k t)

abbrev val_of : Option FormPair → Option Bytes
val_of none = none
val_of (some p) = first_val p.pair.vals

-- `lookup (key)` of the same table.
unfoldable pub form_lookup : Bytes → List FormPair → Option Bytes
unfolding find
form_lookup k t = val_of (find key_of k t)

finsert_same :
    (k : Bytes) (f : CgiFile) (t : List FormPair)
    → flookup k (finsert k f t) ≡ some (or_no_files (flookup k t) ++ f ∷ [])
unfolding flookup finsert find
finsert_same k f [] = rw ((str_eq_iff k k).1 refl) refl
finsert_same k f (p ∷ t) = elim (Bool-cases (str_eq (key_of p) k)) [
  | inl e ↦ rw (e, e) refl
  | inr e ↦ rw (e, e) (finsert_same k f t)
]

finsert_other :
    (k j : Bytes) (f : CgiFile) (t : List FormPair)
    → str_eq k j ≡ false
    → flookup j (finsert k f t) ≡ flookup j t
unfolding flookup finsert find
finsert_other k j f [] h = rw h refl
finsert_other k j f (p ∷ t) h = elim (Bool-cases (str_eq (key_of p) k)) [
  | inl e ↦
      let other : str_eq (key_of p) j ≡ false =
        ap (λ x. str_eq x j) ((str_eq_iff (key_of p) k).0 e) ∙ h in
      rw (e, other) refl
  | inr e ↦ elim (Bool-cases (str_eq (key_of p) j)) [
    | inl g ↦ rw (e, g) refl
    | inr g ↦ rw (e, g) (finsert_other k j f t h)
  ]
]

form_lookup-finsert :
    (k j : Bytes) (f : CgiFile) (t : List FormPair)
    → form_lookup j (finsert k f t) ≡ form_lookup j t
unfolding form_lookup finsert find
form_lookup-finsert k j f [] = elim (Bool-cases (str_eq k j)) [
  | inl e ↦ rw e refl
  | inr e ↦ rw e refl
]
form_lookup-finsert k j f (p ∷ t) = elim (Bool-cases (str_eq (key_of p) k)) [
  | inl e ↦ rw e (elim (Bool-cases (str_eq (key_of p) j)) [ inl g ↦ rw g refl | inr g ↦ rw g refl ])
  | inr e ↦ elim (Bool-cases (str_eq (key_of p) j)) [
    | inl g ↦ rw (e, g) refl
    | inr g ↦ rw (e, g) (form_lookup-finsert k j f t)
  ]
]

-- After `finsert` the list of files under its key is the one that was there, or none, with the new
-- file at the end; the files under any other key and the first value of every key are as before.
pub flookup-finsert :
    (k j : Bytes) (f : CgiFile) (t : List FormPair)
    → (flookup j (finsert k f t)
        ≡ (if str_eq k j then some (or_no_files (flookup k t) ++ f ∷ []) else flookup j t))
      × (form_lookup j (finsert k f t) ≡ form_lookup j t)
flookup-finsert k j f t = (
  elim (Bool-cases (str_eq k j)) [
    | inl e ↦
        let same : k ≡ j = (str_eq_iff k j).0 e in
        rw e (ap (λ x. flookup x (finsert k f t)) (sym same) ∙ finsert_same k f t)
    | inr e ↦ rw e (finsert_other k j f t e)
  ],
  form_lookup-finsert k j f t,
)
