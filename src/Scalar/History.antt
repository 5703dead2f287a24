-- ===== src/Scalar/History.antt =====
-- Whether the answers of a text depend on the calls made before.
use okws.Prelude.{ℕ, Bytes, List, [], ◌∷◌, Option, none, some, ◌≡◌, ◌↔◌, refl, sym, ap, ◌∙◌, arith}
use Prim.{tt}
use mathlib.Core.Path.{subst}
use okws.Prelude.Int.{ℤ, pos, negsuc}
use okws.Scalar.{
  Clib, Scalar, Cnv, cnv_none, cnv_ok, cnv_bad, NaturalType, convertuint, my_convertint, scalar_str,
  status, or_else, good, text_of, keep_int, keep_uint, int_of_uint, uint_of_int, find_int,
  find_uint, find_double, to_int64, to_uint64, to_double, to_bool, is_true, to_str,
}
use okws.Scalar.Kept.{
  Agree, Conversion, as_int, as_uint, as_double, as_bool, convert, convert_all, Kept, Kept-keep,
  Kept-good, status_made, Known, Found, int_of_uint-Agree, uint_of_int-Agree, keep_int-Found,
  keep_uint-Found,
}

module _ (lib : Clib) (s : Bytes) (agree : Agree (convertuint lib s) (my_convertint lib s)) where
  -- The two conversions, by what is kept already.
  find_int-Found :
      (t d : Option Bytes) (dc ic uc : Cnv) (i : Option ℤ) (u : Option ℕ) (n : NaturalType)
      → Known lib s (record {
        s = t;
        double_cnv = dc;
        int_cnv = ic;
        uint_cnv = uc;
        d = d;
        i = i;
        u = u;
        natural_type = n;
      })
      → Found lib s (my_convertint lib s) (
          to_int64 lib (record {
            s = t;
            double_cnv = dc;
            int_cnv = ic;
            uint_cnv = uc;
            d = d;
            i = i;
            u = u;
            natural_type = n;
          }))
  unfolding to_int64 find_int
  find_int-Found t d dc cnv_ok uc i u n h = record { value = h.int.0; known = h }
  find_int-Found t d dc cnv_bad uc i u n h = record { value = sym h.int; known = h }
  find_int-Found t d dc cnv_none cnv_none i u n h =
      keep_int-Found lib s _ _ (ap (text_of (my_convertint lib)) h.text) h
  find_int-Found t d dc cnv_none cnv_bad i u n h =
      keep_int-Found lib s _ _ (ap (text_of (my_convertint lib)) h.text) h
  find_int-Found t d dc cnv_none cnv_ok i u n h =
      keep_int-Found lib s _ _
        (ap int_of_uint h.uint.0
          ∙ int_of_uint-Agree (convertuint lib s) (my_convertint lib s) h.uint.1 agree)
        h

  find_uint-Found :
      (t d : Option Bytes) (dc ic uc : Cnv) (i : Option ℤ) (u : Option ℕ) (n : NaturalType)
      → Known lib s (record {
        s = t;
        double_cnv = dc;
        int_cnv = ic;
        uint_cnv = uc;
        d = d;
        i = i;
        u = u;
        natural_type = n;
      })
      → Found lib s (convertuint lib s) (
          to_uint64 lib (record {
            s = t;
            double_cnv = dc;
            int_cnv = ic;
            uint_cnv = uc;
            d = d;
            i = i;
            u = u;
            natural_type = n;
          }))
  unfolding to_uint64 find_uint
  find_uint-Found t d dc ic cnv_ok i u n h = record { value = h.uint.0; known = h }
  find_uint-Found t d dc ic cnv_bad i u n h = record { value = sym h.uint; known = h }
  find_uint-Found t d dc cnv_none cnv_none i u n h =
      keep_uint-Found lib s _ _ (ap (text_of (convertuint lib)) h.text) h
  find_uint-Found t d dc cnv_bad cnv_none i u n h =
      keep_uint-Found lib s _ _ (ap (text_of (convertuint lib)) h.text) h
  find_uint-Found t d dc cnv_ok cnv_none i u n h =
      keep_uint-Found lib s _ _
        (ap uint_of_int h.int.0
          ∙ uint_of_int-Agree (my_convertint lib s) (convertuint lib s) h.int.1 agree)
        h

  find_double-Found :
      (t d : Option Bytes) (dc ic uc : Cnv) (i : Option ℤ) (u : Option ℕ) (n : NaturalType)
      → Known lib s (record {
        s = t;
        double_cnv = dc;
        int_cnv = ic;
        uint_cnv = uc;
        d = d;
        i = i;
        u = u;
        natural_type = n;
      })
      → Found lib s (lib.strtod s) (
          to_double lib (record {
            s = t;
            double_cnv = dc;
            int_cnv = ic;
            uint_cnv = uc;
            d = d;
            i = i;
            u = u;
            natural_type = n;
          }))
  unfolding to_double find_double
  find_double-Found t d cnv_ok ic uc i u n h = record { value = h.double.0; known = h }
  find_double-Found t d cnv_bad ic uc i u n h = record { value = sym h.double; known = h }
  find_double-Found t d cnv_none ic uc i u n h =
      let found = text_of lib.strtod t in
      let e : found ≡ lib.strtod s = ap (text_of lib.strtod) h.text in
      let kept = Kept-keep found (lib.of_int (pos 0)) in
      record {
        value = Kept-good (status found) _ found (status_made found) kept ∙ e;
        known = record {
          text = h.text;
          int = h.int;
          uint = h.uint;
          double = subst (Kept (status found) (some (or_else found (lib.of_int (pos 0))))) e kept;
        };
      }

  is_true-same : (t : Bytes) (r : Option ℤ × Scalar) → (is_true t r).1 ≡ r.1
  is_true-same [] (none, p) = refl
  is_true-same (c ∷ t) (none, p) = refl
  is_true-same [] (some i, p) = refl
  is_true-same (c ∷ t) (some i, p) = refl

  int_Found : (p : Scalar) → Known lib s p → Found lib s (my_convertint lib s) (to_int64 lib p)
  int_Found p h = find_int-Found p.s p.d p.double_cnv p.int_cnv p.uint_cnv p.i p.u p.natural_type h

  uint_Found : (p : Scalar) → Known lib s p → Found lib s (convertuint lib s) (to_uint64 lib p)
  uint_Found p h =
      find_uint-Found p.s p.d p.double_cnv p.int_cnv p.uint_cnv p.i p.u p.natural_type h

  double_Found : (p : Scalar) → Known lib s p → Found lib s (lib.strtod s) (to_double lib p)
  double_Found p h =
      find_double-Found p.s p.d p.double_cnv p.int_cnv p.uint_cnv p.i p.u p.natural_type h

  convert-Known : (c : Conversion) (p : Scalar) → Known lib s p → Known lib s (convert lib c p)
  unfolding to_bool
  convert-Known as_int p h = (int_Found p h).known
  convert-Known as_uint p h = (uint_Found p h).known
  convert-Known as_double p h = (double_Found p h).known
  convert-Known as_bool p h =
      subst (Known lib s) (sym (is_true-same (to_str p) (to_int64 lib p))) (int_Found p h).known

  convert_all-Known :
      (cs : List Conversion) (p : Scalar) → Known lib s p → Known lib s (convert_all lib cs p)
  convert_all-Known [] p h = h
  convert_all-Known (c ∷ cs) p h = convert_all-Known cs (convert lib c p) (convert-Known c p h)

  scalar_str-Known : Known lib s (scalar_str s)
  scalar_str-Known = record { text = refl; int = tt; uint = tt; double = tt }

-- If the two readings of a text agree, then after any calls of the conversions the object still
-- gives what the C library makes of the text, and the text.
convert_all-same :
    (lib : Clib) (s : Bytes) (cs : List Conversion)
    → Agree (convertuint lib s) (my_convertint lib s)
    → ((to_int64 lib (convert_all lib cs (scalar_str s))).0 ≡ my_convertint lib s)
      × ((to_uint64 lib (convert_all lib cs (scalar_str s))).0 ≡ convertuint lib s)
      × ((to_double lib (convert_all lib cs (scalar_str s))).0 ≡ lib.strtod s)
      × (to_str (convert_all lib cs (scalar_str s)) ≡ s)
convert_all-same lib s cs agree =
    let p = convert_all lib cs (scalar_str s) in
    let h = convert_all-Known lib s agree cs (scalar_str s) (scalar_str-Known lib s agree) in
    (
      (int_Found lib s agree p h).value,
      (uint_Found lib s agree p h).value,
      (double_Found lib s agree p h).value,
      rw h.text refl,
    )

-- The answer of the conversion that comes second.
abbrev second_uint : Option ℕ → Option ℤ → Option ℕ
second_uint u none = u
second_uint u (some i) = uint_of_int (some i)

abbrev second_int : Option ℕ → Option ℤ → Option ℤ
second_int none i = i
second_int (some u) i = int_of_uint (some u)

found_good {ℓ} :
    {A : Type ℓ} (found : Option A) (a : A) → good (status found) (some (or_else found a)) ≡ found
found_good none a = refl
found_good (some b) a = refl

uint_after :
    (lib : Clib) (s : Bytes) (i : Option ℤ)
    → (to_uint64 lib (keep_int i (scalar_str s))).0 ≡ second_uint (convertuint lib s) i
unfolding to_uint64 find_uint
uint_after lib s none = found_good (convertuint lib s) 0
uint_after lib s (some i) = found_good (uint_of_int (some i)) 0

int_after :
    (lib : Clib) (s : Bytes) (u : Option ℕ)
    → (to_int64 lib (keep_uint u (scalar_str s))).0 ≡ second_int u (my_convertint lib s)
unfolding to_int64 find_int
int_after lib s none = found_good (my_convertint lib s) (pos 0)
int_after lib s (some u) = found_good (int_of_uint (some u)) (pos 0)

second-Agree : (u : Option ℕ) (i : Option ℤ) → second_uint u i ≡ u → second_int u i ≡ i → Agree u i
unfolding Agree
second-Agree none none e f = tt
second-Agree none (some (pos n)) e f = ground arith
second-Agree none (some (negsuc n)) e f = tt
second-Agree (some u) none e f = ground (arith, f)
second-Agree (some u) (some (pos n)) e f = ground (arith, e, f)
second-Agree (some u) (some (negsuc n)) e f = ground arith

-- The signed and the unsigned conversion of a new text give what the C library makes of it in either
-- order if and only if the two readings of the text agree.
either_order-Agree :
    (lib : Clib) (s : Bytes)
    → (((to_uint64 lib (to_int64 lib (scalar_str s)).1).0 ≡ convertuint lib s)
        × ((to_int64 lib (to_uint64 lib (scalar_str s)).1).0 ≡ my_convertint lib s))
      ↔ Agree (convertuint lib s) (my_convertint lib s)
unfolding to_int64 to_uint64 find_int find_uint
either_order-Agree lib s = (
  λ (e, f).
      second-Agree (convertuint lib s) (my_convertint lib s)
        (sym (uint_after lib s (my_convertint lib s)) ∙ e)
        (sym (int_after lib s (convertuint lib s)) ∙ f),
  λ agree. (
    (convert_all-same lib s (as_int ∷ []) agree).1,
    (convert_all-same lib s (as_uint ∷ []) agree).0,
  ),
)
