-- ===== src/Scalar/Kept.antt =====
-- What is kept of a text, and when its two readings agree.
use okws.Prelude.{
  ℕ, Bytes, List, [], ◌∷◌, Option, none, some, ◌^◌, ◌<◌, ◌≤◌, ◌≡◌, ◌≢◌, refl, sym, ap, ◌∙◌, arith,
}
use mathlib.Core.Path.{subst}
use okws.Prelude.Int.{ℤ, pos, negsuc}
use okws.Scalar.{
  Clib, Scalar, Cnv, cnv_none, cnv_ok, cnv_bad, convertuint, my_convertint, status, or_else, good,
  keep_int, keep_uint, int_of_uint, uint_of_int, to_int64, to_uint64, to_double, to_bool,
}

-- The unsigned and the signed reading of a text belong together: both find the same number, or the
-- one that fails could not hold what the other finds.
unfoldable pub Agree : Option ℕ → Option ℤ → Type 0
Agree none none = Unit
Agree none (some (pos n)) = ⊥
Agree none (some (negsuc n)) = Unit
Agree (some u) none = 2 ^ 63 ≤ u
Agree (some u) (some (pos n)) = (u ≡ n) × (u < 2 ^ 63)
Agree (some u) (some (negsuc n)) = ⊥

pub data Conversion : Type 0 where
  as_int as_uint as_double as_bool : Conversion

abbrev pub convert : Clib → Conversion → Scalar → Scalar
convert lib as_int p = (to_int64 lib p).1
convert lib as_uint p = (to_uint64 lib p).1
convert lib as_double p = (to_double lib p).1
convert lib as_bool p = (to_bool lib p).1

abbrev pub convert_all : Clib → List Conversion → Scalar → Scalar
convert_all lib [] p = p
convert_all lib (c ∷ cs) p = convert_all lib cs (convert lib c p)

-- What is kept is what a new object would find.
abbrev pub Kept {ℓ} : {A : Type ℓ} → Cnv → Option A → Option A → Type ℓ
Kept cnv_none v found = Unit
Kept cnv_ok v found = (v ≡ found) × (found ≢ none)
Kept cnv_bad v found = found ≡ none

pub Kept-keep {ℓ} :
    {A : Type ℓ} (found : Option A) (a : A) → Kept (status found) (some (or_else found a)) found
Kept-keep none a = refl
Kept-keep (some b) a = (refl, λ e. ground arith)

pub Kept-good {ℓ} :
    {A : Type ℓ} (c : Cnv) (v found : Option A) → c ≢ cnv_none → Kept c v found → good c v ≡ found
Kept-good cnv_none v found h k = absurd (h refl)
Kept-good cnv_ok v found h k = k.0
Kept-good cnv_bad v found h k = sym k

pub status_made {ℓ} : {A : Type ℓ} (found : Option A) → status found ≢ cnv_none
status_made none e = ground arith
status_made (some a) e = ground arith

pub record Known (lib : Clib) (s : Bytes) (p : Scalar) : Type 0 where
  pub text : p.s ≡ some s
  pub int : Kept p.int_cnv p.i (my_convertint lib s)
  pub uint : Kept p.uint_cnv p.u (convertuint lib s)
  pub double : Kept p.double_cnv p.d (lib.strtod s)

pub int_of_uint-Agree : (u : Option ℕ) (i : Option ℤ) → u ≢ none → Agree u i → int_of_uint u ≡ i
unfolding Agree
int_of_uint-Agree none i m h = absurd (m refl)
int_of_uint-Agree (some u) none m h = ground (arith, h)
int_of_uint-Agree (some u) (some (pos n)) m (e, h) = rw (sym e) (ground (arith, h))
int_of_uint-Agree (some u) (some (negsuc n)) m h = elim h [ ]

pub uint_of_int-Agree : (i : Option ℤ) (u : Option ℕ) → i ≢ none → Agree u i → uint_of_int i ≡ u
unfolding Agree
uint_of_int-Agree none u m h = absurd (m refl)
uint_of_int-Agree (some (pos n)) none m h = elim h [ ]
uint_of_int-Agree (some (pos n)) (some u) m (e, h) = ap some (sym e)
uint_of_int-Agree (some (negsuc n)) none m h = refl
uint_of_int-Agree (some (negsuc n)) (some u) m h = elim h [ ]

-- After the search the conversion is made.
pub record Found {ℓ} {A : Type ℓ} (lib : Clib) (s : Bytes) (found : Option A)
    (r : Option A × Scalar) : Type ℓ where
  pub value : r.0 ≡ found
  pub known : Known lib s r.1

-- A search that finds what a new object would find.
pub keep_int-Found :
    (lib : Clib) (s : Bytes) (p : Scalar) (found : Option ℤ)
    → found ≡ my_convertint lib s
    → Known lib s p
    → Found lib s
        (my_convertint lib s)
        (good (status found) (some (or_else found (pos 0))), keep_int found p)
keep_int-Found lib s p found e h =
    let kept = Kept-keep found (pos 0) in
    record {
      value = Kept-good (status found) _ found (status_made found) kept ∙ e;
      known = record {
        text = h.text;
        int = subst (Kept (status found) (some (or_else found (pos 0)))) e kept;
        uint = h.uint;
        double = h.double;
      };
    }

pub keep_uint-Found :
    (lib : Clib) (s : Bytes) (p : Scalar) (found : Option ℕ)
    → found ≡ convertuint lib s
    → Known lib s p
    → Found lib s
        (convertuint lib s)
        (good (status found) (some (or_else found 0)), keep_uint found p)
keep_uint-Found lib s p found e h =
    let kept = Kept-keep found 0 in
    record {
      value = Kept-good (status found) _ found (status_made found) kept ∙ e;
      known = record {
        text = h.text;
        int = h.int;
        uint = subst (Kept (status found) (some (or_else found 0))) e kept;
        double = h.double;
      };
    }
