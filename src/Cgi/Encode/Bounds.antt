-- ===== src/Cgi/Encode/Bounds.antt =====
-- The room that `cgi_encode` needs in its scratch buffer.
use mathlib.Core.List.{append-nil, append_assoc}
use okws.Prelude.{
  ℕ, ◌+◌, ◌*◌, ◌≤◌, ◌≡◌, ◌≢◌, refl, sym, ap, ◌∙◌, arith, Bool, true, false, Bytes, [], ◌∷◌, ◌++◌,
  length, length-append, if◌then◌else◌,
}
use okws.Escape.{Written, later}
use okws.Cgi.Encode.{cgi_char, is_printed, is_regchar, cgi_loop, cgi_encode, encode_scratch}

-- The encoding byte by byte, with no buffer.
pub encode_all : Bool → Bytes → Bytes
encode_all e [] = []
encode_all e (c ∷ cs) = cgi_char e c ++ encode_all e cs

loop-out : (e : Bool) (s : Bytes) (w : Written) → (cgi_loop e w s).out ≡ w.out ++ encode_all e s
unfolding cgi_loop encode_all
loop-out e [] w = sym (append-nil w.out)
loop-out e (c ∷ cs) w = loop-out e cs _ ∙ append_assoc w.out (cgi_char e c) (encode_all e cs)

pub cgi_encode-all : (e : Bool) (s : Bytes) → cgi_encode e s ≡ encode_all e s
unfolding cgi_encode
cgi_encode-all e s = loop-out e s (record { out = []; reach = 0 })

pub cgi_encode-cons :
    (e : Bool) (c : ℕ) (s : Bytes) → cgi_encode e (c ∷ s) ≡ cgi_char e c ++ cgi_encode e s
cgi_encode-cons e c s =
    cgi_encode-all e (c ∷ s)
    ∙ unfold encode_all in ap (λ t. cgi_char e c ++ t) (sym (cgi_encode-all e s))

pub cgi_encode-nil : (e : Bool) → cgi_encode e [] ≡ []
unfolding cgi_encode cgi_loop
cgi_encode-nil e = refl

length-cgi_char : (e : Bool) (c : ℕ) → length (cgi_char e c) ≤ 3
unfolding cgi_char
length-cgi_char true c = ground arith
length-cgi_char false c = ground arith

later-le : (a b n : ℕ) → a ≤ n → b ≤ n → later a b ≤ n
later-le a b n h k = ground arith

if-le-one : (b : Bool) → (if b then 1 else 0) ≤ 1
if-le-one b = ground arith

loop-reach :
    (e : Bool) (s : Bytes) (w : Written) (n : ℕ)
    → length w.out + 3 * length s ≤ n
    → w.reach ≤ n + 1
    → (length (cgi_loop e w s).out ≤ n) × ((cgi_loop e w s).reach ≤ n + 1)
unfolding cgi_loop
loop-reach e [] w n h r = (omega arith, r)
loop-reach e (c ∷ cs) w n h r =
    let len = length-append w.out (cgi_char e c) in
    let short = length-cgi_char e c in
    loop-reach e cs _ n (omega arith)
      (later-le w.reach _ _ r (omega (arith, if-le-one (is_printed e c))))

-- For both values of the flag and every buffer that was handed in, the encoded text fits into the
-- buffer that the call uses, and no store goes further than one byte behind it.
pub cgi_encode_bounds :
    (e : Bool) (s : Bytes) (given : ℕ)
    → (length (cgi_encode e s) ≤ encode_scratch given s)
      × ((cgi_loop e (record { out = []; reach = 0 }) s).reach ≤ encode_scratch given s + 1)
unfolding cgi_encode
cgi_encode_bounds e s given =
    let need : length s * 3 ≤ encode_scratch given s = unfold encode_scratch in ground arith in
    loop-reach e s (record { out = []; reach = 0 }) (encode_scratch given s) (omega arith)
      (omega arith)

-- Every byte is written as a `%` and two digits.
abbrev pub IsAllPercent : Bytes → Type 0
IsAllPercent [] = Unit
IsAllPercent (c ∷ cs) = (is_regchar c ≡ false) × (c ≢ b' ') × IsAllPercent cs

later-right : (a b : ℕ) → a ≤ b → later a b ≡ b
later-right a b h = ground arith

loop-percent :
    (s : Bytes) (w : Written)
    → IsAllPercent s
    → w.reach ≡ length w.out + 1
    → (cgi_loop true w s).reach ≡ length w.out + 3 * length s + 1
unfolding cgi_loop
loop-percent [] w h r = omega arith
loop-percent (c ∷ cs) w (reg, space, more) r =
    let three : length (cgi_char true c) ≡ 3 = unfold cgi_char in ground arith in
    let printed : is_printed true c ≡ true = unfold is_printed in ground arith in
    let len = length-append w.out (cgi_char true c) in
    let w' : Written = record {
      out = w.out ++ cgi_char true c;
      reach =
          later w.reach (length (w.out ++ cgi_char true c) + (if is_printed true c then 1 else 0));
    } in
    let one : (if is_printed true c then 1 else 0) ≡ 1 = rw printed in
    let reach' : w'.reach ≡ length w'.out + 1 =
      later-right w.reach _ (omega arith) ∙ ap (λ n. length w'.out + n) one in
    let sum : length w'.out + 3 * length cs + 1 ≡ length w.out + 3 * length (c ∷ cs) + 1 =
      omega arith in
    loop-percent cs w' more reach' ∙ sum

-- A text of which every byte is written with a `%`, and for which the buffer handed in is too
-- small or just large enough, has the zero behind its last `%xx` stored behind the buffer.
cgi_encode_overflows :
    (c : ℕ) (s : Bytes) (given : ℕ)
    → IsAllPercent (c ∷ s)
    → given ≤ 3 * length (c ∷ s)
    → (cgi_loop true (record { out = []; reach = 0 }) (c ∷ s)).reach
      ≡ encode_scratch given (c ∷ s) + 1
unfolding encode_scratch
cgi_encode_overflows c s given (reg, space, more) le =
    let three : length (cgi_char true c) ≡ 3 = unfold cgi_char in ground arith in
    let printed : is_printed true c ≡ true = unfold is_printed in ground arith in
    let w : Written = record {
      out = cgi_char true c;
      reach = later 0 (length (cgi_char true c) + (if is_printed true c then 1 else 0));
    } in
    let full : w.reach ≡ length w.out + 1 =
      later-right 0 _ (omega arith)
      ∙ ap (λ (b : Bool). length w.out + (if b then 1 else 0)) printed in
    let first : cgi_loop true (record { out = []; reach = 0 }) (c ∷ s) ≡ cgi_loop true w s =
      unfold cgi_loop in refl in
    let size : encode_scratch given (c ∷ s) ≡ 3 + 3 * length s =
      unfold encode_scratch in ground arith in
    ap (λ (w : Written). w.reach) first ∙ loop-percent s w more full ∙ omega arith
