-- ===== src/Escape/Xss.antt =====
-- What `xss_escape` promises, and where its buffer is too short.
use mathlib.Core.List.{append-nil, append_assoc}
use okws.Prelude.{
  ℕ, zero, suc, ◌+◌, ◌*◌, ◌≤◌, ◌<◌, ◌≡◌, ◌≢◌, ◌⊎◌, inl, inr, refl, sym, ◌∙◌, arith, Bool, true,
  Bytes, List, [], ◌∷◌, ◌++◌, length, length-append, All, ltb, if◌then◌else◌, Bool-cases, ltb→lt,
}
use okws.Escape.{
  Written, XssBuf, xss_char, is_xss, xss_loop, xss_alloc, xss_escape, maxseqlen, later, double_from,
  xss_max_buflen,
}

-- No byte opens or closes a tag, or ends a quoted attribute.
abbrev pub IsInert : ℕ → Type 0
IsInert c = (c ≢ b'<') × (c ≢ b'>') × (c ≢ b'"') × (c ≢ b'\'')

pub All-append {ℓ κ} :
    {A : Type ℓ} (P : A → Type κ) (xs ys : List A) → All P xs → All P ys → All P (xs ++ ys)
All-append P [] ys h k = k
All-append P (x ∷ xs) ys h k = (h.0, All-append P xs ys h.1 k)

-- Every byte escaped, whatever the length.
unfoldable pub escape_all : Bytes → Bytes
unfolding xss_char
escape_all [] = []
escape_all (c ∷ cs) = xss_char c ++ escape_all cs

xss_char-IsInert : (c : ℕ) → All IsInert (xss_char c)
unfolding xss_char
xss_char-IsInert c = ground arith

length-xss_char : (c : ℕ) → length (xss_char c) ≤ 6
unfolding xss_char
length-xss_char c = ground arith

length-xss_char_short : (c : ℕ) → c ≢ b'"' → length (xss_char c) ≤ 5
unfolding xss_char
length-xss_char_short c h = ground arith

later-le : (a b n : ℕ) → a ≤ n → b ≤ n → later a b ≤ n
later-le a b n h k = ground arith

if-le-one : (b : Bool) → (if b then 1 else 0) ≤ 1
if-le-one b = ground arith

loop-IsInert :
    (s : Bytes) (buflen outlen : ℕ) (w : Written)
    → All IsInert w.out
    → All IsInert (xss_loop buflen outlen w s).out
unfolding xss_loop
loop-IsInert [] buflen outlen w h = h
loop-IsInert (c ∷ cs) buflen outlen w h = elim (Bool-cases (ltb (maxseqlen + outlen) buflen)) [
  | inl go ↦
      rw go
        (loop-IsInert cs buflen _ _ (All-append IsInert w.out (xss_char c) h (xss_char-IsInert c)))
  | inr stop ↦ rw stop h
]

-- The text and the stores that made it: at most one byte is stored behind the buffer.
record Fits (buflen : ℕ) (w : Written) : Type 0 where
  text : length w.out ≤ buflen
  stores : w.reach ≤ buflen + 1

loop-Fits :
    (s : Bytes) (buflen outlen : ℕ) (w : Written)
    → outlen ≡ length w.out
    → Fits buflen w
    → Fits buflen (xss_loop buflen outlen w s)
unfolding xss_loop
loop-Fits [] buflen outlen w e h = h
loop-Fits (c ∷ cs) buflen outlen w e h = elim (Bool-cases (ltb (maxseqlen + outlen) buflen)) [
  | inl go ↦
      let room = ltb→lt (maxseqlen + outlen) buflen go in
      rw go (
        loop-Fits cs buflen _ _ (omega (arith, length-append w.out (xss_char c))) (record {
          text = omega (arith, length-append w.out (xss_char c), length-xss_char c);
          stores =
              later-le w.reach _ _ h.stores
                (omega (arith, length-xss_char c, if-le-one (is_xss c)));
        }))
  | inr stop ↦ rw stop h
]

loop_complete :
    (s : Bytes) (buflen outlen : ℕ) (w : Written)
    → All (λ c. c ≢ b'"') s
    → outlen + maxseqlen * length s < buflen
    → w.reach ≤ buflen
    → ((xss_loop buflen outlen w s).out ≡ w.out ++ escape_all s)
      × ((xss_loop buflen outlen w s).reach ≤ buflen)
unfolding xss_loop escape_all
loop_complete [] buflen outlen w q room r = (sym (append-nil w.out), r)
loop_complete (c ∷ cs) buflen outlen w q room r =
    let go : ltb (maxseqlen + outlen) buflen ≡ true = ground arith in
    let short = length-xss_char_short c q.0 in
    let (e, r') =
      loop_complete cs buflen (outlen + length (xss_char c))
        (record {
          out = w.out ++ xss_char c;
          reach = later w.reach (outlen + length (xss_char c) + (if is_xss c then 1 else 0));
        })
        q.1 (omega arith) (later-le w.reach _ _ r (omega (arith, if-le-one (is_xss c)))) in
    rw go (e ∙ append_assoc w.out (xss_char c) (escape_all cs), r')

module _ (b : XssBuf) (s : Bytes) where
  -- Whatever the text and the state of the buffer, the output holds no `<`, `>`, `"` or `'`.
  pub xss_escape-IsInert : All IsInert (xss_escape b s).0.out
  unfolding xss_escape
  xss_escape-IsInert = loop-IsInert s _ 0 _ tt

  -- The output is no longer than the buffer, and no store goes further than one byte behind it.
  pub xss_escape_bounds :
      (length (xss_escape b s).0.out ≤ (xss_escape b s).1.buflen)
      × ((xss_escape b s).0.reach ≤ (xss_escape b s).1.buflen + 1)
  unfolding xss_escape
  xss_escape_bounds =
      let f =
        loop-Fits s (xss_alloc b (maxseqlen * length s)).buflen 0 (record { out = []; reach = 0 })
          refl (record { text = omega arith; stores = omega arith }) in
      (f.text, f.stores)

  -- A text without double quotes, five times as long as which is still shorter than the buffer, is
  -- escaped whole, and every store stays within the buffer.
  xss_escape_complete :
      All (λ c. c ≢ b'"') s
      → maxseqlen * length s < (xss_escape b s).1.buflen
      → ((xss_escape b s).0.out ≡ escape_all s)
        × ((xss_escape b s).0.reach ≤ (xss_escape b s).1.buflen)
  unfolding xss_escape
  xss_escape_complete q room =
      loop_complete s (xss_alloc b (maxseqlen * length s)).buflen 0 (record { out = []; reach = 0 })
        q (omega arith) (omega arith)

double_from-grows :
    (fuel biggest len : ℕ)
    → 0 < len
    → biggest ≤ fuel + len
    → (biggest ≤ double_from fuel biggest len) ⊎ (xss_max_buflen ≤ double_from fuel biggest len)
unfolding double_from
double_from-grows zero biggest len pos h = inl (omega arith)
double_from-grows (suc fuel) biggest len pos h =
    ground (arith, double_from-grows fuel biggest (len * 2))

-- The buffer that a call works with holds five bytes for each byte of the text, or has the largest
-- size that the program allows, if it had a size in that range before.
pub xss_alloc_enough :
    (b : XssBuf) (s : Bytes)
    → 0 < b.buflen
    → b.buflen ≤ xss_max_buflen
    → (maxseqlen * length s ≤ (xss_escape b s).1.buflen)
      ⊎ ((xss_escape b s).1.buflen ≡ xss_max_buflen)
unfolding xss_escape xss_alloc
xss_alloc_enough b s pos le =
    ground (arith, double_from-grows (maxseqlen * length s) (maxseqlen * length s) b.buflen)
