-- ===== src/Escape.antt =====
-- libpub/escape.C and `c_escape` of libpub/pubutil.C: the escaping of text for HTML, JSON and C.
-- `xss_escape` writes into a static buffer, which is the state `XssBuf`; the filter of HTML with
-- allowed tags is in Filter.
pub mod Xss
pub mod Overflow
pub mod Html
pub mod Quoted
pub mod Filter
mod Tests
use okws.Prelude.{
  ℕ, zero, suc, ◌+◌, ◌*◌, ◌^◌, Bool, true, false, ◌&&◌, ◌||◌, not, Bytes, [], ◌∷◌, ◌++◌, length,
  min, ltb, ◌==◌, if◌then◌else◌, codes,
}

-- The static variables `xss_buf` (is it there?) and `xss_buflen`.
pub record XssBuf : Type 0 where
  pub allocated : Bool
  pub buflen : ℕ

abbrev pub xss_max_buflen : ℕ
xss_max_buflen = 0x1000000

-- At the start of the program.
abbrev pub xss_init : XssBuf
xss_init = record { allocated = false; buflen = 0x1000 }

abbrev pub maxseqlen : ℕ
maxseqlen = 5

-- `while (xss_buflen < biggest && xss_buflen < xss_max_buflen) xss_buflen = (xss_buflen << 1);`
pub double_from : ℕ → ℕ → ℕ → ℕ
double_from zero biggest len = len
double_from (suc fuel) biggest len =
    let next = double_from fuel biggest (len * 2) in
    if ltb len biggest && ltb len xss_max_buflen then next else len

-- The buffer that the call works with: the old one, or a new one if there is none or it was freed.
pub xss_alloc : XssBuf → ℕ → XssBuf
xss_alloc b biggest =
    let freed = ltb b.buflen biggest && not (b.buflen == xss_max_buflen) && b.allocated in
    if b.allocated && not freed then b else record {
      allocated = true;
      buflen = min (double_from biggest biggest b.buflen) xss_max_buflen;
    }

-- What the loop has written: the text, and how far the bytes stored in the buffer reach.
-- `sprintf` stores a zero behind what it prints.
pub record Written : Type 0 where
  pub out : Bytes
  pub reach : ℕ

-- What one byte is printed as, and whether by `sprintf`.
unfoldable pub xss_char : ℕ → Bytes
xss_char c =
    if c == b'<'
    then codes "&lt;"
    else if c == b'>'
    then codes "&gt;"
    else if c == b'&'
    then codes "&#38;"
    else if c == b'"'
    then codes "&quot;"
    else if c == b'\''
    then codes "&#39;"
    else c ∷ []

unfoldable pub is_xss : ℕ → Bool
is_xss c = c == b'<' || c == b'>' || c == b'&' || c == b'"' || c == b'\''

-- `if a < b` on how far the stores reach.
abbrev pub later : ℕ → ℕ → ℕ
later a b = if ltb a b then b else a

-- The loop, with `w` written and `outlen` its length.
pub xss_loop : ℕ → ℕ → Written → Bytes → Written
xss_loop buflen outlen w [] = w
xss_loop buflen outlen w (c ∷ cs) =
    let inc = length (xss_char c) in
    let w' : Written = record {
      out = w.out ++ xss_char c;
      reach = later w.reach (outlen + inc + (if is_xss c then 1 else 0));
    } in
    let rest = xss_loop buflen (outlen + inc) w' cs in
    if ltb (maxseqlen + outlen) buflen then rest else w

-- The result is `out`; the state of the buffer comes with it.
unfoldable pub xss_escape : XssBuf → Bytes → Written × XssBuf
unfolding xss_alloc xss_loop double_from xss_char is_xss
xss_escape b s =
    let b' = xss_alloc b (maxseqlen * length s) in
    (xss_loop b'.buflen 0 (record { out = []; reach = 0 }) s, b')

-- `htmlspecialchars`.
pub html_char : ℕ → Bytes
html_char c =
    if c == b'&'
    then codes "&amp;"
    else if c == b'<'
    then codes "&lt;"
    else if c == b'>'
    then codes "&gt;"
    else if c == b'"'
    then codes "&quot;"
    else if c == b'\''
    then codes "&#039;"
    else c ∷ []

unfoldable pub htmlspecialchars : Bytes → Bytes
unfolding html_char
htmlspecialchars [] = []
htmlspecialchars (c ∷ cs) = html_char c ++ htmlspecialchars cs

-- The loop over `strpbrk` and the copy behind it, which both stop at a zero byte. `plain` are the
-- bytes that `strpbrk` does not look for, and `name` what follows the backslash.
escape_loop : (ℕ → Bool) → (ℕ → ℕ) → Bytes → Bytes
escape_loop special name [] = []
escape_loop special name (c ∷ cs) =
    let rest = escape_loop special name cs in
    if c == 0 then [] else if special c then b'\\' ∷ name c ∷ rest else c ∷ rest

quoted : Bool → Bytes → Bytes
quoted addq s = if addq then b'"' ∷ (s ++ (b'"' ∷ [])) else s

-- strpbrk (p1, "\\\"\n\t\r")
unfoldable pub json_special : ℕ → Bool
json_special c = c == b'\\' || c == b'"' || c == b'\n' || c == b'\t' || c == b'\r'

unfoldable pub json_name : ℕ → ℕ
json_name c =
    if c == b'\n' then b'n' else if c == b'\t' then b't' else if c == b'\r' then b'r' else c

unfoldable pub json_escape_std : Bytes → Bool → Bytes
unfolding escape_loop quoted json_special json_name
json_escape_std s addq = quoted addq (escape_loop json_special json_name s)

-- strpbrk (p1, "\\\"\n")
unfoldable pub c_special : ℕ → Bool
c_special c = c == b'\\' || c == b'"' || c == b'\n'

unfoldable pub c_name : ℕ → ℕ
c_name c = if c == b'\n' then b'n' else c

unfoldable pub c_escape : Bytes → Bool → Bytes
unfolding escape_loop quoted c_special c_name
c_escape s addq = quoted addq (escape_loop c_special c_name s)
