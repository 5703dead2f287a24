-- ===== src/Cgi/Encode.antt =====
-- `cgi_encode` and the `encode` methods of libahttp/cgi.C.
pub mod Bounds
use okws.Prelude.{
  ℕ, zero, suc, ◌+◌, ◌-◌, ◌*◌, ◌/◌, ◌%◌, Bool, true, false, ◌&&◌, ◌||◌, not, Bytes, List, [], ◌∷◌,
  ◌++◌, length, ltb, leb, ◌==◌, if◌then◌else◌, codes,
}
use okws.Escape.{Written, later}
use okws.Pair.{Pair, Pairtab}

-- A lowercase hexadecimal digit, as `%x` prints it.
abbrev pub hex_digit : ℕ → ℕ
hex_digit d = if ltb d 10 then d + 48 else d + 87

-- `REGCHARTAB`, over its range from `-` to `~`: the letters, the digits and `-._`.
unfoldable pub is_regchar : ℕ → Bool
is_regchar c =
    c == b'-'
    || c == b'.'
    || (leb b'0' c && leb c b'9')
    || (leb b'A' c && leb c b'Z')
    || c == b'_'
    || (leb b'a' c && leb c b'z')

-- `sprintf (op, "%%%02x", inc)`
abbrev pub percent : ℕ → Bytes
percent c = b'%' ∷ hex_digit (c / 16) ∷ hex_digit (c % 16) ∷ []

-- What a byte is written as, for both values of the flag `e`.
unfoldable pub cgi_char : Bool → ℕ → Bytes
cgi_char true c = if is_regchar c then c ∷ [] else if c == b' ' then b'+' ∷ [] else percent c
cgi_char false c = if c == b';' then percent c else c ∷ []

-- Is the byte printed by `sprintf`, which stores a zero behind it?
unfoldable pub is_printed : Bool → ℕ → Bool
is_printed true c = not (is_regchar c || c == b' ')
is_printed false c = c == b';'

-- The loop: the text, and how far the stores reach.
unfoldable pub cgi_loop : Bool → Written → Bytes → Written
cgi_loop e w [] = w
cgi_loop e w (c ∷ cs) =
    let out' = w.out ++ cgi_char e c in
    cgi_loop e
      (record {
        out = out';
        reach = later w.reach (length out' + (if is_printed e c then 1 else 0));
      })
      cs

unfoldable pub cgi_encode : Bool → Bytes → Bytes
unfolding cgi_loop
cgi_encode e s = (cgi_loop e (record { out = []; reach = 0 }) s).out

-- The size of the scratch buffer that the call uses, from that of the one it is given.
unfoldable pub encode_scratch : ℕ → Bytes → ℕ
encode_scratch given s = let need = length s * 3 in if ltb given need then need else given

-- `key=val` for each value of a pair behind the first.
unfoldable pub encode_more : Bool → Bytes → Bytes → List Bytes → Bytes
encode_more e sep key [] = []
encode_more e sep key (v ∷ vs) =
    sep ++ (key ++ (b'=' ∷ (cgi_encode e v ++ encode_more e sep key vs)))

unfoldable pub encode_vals : Bool → Bytes → Bytes → List Bytes → Bytes
unfolding encode_more
encode_vals e sep key [] = []
encode_vals e sep key (v ∷ vs) = key ++ (b'=' ∷ (cgi_encode e v ++ encode_more e sep key vs))

-- `cgi_pair_t::encode`; the flag is `e->first`. A pair without a value writes nothing.
abbrev pub encode_pair : Bytes → Pair → Bool → Bytes × Bool
encode_pair sep p first = elim p.vals [
  | [] ↦ ([], first)
  | v ∷ vs ↦ (
    (if first then [] else sep) ++ encode_vals p.encflag sep (cgi_encode p.encflag p.key) (v ∷ vs),
    false,
  )
]

-- `cgi_t::encode`, over the pairs in the order in which the hash table gives them.
unfoldable pub encode_from : Bytes → Bool → Pairtab → Bytes
unfolding encode_vals
encode_from sep first [] = []
encode_from sep first (p ∷ t) =
    let (out, first') = encode_pair sep p first in out ++ encode_from sep first' t

unfoldable pub encode : Pairtab → Bytes
unfolding encode_from cgi_encode
encode t = encode_from (codes "&") true t
