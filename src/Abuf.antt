-- ===== src/Abuf.antt =====
-- libahttp/abuf.h and libahttp/abuf.C: the buffer between a source of bytes and the HTTP parsers,
-- with one byte of push-back, a limit and a mirror. The object is a record, and a method returns the
-- new record.
--
-- The source (`abuf_src_t`) is the list of what its next calls of `getdata` return: the network
-- decides when bytes come and how they are cut. Behind the list `getdata` returns the default,
-- an end of file. `abuf_str_t`, the source that is a string, is such a list.
pub mod Stream
pub mod Gets
pub mod Drain
pub mod Limit
pub mod Scan
pub mod Left
pub mod Yields
mod Tests
use okws.Prelude.{
  ℕ, zero, suc, ◌+◌, ◌-◌, ◌<◌, Bool, true, false, ◌&&◌, ◌||◌, not, Bytes, List, [], ◌∷◌, ◌++◌,
  length, ltb, ◌==◌, if◌then◌else◌, Option, none, some,
}

-- `abuf_stat_t`.
pub data AbufStat : Type 0 where
  abuf_ok abuf_parse_err abuf_eof abuf_overflow abuf_wait abuf_nomatch : AbufStat
  abuf_continue abuf_complete abuf_separator : AbufStat

-- What `get` returns: a byte, `ABUF_EOFCHAR` or `ABUF_WAITCHAR`.
pub data Got : Type 0 where
  chr : ℕ → Got
  eofchar waitchar : Got

pub record AbufIndata : Type 0 where
  pub erc : AbufStat
  pub bytes : Bytes

abbrev pub no_data : AbufIndata
no_data = record { erc = abuf_eof; bytes = [] }

-- `cur` are the bytes from `_cp` to `_endp`, and `used` those from `_basep` to `_cp`, by number.
-- `removed` counts the bytes that the source was told to drop. `mirrored` is what the mirror holds,
-- with the room that is left in it, and nothing if there is no mirror.
pub record Abuf : Type 0 where
  pub src : List AbufIndata
  pub removed : ℕ
  pub bc : Bool
  pub lch : Got
  pub used : ℕ
  pub cur : Bytes
  pub len : ℕ
  pub erc : AbufStat
  pub spcs : ℕ
  pub lim : Option ℕ
  pub ccnt : ℕ
  pub mirrored : Option (Bytes × ℕ)

-- `lch (0)`, and no limit.
abbrev pub abuf_t : List AbufIndata → Abuf
abuf_t src = record {
  src = src;
  removed = 0;
  bc = false;
  lch = chr 0;
  used = 0;
  cur = [];
  len = 0;
  erc = abuf_ok;
  spcs = 0;
  lim = none;
  ccnt = 0;
  mirrored = none;
}

-- `abuf_str_t (s)`: one chunk, or none if the string is empty.
abbrev pub abuf_str_t : Bytes → List AbufIndata
abuf_str_t [] = []
abuf_str_t (c ∷ cs) = record { erc = abuf_ok; bytes = c ∷ cs } ∷ []

getdata : List AbufIndata → AbufIndata × List AbufIndata
getdata [] = (no_data, [])
getdata (d ∷ ds) = (d, ds)

pub moredata : Abuf → Abuf
unfolding getdata
moredata a =
    let (d, src') = getdata a.src in
    record a {
      removed = a.removed + a.len;
      src = src';
      used = 0;
      cur = d.bytes;
      len = length d.bytes;
      erc = d.erc;
    }

pub finish : Abuf → Abuf
finish a = record a { removed = a.removed + a.used; len = a.len - a.used; used = 0 }

-- `if (mirror_p && mirror_p < mirror_end) *mirror_p++ = c`
pub mirror_byte : Option (Bytes × ℕ) → ℕ → Option (Bytes × ℕ)
mirror_byte none c = none
mirror_byte (some (out, zero)) c = some (out, zero)
mirror_byte (some (out, suc room)) c = some (out ++ (c ∷ []), room)

-- `ABUF_T_GET_GOT_CHAR`, if there is a byte.
pub got_char : Abuf → ℕ → Bytes → Got × Abuf
unfolding mirror_byte
got_char a c cs = (
  chr c,
  record a {
    ccnt = a.ccnt + 1;
    mirrored = mirror_byte a.mirrored c;
    lch = chr c;
    cur = cs;
    used = a.used + 1;
  },
)

abbrev pub is_ok : AbufStat → Bool
is_ok abuf_ok = true
is_ok _ = false

abbrev pub is_wait : AbufStat → Bool
is_wait abuf_wait = true
is_wait _ = false

-- `lch = (erc == ABUF_WAIT ? ABUF_WAITCHAR : ABUF_EOFCHAR)`
pub got_control : Abuf → Got × Abuf
got_control a = let ch = if is_wait a.erc then waitchar else eofchar in (ch, record a { lch = ch })

-- After `moredata`.
got_more : Abuf → Bytes → Got × Abuf
got_more a [] = got_control a
got_more a (c ∷ cs) = if is_ok a.erc then got_char a c cs else got_control a

-- Past the push-back and the limit.
pub get_fresh : Abuf → Bytes → Got × Abuf
unfolding moredata got_char got_control got_more
get_fresh a (c ∷ cs) = got_char a c cs
get_fresh a [] = if is_ok a.erc then (let a' = moredata a in got_more a' a'.cur) else got_control a

-- `lim == ccnt`
abbrev pub at_limit : Option ℕ → ℕ → Bool
at_limit none n = false
at_limit (some l) n = l == n

unfoldable pub get : Abuf → Got × Abuf
unfolding get_fresh
get a =
    if a.bc
    then (a.lch, record a { bc = false })
    else if at_limit a.lim a.ccnt
    then (eofchar, a)
    else get_fresh a a.cur

abbrev pub is_waitchar : Got → Bool
is_waitchar waitchar = true
is_waitchar _ = false

unfoldable pub unget : Abuf → Abuf
unget a = if is_waitchar a.lch then a else record a { bc = true }

unfoldable pub peek : Abuf → Got × Abuf
unfolding get unget
peek a = let (ch, a') = get a in (ch, unget a')

-- The data that were waited for may be there.
unfoldable pub can_read : Abuf → Abuf
can_read a = record a { erc = abuf_ok }

unfoldable pub setlim : ℕ → Abuf → Abuf
setlim l a = record a { lim = some l; ccnt = 0 }

-- `ccnt - (bc ? 1 : 0)`
unfoldable pub get_ccnt : Abuf → ℕ
get_ccnt a = if a.bc then a.ccnt - 1 else a.ccnt

unfoldable pub reset : Abuf → Abuf
reset a = record a { spcs = 0; mirrored = none }

unfoldable pub mirror : ℕ → Abuf → Abuf
mirror len a = record a { mirrored = some ([], len) }
