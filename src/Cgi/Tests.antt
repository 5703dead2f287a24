-- ===== src/Cgi/Tests.antt =====
-- Runs of the encoder and the parser, and the theorems at concrete texts.
use okws.Prelude.{◌≤◌, ◌≡◌, ◌+◌, refl, arith, Bytes, [], true, false, Option, some, codes, length}
use okws.Cgi.Encode.{cgi_encode, cgi_loop, encode_scratch, cgi_char, is_regchar}
use okws.Cgi.Encode.Bounds.{cgi_encode_bounds}
use okws.Cgi.State.{Config, Cgi, cgi_t, defaults, xssfilt_none}
use okws.Cgi.Guts.{cgi_decode}
use okws.Cgi.Decode.{cgi_decode-cgi_encode}
use okws.Cgi.Total.{parse_key_or_val_total}
use okws.Cgi.Loop.{parse_key_or_val}
use okws.Abuf.{AbufStat, abuf_t, abuf_str_t}
use okws.Abuf.Left.{left}

abbrev no_filter : Config
no_filter = record defaults { filter_cgi = xssfilt_none }

encoded : cgi_encode true (codes "a b%/") ≡ codes "a+b%25%2f"
unfolding cgi_encode cgi_char is_regchar
encoded = refl

cgi_decode-cgi_encode_example :
    cgi_decode 20 no_filter (cgi_encode true (codes "a b%&/")) ≡ some (some (codes "a b%&/"))
cgi_decode-cgi_encode_example =
    cgi_decode-cgi_encode 20 no_filter (codes "a b%&/") (omega arith) (λ e. cc e) (omega arith)
      (omega arith) (omega arith)

cgi_encode_bounds_example :
    (length (cgi_encode true (codes "%%")) ≤ encode_scratch 0 (codes "%%"))
    × ((cgi_loop true (record { out = []; reach = 0 }) (codes "%%")).reach
        ≤ encode_scratch 0 (codes "%%") + 1)
cgi_encode_bounds_example = cgi_encode_bounds true (codes "%%") 0

percent_regchar : is_regchar b'%' ≡ false
unfolding is_regchar
percent_regchar = refl

-- In the middle of a %xx that ends badly.
abbrev in_hex : Cgi
in_hex = record (cgi_t (abuf_t (abuf_str_t (codes "4z%2"))) false 8) { inhex = true }

parse_key_or_val_total_example :
    (r : AbufStat × Option Bytes × Cgi) × (parse_key_or_val 5 no_filter true in_hex ≡ some r)
unfolding left
parse_key_or_val_total_example = parse_key_or_val_total 5 no_filter true in_hex (omega arith)
