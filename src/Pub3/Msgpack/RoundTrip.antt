-- ===== src/Pub3/Msgpack/RoundTrip.antt =====
-- What is read back from an encoded value: `decode` behind `encode`.
use okws.Prelude.{
  ℕ, ◌<◌, ◌≡◌, refl, ap, ◌∙◌, arith, Bytes, [], ◌∷◌, ◌++◌, length, some, none, if◌then◌else◌, false,
}
use mathlib.Core.List.{reverse}
use okws.Pub3.Expr.{
  Expr, null, bool, int, uint, double, str, list, dict, Items, no_items, more_items, Fields,
  no_fields, more_fields, size_items, size_fields,
}
use okws.Pub3.Msgpack.{Config}
use okws.Pub3.Msgpack.Outbuf.{put_byte}
use okws.Pub3.Msgpack.Written.{emitted, to_str-puts}
use okws.Pub3.Msgpack.Pack.{
  encode_len, encode_str, encode_positive_int, to_msgpack, items_to_msgpack, fields_to_msgpack,
  encode, to_int, put_bytes, is_null_str,
}
use okws.Pub3.Msgpack.Unpack.{no_errno, decode, report}
use okws.Pub3.Msgpack.Values.{
  nesting, nesting_items, nesting_fields, decoded_key, decoded, decoded_items, decoded_fields, Fits,
  FitsItems, FitsFields,
}
use okws.Pub3.Msgpack.Reads.{Reads, Reads-number, Reads-double}
use okws.Pub3.Msgpack.Lengths.{Reads-str}
use okws.Pub3.Msgpack.Containers.{
  Calls, ReadsItems, ReadsFields, encode_key_lem, int_lem, null_lem, bool_lem, then_put_lem,
  list_lem, dict_lem, cons_lem, field_lem, nil_lem, end_lem,
}

module _ (cfg : Config) (widen : Bytes → Bytes) (plain : cfg.js_mode ≡ false) where
  mutual
    unfolding to_msgpack decoded Fits nesting

    value_lem :
        (x : Expr)
        → Fits cfg x
        → Calls (to_msgpack cfg x) (λ ps. Reads cfg widen (nesting x) ps (decoded cfg x))
    value_lem null h = record {
      calls = put_byte 0xc0 ∷ [];
      result = refl;
      read = null_lem cfg widen plain;
    }
    value_lem (bool b) h = record {
      calls = put_byte (if b then 0xc3 else 0xc2) ∷ [];
      result = refl;
      read = bool_lem cfg widen plain b;
    }
    value_lem (int i) h = record {
      calls = to_int cfg i;
      result = refl;
      read = int_lem cfg widen plain i h;
    }
    value_lem (uint u) h = record {
      calls = encode_positive_int cfg u;
      result = refl;
      read = Reads-number cfg widen u plain h;
    }
    value_lem (double d) h = record {
      calls = put_byte 0xcb ∷ put_bytes (reverse d);
      result = refl;
      read = Reads-double cfg widen d h;
    }
    value_lem (str none) h = elim h [ ]
    value_lem (str (some s)) h = record {
      calls = encode_str s;
      result = refl;
      read = Reads-str cfg widen s h;
    }
    value_lem (list xs) (n, h) =
        let items = items_lem xs h in
        record {
          calls = encode_len (size_items xs) 0x90 0xdc 0xdd ++ items.calls;
          result = then_put_lem cfg widen plain refl items.result;
          read =
              list_lem cfg widen plain (nesting_items xs) (size_items xs) (decoded_items cfg xs)
                items.calls n items.read;
        }
    value_lem (dict fs) (n, h) =
        let fields = fields_lem fs h in
        record {
          calls = encode_len (size_fields fs) 0x80 0xde 0xdf ++ fields.calls;
          result = then_put_lem cfg widen plain refl fields.result;
          read =
              dict_lem cfg widen plain (nesting_fields fs) (size_fields fs) (decoded_fields cfg fs)
                fields.calls n fields.read;
        }

    items_lem :
        (xs : Items)
        → FitsItems cfg xs
        → Calls (items_to_msgpack cfg xs) (λ ps.
          ReadsItems cfg widen plain (nesting_items xs) ps (size_items xs) (decoded_items cfg xs))
    items_lem no_items h = record { calls = []; result = refl; read = nil_lem cfg widen plain }
    items_lem (more_items x xs) (hx, h) =
        let item = value_lem x hx in
        let items = items_lem xs h in
        record {
          calls = item.calls ++ items.calls;
          result = then_put_lem cfg widen plain item.result items.result;
          read =
              cons_lem cfg widen plain (nesting x) (nesting_items xs) (size_items xs)
                (decoded cfg x) (decoded_items cfg xs) item.calls items.calls item.read items.read;
        }

    fields_lem :
        (fs : Fields)
        → FitsFields cfg fs
        → Calls (fields_to_msgpack cfg fs) (λ ps.
          ReadsFields cfg widen plain
            (nesting_fields fs)
            ps
            (size_fields fs)
            (decoded_fields cfg fs))
    fields_lem no_fields h = record { calls = []; result = refl; read = end_lem cfg widen plain }
    fields_lem (more_fields k v fs) (hk, hv, h) =
        let key = encode_key_lem cfg widen plain k hk in
        let value = value_lem v hv in
        let fields = fields_lem fs h in
        record {
          calls = key.calls ++ (value.calls ++ fields.calls);
          result =
              then_put_lem cfg widen plain key.result
                (then_put_lem cfg widen plain value.result fields.result);
          read =
              field_lem cfg widen plain (nesting v) (nesting_fields fs) (size_fields fs)
                (decoded_key cfg k) (decoded cfg v) (decoded_fields cfg fs) key.calls value.calls
                fields.calls key.read value.read fields.read;
        }

Fits-str : (cfg : Config) (v : Expr) → Fits cfg v → is_null_str v ≡ false
unfolding Fits
Fits-str cfg null h = refl
Fits-str cfg (bool b) h = refl
Fits-str cfg (int i) h = refl
Fits-str cfg (uint u) h = refl
Fits-str cfg (double d) h = refl
Fits-str cfg (str none) h = elim h [ ]
Fits-str cfg (str (some s)) h = refl
Fits-str cfg (list xs) h = refl
Fits-str cfg (dict fs) h = refl

-- Outside js mode, a value that fits is encoded without a failed assertion, and `decode`, on more
-- fuel than the containers are nested, reads from the bytes the value with its integers narrowed and
-- the keys that are numbers printed anew, reports no error and stops at the last of these bytes,
-- whatever follows.
pub decode-encode :
    (cfg : Config) (widen : Bytes → Bytes) (v : Expr) (rest : Bytes) (fuel : ℕ)
    → cfg.js_mode ≡ false
    → Fits cfg v
    → nesting v < fuel
    → (s : Bytes) × (encode cfg v ≡ some (some s))
      × (decode fuel cfg widen (s ++ rest) ≡ some (some (decoded cfg v), no_errno, length s))
unfolding encode decode
decode-encode cfg widen v rest fuel plain h lt =
    let all = value_lem cfg widen plain v h in
    let (o, put, text) = to_str-puts all.calls in
    (
      emitted all.calls,
      rw (all.result, put, Fits-str cfg v h, text) refl,
      ap report (all.read fuel 0 no_errno rest lt)
          ∙ ap (λ n. some (some (decoded cfg v), no_errno, n)) (omega arith),
    )
