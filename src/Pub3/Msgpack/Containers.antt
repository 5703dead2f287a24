-- ===== src/Pub3/Msgpack/Containers.antt =====
-- How keys, lists and dictionaries are read back, if what they hold is.
use okws.Prelude.{
  ℕ, zero, suc, ◌+◌, ◌^◌, ◌<◌, ◌≡◌, refl, ap, ◌∙◌, arith, Bytes, Bool, List, [], ◌∷◌, ◌++◌, length,
  length-append, Option, some, none, if◌then◌else◌, true, false,
}
use Prim.Native.Nat.{max}
use okws.Prelude.Int.{ℤ, pos, negsuc}
use mathlib.Core.List.{append_assoc}
use okws.Pub3.Expr.{
  Expr, null, bool, int, str, list, dict, Items, no_items, more_items, Fields, no_fields, insert,
}
use okws.Scalar.{convertuint, my_convertint}
use okws.Pub3.Msgpack.{Config}
use okws.Pub3.Msgpack.Outbuf.{Put, put_byte}
use okws.Pub3.Msgpack.Written.{emitted}
use okws.Pub3.Msgpack.Pack.{
  encode_len, encode_key, encode_str, encode_positive_int, encode_negative_int, to_int, ◌then_put◌,
  unsigned_key, signed_key,
}
use okws.Pub3.Msgpack.Unpack.{
  Errno, gives, unpack_array, unpack_items, unpack_map, unpack_code, unpack_hook, unpack, key_str,
}
use okws.Pub3.Msgpack.Ints.{at, emitted-append}
use okws.Pub3.Msgpack.Values.{
  decoded_key, decoded_int, SignedFits, UnsignedFits, KeyFits, IntFits, signed_text, unsigned_text,
}
use okws.Pub3.Msgpack.Reads.{Reads, Reads-byte, number, Reads-number, Reads-negative}
use okws.Pub3.Msgpack.Lengths.{Reads-str, Reads-list, Reads-dict}

-- The calls that are made, of which `P` holds.
pub record Calls (r : Option (List Put)) (P : List Put → Type 0) : Type 0 where
  pub calls : List Put
  pub result : r ≡ some calls
  pub read : P calls

key_str-number : (cfg : Config) (u : ℕ) → key_str cfg (number u) ≡ some (cfg.lib.dec (pos u))
key_str-number cfg u = ground arith

module _ (cfg : Config) (widen : Bytes → Bytes) (plain : cfg.js_mode ≡ false) where
  abbrev pub ReadsItems : ℕ → List Put → ℕ → Items → Type 0
  ReadsItems d ps n xs =
      (fuel l : ℕ) (e : Errno) (rest : Bytes)
      → d < fuel
      → unpack_items (unpack fuel cfg widen) n (at (emitted ps ++ rest) l e)
        ≡ some (some xs, at rest (l + length (emitted ps)) e)

  abbrev pub ReadsFields : ℕ → List Put → ℕ → (Fields → Fields) → Type 0
  ReadsFields d ps n fs =
      (fuel l : ℕ) (e : Errno) (rest : Bytes) (acc : Fields)
      → d < fuel
      → unpack_map cfg (unpack fuel cfg widen) n acc (at (emitted ps ++ rest) l e)
        ≡ gives (dict (fs acc)) (at rest (l + length (emitted ps)) e)

  -- The calls for a key are read as a value whose text is `ks`.
  pub record ReadsKey (ks : Bytes) (ps : List Put) : Type 0 where
    pub key : Expr
    pub reads : Reads cfg widen 0 ps key
    pub text : key_str cfg key ≡ some ks

  signed_key_lem :
      (k : Bytes) (i : Option ℤ)
      → SignedFits k i
      → Calls (signed_key cfg k i) (ReadsKey (signed_text cfg k i))
  signed_key_lem k none h = record {
    calls = encode_str k;
    result = refl;
    read = record { key = str (some k); reads = Reads-str cfg widen k h; text = refl };
  }
  signed_key_lem k (some (pos n)) h = elim h [ ]
  signed_key_lem k (some (negsuc n)) h = record {
    calls = encode_negative_int cfg n;
    result = refl;
    read = record { key = int (negsuc n); reads = Reads-negative cfg widen n plain h; text = refl };
  }

  unsigned_key_lem :
      (k : Bytes) (u : Option ℕ)
      → UnsignedFits cfg k u
      → Calls (unsigned_key cfg k u) (ReadsKey (unsigned_text cfg k u))
  unsigned_key_lem k none h = signed_key_lem k (my_convertint cfg.lib k) h
  unsigned_key_lem k (some u) h = record {
    calls = encode_positive_int cfg u;
    result = refl;
    read = record {
      key = number u;
      reads = Reads-number cfg widen u plain h;
      text = key_str-number cfg u;
    };
  }

  pub encode_key_lem :
      (k : Bytes) → KeyFits cfg k → Calls (encode_key cfg k) (ReadsKey (decoded_key cfg k))
  unfolding encode_key decoded_key KeyFits
  encode_key_lem k h = unsigned_key_lem k (convertuint cfg.lib k) h

  pub int_lem : (i : ℤ) → IntFits i → Reads cfg widen 0 (to_int cfg i) (decoded_int i)
  int_lem (pos n) h = Reads-number cfg widen n plain (omega arith)
  int_lem (negsuc n) h = Reads-negative cfg widen n plain h

  pub null_lem : Reads cfg widen 0 (put_byte 0xc0 ∷ []) null
  unfolding unpack_hook unpack_code
  null_lem = Reads-byte cfg widen 0xc0 null refl (λ fuel m. refl)

  pub bool_lem : (b : Bool) → Reads cfg widen 0 (put_byte (if b then 0xc3 else 0xc2) ∷ []) (bool b)
  unfolding unpack_hook unpack_code
  bool_lem true = Reads-byte cfg widen 0xc3 (bool true) refl (λ fuel m. refl)
  bool_lem false = Reads-byte cfg widen 0xc2 (bool false) refl (λ fuel m. refl)

  -- Two lots of calls, one behind the other.
  joined :
      (p q : List Put) (rest : Bytes) → emitted (p ++ q) ++ rest ≡ emitted p ++ (emitted q ++ rest)
  joined p q rest =
      ap (λ x. x ++ rest) (emitted-append p q) ∙ append_assoc (emitted p) (emitted q) rest

  advanced :
      (p q : List Put) (l : ℕ)
      → l + length (emitted p) + length (emitted q) ≡ l + length (emitted (p ++ q))
  advanced p q l = rw (emitted-append p q) (omega (arith, length-append (emitted p) (emitted q)))

  pub then_put_lem :
      {r s : Option (List Put)} {p q : List Put}
      → r ≡ some p
      → s ≡ some q
      → (r then_put s) ≡ some (p ++ q)
  then_put_lem e f = rw (e, f) refl

  pub list_lem :
      (d n : ℕ) (ys : Items) (qs : List Put)
      → n < 256 ^ 4
      → ReadsItems d qs n ys
      → Reads cfg widen (suc d) (encode_len n 0x90 0xdc 0xdd ++ qs) (list ys)
  unfolding unpack_array
  list_lem d n ys qs h items zero l e rest lt = absurd (omega arith)
  list_lem d n ys qs h items (suc fuel) l e rest lt =
      let ps = encode_len n 0x90 0xdc 0xdd in
      let len = Reads-list cfg widen n l fuel e (emitted qs ++ rest) h in
      rw (joined ps qs rest, len, items fuel (l + length (emitted ps)) e rest (omega arith))
        (ap (λ k. gives (list ys) (at rest k e)) (advanced ps qs l))

  pub dict_lem :
      (d n : ℕ) (fs : Fields → Fields) (qs : List Put)
      → n < 256 ^ 4
      → ReadsFields d qs n fs
      → Reads cfg widen (suc d) (encode_len n 0x80 0xde 0xdf ++ qs) (dict (fs no_fields))
  dict_lem d n fs qs h fields zero l e rest lt = absurd (omega arith)
  dict_lem d n fs qs h fields (suc fuel) l e rest lt =
      let ps = encode_len n 0x80 0xde 0xdf in
      let len = Reads-dict cfg widen n l fuel e (emitted qs ++ rest) h in
      rw
        (
          joined ps qs rest,
          len,
          fields fuel (l + length (emitted ps)) e rest no_fields (omega arith),
        )
        (ap (λ k. gives (dict (fs no_fields)) (at rest k e)) (advanced ps qs l))

  pub cons_lem :
      (d c n : ℕ) (x : Expr) (xs : Items) (ps qs : List Put)
      → Reads cfg widen d ps x
      → ReadsItems c qs n xs
      → ReadsItems (max d c) (ps ++ qs) (suc n) (more_items x xs)
  unfolding unpack_items
  cons_lem d c n x xs ps qs item items fuel l e rest lt =
      let first = item fuel l e (emitted qs ++ rest) (omega arith) in
      rw (joined ps qs rest, first, items fuel (l + length (emitted ps)) e rest (omega arith))
        (ap (λ k. some (some (more_items x xs), at rest k e)) (advanced ps qs l))

  pub field_lem :
      (d c n : ℕ) (k : Bytes) (v : Expr) (fs : Fields → Fields) (ks ps qs : List Put)
      → ReadsKey k ks
      → Reads cfg widen d ps v
      → ReadsFields c qs n fs
      → ReadsFields (max d c) (ks ++ (ps ++ qs)) (suc n) (λ acc. fs (insert k v acc))
  unfolding unpack_map
  field_lem d c n k v fs ks ps qs key value fields fuel l e rest acc lt =
      let l1 = l + length (emitted ks) in
      let l2 = l1 + length (emitted ps) in
      let read_key = key.reads fuel l e (emitted ps ++ (emitted qs ++ rest)) (omega arith) in
      let read_value = value fuel l1 e (emitted qs ++ rest) (omega arith) in
      let others = fields fuel l2 e rest (insert k v acc) (omega arith) in
      rw (joined ks (ps ++ qs) rest, joined ps qs rest, read_key, key.text, read_value, others)
        (ap (λ j. gives (dict (fs (insert k v acc))) (at rest j e))
          (advanced ps qs l1 ∙ advanced ks (ps ++ qs) l))

  pub nil_lem : ReadsItems 0 [] 0 no_items
  unfolding unpack_items emitted
  nil_lem fuel l e rest lt = ap (λ k. some (some no_items, at rest k e)) (omega arith)

  pub end_lem : ReadsFields 0 [] 0 (λ acc. acc)
  unfolding unpack_map emitted
  end_lem fuel l e rest acc lt = ap (λ k. gives (dict acc) (at rest k e)) (omega arith)
