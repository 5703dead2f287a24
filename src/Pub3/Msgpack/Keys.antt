-- ===== src/Pub3/Msgpack/Keys.antt =====
-- The keys that end the program: `encode_key` asserts that what `strtoll` reads is negative.
use okws.Prelude.{ℕ, Bytes, Option, none, some, ◌≡◌, ◌↔◌, refl, arith}
use okws.Prelude.Int.{ℤ, pos, negsuc}
use okws.Scalar.{convertuint, my_convertint}
use okws.Pub3.Msgpack.{Config}
use okws.Pub3.Msgpack.Pack.{encode_key, unsigned_key, signed_key}

signed_key_fails :
    (cfg : Config) (k : Bytes) (i : Option ℤ)
    → signed_key cfg k i ≡ none
    → (n : ℕ) × (i ≡ some (pos n))
signed_key_fails cfg k none e = ground arith
signed_key_fails cfg k (some (pos n)) e = (n, refl)
signed_key_fails cfg k (some (negsuc n)) e = ground arith

unsigned_key_fails :
    (cfg : Config) (k : Bytes) (u : Option ℕ)
    → unsigned_key cfg k u ≡ none
    → (u ≡ none) × ((n : ℕ) × (my_convertint cfg.lib k ≡ some (pos n)))
unsigned_key_fails cfg k none e = (refl, signed_key_fails cfg k (my_convertint cfg.lib k) e)
unsigned_key_fails cfg k (some u) e = ground arith

-- The assertion of `encode_key` fails for a key exactly if `convertuint` refuses the key and
-- `my_convertint` takes it for a number that is not negative.
encode_key-none :
    (cfg : Config) (k : Bytes)
    → (encode_key cfg k ≡ none)
      ↔ ((convertuint cfg.lib k ≡ none) × ((n : ℕ) × (my_convertint cfg.lib k ≡ some (pos n))))
unfolding encode_key
encode_key-none cfg k =
    (unsigned_key_fails cfg k (convertuint cfg.lib k), λ (e, f). rw (e, f.1) refl)
