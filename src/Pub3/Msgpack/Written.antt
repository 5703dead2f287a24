-- ===== src/Pub3/Msgpack/Written.antt =====
-- The chunks of `outbuf_t` change nothing: what comes out is what was put in.
use okws.Prelude.{
  ℕ, ◌+◌, ◌<◌, ◌≡◌, refl, sym, ap, ◌∙◌, arith, Bool, true, false, Bytes, List, [], ◌∷◌, ◌++◌,
  length, length-append, ◌==◌, Option, none, some, Bool-cases, inl, inr,
}
use mathlib.Core.List.{append-nil, append_assoc}
use okws.Pub3.Msgpack.Outbuf.{
  Put, put_byte, put_str, Outbuf, outbuf_t, flush, stored, put, puts, to_str,
}

-- The bytes of the calls, one after the other.
abbrev pub bytes_of : Put → Bytes
bytes_of (put_byte c) = c ∷ []
bytes_of (put_str s) = s

unfoldable pub emitted : List Put → Bytes
emitted [] = []
emitted (p ∷ ps) = bytes_of p ++ emitted ps

abbrev pub chunk_of : Option Bytes → Bytes
chunk_of none = []
chunk_of (some t) = t

abbrev contents : Outbuf → Bytes
contents o = o.b ++ chunk_of o.tmp

-- The assertion of `put_byte` holds in such a buffer.
abbrev HasRoom : Outbuf → Type 0
HasRoom o = length (chunk_of o.tmp) < 256

record Puts (ps : Bytes) (r : Option Outbuf) (o : Outbuf) : Type 0 where
  next : Outbuf
  result : r ≡ some next
  room : HasRoom next
  same : contents next ≡ contents o ++ ps

flush-contents :
    (r : Bool) (b : Bytes) (t : Option Bytes)
    → contents (flush r (record { b = b; tmp = t })) ≡ b ++ chunk_of t
unfolding flush
flush-contents r b none = refl
flush-contents r b (some []) = refl
flush-contents true b (some (c ∷ cs)) = append-nil (b ++ (c ∷ cs))
flush-contents false b (some (c ∷ cs)) = append-nil (b ++ (c ∷ cs))

flush-HasRoom : (b : Bytes) (t : Option Bytes) → HasRoom (flush true (record { b = b; tmp = t }))
unfolding flush
flush-HasRoom b none = omega arith
flush-HasRoom b (some []) = omega arith
flush-HasRoom b (some (c ∷ cs)) = omega arith

stored-Puts :
    (c : ℕ) (b t : Bytes) (o : Outbuf)
    → length t < 256
    → contents o ≡ b ++ t
    → Puts (c ∷ []) (stored c b t) o
unfolding stored
stored-Puts c b t o lt same = elim (Bool-cases (length t + 1 == 256)) [
  | inl full ↦ record {
    next = flush true (record { b = b; tmp = some (t ++ (c ∷ [])) });
    result = ground (arith, lt, full);
    room = flush-HasRoom b (some (t ++ (c ∷ [])));
    same =
        flush-contents true b (some (t ++ (c ∷ [])))
        ∙ sym (append_assoc b t (c ∷ []))
        ∙ ap (λ x. x ++ (c ∷ [])) (sym same);
  }
  | inr more ↦ record {
    next = record { b = b; tmp = some (t ++ (c ∷ [])) };
    result = ground (arith, lt, more);
    room =
        let size = length-append t (c ∷ []) in
        let short : length t + 1 < 256 = ground (arith, more, lt) in omega (arith, size, short);
    same = sym (append_assoc b t (c ∷ [])) ∙ ap (λ x. x ++ (c ∷ [])) (sym same);
  }
]

put-Puts :
    (p : Put) (b : Bytes) (t : Option Bytes)
    → HasRoom (record { b = b; tmp = t })
    → Puts (bytes_of p) (put p (record { b = b; tmp = t })) (record { b = b; tmp = t })
unfolding put
put-Puts (put_byte c) b none h = stored-Puts c b [] _ (omega arith) refl
put-Puts (put_byte c) b (some t) h = stored-Puts c b t _ h refl
put-Puts (put_str s) b none h = record {
  next = record { b = b ++ s; tmp = none };
  result = refl;
  room = h;
  same = append-nil (b ++ s) ∙ ap (λ x. x ++ s) (sym (append-nil b));
}
put-Puts (put_str s) b (some []) h = record {
  next = record { b = b ++ s; tmp = some [] };
  result = refl;
  room = h;
  same = append-nil (b ++ s) ∙ ap (λ x. x ++ s) (sym (append-nil b));
}
put-Puts (put_str s) b (some (c ∷ cs)) h = record {
  next = record { b = (b ++ (c ∷ cs)) ++ s; tmp = some [] };
  result = refl;
  room = omega arith;
  same = append-nil ((b ++ (c ∷ cs)) ++ s);
}

puts-Puts : (ps : List Put) (o : Outbuf) → HasRoom o → Puts (emitted ps) (puts ps o) o
unfolding puts emitted
puts-Puts [] o h = record {
  next = o;
  result = refl;
  room = h;
  same = sym (append-nil (contents o));
}
puts-Puts (p ∷ ps) o h =
    let first = put-Puts p o.b o.tmp h in
    let others = puts-Puts ps first.next first.room in
    record {
      next = others.next;
      result = ground (arith, first.result, others.result);
      room = others.room;
      same =
          others.same
          ∙ ap (λ x. x ++ emitted ps) first.same
          ∙ append_assoc (contents o) (bytes_of p) (emitted ps);
    }

flushed :
    (b : Bytes) (t : Option Bytes) → (flush false (record { b = b; tmp = t })).b ≡ b ++ chunk_of t
unfolding flush
flushed b none = sym (append-nil b)
flushed b (some []) = sym (append-nil b)
flushed b (some (c ∷ cs)) = refl

-- Whatever is put into a new buffer, no assertion fails, and `to_str` gives the bytes and strings
-- that were put in, one behind the other.
pub to_str-puts :
    (ps : List Put) → (o : Outbuf) × (puts ps outbuf_t ≡ some o) × (to_str o ≡ emitted ps)
unfolding to_str
to_str-puts ps =
    let all = puts-Puts ps outbuf_t (omega arith) in
    (all.next, all.result, flushed all.next.b all.next.tmp ∙ all.same)
