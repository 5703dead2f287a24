-- ===== src/Pub3/Msgpack/Outbuf.antt =====
-- `outbuf_t`: bytes are gathered in a chunk of 256, and strings go behind it whole.
use okws.Prelude.{
  ℕ, ◌+◌, Bool, true, false, Bytes, List, [], ◌∷◌, ◌++◌, length, ltb, ◌==◌, if◌then◌else◌, Option,
  none, some,
}

-- What is called on the buffer.
pub data Put : Type 0 where
  put_byte : ℕ → Put
  put_str : Bytes → Put

-- `_b` are the bytes behind which the chunk `_tmp` comes, which may be null.
pub record Outbuf : Type 0 where
  pub b : Bytes
  pub tmp : Option Bytes

abbrev pub outbuf_t : Outbuf
outbuf_t = record { b = []; tmp = some [] }

-- `flush (r)`; `ready ()` makes a new chunk.
unfoldable pub flush : Bool → Outbuf → Outbuf
flush r o = elim o.tmp [
  | none ↦ o
  | some [] ↦ o
  | some (c ∷ cs) ↦ record { b = o.b ++ (c ∷ cs); tmp = if r then some [] else none }
]

unfoldable pub ready : Outbuf → Outbuf
ready o = elim o.tmp [ none ↦ record o { tmp = some [] } | some t ↦ o ]

-- The store, and the flush of a chunk that is full; `none` is the failed assertion.
unfoldable pub stored : ℕ → Bytes → Bytes → Option Outbuf
unfolding flush
stored c b t =
    let o : Outbuf = record { b = b; tmp = some (t ++ (c ∷ [])) } in
    if ltb (length t) 256 then some (if length t + 1 == 256 then flush true o else o) else none

unfoldable pub put : Put → Outbuf → Option Outbuf
unfolding ready flush stored
put (put_byte c) o = elim o.tmp [ none ↦ stored c o.b [] | some t ↦ stored c o.b t ]
put (put_str s) o = let o' = flush true o in some (record o' { b = o'.b ++ s })

unfoldable pub puts : List Put → Outbuf → Option Outbuf
unfolding put
puts [] o = some o
puts (p ∷ ps) o = elim (put p o) [ none ↦ none | some o' ↦ puts ps o' ]

-- `to_str ()`
unfoldable pub to_str : Outbuf → Bytes
unfolding flush
to_str o = (flush false o).b
