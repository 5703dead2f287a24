-- ===== src/Cgi/Decode/Rounds.antt =====
-- One round of the parser takes in one byte that `cgi_encode` wrote.
use okws.Prelude.{
  ℕ, ◌+◌, ◌/◌, ◌%◌, ◌<◌, ◌≤◌, ◌≡◌, refl, sym, ap, ◌∙◌, arith, true, false, Bytes, [], ◌∷◌, ◌++◌,
  length, length-append, none, some, leb, ◌==◌, if◌then◌else◌, Bool-cases, ==_iff, inl, inr,
}
use okws.Abuf.{chr, eofchar, Abuf, get}
use okws.Abuf.Yields.{Yields, yields_end, yields_byte}
use okws.Cgi.Encode.{is_regchar, cgi_char, hex_digit, percent}
use okws.Cgi.State.{Config, Cgi, cgi_none, extend_scratch, push, char_to_hex, parse_hexchar}
use okws.Cgi.Loop.{go, on_byte, on_got, on_percent, parse_round}

hex_digit-char_to_hex : (d : ℕ) → d < 16 → char_to_hex (hex_digit d) ≡ some d
unfolding char_to_hex
hex_digit-char_to_hex d h = ground arith

-- Between two bytes of a value, with room for `more` bytes still to be had.
pub record IsBetween (cfg : Config) (c : Cgi) (more : ℕ) : Type 0 where
  pub no_hex : c.inhex ≡ false
  pub at_first : c.hex_i ≡ 0
  pub no_digit : c.hex_lch ≡ 0
  pub no_value : c.hex_h ≡ 0
  pub no_max : c.maxlen ≡ none
  pub some_room : 0 < c.room
  pub inside : length c.text ≤ c.room
  pub limit : length c.text + more < cfg.cgibuf_limit

-- The scratch buffer as a round of the loop finds it.
abbrev pub with_room : Config → Cgi → Cgi
with_room cfg c = if leb c.room (length c.text) then (extend_scratch cfg c).1 else c

pub with_room-IsBetween :
    (cfg : Config) (c : Cgi) (more : ℕ)
    → IsBetween cfg c more
    → IsBetween cfg (with_room cfg c) more
      × (length c.text < (with_room cfg c).room)
      × ((with_room cfg c).text ≡ c.text)
      × ((with_room cfg c).abuf ≡ c.abuf)
unfolding extend_scratch
with_room-IsBetween cfg c more h = ground arith

-- A round reads one byte into that buffer.
round-chr :
    (cfg : Config) (c : Cgi) (more : ℕ) (ch : ℕ) (a : Abuf)
    → IsBetween cfg c more
    → get c.abuf ≡ (chr ch, a)
    → parse_round cfg cgi_none c ≡ on_byte cgi_none ch (record (with_room cfg c) { abuf = a })
unfolding parse_round on_got extend_scratch
round-chr cfg c more ch a h e = ground (arith, h.no_max, h.limit, h.inside, h.some_room, e)

-- A byte that the switch stores under another name, or as it is.
on_byte-plain : (ch : ℕ) (c : Cgi) → is_regchar ch ≡ true → on_byte cgi_none ch c ≡ (go, push ch c)
unfolding on_byte is_regchar
on_byte-plain ch c h = ground arith

on_byte-plus : (c : Cgi) → on_byte cgi_none b'+' c ≡ (go, push b' ' c)
unfolding on_byte
on_byte-plus c = refl

-- A `%` with its two digits.
on_byte-percent :
    (c : Cgi) (ch : ℕ) (a₁ a₂ : Abuf)
    → ch < 256
    → c.hex_i ≡ 0
    → c.inhex ≡ false
    → c.hex_lch ≡ 0
    → c.hex_h ≡ 0
    → get c.abuf ≡ (chr (hex_digit (ch / 16)), a₁)
    → get a₁ ≡ (chr (hex_digit (ch % 16)), a₂)
    → on_byte cgi_none b'%' c ≡ (go, push ch (record c { abuf = a₂ }))
unfolding on_byte on_percent parse_hexchar
on_byte-percent c ch a₁ a₂ lt i n l v g₁ g₂ = ground (
  arith,
  g₁,
  g₂,
  hex_digit-char_to_hex (ch / 16) (omega arith),
  hex_digit-char_to_hex (ch % 16) (omega arith),
)

cgi_char-regchar : (ch : ℕ) → is_regchar ch ≡ true → cgi_char true ch ≡ ch ∷ []
unfolding cgi_char
cgi_char-regchar ch reg = rw reg

cgi_char-space :
    (ch : ℕ) → is_regchar ch ≡ false → (ch == b' ') ≡ true → cgi_char true ch ≡ b'+' ∷ []
unfolding cgi_char
cgi_char-space ch reg space = rw (reg, space)

cgi_char-other :
    (ch : ℕ) → is_regchar ch ≡ false → (ch == b' ') ≡ false → cgi_char true ch ≡ percent ch
unfolding cgi_char
cgi_char-other ch reg other = rw (reg, other)

Yields-inv :
    {a : Abuf} {c : ℕ} {cs : Bytes}
    → Yields a (c ∷ cs)
    → (a' : Abuf) × (get a ≡ (chr c, a')) × Yields a' cs
Yields-inv (yields_byte {a' = a'} e l f y) = (a', e, y)

pub Yields-end : {a : Abuf} → Yields a [] → (a' : Abuf) × (get a ≡ (eofchar, a'))
Yields-end (yields_end {a' = a'} e) = (a', e)

-- What a round makes of one encoded byte.
pub record Reads (cfg : Config) (c : Cgi) (ch more : ℕ) (rest : Bytes) : Type 0 where
  pub next : Cgi
  pub result : parse_round cfg cgi_none c ≡ (go, next)
  pub between : IsBetween cfg next more
  pub text : next.text ≡ c.text ++ (ch ∷ [])
  pub source : Yields next.abuf rest

module _ (cfg : Config) (c : Cgi) (ch more : ℕ) (rest : Bytes)
    (h : IsBetween cfg c (more + 1)) where
  -- The state behind the switch, which stores `ch`.
  Reads-stored :
      (a : Abuf)
      → parse_round cfg cgi_none c ≡ (go, push ch (record (with_room cfg c) { abuf = a }))
      → Yields a rest
      → Reads cfg c ch more rest
  Reads-stored a e y =
      let (b, room, text, _) = with_room-IsBetween cfg c (more + 1) h in
      record {
        next = push ch (record (with_room cfg c) { abuf = a });
        result = e;
        between = record {
          no_hex = b.no_hex;
          at_first = b.at_first;
          no_digit = b.no_digit;
          no_value = b.no_value;
          no_max = b.no_max;
          some_room = b.some_room;
          inside = omega (
            arith,
            length-append (with_room cfg c).text (ch ∷ []),
            ap (λ (t : Bytes). length t) text,
          );
          limit = omega (
            arith,
            h.limit,
            length-append (with_room cfg c).text (ch ∷ []),
            ap (λ (t : Bytes). length t) text,
          );
        };
        text = ap (λ t. t ++ (ch ∷ [])) text;
        source = y;
      }

  Reads-regchar : is_regchar ch ≡ true → Yields c.abuf (ch ∷ rest) → Reads cfg c ch more rest
  Reads-regchar reg y =
      let (a, e, y') = Yields-inv y in
      Reads-stored a
        (round-chr cfg c (more + 1) ch a h e
          ∙ on_byte-plain ch (record (with_room cfg c) { abuf = a }) reg)
        y'

  Reads-plus : ch ≡ b' ' → Yields c.abuf (b'+' ∷ rest) → Reads cfg c ch more rest
  Reads-plus space y =
      let (a, e, y') = Yields-inv y in
      Reads-stored a
        (round-chr cfg c (more + 1) b'+' a h e
          ∙ on_byte-plus (record (with_room cfg c) { abuf = a })
          ∙ ap (λ b. (go, push b (record (with_room cfg c) { abuf = a }))) (sym space))
        y'

  Reads-percent :
      ch < 256
      → Yields c.abuf (b'%' ∷ hex_digit (ch / 16) ∷ hex_digit (ch % 16) ∷ rest)
      → Reads cfg c ch more rest
  Reads-percent lt y =
      let (a, e, y₁) = Yields-inv y in
      let (a₁, e₁, y₂) = Yields-inv y₁ in
      let (a₂, e₂, y₃) = Yields-inv y₂ in
      let b = (with_room-IsBetween cfg c (more + 1) h).0 in
      Reads-stored a₂
        (round-chr cfg c (more + 1) b'%' a h e
          ∙ on_byte-percent (record (with_room cfg c) { abuf = a }) ch a₁ a₂ lt b.at_first b.no_hex
              b.no_digit b.no_value e₁ e₂)
        y₃

  pub Reads-cgi_char :
      ch < 256 → Yields c.abuf (cgi_char true ch ++ rest) → Reads cfg c ch more rest
  Reads-cgi_char lt y = elim (Bool-cases (is_regchar ch)) [
    | inl reg ↦ Reads-regchar reg (rw (cgi_char-regchar ch reg) at y)
    | inr odd ↦ elim (Bool-cases (ch == b' ')) [
      | inl space ↦ Reads-plus ((==_iff ch b' ').0 space) (rw (cgi_char-space ch odd space) at y)
      | inr other ↦ Reads-percent lt (rw (cgi_char-other ch odd other) at y)
    ]
  ]
