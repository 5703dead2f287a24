-- ===== src/Mpfd/Call.antt =====
-- A call of `match_boundary` goes on where the last one waited.
use okws.Prelude.{
  ℕ, ◌<◌, ◌≡◌, refl, sym, ap, ◌∙◌, arith, Bool, true, false, not, ◌||◌, if◌then◌else◌, Bytes, List,
  [], ◌∷◌, ◌++◌, length, length-map, Option, some, none, Bool-cases, inl, inr,
}
use okws.Abuf.{AbufStat, abuf_ok, abuf_wait, abuf_eof, Abuf, mirror}
use okws.Abuf.Scan.{end_mirror2}
use okws.Abuf.Stream.{rest, IsStream}
use okws.Kmp.{KmpMatcher, kmp_matcher, reset}
use okws.Kmp.Search.{reset-feed, feed, pattern-feed, pattern-kmp_matcher}
use okws.Kmp.Step.{folded}
use okws.Mpfd.{Mpfd, Left, matched, waits, ended, with_text, loop_left, is_current, match_boundary}
use okws.Mpfd.Boundary.{reader, IsLeft, Finds, match_loop-Finds}

abbrev pub status : Left → AbufStat
status matched = abuf_ok
status waits = abuf_wait
status ended = abuf_eof

abbrev pub is_over : Left → Bool
is_over matched = true
is_over waits = false
is_over ended = true

-- The answer of a call that was left with the parser `q`; with `dat`, the one to a match carries
-- what `end_mirror2` leaves of the mirror without its last `n` bytes.
abbrev pub answer : Bool → ℕ → Mpfd → Left → Option (AbufStat × Option Bytes × Mpfd)
answer true n q matched = with_text q (end_mirror2 n q.abuf)
answer false n q matched = some (abuf_ok, none, q)
answer dat n q waits = some (abuf_wait, none, q)
answer dat n q ended = some (abuf_eof, none, q)

-- Whether a call starts a new search: its boundary is not the current one, or the last search has ended.
abbrev pub is_new : Mpfd → ℕ → Bool
is_new p n = not (is_current p.cbm n) || p.match_ended

-- `text` was read from the buffer, behind `acc`, by a parser over `ks` and the boundary `b`.
pub record Searched (dat : Bool) (b acc : Bytes) (ks : List KmpMatcher) (p : Mpfd)
    (r : Option (AbufStat × Option Bytes × Mpfd)) : Type 0 where
  pub text : Bytes
  pub left : Left
  pub buf : Abuf
  pub result :
      r
      ≡ answer dat
          (length b)
          (record p {
            boundaries = reader b (acc ++ text) ∷ ks;
            cbm = some (length ks);
            match_ended = is_over left;
            abuf = buf;
          })
          left
  pub taken : rest p.abuf ≡ text ++ rest buf
  pub stream : IsStream buf
  pub how : IsLeft b acc text (rest buf) left

pattern-reader : (b s : Bytes) → length (reader b s).pattern ≡ length b
unfolding reset
pattern-reader b s =
    ap (λ (x : Bytes). length x)
      (pattern-feed s (reset (kmp_matcher b true)) ∙ pattern-kmp_matcher b true)
    ∙ length-map b (folded true)

is_current-true : (m : Option ℕ) (n : ℕ) → is_current m n ≡ true → m ≡ some n
is_current-true none n e = ground (arith, e)
is_current-true (some m) n e = ground (arith, e)

loop_left-answer :
    (dat : Bool) (b s : Bytes) (ks : List KmpMatcher) (p : Mpfd) (w : Left) (a : Abuf)
    → p.match_ended ≡ false
    → loop_left dat p ks (some (w, reader b s, a))
      ≡ answer dat
          (length b)
          (record p { boundaries = reader b s ∷ ks; abuf = a; match_ended = is_over w })
          w
loop_left-answer true b s ks p matched a h =
    ap
      (λ x.
        with_text (record p { boundaries = reader b s ∷ ks; match_ended = true; abuf = a })
          (end_mirror2 x a))
      (pattern-reader b s)
loop_left-answer false b s ks p matched a h = refl
loop_left-answer true b s ks p waits a h =
    ap
      (λ x.
        some
          (abuf_wait, none, record p { boundaries = reader b s ∷ ks; abuf = a; match_ended = x }))
      h
loop_left-answer false b s ks p waits a h =
    ap
      (λ x.
        some
          (abuf_wait, none, record p { boundaries = reader b s ∷ ks; abuf = a; match_ended = x }))
      h
loop_left-answer true b s ks p ended a h = refl
loop_left-answer false b s ks p ended a h = refl

Finds-Searched :
    (dat : Bool) (b acc : Bytes) (ks : List KmpMatcher) (p : Mpfd) (a : Abuf)
    (r : Option (Left × KmpMatcher × Abuf))
    → p.match_ended ≡ false
    → p.cbm ≡ some (length ks)
    → rest a ≡ rest p.abuf
    → Finds b acc a r
    → Searched dat b acc ks p (loop_left dat p ks r)
Finds-Searched dat b acc ks p a r h cur same f = record {
  text = f.text;
  left = f.left;
  buf = f.buf;
  result =
      ap (loop_left dat p ks) f.result
      ∙ loop_left-answer dat b (acc ++ f.text) ks p f.left f.buf h
      ∙ ap
          (λ x.
            answer dat (length b)
              (record p {
                boundaries = reader b (acc ++ f.text) ∷ ks;
                abuf = f.buf;
                match_ended = is_over f.left;
                cbm = x;
              })
              f.left)
          cur;
  taken = sym same ∙ f.taken;
  stream = f.stream;
  how = f.how;
}

-- Only the buffer and the size of the scratch area of the parser at the start matter.
Searched-over :
    (dat : Bool) (b acc : Bytes) (ks : List KmpMatcher) (p : Mpfd) (bs : List KmpMatcher)
    (m : Option ℕ) (e : Bool) (r : Option (AbufStat × Option Bytes × Mpfd))
    → Searched dat b acc ks (record p { boundaries = bs; cbm = m; match_ended = e }) r
    → Searched dat b acc ks p r
Searched-over dat b acc ks p bs m e r s = record {
  text = s.text;
  left = s.left;
  buf = s.buf;
  result = s.result;
  taken = s.taken;
  stream = s.stream;
  how = s.how;
}

reset-reader : (b s : Bytes) → reset (reader b s) ≡ reader b []
unfolding reset feed
reset-reader b s = reset-feed s (reset (kmp_matcher b true))

is_new-false : (p : Mpfd) (n : ℕ) → is_new p n ≡ false → (p.cbm ≡ some n) × (p.match_ended ≡ false)
is_new-false p n e = (is_current-true p.cbm n (ground (arith, e)), ground (arith, e))

-- The buffer a new search starts with.
abbrev mirrored : Bool → ℕ → Abuf → Abuf
mirrored dat n a = if dat then mirror n a else a

rest-mirrored : (dat : Bool) (n : ℕ) (a : Abuf) → rest (mirrored dat n a) ≡ rest a
unfolding mirror rest
rest-mirrored true n a = refl
rest-mirrored false n a = refl

IsStream-mirrored : (dat : Bool) (n : ℕ) (a : Abuf) → IsStream a → IsStream (mirrored dat n a)
unfolding mirror
IsStream-mirrored true n a h = record {
  no_lim = h.no_lim;
  source = h.source;
  state = h.state;
  pushed_back = h.pushed_back;
  last_eof = h.last_eof;
}
IsStream-mirrored false n a h = h

module _ (fuel : ℕ) (dat : Bool) (b acc : Bytes) (pos : 0 < length b) (ks : List KmpMatcher)
    (p : Mpfd) where
  abbrev parser : Mpfd
  parser = record p { boundaries = reader b acc ∷ ks }

  match_boundary-new :
      is_new p (length ks) ≡ true
      → IsStream p.abuf
      → length (rest p.abuf) < fuel
      → Searched dat b [] ks p (match_boundary fuel dat parser)
  unfolding match_boundary
  match_boundary-new e h lt =
      let a = mirrored dat p.scratch_len p.abuf in
      let same : rest a ≡ rest p.abuf = rest-mirrored dat p.scratch_len p.abuf in
      let size : length (rest a) ≡ length (rest p.abuf) = ap (λ (s : Bytes). length s) same in
      let q = record p { match_ended = false; cbm = some (length ks) } in
      let found =
        match_loop-Finds b pos fuel [] a (IsStream-mirrored dat p.scratch_len p.abuf h)
          (omega (arith, size, lt)) in
      rw (e, reset-reader b acc)
        (Searched-over dat b [] ks p (reader b acc ∷ ks) (some (length ks)) false _ (
          Finds-Searched dat b [] ks (record q { boundaries = reader b acc ∷ ks }) a _ refl refl
            same found))

  match_boundary-resumed :
      is_new p (length ks) ≡ false
      → IsStream p.abuf
      → length (rest p.abuf) < fuel
      → Searched dat b acc ks p (match_boundary fuel dat parser)
  unfolding match_boundary
  match_boundary-resumed e h lt =
      let found = match_loop-Finds b pos fuel acc p.abuf h lt in
      let current = is_new-false p (length ks) e in
      rw e (
        Searched-over dat b acc ks p (reader b acc ∷ ks) p.cbm p.match_ended _
          (Finds-Searched dat b acc ks parser p.abuf _ current.1 current.0 refl found))

  -- A call of `match_boundary` by a parser whose last boundary is `b`, with a matcher that has read
  -- the bytes `acc`, on a buffer whose source keeps to its protocol, with more fuel than bytes are
  -- left: the search goes on behind `acc`, or starts from nothing if another boundary was the current
  -- one or the last search has ended. The call ends behind the first byte where the bytes read end in
  -- `b` up to the case of letters, else at a wait or at the end of the source, and leaves the matcher as one that has read all
  -- of them. Its status is ABUF_OK, ABUF_WAIT or ABUF_EOF accordingly (ABUF_OK only if the mirror
  -- holds as many bytes as `b`, where the text in front is asked for). The search is over unless the
  -- call waits.
  pub match_boundary-Searched :
      IsStream p.abuf
      → length (rest p.abuf) < fuel
      → Searched dat b
          (if is_new p (length ks) then [] else acc)
          ks
          p
          (match_boundary fuel dat parser)
  match_boundary-Searched h lt = elim (Bool-cases (is_new p (length ks))) [
    | inl e ↦ rw e (match_boundary-new e h lt)
    | inr e ↦ rw e (match_boundary-resumed e h lt)
  ]
