-- ===== src/Abuf/Drain.antt =====
-- A client that reads byte by byte, and goes on after each wait, gets every byte once and in order.
use okws.Prelude.{
  ℕ, zero, suc, ◌+◌, ◌*◌, ◌<◌, ◌≤◌, ◌≡◌, inl, inr, refl, ap, arith, Bool, true, false, Bytes, List,
  [], ◌∷◌, length, All, Option, none, some, if◌then◌else◌,
}
use okws.Abuf.Stream.{IsChunk, chunks, rest, IsStream, GotChar, GotWait}
use okws.Abuf.Gets.{get-Gets}
use okws.Abuf.{
  AbufStat, abuf_ok, chr, eofchar, waitchar, AbufIndata, Abuf, abuf_t, is_ok, get, unget, can_read,
}

pub can_read-IsStream : (a : Abuf) → IsStream a → IsStream (can_read a)
unfolding can_read
can_read-IsStream a h = record {
  no_lim = h.no_lim;
  source = h.source;
  state = tt;
  pushed_back = h.pushed_back;
  last_eof = h.last_eof;
}

pub rest-can_read : (a : Abuf) → rest (can_read a) ≡ rest a
unfolding rest can_read
rest-can_read a = refl

-- Pushing back the byte just read restores it.
pub unget_char :
    {a a' : Abuf} {c : ℕ} → GotChar a c a' → (rest (unget a') ≡ rest a) × IsStream (unget a')
unfolding rest unget
unget_char {a} {a'} {c} g =
    let s = g.stream in
    (
      ground (arith, g.taken, g.last, g.free),
      rw (g.last, unget)
          (record {
            no_lim = s.no_lim;
            source = s.source;
            state = s.state;
            pushed_back = λ _ e. cc e;
            last_eof = λ e. cc e;
          }),
    )

abbrev cons? : ℕ → Option Bytes → Option Bytes
cons? c none = none
cons? c (some s) = some (c ∷ s)

is_ok-abuf_ok : (e : AbufStat) → is_ok e ≡ true → e ≡ abuf_ok
is_ok-abuf_ok e h = ground arith

-- `none` if the fuel runs out.
unfoldable pub read_all : ℕ → Abuf → Option Bytes
read_all zero a = none
read_all (suc fuel) a =
    let (ch, a') = get a in
    elim ch [
      | chr c ↦ cons? c (read_all fuel a')
      | eofchar ↦ some []
      | waitchar ↦ read_all fuel (can_read a')
    ]

-- Each byte and each chunk takes at most two rounds.
abbrev pub rounds : Abuf → ℕ
rounds a = 2 * length (rest a) + 2 * length a.src + (if is_ok a.erc then 0 else 1)

if-le-one : (b : Bool) → (if b then 0 else 1) ≤ 1
if-le-one b = ground arith

pub rounds-char : {a a' : Abuf} {c : ℕ} → GotChar a c a' → rounds a' < rounds a
rounds-char {a} {a'} g =
    omega (arith, ap (λ (s : Bytes). length s) g.taken, g.sources, if-le-one (is_ok a'.erc))

wait-sources :
    {a a' : Abuf}
    → GotWait a a'
    → (b : Bool) → is_ok a.erc ≡ b
    → 2 * length a'.src < 2 * length a.src + (if b then 0 else 1)
wait-sources {a} {a'} g true e = omega (arith, g.fewer (is_ok-abuf_ok a.erc e))
wait-sources {a} {a'} g false e = omega (arith, g.sources)

pub rounds-wait : {a a' : Abuf} → GotWait a a' → rounds (can_read a') < rounds a
unfolding can_read
rounds-wait {a} {a'} g = omega (
  arith,
  ap (λ (s : Bytes). length s) g.same,
  ap (λ (s : Bytes). length s) (rest-can_read a'),
  wait-sources g (is_ok a.erc) refl,
)

-- Reading on after every wait returns the bytes still to come, whole and in order, with enough fuel.
pub read_all-rest :
    (fuel : ℕ) (a : Abuf) → IsStream a → rounds a < fuel → read_all fuel a ≡ some (rest a)
unfolding read_all
read_all-rest zero a h lt = absurd (omega arith)
read_all-rest (suc fuel) a h lt = elim (get-Gets a h) [
  | inl (c, a', g) ↦
      let less = rounds-char g in
      ground (arith, g.result, read_all-rest fuel a' g.stream (omega arith), g.taken)
  | inr (inl (a', g)) ↦ ground (arith, g.result, g.ended)
  | inr (inr (a', g)) ↦
      let less = rounds-wait g in
      let ih = read_all-rest fuel (can_read a') (can_read-IsStream a' g.stream) (omega arith) in
      ground (arith, g.result, ih, rest-can_read a', g.same)
]

pub IsStream-abuf_t : (src : List AbufIndata) → All IsChunk src → IsStream (abuf_t src)
IsStream-abuf_t src h = record {
  no_lim = refl;
  source = h;
  state = tt;
  pushed_back = λ e. cc e;
  last_eof = λ e. cc e;
}

-- However a source cuts its bytes into chunks that are not empty, and wherever it makes the reader
-- wait between them, the reader gets the bytes of the chunks, one behind the other, with more fuel
-- than twice the bytes and the results of the source.
pub read_all-abuf_t :
    (src : List AbufIndata) (fuel : ℕ)
    → All IsChunk src
    → 2 * length (chunks src) + 2 * length src < fuel
    → read_all fuel (abuf_t src) ≡ some (chunks src)
unfolding rest
read_all-abuf_t src fuel h lt =
    read_all-rest fuel (abuf_t src) (IsStream-abuf_t src h) (omega arith)
