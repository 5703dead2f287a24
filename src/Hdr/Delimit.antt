-- ===== src/Hdr/Delimit.antt =====
-- `delimit_val` and `delimit_key`, called again after every wait.
use okws.Prelude.{
  ℕ, zero, suc, ◌+◌, ◌<◌, ◌≡◌, inl, inr, refl, ap, ◌∙◌, arith, Bool, true, false, ◌||◌, ◌==◌, Bytes,
  [], ◌∷◌, ◌++◌, length, map, All, if◌then◌else◌, Option, none, some,
}
use okws.Abuf.{AbufStat, abuf_ok, is_wait, Got, chr, can_read}
use okws.Abuf.Stream.{rest, IsStream}
use okws.Abuf.Drain.{rounds, can_read-IsStream, rest-can_read}
use okws.Kmp.{tolower}
use okws.Hdr.{
  Hdr, Turn, keep, scan, taken, is_eol, is_blank, val_turn, key_turn, delimit_val, delimit_key,
}
use okws.Hdr.Resume.{IsBefore, Stops, Waits, scan-cases}

abbrev can_go_on : Hdr → Hdr
can_go_on h = record h { abuf = can_read h.abuf }

-- A method called until it does not wait; each time it waits, data become available. `none` if the
-- fuel runs out.
unfoldable pub resume :
    ℕ → (Hdr → AbufStat × Option Bytes × Hdr) → Hdr → Option (AbufStat × Option Bytes × Hdr)
resume zero method h = none
resume (suc fuel) method h =
    let (r, v, h') = method h in
    let again = resume fuel method (can_go_on h') in if is_wait r then again else some (r, v, h')

-- The word is read whole, the scratch area is empty again, and the buffer stands where it should.
pub record Reads (method : Hdr → AbufStat × Option Bytes × Hdr) (fuel : ℕ) (h : Hdr)
    (s behind : Bytes) : Type 0 where
  pub next : Hdr
  pub result : resume fuel method h ≡ some (abuf_ok, some s, next)
  pub stream : IsStream next.abuf
  pub still : rest next.abuf ≡ behind
  pub empty : next.word ≡ []

module _ (turn : Got → Turn) (f : ℕ → ℕ) (back : Bool) (c : ℕ) (r : Bytes) where
  abbrev method : Hdr → AbufStat × Option Bytes × Hdr
  method h = taken (scan turn h.room h)

  IsBefore-can_go_on :
      (h : Hdr) (w : Bytes)
      → IsBefore turn f back c r h w
      → IsBefore turn f back c r (can_go_on h) w
  IsBefore-can_go_on h w b = record {
    stream = can_read-IsStream h.abuf b.stream;
    still = rest-can_read h.abuf ∙ b.still;
    scans = b.scans;
    fits = b.fits;
  }

  resume-stop :
      (fuel : ℕ) (h : Hdr) (w : Bytes)
      → Stops turn f back c r h w
      → Reads method (suc fuel) h (h.word ++ map f w) (if back then c ∷ r else r)
  unfolding resume
  resume-stop fuel h w s = record {
    next = record s.next { word = []; room = length s.next.word + s.next.room };
    result = rw s.result (
        ap
          (λ x.
            some (
              abuf_ok,
              some x,
              record s.next { word = []; room = length s.next.word + s.next.room },
            ))
          s.text);
    stream = s.stream;
    still = s.behind;
    empty = refl;
  }

  resume-wait :
      (fuel : ℕ) (h : Hdr) (w : Bytes)
      → (s : Waits turn f back c r h w)
      → Reads method fuel
          (can_go_on s.next)
          (s.next.word ++ map f s.more)
          (if back then c ∷ r else r)
      → Reads method (suc fuel) h (h.word ++ map f w) (if back then c ∷ r else r)
  unfolding resume
  resume-wait fuel h w s ih = record {
    next = ih.next;
    result = rw s.result (ih.result ∙ ap (λ x. some (abuf_ok, some x, ih.next)) s.text);
    stream = ih.stream;
    still = ih.still;
    empty = ih.empty;
  }

  resume-Reads :
      (fuel : ℕ) (h : Hdr) (w : Bytes)
      → IsBefore turn f back c r h w
      → rounds h.abuf < fuel
      → Reads method fuel h (h.word ++ map f w) (if back then c ∷ r else r)
  resume-Reads zero h w b lt = absurd (omega arith)
  resume-Reads (suc fuel) h w b lt = elim (scan-cases turn f back c r w h.room h refl b) [
    | inl s ↦ resume-stop fuel h w s
    | inr s ↦ resume-wait fuel h w s (
        resume-Reads fuel (can_go_on s.next) s.more (IsBefore-can_go_on s.next s.more s.before)
          (omega (arith, s.less, lt)))
  ]

val-keeps : (w : Bytes) → All (λ b. is_eol b ≡ false) w → All (λ b. val_turn (chr b) ≡ keep b) w
unfolding val_turn
val-keeps [] h = tt
val-keeps (b ∷ w) (plain, h) = (rw plain refl, val-keeps w h)

map_self : (w : Bytes) → map (λ b. b) w ≡ w
map_self [] = refl
map_self (b ∷ w) = ap (◌∷◌ b) (map_self w)

-- However the bytes are cut and whenever they come: a value that ends at a line end, and for which
-- the scratch area has room, is read whole by `delimit_val`, which is called again after every
-- wait, and the line end is the next byte of the buffer.
delimit_val_resumed :
    (fuel : ℕ) (h : Hdr) (w : Bytes) (c : ℕ) (r : Bytes)
    → IsStream h.abuf
    → rest h.abuf ≡ w ++ c ∷ r
    → All (λ b. is_eol b ≡ false) w
    → is_eol c ≡ true
    → length w < h.room
    → rounds h.abuf < fuel
    → Reads delimit_val fuel h (h.word ++ w) (c ∷ r)
unfolding delimit_val val_turn
delimit_val_resumed fuel h w c r stream still plain end fits lt =
    let before : IsBefore val_turn (λ b. b) true c r h w = record {
      stream = stream;
      still = still;
      scans = record { waits = refl; keeps = val-keeps w plain; ends = rw end refl };
      fits = fits;
    } in
    rw (map_self w) at (resume-Reads val_turn (λ b. b) true c r fuel h w before lt)

-- What ends a key.
abbrev pub is_key_end : ℕ → Bool
is_key_end b = b == b':' || (is_blank b || is_eol b)

key-keeps :
    (w : Bytes)
    → All (λ b. is_key_end b ≡ false) w
    → All (λ b. key_turn (chr b) ≡ keep (tolower b)) w
unfolding key_turn
key-keeps [] h = tt
key-keeps (b ∷ w) (plain, h) = (ground (arith, plain), key-keeps w h)

-- However the bytes are cut and whenever they come: a key that ends at a colon, and for which the
-- scratch area has room, is read whole and in lower case by `delimit_key`, which is called again
-- after every wait, and the
-- colon is taken off the buffer.
pub delimit_key_resumed :
    (fuel : ℕ) (h : Hdr) (w r : Bytes)
    → IsStream h.abuf
    → rest h.abuf ≡ w ++ b':' ∷ r
    → All (λ b. is_key_end b ≡ false) w
    → length w < h.room
    → rounds h.abuf < fuel
    → Reads delimit_key fuel h (h.word ++ map tolower w) r
unfolding delimit_key key_turn
delimit_key_resumed fuel h w r stream still plain fits lt =
    resume-Reads key_turn tolower false b':' r fuel h w
      (record {
        stream = stream;
        still = still;
        scans = record { waits = refl; keeps = key-keeps w plain; ends = refl };
        fits = fits;
      })
      lt
