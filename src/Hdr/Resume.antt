-- ===== src/Hdr/Resume.antt =====
-- The shared loop on a stream: it stops at its end character, or keeps what it has read until more
-- bytes come.
use okws.Prelude.{
  ℕ, zero, suc, ◌<◌, ◌≡◌, ◌⊎◌, inl, inr, refl, sym, ap, ◌∙◌, arith, Bool, true, false, Bytes, [],
  ◌∷◌, ◌++◌, length, map, All, if◌then◌else◌, some,
}
use mathlib.Core.List.{append-nil, append_assoc}
use okws.Abuf.{abuf_ok, abuf_wait, Got, chr, waitchar, Abuf, get, unget, can_read}
use okws.Abuf.Stream.{rest, IsStream, GotChar, GotWait}
use okws.Abuf.Gets.{get-Gets}
use okws.Abuf.Drain.{rounds, rounds-char, rounds-wait, unget_char}
use okws.Hdr.{Hdr, Turn, keep, leave, leave_unget, scan}

-- A method that waits, keeps the bytes `w` as `f` writes them, and ends at `c`, which it pushes back
-- if `back` holds.
pub record Scans (turn : Got → Turn) (f : ℕ → ℕ) (back : Bool) (w : Bytes) (c : ℕ) : Type 0 where
  pub waits : turn waitchar ≡ leave abuf_wait
  pub keeps : All (λ b. turn (chr b) ≡ keep (f b)) w
  pub ends : turn (chr c) ≡ (if back then leave_unget abuf_ok else leave abuf_ok)

module _ (turn : Got → Turn) (f : ℕ → ℕ) (back : Bool) (c : ℕ) (r : Bytes) where
  -- The bytes `w` have still to come, and the scratch area has room for them.
  pub record IsBefore (h : Hdr) (w : Bytes) : Type 0 where
    pub stream : IsStream h.abuf
    pub still : rest h.abuf ≡ w ++ c ∷ r
    pub scans : Scans turn f back w c
    pub fits : length w < h.room

  pub record Stops (h : Hdr) (w : Bytes) : Type 0 where
    pub next : Hdr
    pub result : scan turn h.room h ≡ (abuf_ok, some (chr c), next)
    pub text : next.word ≡ h.word ++ map f w
    pub stream : IsStream next.abuf
    pub behind : rest next.abuf ≡ (if back then c ∷ r else r)

  pub record Waits (h : Hdr) (w : Bytes) : Type 0 where
    pub next : Hdr
    pub more : Bytes
    pub result : scan turn h.room h ≡ (abuf_wait, some waitchar, next)
    pub text : next.word ++ map f more ≡ h.word ++ map f w
    pub before : IsBefore next more
    pub less : rounds (can_read next.abuf) < rounds h.abuf

  at_end :
      (h : Hdr) (n : ℕ) (a : Abuf)
      → h.room ≡ suc n
      → IsBefore h []
      → GotChar h.abuf c a
      → (b : Bool) → back ≡ b
      → Stops h []
  unfolding scan
  at_end h n a e h' g true eb =
      let (restored, stream) = unget_char g in
      record {
        next = record h { abuf = unget a };
        result = ap (λ m. scan turn m h) e ∙ rw (g.result, h'.scans.ends, eb) refl;
        text = sym (append-nil h.word);
        stream = stream;
        behind = restored ∙ h'.still ∙ rw eb refl;
      }
  at_end h n a e h' g false eb = record {
    next = record h { abuf = a };
    result = ap (λ m. scan turn m h) e ∙ rw (g.result, h'.scans.ends, eb) refl;
    text = sym (append-nil h.word);
    stream = g.stream;
    behind = rw eb (cc (g.taken, h'.still));
  }

  on_wait :
      (h : Hdr) (w : Bytes) (n : ℕ) (a : Abuf)
      → h.room ≡ suc n
      → IsBefore h w
      → GotWait h.abuf a
      → Waits h w
  unfolding scan
  on_wait h w n a e h' g = record {
    next = record h { abuf = a };
    more = w;
    result = ap (λ m. scan turn m h) e ∙ rw (g.result, h'.scans.waits) refl;
    text = refl;
    before = record {
      stream = g.stream;
      still = g.same ∙ h'.still;
      scans = h'.scans;
      fits = h'.fits;
    };
    less = rounds-wait g;
  }

  -- The state behind a byte that is kept.
  abbrev kept : Hdr → ℕ → Abuf → ℕ → Hdr
  kept h n a b = record h { abuf = a; word = h.word ++ (f b ∷ []); room = n }

  kept-scan :
      (h : Hdr) (n : ℕ) (a : Abuf) (b : ℕ)
      → h.room ≡ suc n
      → get h.abuf ≡ (chr b, a)
      → turn (chr b) ≡ keep (f b)
      → scan turn h.room h ≡ scan turn n (kept h n a b)
  unfolding scan
  kept-scan h n a b e g k = ap (λ m. scan turn m h) e ∙ rw (g, k) refl

  kept-text : (x : Bytes) (b : ℕ) (w : Bytes) → (x ++ (f b ∷ [])) ++ map f w ≡ x ++ map f (b ∷ w)
  kept-text x b w = append_assoc x (f b ∷ []) (map f w)

  pub scan-cases : (w : Bytes) (n : ℕ) (h : Hdr) → h.room ≡ n → IsBefore h w → Stops h w ⊎ Waits h w
  scan-cases w zero h e h' = absurd (omega (arith, e, h'.fits))
  scan-cases [] (suc n) h e h' = elim (get-Gets h.abuf h'.stream) [
    | inl (b, a, g) ↦
        let same : b ≡ c = cc (g.taken, h'.still) in
        inl (at_end h n a e h' (rw same at g) back refl)
    | inr (inl (a, g)) ↦ cc (g.ended, h'.still)
    | inr (inr (a, g)) ↦ inr (on_wait h [] n a e h' g)
  ]
  scan-cases (b ∷ w) (suc n) h e h' = elim (get-Gets h.abuf h'.stream) [
    | inl (b', a, g) ↦
        let same : b' ≡ b = cc (g.taken, h'.still) in
        let left : rest a ≡ w ++ c ∷ r = cc (g.taken, h'.still) in
        let got : get h.abuf ≡ (chr b, a) = rw same at g.result in
        let go = kept-scan h n a b e got h'.scans.keeps.0 in
        let before : IsBefore (kept h n a b) w = record {
          stream = g.stream;
          still = left;
          scans = record { waits = h'.scans.waits; keeps = h'.scans.keeps.1; ends = h'.scans.ends };
          fits = omega (arith, e, h'.fits);
        } in
        elim (scan-cases w n (kept h n a b) refl before) [
          | inl s ↦ inl (record {
            next = s.next;
            result = go ∙ s.result;
            text = s.text ∙ kept-text h.word b w;
            stream = s.stream;
            behind = s.behind;
          })
          | inr s ↦ inr (record {
            next = s.next;
            more = s.more;
            result = go ∙ s.result;
            text = s.text ∙ kept-text h.word b w;
            before = s.before;
            less = omega (arith, s.less, rounds-char g);
          })
        ]
    | inr (inl (a, g)) ↦ cc (g.ended, h'.still)
    | inr (inr (a, g)) ↦ inr (on_wait h (b ∷ w) n a e h' g)
  ]
