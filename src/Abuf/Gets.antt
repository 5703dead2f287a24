-- ===== src/Abuf/Gets.antt =====
-- What `get` does to the bytes still to come, in every state of the buffer.
use okws.Prelude.{ℕ, ◌≡◌, inl, inr, refl, arith, Bool, true, false, Bytes, List, [], ◌∷◌, All}
use okws.Abuf.{
  AbufStat, abuf_ok, abuf_wait, abuf_eof, Got, chr, eofchar, waitchar, AbufIndata, Abuf, moredata,
  got_char, got_control, get,
}
use okws.Abuf.Stream.{IsChunk, rest, IsState, IsStream, Gets}

IsState-tail :
    (e : AbufStat) (c : ℕ) (cs : Bytes) (src : List AbufIndata)
    → IsState e (c ∷ cs) src
    → IsState e cs src
IsState-tail abuf_ok c cs src h = tt
IsState-tail abuf_wait c cs src h = cc h
IsState-tail abuf_eof c cs src h = cc (h.0)
IsState-tail _ c cs src h = absurd h

get_pushed : (l : Got) (a : Abuf) → IsStream a → a.bc ≡ true → a.lch ≡ l → Gets a
unfolding get rest
get_pushed (chr c) a h p e = inl (
  c,
  record a { bc = false },
  record {
    result = ground arith;
    taken = ground arith;
    stream = record {
      no_lim = h.no_lim;
      source = h.source;
      state = h.state;
      pushed_back = λ q. cc q;
      last_eof = h.last_eof;
    };
    last = e;
    sources = omega arith;
    free = refl;
  },
)
get_pushed eofchar a h p e = inr (
    inl (
      record a { bc = false },
      record {
        result = ground arith;
        ended = ground (arith, h.last_eof e);
        still = ground (arith, h.last_eof e);
        stream = record {
          no_lim = h.no_lim;
          source = h.source;
          state = h.state;
          pushed_back = λ q. cc q;
          last_eof = h.last_eof;
        };
      },
    ))
get_pushed waitchar a h p e = absurd (h.pushed_back p e)

get_current : (a : Abuf) (c : ℕ) (cs : Bytes) → IsStream a → a.bc ≡ false → a.cur ≡ c ∷ cs → Gets a
unfolding get rest
get_current a c cs h p e = inl (
  c,
  (got_char a c cs).1,
  record {
    result = ground (arith, h.no_lim);
    taken = ground arith;
    stream = record {
      no_lim = h.no_lim;
      source = h.source;
      state = IsState-tail a.erc c cs a.src (rw e at h.state);
      pushed_back = λ q. cc q;
      last_eof = λ q. cc q;
    };
    last = refl;
    sources = omega arith;
    free = p;
  },
)

-- The state before a call that finds neither a pushed byte nor a current one.
record IsDry (a : Abuf) : Type 0 where
  stream : IsStream a
  free : a.bc ≡ false
  dry : a.cur ≡ []

get_waiting : (a : Abuf) → IsDry a → a.erc ≡ abuf_wait → Gets a
unfolding get rest
get_waiting a h w = inr (
    inr (
      (got_control a).1,
      record {
        result = ground (arith, h.stream.no_lim, h.free, h.dry);
        same = ground (arith, h.free, h.dry);
        stream = record {
          no_lim = h.stream.no_lim;
          source = h.stream.source;
          state = h.stream.state;
          pushed_back = λ q. cc (q, h.free);
          last_eof = λ q. ground arith;
        };
        sources = omega arith;
        fewer = λ q. cc (q, w);
      },
    ))

get_ended : (a : Abuf) → IsDry a → a.erc ≡ abuf_eof → Gets a
unfolding get rest
get_ended a h w =
    let (no_cur, no_src) : (a.cur ≡ []) × (a.src ≡ []) = rw w at h.stream.state in
    inr (
      inl (
        (got_control a).1,
        record {
          result = ground (arith, h.stream.no_lim, h.free, h.dry);
          ended = ground (arith, h.free);
          still = ground (arith, h.free);
          stream = record {
            no_lim = h.stream.no_lim;
            source = h.stream.source;
            state = h.stream.state;
            pushed_back = λ q. cc (q, h.free);
            last_eof = λ q. (no_cur, no_src);
          };
        },
      ))

-- The source has ended.
get_last : (a : Abuf) → IsDry a → a.erc ≡ abuf_ok → a.src ≡ [] → Gets a
unfolding get rest
get_last a h w s = inr (
    inl (
      (got_control (moredata a)).1,
      record {
        result = ground (arith, h.stream.no_lim, h.free, h.dry);
        ended = ground (arith, h.free, h.dry);
        still = ground (arith, h.free, h.dry);
        stream = record {
          no_lim = h.stream.no_lim;
          source = rw s tt;
          state = rw s (refl, refl);
          pushed_back = λ q. cc (q, h.free);
          last_eof = λ q. ground arith;
        };
      },
    ))

-- The source has the chunk `d`.
module _ (a : Abuf) (h : IsDry a) (w : a.erc ≡ abuf_ok) (d : AbufIndata) (ds : List AbufIndata)
    (s : a.src ≡ d ∷ ds) where
  IsChunk-sane : IsChunk d × All IsChunk ds
  IsChunk-sane = rw s at h.stream.source

  get_chunk : (c : ℕ) (cs : Bytes) → d.erc ≡ abuf_ok → d.bytes ≡ c ∷ cs → Gets a
  unfolding get rest
  get_chunk c cs ok e = inl (
    c,
    (got_char (moredata a) c cs).1,
    record {
      result = ground (arith, h.stream.no_lim, h.free, h.dry);
      taken = ground (arith, h.free, h.dry);
      stream = record {
        no_lim = h.stream.no_lim;
        source = rw s IsChunk-sane.1;
        state = rw (s, ok) tt;
        pushed_back = λ q. cc (q, h.free);
        last_eof = λ q. cc q;
      };
      last = refl;
      sources = ground arith;
      free = h.free;
    },
  )

  get_pause : d.erc ≡ abuf_wait → d.bytes ≡ [] → Gets a
  unfolding get rest
  get_pause pause e = inr (
      inr (
        (got_control (moredata a)).1,
        record {
          result = ground (arith, h.stream.no_lim, h.free, h.dry);
          same = ground (arith, h.free, h.dry);
          stream = record {
            no_lim = h.stream.no_lim;
            source = rw s IsChunk-sane.1;
            state = rw (s, pause) e;
            pushed_back = λ q. cc (q, h.free);
            last_eof = λ q. ground arith;
          };
          sources = ground arith;
          fewer = λ q. ground arith;
        },
      ))

  get_data : (b : Bytes) → d.bytes ≡ b → Gets a
  get_data [] e = elim IsChunk-sane.0 [
    | inl (ok, ne) ↦ absurd (ne e)
    | inr (pause, _) ↦ get_pause pause e
  ]
  get_data (c ∷ cs) e = elim IsChunk-sane.0 [
    | inl (ok, _) ↦ get_chunk c cs ok e
    | inr (_, none') ↦ cc (none', e)
  ]

get_refilled : (src : List AbufIndata) (a : Abuf) → IsDry a → a.erc ≡ abuf_ok → a.src ≡ src → Gets a
get_refilled [] a h w s = get_last a h w s
get_refilled (d ∷ ds) a h w s = get_data a h w d ds s d.bytes refl

get_dry : (e : AbufStat) (a : Abuf) → IsDry a → a.erc ≡ e → Gets a
get_dry abuf_ok a h w = get_refilled a.src a h w refl
get_dry abuf_wait a h w = get_waiting a h w
get_dry abuf_eof a h w = get_ended a h w
get_dry _ a h w = absurd (rw w at h.stream.state)

get_free : (cur : Bytes) (a : Abuf) → IsStream a → a.bc ≡ false → a.cur ≡ cur → Gets a
get_free [] a h p e = get_dry a.erc a (record { stream = h; free = p; dry = e }) refl
get_free (c ∷ cs) a h p e = get_current a c cs h p e

get_cases : (b : Bool) (a : Abuf) → IsStream a → a.bc ≡ b → Gets a
get_cases true a h p = get_pushed a.lch a h p refl
get_cases false a h p = get_free a.cur a h p refl

-- Whatever the state of a buffer without a limit, `get` returns the first byte still to come and
-- leaves the others, or the end of the file where none is left, or asks to wait and loses nothing.
pub get-Gets : (a : Abuf) → IsStream a → Gets a
get-Gets a h = get_cases a.bc a h refl
