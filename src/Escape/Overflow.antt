-- ===== src/Escape/Overflow.antt =====
-- The texts at which `xss_escape` stores one byte behind its buffer, and those that it cuts short.
use okws.Prelude.{
  ℕ, zero, suc, ◌+◌, ◌*◌, ◌≤◌, ◌<◌, ◌≡◌, ◌≢◌, refl, ap, ◌∙◌, arith, true, Bytes, [], ◌∷◌, ◌++◌,
  length, length-append, replicate, length-replicate, ltb,
}
use okws.Escape.Xss.{escape_all, xss_escape_bounds}
use okws.Escape.{Written, XssBuf, xss_char, is_xss, xss_loop, xss_alloc, xss_escape, maxseqlen}

-- The loop over `k` ampersands and a double quote.
loop-reach :
    (k outlen : ℕ) (w : Written) (buflen : ℕ)
    → outlen + maxseqlen * k + 6 ≡ buflen
    → w.reach ≤ outlen + 1
    → (xss_loop buflen outlen w (replicate k b'&' ++ b'"' ∷ [])).reach ≡ buflen + 1
unfolding xss_loop xss_char is_xss
loop-reach zero outlen w buflen e r = ground arith
loop-reach (suc k) outlen w buflen e r =
    let go : ltb (maxseqlen + outlen) buflen ≡ true = ground arith in
    rw go (loop-reach k (outlen + 5) _ buflen (omega arith) (ground arith))

xss_alloc_kept : (b : XssBuf) (n : ℕ) → b.allocated ≡ true → n ≤ b.buflen → xss_alloc b n ≡ b
unfolding xss_alloc
xss_alloc_kept b n there le = ground arith

-- With an allocated buffer of `5k + 6` bytes, `k` ampersands and a double quote need no larger one,
-- and the zero that `sprintf` stores lands on the first byte behind the buffer.
xss_escape_overflows :
    (b : XssBuf) (k : ℕ)
    → b.allocated ≡ true
    → maxseqlen * k + 6 ≡ b.buflen
    → ((xss_escape b (replicate k b'&' ++ b'"' ∷ [])).1.buflen ≡ b.buflen)
      × ((xss_escape b (replicate k b'&' ++ b'"' ∷ [])).0.reach ≡ b.buflen + 1)
unfolding xss_escape
xss_escape_overflows b k there e =
    let s : Bytes = replicate k b'&' ++ b'"' ∷ [] in
    let len : length s ≡ k + 1 =
      length-append (replicate k b'&') (b'"' ∷ [])
      ∙ ap (λ n. n + 1) (length-replicate {A = ℕ} k b'&') in
    let kept : xss_alloc b (maxseqlen * length s) ≡ b =
      xss_alloc_kept b (maxseqlen * length s) there (omega arith) in
    rw kept
      (refl, loop-reach k 0 (record { out = []; reach = 0 }) b.buflen (omega arith) (omega arith))

-- A text whose escaped form is longer than the buffer is cut, with no sign of it in the result.
xss_escape_truncates :
    (b : XssBuf) (s : Bytes)
    → (xss_escape b s).1.buflen < length (escape_all s)
    → (xss_escape b s).0.out ≢ escape_all s
xss_escape_truncates b s h e =
    absurd (omega (arith, xss_escape_bounds b s, ap (λ (x : Bytes). length x) e))
