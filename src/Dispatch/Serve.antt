-- ===== src/Dispatch/Serve.antt =====
-- The loop of `chld_ready` over the queue.
use okws.Prelude.{
  ℕ, ◌+◌, ◌-◌, ◌≤◌, ◌≡◌, ◌≢◌, ◌⊎◌, inl, inr, refl, sym, ap, ◌∙◌, arith, true, false, List, [], ◌∷◌,
  ◌++◌, length, ltb, some, All, Bool-cases,
}
use okws.Dispatch.{reject, proc_unavail, answer, Cell, QueueEl, Mtdispatch, Config, serve}
use okws.Dispatch.Ready.{
  in_cells, in_queue, in_answers, held, IsIdle, AreIdle, Sends, send_svccb-Sends,
}

-- The idle workers are idle, and if there are any, no request waits.
pub record IsSound (d : Mtdispatch) : Type 0 where
  pub idle : AreIdle d.arr d.readyq
  pub waits : (d.queue ≡ []) ⊎ (d.readyq ≡ [])

-- The loop ends in a sound state, with every request of the queue in a worker's hands, answered or
-- still in the queue.
pub record Served (cfg : Config) (now : ℕ) (q : List QueueEl) (d : Mtdispatch) : Type 0 where
  pub next : Mtdispatch
  pub result : serve cfg now q d ≡ some next
  pub sound : IsSound next
  pub shorter : length next.queue ≤ length q
  pub fewer : (d.readyq ≡ []) ⊎ (length next.queue ≤ length q - 1)
  pub size : length next.arr ≡ length d.arr
  pub maxq : next.maxq ≡ d.maxq
  pub mode : (next.sdflag ≡ d.sdflag) × (next.exited ≡ d.exited)
  pub all : (x : ℕ) → held x next ≡ in_cells x d.arr + in_queue x q + in_answers x d.answers
  pub grows : (x : ℕ) → in_answers x d.answers ≤ in_answers x next.answers

-- A request that has waited too long.
abbrev timed_out : QueueEl → Mtdispatch → Mtdispatch
timed_out el d =
    answer el.sbp (reject proc_unavail)
      (record d { stats = record d.stats { to = d.stats.to + 1 } })

Served-late :
    (cfg : Config) (now : ℕ) (el : QueueEl) (q : List QueueEl) (i : ℕ) (is : List ℕ)
    (d : Mtdispatch)
    → d.readyq ≡ i ∷ is
    → ltb cfg.q_timeout (now - el.timein) ≡ true
    → Served cfg now q (timed_out el d)
    → Served cfg now (el ∷ q) d
unfolding serve in_queue in_answers
Served-late cfg now el q i is d e late ih = record {
  next = ih.next;
  result = ground (arith, e, late, ih.result);
  sound = ih.sound;
  shorter = omega (arith, ih.shorter);
  fewer = inr (omega (arith, ih.shorter));
  size = ih.size;
  maxq = ih.maxq;
  mode = ih.mode;
  all = λ x. ih.all x ∙ omega arith;
  grows = λ x. let more = ih.grows x in omega (arith, more);
}

Served-sent :
    (cfg : Config) (now : ℕ) (el : QueueEl) (q : List QueueEl) (i : ℕ) (is : List ℕ)
    (d : Mtdispatch)
    → d.readyq ≡ i ∷ is
    → ltb cfg.q_timeout (now - el.timein) ≡ false
    → (s : Sends el.sbp (i ∷ is) d) → Served cfg now q s.next
    → Served cfg now (el ∷ q) d
unfolding serve in_queue
Served-sent cfg now el q i is d e soon s ih = record {
  next = ih.next;
  result = rw (e, soon, s.result) ih.result;
  sound = ih.sound;
  shorter = omega (arith, ih.shorter);
  fewer = inr (omega (arith, ih.shorter));
  size = ih.size ∙ s.size;
  maxq = ih.maxq ∙ s.others.2;
  mode = (ih.mode.0 ∙ s.mode.0, ih.mode.1 ∙ s.mode.1);
  all = λ x.
      let moved = s.moved x in
      let same : in_answers x s.next.answers ≡ in_answers x d.answers =
        ap (in_answers x) s.others.1 in
      ih.all x ∙ omega (arith, moved, same);
  grows = λ x.
      let more = ih.grows x in
      let same : in_answers x s.next.answers ≡ in_answers x d.answers =
        ap (in_answers x) s.others.1 in
      omega (arith, more, same);
}

serve-Served :
    (cfg : Config) (now : ℕ) (q : List QueueEl) (rs : List ℕ) (d : Mtdispatch)
    → AreIdle d.arr d.readyq
    → d.readyq ≡ rs
    → Served cfg now q d
unfolding serve held
serve-Served cfg now [] rs d h e = record {
  next = record d { queue = [] };
  result = refl;
  sound = record { idle = h; waits = inl refl };
  shorter = omega arith;
  fewer = inr (omega arith);
  size = refl;
  maxq = refl;
  mode = (refl, refl);
  all = λ x. refl;
  grows = λ x. omega arith;
}
serve-Served cfg now (el ∷ q) [] d h e = record {
  next = record d { queue = el ∷ q };
  result = ground (arith, e);
  sound = record { idle = h; waits = inr e };
  shorter = omega arith;
  fewer = inl e;
  size = refl;
  maxq = refl;
  mode = (refl, refl);
  all = λ x. refl;
  grows = λ x. omega arith;
}
serve-Served cfg now (el ∷ q) (i ∷ is) d h e =
    elim (Bool-cases (ltb cfg.q_timeout (now - el.timein))) [
      | inl late ↦
          Served-late cfg now el q i is d e late
            (serve-Served cfg now q (i ∷ is) (timed_out el d) h e)
      | inr soon ↦
          let s = send_svccb-Sends el.sbp i is d (rw e at h) in
          Served-sent cfg now el q i is d e soon s
            (serve-Served cfg now q s.next.readyq s.next s.idle refl)
    ]

AreIdle-append :
    (is : List ℕ) (arr : List Cell) (i : ℕ)
    → AreIdle arr is
    → IsIdle arr i
    → All (λ j. j ≢ i) is
    → AreIdle arr (is ++ (i ∷ []))
unfolding AreIdle
AreIdle-append [] arr i h idle f = (idle, tt, tt)
AreIdle-append (j ∷ is) arr i (idle', fresh, h) idle (ne, f) =
    (idle', Fresh-append is i j fresh ne, AreIdle-append is arr i h idle f)
  where
    Fresh-append :
        (is : List ℕ) (i j : ℕ) → All (λ k. k ≢ j) is → j ≢ i → All (λ k. k ≢ j) (is ++ (i ∷ []))
    Fresh-append [] i j f ne = (λ e. ne (sym e), tt)
    Fresh-append (k ∷ is) i j (ne', f) ne = (ne', Fresh-append is i j f ne)

-- A worker that has become idle serves the queue.
pub chld_ready-Served :
    (cfg : Config) (now i : ℕ) (d : Mtdispatch)
    → AreIdle d.arr d.readyq
    → IsIdle d.arr i
    → All (λ j. j ≢ i) d.readyq
    → Served cfg now d.queue (record d { readyq = d.readyq ++ (i ∷ []) })
chld_ready-Served cfg now i d h idle fresh =
    serve-Served cfg now d.queue (d.readyq ++ (i ∷ [])) _
      (AreIdle-append d.readyq d.arr i h idle fresh) refl
