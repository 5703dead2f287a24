-- ===== src/Dispatch/Reply.antt =====
-- `chld_reply` passes a worker's answer on, keeps the dispatcher sound and loses no request.
use okws.Prelude.{
  ℕ, ◌+◌, ◌-◌, ◌<◌, ◌≤◌, ◌≡◌, ◌≢◌, inl, inr, refl, ap, ◌∙◌, arith, List, [], ◌∷◌, ◌++◌, length,
  length-set, set, get_or-set_self, none, some, All,
}
use okws.Dispatch.{
  Rpc, Cell, new_cell, cell, QueueEl, Mtdispatch, Config, mtd_ready, chld_ready, pass_on, replied,
  chld_reply, count_out,
}
use okws.Dispatch.Ready.{
  one, in_cell, in_cells, in_cells-set, in_queue, in_answers, held, IsIdle, AreIdle-set,
}
use okws.Dispatch.Serve.{IsSound, Served, chld_ready-Served}

-- The answer of a worker was passed on.
pub record Replied (cfg : Config) (now i sbp : ℕ) (d : Mtdispatch) : Type 0 where
  pub next : Mtdispatch
  pub result : chld_reply cfg now i d ≡ some next
  pub sound : IsSound next
  pub fewer : length next.queue ≤ length d.queue - 1
  pub size : length next.arr ≡ length d.arr
  pub maxq : next.maxq ≡ d.maxq
  pub mode : (next.sdflag ≡ d.sdflag) × (next.exited ≡ d.exited)
  pub all : (x : ℕ) → held x next ≡ held x d
  pub answered : in_answers sbp d.answers < in_answers sbp next.answers

-- `pass_on` answers the request, and changes nothing but the lists of what was said.
pass_on-answers :
    (r : Rpc) (sbp : ℕ) (c : Cell) (d : Mtdispatch) (x : ℕ)
    → (in_answers x (pass_on r sbp c d).0.answers ≡ in_answers x d.answers + one x sbp)
      × ((pass_on r sbp c d).0.arr ≡ d.arr)
      × ((pass_on r sbp c d).0.queue ≡ d.queue)
      × ((pass_on r sbp c d).0.readyq ≡ d.readyq)
      × ((pass_on r sbp c d).0.maxq ≡ d.maxq)
      × ((pass_on r sbp c d).0.sdflag ≡ d.sdflag)
      × ((pass_on r sbp c d).0.exited ≡ d.exited)
unfolding pass_on in_answers
pass_on-answers r sbp c d x = ground arith

module _ (cfg : Config) (now i sbp : ℕ) (d : Mtdispatch) (h : IsSound d) (within : i < length d.arr)
    (mine : (cell d i).sbp ≡ some sbp) (fresh : All (λ j. j ≢ i) d.readyq) where
  -- What `pass_on` leaves, and the cell of the worker.
  abbrev said : Mtdispatch
  said = (pass_on (cell d i).rstat sbp (cell d i) d).0

  abbrev idle_cell : Cell
  idle_cell = record ((pass_on (cell d i).rstat sbp (cell d i) d).1) {
    sbp = none;
    status = mtd_ready;
  }

  IsIdle-idle_cell : IsIdle (set d.arr i idle_cell) i
  IsIdle-idle_cell =
      let self = get_or-set_self d.arr i idle_cell new_cell within in
      record {
        within = omega (arith, length-set d.arr i idle_cell);
        ready = ap (λ (c : Cell). c.status) self;
        free = ap (λ (c : Cell). c.sbp) self;
      }

  abbrev ready_again : Mtdispatch
  ready_again = record said { arr = set said.arr i idle_cell }

  reply-Served : Served cfg now said.queue (record ready_again { readyq = said.readyq ++ (i ∷ []) })
  reply-Served =
      let (_, arr, _, readyq, _, _, _) = pass_on-answers (cell d i).rstat sbp (cell d i) d 0 in
      chld_ready-Served cfg now i ready_again
        (rw (arr, readyq) (AreIdle-set d.readyq d.arr i idle_cell fresh h.idle))
        (rw arr IsIdle-idle_cell) (rw readyq fresh)

  reply-held : (x : ℕ) → held x reply-Served.next ≡ held x d
  unfolding held
  reply-held x =
      let (answers, arr, queue, _, _, _, _) = pass_on-answers (cell d i).rstat sbp (cell d i) d x in
      let all = reply-Served.all x in
      let sum = in_cells-set x d.arr i idle_cell within in
      let full : in_cell x (cell d i).sbp ≡ one x sbp = rw mine (unfold in_cell in refl) in
      let empty : in_cell x none ≡ 0 = unfold in_cell in refl in
      let cells : in_cells x (set said.arr i idle_cell) ≡ in_cells x (set d.arr i idle_cell) =
        ap (λ a. in_cells x (set a i idle_cell)) arr in
      let same : in_queue x said.queue ≡ in_queue x d.queue = ap (in_queue x) queue in
      omega (arith, all, sum, full, empty, cells, same, answers)

  not_nil : (is : List ℕ) → (is ++ (i ∷ [])) ≢ []
  not_nil [] e = ground arith
  not_nil (j ∷ is) e = ground arith

  reply-fewer : length reply-Served.next.queue ≤ length d.queue - 1
  reply-fewer =
      let (_, _, queue, _, _, _, _) = pass_on-answers (cell d i).rstat sbp (cell d i) d 0 in
      let same : length said.queue ≡ length d.queue = ap (λ (q : List QueueEl). length q) queue in
      elim reply-Served.fewer [
        | inl e ↦ absurd (not_nil said.readyq e)
        | inr h' ↦ omega (arith, h', same)
      ]

  abbrev counted : Mtdispatch
  counted =
      let e = reply-Served.next in record e { stats = record e.stats { out = e.stats.out + 1 } }

  Replied-held : ((x : ℕ) → held x counted ≡ held x d)
  unfolding held
  Replied-held = reply-held

  answered-grows : in_answers sbp d.answers < in_answers sbp reply-Served.next.answers
  answered-grows =
      let (answers, _, _, _, _, _, _) = pass_on-answers (cell d i).rstat sbp (cell d i) d sbp in
      let self : one sbp sbp ≡ 1 = unfold one in ground arith in
      let more = reply-Served.grows sbp in omega (arith, answers, self, more)

  pub chld_reply-Replied : Replied cfg now i sbp d
  unfolding chld_reply replied chld_ready
  chld_reply-Replied =
      let (_, arr, _, _, maxq, down, gone) = pass_on-answers (cell d i).rstat sbp (cell d i) d 0 in
      record {
        next = counted;
        result = ap (λ o. replied cfg now i o d) mine ∙ ap (λ o. count_out o) reply-Served.result;
        sound = record { idle = reply-Served.sound.idle; waits = reply-Served.sound.waits };
        fewer = reply-fewer;
        size =
            reply-Served.size
            ∙ ap (λ (a : List Cell). length (set a i idle_cell)) arr
            ∙ length-set d.arr i idle_cell;
        maxq = reply-Served.maxq ∙ maxq;
        mode = (reply-Served.mode.0 ∙ down, reply-Served.mode.1 ∙ gone);
        all = Replied-held;
        answered = answered-grows;
      }
