-- ===== src/Dispatch/Ready.antt =====
-- The requests a dispatcher holds, and its idle workers.
use okws.Prelude.{
  ℕ, zero, suc, ◌+◌, ◌<◌, ◌≡◌, ◌≢◌, refl, sym, arith, true, List, [], ◌∷◌, length, length-set, set,
  get_or, get_or-set_ne, ◌==◌, if◌then◌else◌, Option, none, some, All,
}
use okws.Dispatch.{
  mtd_ready, mtd_working, Answer, Cell, new_cell, QueueEl, Mtdispatch, cell, send_svccb,
}

-- 1 if the requests are one, else 0.
unfoldable pub one : ℕ → ℕ → ℕ
one x y = if x == y then 1 else 0

unfoldable pub in_cell : ℕ → Option ℕ → ℕ
unfolding one
in_cell x none = 0
in_cell x (some y) = one x y

-- How often a request is in the workers' hands, in the queue, and answered.
unfoldable pub in_cells : ℕ → List Cell → ℕ
unfolding in_cell
in_cells x [] = 0
in_cells x (c ∷ cs) = in_cell x c.sbp + in_cells x cs

unfoldable pub in_queue : ℕ → List QueueEl → ℕ
unfolding one
in_queue x [] = 0
in_queue x (el ∷ q) = one x el.sbp + in_queue x q

unfoldable pub in_answers : ℕ → List (ℕ × Answer) → ℕ
unfolding one
in_answers x [] = 0
in_answers x ((y, a) ∷ as') = one x y + in_answers x as'

-- All of these.
unfoldable pub held : ℕ → Mtdispatch → ℕ
unfolding in_cells in_queue in_answers
held x d = in_cells x d.arr + in_queue x d.queue + in_answers x d.answers

-- A worker that waits for a request.
pub record IsIdle (arr : List Cell) (i : ℕ) : Type 0 where
  pub within : i < length arr
  pub ready : (get_or arr i new_cell).status ≡ mtd_ready
  pub free : (get_or arr i new_cell).sbp ≡ none

-- Every worker of the list is idle, and none is listed twice.
unfoldable pub AreIdle : List Cell → List ℕ → Type 0
AreIdle arr [] = Unit
AreIdle arr (i ∷ is) = IsIdle arr i × All (λ j. j ≢ i) is × AreIdle arr is

pub in_cells-set :
    (x : ℕ) (arr : List Cell) (i : ℕ) (c : Cell)
    → i < length arr
    → in_cells x (set arr i c) + in_cell x (get_or arr i new_cell).sbp
      ≡ in_cells x arr + in_cell x c.sbp
unfolding in_cells
in_cells-set x [] i c h = absurd (omega arith)
in_cells-set x (b ∷ arr) zero c h = omega arith
in_cells-set x (b ∷ arr) (suc i) c h =
    let ih = in_cells-set x arr i c (omega arith) in omega (arith, ih)

IsIdle-set : (arr : List Cell) (i j : ℕ) (c : Cell) → j ≢ i → IsIdle arr j → IsIdle (set arr i c) j
IsIdle-set arr i j c ne h =
    let same = get_or-set_ne arr i j c new_cell (λ e. ne (sym e)) in
    record {
      within = omega (arith, length-set arr i c, h.within);
      ready = rw same h.ready;
      free = rw same h.free;
    }

pub AreIdle-set :
    (is : List ℕ) (arr : List Cell) (i : ℕ) (c : Cell)
    → All (λ j. j ≢ i) is
    → AreIdle arr is
    → AreIdle (set arr i c) is
unfolding AreIdle
AreIdle-set [] arr i c f h = tt
AreIdle-set (j ∷ is) arr i c (ne, f) (idle, fresh, h) =
    (IsIdle-set arr i j c ne idle, fresh, AreIdle-set is arr i c f h)

-- A request goes to the first idle worker, and is then in its hands.
pub record Sends (sbp : ℕ) (is : List ℕ) (d : Mtdispatch) : Type 0 where
  pub next : Mtdispatch
  pub result : send_svccb sbp is d ≡ some (true, next)
  pub one_less : length is ≡ length next.readyq + 1
  pub idle : AreIdle next.arr next.readyq
  pub size : length next.arr ≡ length d.arr
  pub moved : (x : ℕ) → in_cells x next.arr ≡ in_cells x d.arr + one x sbp
  pub others : (next.queue ≡ d.queue) × (next.answers ≡ d.answers) × (next.maxq ≡ d.maxq)
  pub mode : (next.sdflag ≡ d.sdflag) × (next.exited ≡ d.exited)

pub send_svccb-Sends :
    (sbp i : ℕ) (is : List ℕ) (d : Mtdispatch) → AreIdle d.arr (i ∷ is) → Sends sbp (i ∷ is) d
unfolding AreIdle send_svccb
send_svccb-Sends sbp i is d (idle, fresh, rest) =
    let c : Cell = record (cell d i) { status = mtd_working; sbp = some sbp } in
    record {
      next = record d { readyq = is; arr = set d.arr i c; told = i ∷ d.told };
      result = ground (arith, idle.ready);
      one_less = omega arith;
      idle = AreIdle-set is d.arr i c fresh rest;
      size = length-set d.arr i c;
      moved = λ x.
          let sum = in_cells-set x d.arr i c idle.within in
          let empty : in_cell x (cell d i).sbp ≡ 0 = rw idle.free (unfold in_cell in refl) in
          let full : in_cell x (some sbp) ≡ one x sbp = unfold in_cell in refl in
          omega (arith, sum, empty, full);
      others = (refl, refl, refl);
      mode = (refl, refl);
    }
