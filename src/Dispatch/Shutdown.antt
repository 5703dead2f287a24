-- ===== src/Dispatch/Shutdown.antt =====
-- Shutting the dispatcher down while a worker is busy.
use okws.Prelude.{
  ℕ, zero, suc, ◌<◌, ◌≡◌, ◌≢◌, refl, ap, ◌∙◌, arith, true, false, List, [], ◌∷◌, length, set,
  get_or, get_or-set_self, some,
}
use okws.Dispatch.{
  Config, Mtdispatch, Cell, new_cell, cell, is_working, any_working, shutdown, chld_msg,
}
use okws.Dispatch.Worker.{Response, respond, Event, responded, event}
use okws.Dispatch.Drain.{respond-sbp}

-- Every worker but `i` is at rest.
abbrev pub OthersRest : List Cell → ℕ → Type 0
OthersRest arr i = (j : ℕ) → j ≢ i → is_working (get_or arr j new_cell).status ≡ false

at_rest :
    (arr : List Cell)
    → ((j : ℕ) → is_working (get_or arr j new_cell).status ≡ false)
    → any_working arr ≡ false
unfolding any_working
at_rest [] h = refl
at_rest (c ∷ cs) h = rw (h 0) (at_rest cs (λ j. h (suc j)))

-- A worker that has its answer in its cell is not marked as working.
any_working-set :
    (arr : List Cell) (i : ℕ) (c : Cell)
    → OthersRest arr i
    → is_working c.status ≡ false
    → any_working (set arr i c) ≡ false
unfolding any_working
any_working-set [] i c h e = refl
any_working-set (d ∷ ds) zero c h e = rw e (at_rest ds (λ j. h (suc j) (λ f. omega (arith, f))))
any_working-set (d ∷ ds) (suc i) c h e =
    rw (h 0 (λ f. omega (arith, f)))
      (any_working-set ds i c (λ j ne. h (suc j) (λ f. ne (omega (arith, f)))) e)

respond_rests : (r : Response) (c : Cell) → is_working (respond r c).status ≡ false
unfolding respond
respond_rests r c = ground arith

-- Under a shutdown, with an empty queue and no other worker marked as working, let a worker that
-- holds a request answer, in whatever way: the process exits at the message, the request is still
-- in the worker's hands, and nothing is said to its client. So the last answer under a shutdown is lost.
pub event_drops_reply :
    (cfg : Config) (ev : Event) (sbp : ℕ) (d : Mtdispatch)
    → d.sdflag ≡ true
    → d.queue ≡ []
    → OthersRest d.arr ev.tid
    → ev.tid < length d.arr
    → (cell d ev.tid).sbp ≡ some sbp
    → (d' : Mtdispatch) × (event cfg ev d ≡ some d')
      × (d'.exited ≡ true)
      × (d'.answers ≡ d.answers)
      × ((cell d' ev.tid).sbp ≡ some sbp)
unfolding event chld_msg shutdown
event_drops_reply cfg ev sbp d down empty rest within mine =
    let c = respond ev.response (cell d ev.tid) in
    let idle : any_working (set d.arr ev.tid c) ≡ false =
      any_working-set d.arr ev.tid c rest (respond_rests ev.response (cell d ev.tid)) in
    (
      shutdown (responded ev d),
      rw (down, empty, idle) refl,
      rw (empty, idle) refl,
      refl,
      ap (λ (x : Cell). x.sbp) (get_or-set_self d.arr ev.tid c new_cell within)
          ∙ respond-sbp ev.response (cell d ev.tid)
          ∙ mine,
    )
