-- ===== src/Dispatch/Drain.antt =====
-- As the workers answer, the queue empties.
use okws.Prelude.{
  ℕ, ◌<◌, ◌≤◌, ◌≡◌, ◌≢◌, refl, sym, ap, ◌∙◌, arith, List, [], ◌∷◌, length, length-set, get_or,
  get_or-set_self, none, some, All, false,
}
use okws.Dispatch.{Cell, new_cell, cell, QueueEl, Mtdispatch, Config, chld_reply, chld_msg}
use okws.Dispatch.Ready.{in_cell, in_cells-set, held, AreIdle, AreIdle-set}
use okws.Dispatch.Serve.{IsSound}
use okws.Dispatch.Reply.{Replied, chld_reply-Replied}
use okws.Dispatch.Worker.{Response, respond, Event, responded, event, events, then_events}

-- The thread holds a request.
abbrev pub Works : Mtdispatch → ℕ → Type 0
Works d i = (i < length d.arr) × (x : ℕ) × ((cell d i).sbp ≡ some x)

-- Each thread that answers holds a request at that time.
abbrev pub Enabled : Config → List Event → Mtdispatch → Type 0
Enabled cfg [] d = Unit
Enabled cfg (ev ∷ evs) d =
    Works d ev.tid × ((d' : Mtdispatch) → event cfg ev d ≡ some d' → Enabled cfg evs d')

pub respond-sbp : (r : Response) (c : Cell) → (respond r c).sbp ≡ c.sbp
unfolding respond
respond-sbp r c = ground arith

-- A thread with a request is not listed as idle.
AreIdle-fresh :
    (is : List ℕ) (arr : List Cell) (i x : ℕ)
    → AreIdle arr is
    → (get_or arr i new_cell).sbp ≡ some x
    → All (λ j. j ≢ i) is
unfolding AreIdle
AreIdle-fresh [] arr i x h e = tt
AreIdle-fresh (j ∷ is) arr i x (idle, fresh, h) e = (
  λ same. clash (sym idle.free ∙ ap (λ k. (get_or arr k new_cell).sbp) same ∙ e),
  AreIdle-fresh is arr i x h e,
)
  where
    clash : none ≢ some x
    clash f = ground arith

module _ (cfg : Config) (ev : Event) (d : Mtdispatch) (x : ℕ) (h : IsSound d)
    (within : ev.tid < length d.arr) (mine : (cell d ev.tid).sbp ≡ some x) where
  fresh : All (λ j. j ≢ ev.tid) d.readyq
  fresh = AreIdle-fresh d.readyq d.arr ev.tid x h.idle mine

  responded-IsSound : IsSound (responded ev d)
  responded-IsSound = record {
    idle = AreIdle-set d.readyq d.arr ev.tid (respond ev.response (cell d ev.tid)) fresh h.idle;
    waits = h.waits;
  }

  responded-held : (y : ℕ) → held y (responded ev d) ≡ held y d
  unfolding held
  responded-held y =
      let c = respond ev.response (cell d ev.tid) in
      let sum = in_cells-set y d.arr ev.tid c within in
      let same : in_cell y c.sbp ≡ in_cell y (cell d ev.tid).sbp =
        ap (in_cell y) (respond-sbp ev.response (cell d ev.tid)) in
      omega (arith, sum, same)

  responded-mine : (cell (responded ev d) ev.tid).sbp ≡ some x
  responded-mine =
      ap (λ (c : Cell). c.sbp)
        (get_or-set_self d.arr ev.tid (respond ev.response (cell d ev.tid)) new_cell within)
      ∙ respond-sbp ev.response (cell d ev.tid)
      ∙ mine

  event-Replied : Replied cfg ev.now ev.tid x (responded ev d)
  event-Replied =
      chld_reply-Replied cfg ev.now ev.tid x (responded ev d) responded-IsSound
        (omega (arith, length-set d.arr ev.tid (respond ev.response (cell d ev.tid))))
        responded-mine fresh

-- No shutdown is under way.
abbrev pub IsUp : Mtdispatch → Type 0
IsUp d = (d.sdflag ≡ false) × (d.exited ≡ false)

event_up :
    (cfg : Config) (ev : Event) (d : Mtdispatch)
    → IsUp d
    → event cfg ev d ≡ chld_reply cfg ev.now ev.tid (responded ev d)
unfolding event chld_msg
event_up cfg ev d (up, on) = rw (up, on) refl

no_queue : (q : List QueueEl) → length q ≤ 0 → q ≡ []
no_queue [] h = refl
no_queue (el ∷ q) h = absurd (omega arith)

-- From a sound state in which no shutdown is under way, let threads that hold a request at that time answer one after the other, at
-- least as many times as there are requests in the queue: each answer is taken in, and in the end no
-- request waits, the state is sound, and every request is counted as often as before, in a worker's
-- hands or answered.
pub events_drain :
    (cfg : Config) (evs : List Event) (d : Mtdispatch)
    → IsSound d
    → IsUp d
    → Enabled cfg evs d
    → length d.queue ≤ length evs
    → (d' : Mtdispatch) × (events cfg evs d ≡ some d')
      × (d'.queue ≡ [])
      × IsSound d'
      × ((x : ℕ) → held x d' ≡ held x d)
unfolding events
events_drain cfg [] d h up on le = (d, refl, no_queue d.queue le, h, λ x. refl)
events_drain cfg (ev ∷ evs) d h up ((within, x, mine), on) le =
    let r = event-Replied cfg ev d x h within mine in
    let result : event cfg ev d ≡ some r.next = event_up cfg ev d up ∙ r.result in
    let (d', run, empty, sound, all) =
      events_drain cfg evs r.next r.sound (r.mode.0 ∙ up.0, r.mode.1 ∙ up.1) (on r.next result)
        (omega (arith, r.fewer)) in
    (
      d',
      ap (then_events (λ e. events cfg evs e)) result ∙ run,
      empty,
      sound,
      λ y. all y ∙ r.all y ∙ responded-held cfg ev d x h within mine y,
    )
