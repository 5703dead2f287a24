-- ===== src/Dispatch/Tests.antt =====
-- Runs of the dispatcher, and the theorems at one state.
use okws.Prelude.{◌≡◌, refl, ℕ, zero, suc, List, arith, inl, inr, true, false, [], ◌∷◌, some}
use okws.Dispatch.{
  Config, Mtdispatch, new_cell, cell, mtd_ready, mtd_working, mtd_reply, rpc_bool, reply_bool,
  chld_reply,
}
use okws.Dispatch.Ready.{AreIdle, held}
use okws.Dispatch.Serve.{IsSound}
use okws.Dispatch.Keeps.{Dispatched, dispatch-Dispatched}
use okws.Dispatch.Worker.{Event, reply_b, event, events}
use okws.Dispatch.Drain.{events_drain}
use okws.Dispatch.Shutdown.{OthersRest, event_drops_reply}

abbrev cfg : Config
cfg = record { q_timeout = 10; async_serv = λ _. false }

-- Two workers, the second is busy with the request 7 and has its answer ready.
abbrev two : Mtdispatch
two = record {
  arr =
      record new_cell { status = mtd_ready }
      ∷ record new_cell { status = mtd_reply; sbp = some 7; rstat = rpc_bool; b = true }
      ∷ [];
  maxq = 5;
  sdflag = false;
  queue = [];
  readyq = 0 ∷ [];
  stats = record { taken = 0; out = 0; rejects = 0; queued = 0; async_serv = 0; to = 0 };
  exited = false;
  answers = [];
  told = [];
  post_db_calls = [];
}

two-IsSound : IsSound two
unfolding AreIdle
two-IsSound = record {
  idle = (record { within = omega arith; ready = refl; free = refl }, tt, tt);
  waits = inl refl;
}

dispatch-Dispatched_example : Dispatched cfg 3 9 two
dispatch-Dispatched_example = dispatch-Dispatched cfg 3 9 two two-IsSound (omega arith) refl

reply_said :
    (d : Mtdispatch) × (chld_reply cfg 3 1 two ≡ some d) × (d.answers ≡ (7, reply_bool true) ∷ [])
unfolding chld_reply
reply_said = (_, refl, refl)

-- Both workers are busy, and a request waits.
abbrev waiting : Mtdispatch
waiting = record two {
  arr =
      record new_cell { status = mtd_working; sbp = some 6 }
      ∷ record new_cell { status = mtd_working; sbp = some 7 }
      ∷ [];
  queue = record { sbp = 8; timein = 2 } ∷ [];
  readyq = [];
}

waiting-IsSound : IsSound waiting
unfolding AreIdle
waiting-IsSound = record { idle = tt; waits = inr refl }

abbrev one_answer : List Event
one_answer = record { tid = 1; response = reply_b true; now = 3 } ∷ []

events_drain_example :
    (d' : Mtdispatch) × (events cfg one_answer waiting ≡ some d')
    × (d'.queue ≡ [])
    × IsSound d'
    × ((x : ℕ) → held x d' ≡ held x waiting)
events_drain_example =
    events_drain cfg one_answer waiting waiting-IsSound (refl, refl)
      ((omega arith, 7, refl), λ d' e. tt) (omega arith)

-- The first worker is idle, the second still works, and a shutdown was asked for.
abbrev down : Mtdispatch
down = record two {
  arr =
      record new_cell { status = mtd_ready }
      ∷ record new_cell { status = mtd_working; sbp = some 7 }
      ∷ [];
  sdflag = true;
}

abbrev last_answer : Event
last_answer = record { tid = 1; response = reply_b true; now = 3 }

down-OthersRest : OthersRest down.arr 1
down-OthersRest zero ne = refl
down-OthersRest (suc zero) ne = absurd (ne refl)
down-OthersRest (suc (suc j)) ne = refl

event_drops_reply_example :
    (d' : Mtdispatch) × (event cfg last_answer down ≡ some d')
    × (d'.exited ≡ true)
    × (d'.answers ≡ down.answers)
    × ((cell d' 1).sbp ≡ some 7)
event_drops_reply_example =
    event_drops_reply cfg last_answer 7 down refl refl down-OthersRest (omega arith) refl
