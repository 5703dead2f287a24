-- ===== src/Inhdr/Finish.antt =====
-- The status a request ends with.
use okws.Prelude.{◌≡◌, ◌↔◌, arith, Bool, true, false, none, some}
use okws.Abuf.{abuf_eof, abuf_wait}
use okws.Inhdr.{Inhdr, Round, stopped, done}
use okws.Inhdr.Guts.{is_start, status, clean_pipeline_eof_state}

-- A request ends as a clean end of a pipeline exactly if the input ended, no limit was exceeded, the
-- parser is in its first state, and the connection was kept alive for another request.
status_pipeline_eof :
    (overflow : Bool) (r : Round) (h : Inhdr)
    → (status overflow r h ≡ some 605) ↔ (
        (r ≡ stopped abuf_eof)
        × (overflow ≡ false)
        × (is_start h.state ≡ true)
        × (h.pipeline_eof_ok ≡ true))
unfolding status clean_pipeline_eof_state
status_pipeline_eof overflow r h = ground arith

-- The parser gives no status exactly if it waits, and the status of success exactly if the headers
-- are complete and no limit was exceeded.
status_done :
    (overflow : Bool) (r : Round) (h : Inhdr)
    → ((status overflow r h ≡ none) ↔ (r ≡ stopped abuf_wait))
      × ((status overflow r h ≡ some 200) ↔ ((r ≡ done) × (overflow ≡ false)))
unfolding status clean_pipeline_eof_state
status_done overflow r h = ground arith
