-- ===== src/Dispatch/Worker.antt =====
-- The worker's side of a request: how a thread answers (`mtd_thread_t` of libamt/mtdispatch.C).
use okws.Prelude.{ℕ, Bool, List, [], ◌∷◌, set, Option, none, some}
use okws.Dispatch.{
  Cell, Mtdispatch, Config, rpc_null, rpc_data, rpc_reject, rpc_bool, rpc_int32, rpc_uint32,
  rpc_passptr, mtd_reply, cell, chld_msg,
}

-- `replynull`, `reject`, `reply_b`, `reply_i32`, `reply_u32` `reply` of data and
-- `reply_pass`.
pub data Response : Type 0 where
  replynull : Response
  reject_with : ℕ → Response
  reply_b : Bool → Response
  reply_i32 : ℕ → Response
  reply_u32 : ℕ → Response
  reply_data : ℕ → Response
  reply_pass : ℕ → Response

unfoldable pub respond : Response → Cell → Cell
respond replynull c = record c { status = mtd_reply; rstat = rpc_null }
respond (reject_with e) c = record c { status = mtd_reply; rstat = rpc_reject; err_code = e }
respond (reply_b b) c = record c { b = b; status = mtd_reply; rstat = rpc_bool }
respond (reply_i32 i) c = record c { i32 = i; status = mtd_reply; rstat = rpc_int32 }
respond (reply_u32 u) c = record c { u32 = u; status = mtd_reply; rstat = rpc_uint32 }
respond (reply_data p) c = record c { status = mtd_reply; rstat = rpc_data; p = p }
respond (reply_pass p) c = record c { pp = p; status = mtd_reply; rstat = rpc_passptr }

-- The thread `tid` answers, and at the time `now` the dispatcher gets the message of it.
pub record Event : Type 0 where
  pub tid : ℕ
  pub response : Response
  pub now : ℕ

abbrev pub responded : Event → Mtdispatch → Mtdispatch
responded ev d = record d { arr = set d.arr ev.tid (respond ev.response (cell d ev.tid)) }

unfoldable pub event : Config → Event → Mtdispatch → Option Mtdispatch
unfolding respond chld_msg
event cfg ev d = chld_msg cfg ev.now mtd_reply ev.tid (responded ev d)

abbrev pub then_events : (Mtdispatch → Option Mtdispatch) → Option Mtdispatch → Option Mtdispatch
then_events f none = none
then_events f (some d) = f d

unfoldable pub events : Config → List Event → Mtdispatch → Option Mtdispatch
unfolding event
events cfg [] d = some d
events cfg (ev ∷ evs) d = then_events (λ d'. events cfg evs d') (event cfg ev d)
