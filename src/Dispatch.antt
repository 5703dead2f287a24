-- ===== src/Dispatch.antt =====
-- libamt/mtdispatch.C and libamt/amt.h: the dispatcher hands requests to worker threads, queues them
-- when none is free, and passes the workers' answers on. Requests and threads are named by numbers.
-- The replies, the messages to the threads and the calls of `post_db_call` are lists in the state,
-- the newest first. `none` is a failed assertion or a null pointer that is followed.
pub mod Ready
pub mod Serve
pub mod Keeps
pub mod Reply
pub mod Shutdown
pub mod Worker
pub mod Drain
mod Tests
use okws.Prelude.{
  ℕ, ◌+◌, ◌-◌, Bool, true, false, not, ◌||◌, List, [], ◌∷◌, ◌++◌, length, set, get_or, ltb, leb,
  if◌then◌else◌, Option, none, some,
}

-- `mtd_status_t`.
pub data Status : Type 0 where
  mtd_startup mtd_ready mtd_working mtd_shutdown mtd_error mtd_continue mtd_reply : Status

-- `mtd_rpc_t`.
pub data Rpc : Type 0 where
  rpc_null rpc_data rpc_reject rpc_bool rpc_int32 rpc_uint32 rpc_passptr rpc_boost_ptr : Rpc

-- What goes back to the client.
pub data Answer : Type 0 where
  reply_null : Answer
  reply reply_uint32 reply_int32 reply_pass reply_boost reject : ℕ → Answer
  reply_bool : Bool → Answer

-- `PROC_UNAVAIL` of the RPC protocol.
abbrev pub proc_unavail : ℕ
proc_unavail = 3

-- `mtd_shmem_cell_t`, with the response; a pointer is a number, 0 if it is null.
pub record Cell : Type 0 where
  pub status : Status
  pub sbp : Option ℕ
  pub rstat : Rpc
  pub err_code : ℕ
  pub p : ℕ
  pub b : Bool
  pub i32 : ℕ
  pub u32 : ℕ
  pub pp : ℕ
  pub bp : ℕ

abbrev pub new_cell : Cell
new_cell = record {
  status = mtd_startup;
  sbp = none;
  rstat = rpc_null;
  err_code = 0;
  p = 0;
  b = false;
  i32 = 0;
  u32 = 0;
  pp = 0;
  bp = 0;
}

-- `queue_el_t`.
pub record QueueEl : Type 0 where
  pub sbp : ℕ
  pub timein : ℕ

-- `epoch_t`, the totals.
pub record Epoch : Type 0 where
  pub taken : ℕ
  pub out : ℕ
  pub rejects : ℕ
  pub queued : ℕ
  pub async_serv : ℕ
  pub to : ℕ

-- `mtdispatch_t`. `exited` is set by `exit (0)`.
pub record Mtdispatch : Type 0 where
  pub arr : List Cell
  pub maxq : ℕ
  pub sdflag : Bool
  pub queue : List QueueEl
  pub readyq : List ℕ
  pub stats : Epoch
  pub exited : Bool
  pub answers : List (ℕ × Answer)
  pub told : List ℕ
  pub post_db_calls : List ℕ

-- The time-out of the queue, and the virtual method of that name: a subclass may answer a request
-- at once.
pub record Config : Type 0 where
  pub q_timeout : ℕ
  pub async_serv : ℕ → Bool

abbrev pub is_ready : Status → Bool
is_ready mtd_ready = true
is_ready _ = false

abbrev pub is_working : Status → Bool
is_working mtd_working = true
is_working _ = false

abbrev pub answer : ℕ → Answer → Mtdispatch → Mtdispatch
answer sbp a d = record d { answers = (sbp, a) ∷ d.answers }

abbrev pub cell : Mtdispatch → ℕ → Cell
cell d i = get_or d.arr i new_cell

-- `send_svccb`
unfoldable pub send_svccb : ℕ → List ℕ → Mtdispatch → Option (Bool × Mtdispatch)
send_svccb sbp [] d = some (false, d)
send_svccb sbp (i ∷ is) d =
    let c : Cell = record (cell d i) { status = mtd_working; sbp = some sbp } in
    if is_ready (cell d i).status
    then some (true, record d { readyq = is; arr = set d.arr i c; told = i ∷ d.told })
    else none

unfoldable pub enqueue : ℕ → ℕ → Mtdispatch → Mtdispatch
enqueue now sbp d =
    let el : QueueEl = record { sbp = sbp; timein = now } in
    record d { queue = d.queue ++ (el ∷ []) }

abbrev pub is_nil {ℓ} : {A : Type ℓ} → List A → Bool
is_nil [] = true
is_nil (x ∷ xs) = false

-- `send_svccb` failed or was not called.
abbrev pub count_queued : ℕ → ℕ → Mtdispatch → Mtdispatch
count_queued now sbp d =
    enqueue now sbp (record d { stats = record d.stats { queued = d.stats.queued + 1 } })

abbrev pub dispatched : ℕ → ℕ → Option (Bool × Mtdispatch) → Option Mtdispatch
dispatched now sbp none = none
dispatched now sbp (some (true, d)) =
    some (record d { stats = record d.stats { taken = d.stats.taken + 1 } })
dispatched now sbp (some (false, d)) = some (count_queued now sbp d)

-- `dispatch`
unfoldable pub dispatch : Config → ℕ → ℕ → Mtdispatch → Option Mtdispatch
unfolding send_svccb enqueue
dispatch cfg now sbp d =
    if d.sdflag || leb d.maxq (length d.queue)
    then some (
        answer sbp (reject proc_unavail)
          (record d { stats = record d.stats { rejects = d.stats.rejects + 1 } }))
    else if cfg.async_serv sbp
    then some (record d { stats = record d.stats { async_serv = d.stats.async_serv + 1 } })
    else if is_nil d.queue
    then dispatched now sbp (send_svccb sbp d.readyq d)
    else some (count_queued now sbp d)

-- The loop of `chld_ready` over the queue.
unfoldable pub serve : Config → ℕ → List QueueEl → Mtdispatch → Option Mtdispatch
unfolding send_svccb
serve cfg now [] d = some (record d { queue = [] })
serve cfg now (el ∷ q) d =
    let timed_out = record d { stats = record d.stats { to = d.stats.to + 1 } } in
    let rejected = serve cfg now q (answer el.sbp (reject proc_unavail) timed_out) in
    let sent : Option Mtdispatch = elim (send_svccb el.sbp d.readyq d) [
      | none ↦ none
      | some (ok, d') ↦ serve cfg now q d'
    ] in
    if is_nil d.readyq
    then some (record d { queue = el ∷ q })
    else if ltb cfg.q_timeout (now - el.timein)
    then rejected
    else sent

unfoldable pub chld_ready : Config → ℕ → ℕ → Mtdispatch → Option Mtdispatch
unfolding serve
chld_ready cfg now i d = serve cfg now d.queue (record d { readyq = d.readyq ++ (i ∷ []) })

-- The switch of `chld_reply`.
unfoldable pub pass_on : Rpc → ℕ → Cell → Mtdispatch → Mtdispatch × Cell
pass_on rpc_null sbp c d =
    (answer sbp reply_null (record d { post_db_calls = sbp ∷ d.post_db_calls }), c)
pass_on rpc_data sbp c d = (
  answer sbp (reply c.p) (record d { post_db_calls = sbp ∷ d.post_db_calls }),
  record c { p = 0 },
)
pass_on rpc_bool sbp c d = (answer sbp (reply_bool c.b) d, c)
pass_on rpc_uint32 sbp c d = (answer sbp (reply_uint32 c.u32) d, c)
pass_on rpc_int32 sbp c d = (answer sbp (reply_int32 c.i32) d, c)
pass_on rpc_passptr sbp c d = (answer sbp (reply_pass c.pp) d, record c { pp = 0 })
pass_on rpc_boost_ptr sbp c d = (answer sbp (reply_boost c.bp) d, record c { bp = 0 })
pass_on rpc_reject sbp c d = (answer sbp (reject c.err_code) d, c)

abbrev pub count_out : Option Mtdispatch → Option Mtdispatch
count_out none = none
count_out (some d) = some (record d { stats = record d.stats { out = d.stats.out + 1 } })

unfoldable pub replied : Config → ℕ → ℕ → Option ℕ → Mtdispatch → Option Mtdispatch
unfolding chld_ready pass_on
replied cfg now i none d = none
replied cfg now i (some sbp) d =
    let (d', c) = pass_on (cell d i).rstat sbp (cell d i) d in
    let idle : Cell = record c { sbp = none; status = mtd_ready } in
    count_out (chld_ready cfg now i (record d' { arr = set d'.arr i idle }))

unfoldable pub chld_reply : Config → ℕ → ℕ → Mtdispatch → Option Mtdispatch
unfolding replied
chld_reply cfg now i d = replied cfg now i (cell d i).sbp d

-- Whether some cell is `MTD_WORKING`.
unfoldable pub any_working : List Cell → Bool
any_working [] = false
any_working (c ∷ cs) = is_working c.status || any_working cs

unfoldable pub shutdown : Mtdispatch → Mtdispatch
unfolding any_working
shutdown d =
    let busy = (not (is_nil d.queue)) || any_working d.arr in
    record d { sdflag = true; exited = if busy then d.exited else true }

-- `chld_msg`, of a message that was received: its status and its thread. Nothing runs behind `exit`.
unfoldable pub chld_msg : Config → ℕ → Status → ℕ → Mtdispatch → Option Mtdispatch
unfolding shutdown chld_ready chld_reply
chld_msg cfg now mtd_ready tid d =
    let d' = if d.sdflag then shutdown d else d in
    if d'.exited then some d' else chld_ready cfg now tid d'
chld_msg cfg now mtd_reply tid d =
    let d' = if d.sdflag then shutdown d else d in
    if d'.exited then some d' else chld_reply cfg now tid d'
chld_msg cfg now s tid d = some d
