-- ===== src/Dispatch/Keeps.antt =====
-- `dispatch` and `chld_reply` keep the dispatcher sound and lose no request.
use okws.Prelude.{
  ℕ, ◌+◌, ◌<◌, ◌≤◌, ◌≡◌, inl, inr, refl, ap, ◌∙◌, arith, true, false, ◌||◌, List, [], ◌∷◌, ◌++◌,
  length, length-append, leb, some, Bool-cases,
}
use okws.Dispatch.{
  reject, proc_unavail, answer, QueueEl, Mtdispatch, Config, send_svccb, enqueue, is_nil,
  count_queued, dispatch,
}
use okws.Dispatch.Ready.{one, in_queue, in_answers, held, Sends, send_svccb-Sends}
use okws.Dispatch.Serve.{IsSound}

-- A request was taken in.
pub record Dispatched (cfg : Config) (now sbp : ℕ) (d : Mtdispatch) : Type 0 where
  pub next : Mtdispatch
  pub result : dispatch cfg now sbp d ≡ some next
  pub sound : IsSound next
  pub bounded : length next.queue ≤ next.maxq
  pub all : (x : ℕ) → held x next ≡ held x d + one x sbp

in_queue-append :
    (x : ℕ) (q : List QueueEl) (el : QueueEl)
    → in_queue x (q ++ (el ∷ [])) ≡ in_queue x q + one x el.sbp
unfolding in_queue
in_queue-append x [] el = omega arith
in_queue-append x (e ∷ q) el = omega (arith, in_queue-append x q el)

module _ (cfg : Config) (now sbp : ℕ) (d : Mtdispatch) (h : IsSound d) where
  -- No room, or no more requests wanted.
  Dispatched-rejected :
      length d.queue ≤ d.maxq
      → (d.sdflag || leb d.maxq (length d.queue)) ≡ true
      → Dispatched cfg now sbp d
  unfolding dispatch held in_answers
  Dispatched-rejected le full = record {
    next =
        answer sbp (reject proc_unavail)
          (record d { stats = record d.stats { rejects = d.stats.rejects + 1 } });
    result = rw full refl;
    sound = record { idle = h.idle; waits = h.waits };
    bounded = le;
    all = λ x. omega arith;
  }

  -- No worker is idle.
  Dispatched-queued :
      (d.sdflag || leb d.maxq (length d.queue)) ≡ false
      → cfg.async_serv sbp ≡ false
      → d.readyq ≡ []
      → Dispatched cfg now sbp d
  unfolding dispatch held send_svccb enqueue
  Dispatched-queued room sync none_ready = record {
    next = count_queued now sbp d;
    result = ground (arith, room, sync, none_ready);
    sound = record { idle = h.idle; waits = inr none_ready };
    bounded =
        let more = length-append d.queue (record { sbp = sbp; timein = now } ∷ []) in
        let less : length d.queue < d.maxq = ground (arith, room) in omega (arith, more, less);
    all = λ x. omega (arith, in_queue-append x d.queue (record { sbp = sbp; timein = now }));
  }

  -- A worker is idle, and so no request waits.
  Dispatched-sent :
      (i : ℕ) (is : List ℕ)
      → (d.sdflag || leb d.maxq (length d.queue)) ≡ false
      → cfg.async_serv sbp ≡ false
      → d.readyq ≡ i ∷ is
      → d.queue ≡ []
      → (s : Sends sbp (i ∷ is) d) → Dispatched cfg now sbp d
  unfolding dispatch held
  Dispatched-sent i is room sync ready empty s = record {
    next = record s.next { stats = record s.next.stats { taken = s.next.stats.taken + 1 } };
    result =
        let no_queue : is_nil d.queue ≡ true = ap (λ q. is_nil q) empty in
        let sent : send_svccb sbp d.readyq d ≡ some (true, s.next) =
          ap (λ rs. send_svccb sbp rs d) ready ∙ s.result in
        rw (room, sync, no_queue, sent) refl;
    sound = record { idle = s.idle; waits = inl (s.others.0 ∙ empty) };
    bounded =
        let none_left : length s.next.queue ≡ 0 =
          ap (λ (q : List QueueEl). length q) (s.others.0 ∙ empty) in
        omega (arith, none_left);
    all = λ x.
        let moved = s.moved x in
        let queue = ap (in_queue x) s.others.0 in
        let answers = ap (in_answers x) s.others.1 in omega (arith, moved, queue, answers);
  }

  idle_cases :
      (rs : List ℕ)
      → d.readyq ≡ rs
      → (d.sdflag || leb d.maxq (length d.queue)) ≡ false
      → cfg.async_serv sbp ≡ false
      → Dispatched cfg now sbp d
  idle_cases [] e room sync = Dispatched-queued room sync e
  idle_cases (i ∷ is) e room sync = elim h.waits [
    | inl empty ↦
        Dispatched-sent i is room sync e empty (send_svccb-Sends sbp i is d (rw e at h.idle))
    | inr none_ready ↦ cc (e, none_ready)
  ]

-- A request that the wrapper does not answer at once is taken in by a sound dispatcher whose queue
-- is within its bound: the assertion on the worker's state holds, the state is sound again, the
-- queue keeps its bound, and the request is in a worker's hands, in the queue or answered, once
-- more than before, while every other request is counted as often as before.
pub dispatch-Dispatched :
    (cfg : Config) (now sbp : ℕ) (d : Mtdispatch)
    → IsSound d
    → length d.queue ≤ d.maxq
    → cfg.async_serv sbp ≡ false
    → Dispatched cfg now sbp d
dispatch-Dispatched cfg now sbp d h le sync =
    elim (Bool-cases (d.sdflag || leb d.maxq (length d.queue))) [
      | inl full ↦ Dispatched-rejected cfg now sbp d h le full
      | inr room ↦ idle_cases cfg now sbp d h d.readyq refl room sync
    ]
