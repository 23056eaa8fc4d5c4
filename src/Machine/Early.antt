-- ===== src/Machine/Early.antt =====
-- lwt.c: on the machine, a child that dies before its parent joins it.
use mathlib.Core.List.{erase}
use mathlib.Core.Logic.{if_pos, if_neg}
use light_weight_thread_libr.Prelude.{
  ℕ, ◌+◌, ◌≡◌, ◌≢◌, refl, sym, ap, ◌∙◌, subst, inl, Bool, true, false, List, [], ◌∷◌, ◌++◌, some,
  arith, ℕ_discrete,
}
use light_weight_thread_libr.Links.{update}
use light_weight_thread_libr.Links.Queues.{erase_of_not_has, not_elsewhere}
use light_weight_thread_libr.Links.Refine.{move_to_end, move_to_end_at, move_to_end-ne}
use light_weight_thread_libr.State.{
  World, LwtChannel, Node, Node-discrete, thread_node, run_queue, sender_queue, recycle_queue,
  lwt_current, ret_dispatch, local_chan,
}
use light_weight_thread_libr.State.Cmd.{Cmd, Outcome, switched, and_then, pure}
use light_weight_thread_libr.State.Gives.{Gives-bind, Gives-switched}
use light_weight_thread_libr.Sched.{lwt_schedule}
use light_weight_thread_libr.Sched.Handed.{pop_registers}
use light_weight_thread_libr.Sched.System.{System, System-owners, IsThread-has}
use light_weight_thread_libr.Chan.Send.{is_awaited}
use light_weight_thread_libr.Chan.Contents.{IsChan}
use light_weight_thread_libr.Chan.Sending.{Open, readied}
use light_weight_thread_libr.Chan.Receiving.{Readable}
use light_weight_thread_libr.Chan.Full.{Queued}
use light_weight_thread_libr.Chan.Blocking.{not_next}
use light_weight_thread_libr.Thread.{retire, lwt_die, lwt_join}
use light_weight_thread_libr.Thread.Unjoined.{lwt_die-unjoined}
use light_weight_thread_libr.Thread.Collect.{Dead}
use light_weight_thread_libr.Machine.{Machine, step}
use light_weight_thread_libr.Machine.Reach.{Reach, next}
use light_weight_thread_libr.Machine.Collect.{Over, step_switched, lwt_join-dead}

-- The current thread is about to die; it shares the run queue with its parent `m`, which does not wait
-- on the unused channel `c` of its last word.
pub record Early (is_head : Node → Bool) (v : Node → List Node) (c m : ℕ) (w : World) : Type 0 where
  pub system : System is_head w v
  pub channel : Open w v c
  pub head : is_head (sender_queue c) ≡ true
  pub recycle_head : is_head (recycle_queue w.current_kthd) ≡ true
  pub others :
      erase Node-discrete (v (run_queue w.current_kthd)) (thread_node (lwt_current w))
      ≡ thread_node m ∷ []
  pub chl : (w.thread (lwt_current w)).chl ≡ c
  pub parent : (w.thread (lwt_current w)).parent ≡ m
  pub joins : (w.thread (lwt_current w)).nojoin ≡ 0
  pub free : is_awaited c w ≡ false
  pub drained : (w.chan c).buffer.head ≡ (w.chan c).buffer.tail
  pub no_buffer : (w.chan c).size ≡ 0
  pub senders : v (sender_queue c) ≡ []
  pub parent_ip : (w.thread m).context.ip ≡ ret_dispatch

module _ (is_head : Node → Bool) (w : World) (v : Node → List Node) (c m x : ℕ)
    (d : Early is_head v c m w) where
  abbrev t : ℕ
  t = lwt_current w

  abbrev behind : Node → List Node
  behind = move_to_end Node-discrete v (sender_queue c) (thread_node t)

  full : (w.chan c).buffer.tail ≡ (w.chan c).buffer.head + (w.chan c).size
  full = omega (arith, d.drained, d.no_buffer)

  pos : t ≢ 0
  pos =
      IsThread-has (thread_node t) (v (run_queue w.current_kthd)) (d.system).runs
        (d.system).current_in

  behind_run : behind (run_queue w.current_kthd) ≡ thread_node m ∷ []
  behind_run =
      move_to_end-ne Node-discrete v (sender_queue c) (thread_node t) (run_queue w.current_kthd)
        (λ f. cc)
      ∙ d.others

  behind_senders : behind (sender_queue c) ≡ thread_node t ∷ []
  behind_senders =
      move_to_end_at Node-discrete v (sender_queue c) (thread_node t) ∙ rw d.senders refl

  behind_recycled : behind (recycle_queue w.current_kthd) ≡ v (recycle_queue w.current_kthd)
  behind_recycled =
      move_to_end-ne Node-discrete v (sender_queue c) (thread_node t) (recycle_queue w.current_kthd)
        (λ f. cc)
      ∙ erase_of_not_has Node-discrete (thread_node t) (v (recycle_queue w.current_kthd)) (
          not_elsewhere Node-discrete is_head (d.system).queues (run_queue w.current_kthd)
            (recycle_queue w.current_kthd) (thread_node t) (d.system).run_head d.recycle_head
            (d.system).current_in (λ g. cc))

  -- Behind the first switch, the parent runs in `u`.
  module _ (u : World) (q : Queued is_head v c x m w u) where
    along : (P : LwtChannel → Type 0) → P (readied (w.chan c)) → P (u.chan c)
    along P = subst P (sym q.chan)

    full_IsChan : IsChan (readied (w.chan c)) (behind (sender_queue c))
    unfolding readied
    full_IsChan =
        let o = (d.channel).chan in
        record {
          pointer = o.pointer;
          order = o.order;
          fits = o.fits;
          few = o.few;
          small = o.small;
          busy = inl full;
        }

    blocked-Readable : Readable is_head (pop_registers u) behind c
    unfolding readied
    blocked-Readable = record {
      pointer = (d.channel).pointer;
      type = along (λ r. r.type ≡ local_chan) (d.channel).type;
      chan = along (λ r. IsChan r (behind (sender_queue c))) full_IsChan;
      head = d.head;
      system = System-owners (pop_registers u) q.system refl refl refl (λ y. inl refl);
    }

    blocked-Dead : Dead is_head behind c t [] (pop_registers u)
    unfolding readied lwt_current
    blocked-Dead = record {
      channel = blocked-Readable;
      drained = along (λ r. r.buffer.head ≡ r.buffer.tail) d.drained;
      blocked = behind_senders;
      alone =
          ap (λ j. behind (run_queue j)) q.kthd
          ∙ behind_run
          ∙ ap (λ y. thread_node y ∷ []) (sym q.now);
      recycle_head = rw q.kthd d.recycle_head;
      pos = pos;
      mine = q.owners t ∙ (d.system).owned t (d.system).current_in ∙ sym q.kthd;
      parent = (q.kin t).0 ∙ d.parent ∙ sym q.now;
      joins = (q.kin t).1 ∙ d.joins;
      chl = (q.kin t).2 ∙ d.chl;
    }

  module _ (code : ℕ → ℕ → Cmd ℕ) (k : ℕ → Cmd ℕ) (saved : ℕ → World → Outcome ℕ)
      (joins_next : (y : World) → saved m y ≡ and_then (lwt_join t (pop_registers y)) k) where
    abbrev before : Machine
    before = record { runs = t; now = and_then (lwt_die x w) (λ _. pure 0); saved = saved }

    abbrev Ends : Type 0
    Ends =
        (v' : Node → List Node) × (u : World) × (saved' : ℕ → World → Outcome ℕ) × Reach code
          (record { runs = t; now = and_then (lwt_die x w) (λ _. pure 0); saved = saved })
          (record { runs = m; now = k x u; saved = saved' })
        × Over is_head v v' m t w.current_kthd u

    module _ (u : World) (r : Cmd ℕ) (e : and_then (lwt_die x w) (λ _. pure 0) ≡ switched u r)
        (q : Queued is_head v c x m w u)
        (goes_on : (y : World)
          → r y ≡ and_then (lwt_schedule (retire t (pop_registers y))) (λ _. pure 0)) where
      abbrev saved1 : ℕ → World → Outcome ℕ
      saved1 = update ℕ_discrete saved t r

      abbrev p : ℕ
      p = lwt_current u

      apart : t ≢ m
      apart = not_next d.system m [] d.others

      parent_next : saved1 p u ≡ and_then (lwt_join t (pop_registers u)) k
      parent_next =
          ap (λ y. saved1 y u) q.now
          ∙ ap (λ f. f u) (if_neg (ℕ_discrete t m) apart r (saved m))
          ∙ joins_next u

      child_next :
          (y : World)
          → saved1 t y ≡ and_then (lwt_schedule (retire t (pop_registers y))) (λ _. pure 0)
      child_next y = ap (λ f. f y) (if_pos (ℕ_discrete t t) refl r (saved t)) ∙ goes_on y

      abbrev between : Machine
      between = record { runs = p; now = and_then (lwt_join t (pop_registers u)) k; saved = saved1 }

      first_switch : step code before ≡ some between
      first_switch =
          step_switched code t p (and_then (lwt_die x w) (λ _. pure 0)) saved u r e refl (
            ap (λ y. (u.thread y).context.ip) q.now
            ∙ ap (λ z. z.ip) (q.contexts m (λ g. apart (sym g)))
            ∙ d.parent_ip)
          ∙ ap (λ o. some (record { runs = p; now = o; saved = saved1 })) parent_next

      goes_to_end : Ends
      unfolding lwt_current
      goes_to_end =
          let j =
            lwt_join-dead is_head (pop_registers u) behind c t [] (blocked-Dead u q) code k saved1
              child_next (ap (λ y. (u.thread y).context.ip) refl ∙ q.saved_ip) in
          (
            j.0,
            j.1,
            j.2,
            next before between _ first_switch (
                subst (λ y. Reach code between (record { runs = y; now = k x j.1; saved = j.2 }))
                  q.now
                  (subst (λ y. Reach code between (record { runs = p; now = k y j.1; saved = j.2 }))
                    q.message j.3)),
            record {
              now = j.4.now ∙ q.now;
              zombie = j.4.zombie;
              alone =
                  ap (λ i. j.0 (run_queue i)) (sym q.kthd)
                  ∙ j.4.alone
                  ∙ ap (λ y. thread_node y ∷ []) q.now;
              recycled =
                  ap (λ i. j.0 (recycle_queue i)) (sym q.kthd)
                  ∙ j.4.recycled
                  ∙ ap (λ l. l ++ thread_node t ∷ [])
                      (ap (λ i. behind (recycle_queue i)) q.kthd ∙ behind_recycled);
              system = j.4.system;
            },
          )

    -- Given the invariant, a thread `t` that shares the run queue with its parent `m` only, and
    -- whose channel of size 0 is open, unused and not waited for; when `t` calls `lwt_die` with
    -- `x`, and `m`, switched away before, goes on with `lwt_join` of `t`, the machine reaches what
    -- follows the join, run by `m`, with `x` as the result: `m` alone is in the run queue, `t` is
    -- a zombie at the end of the recycle queue, and the invariant holds.
    pub lwt_join-lwt_die :
        (v' : Node → List Node) × (u : World) × (saved' : ℕ → World → Outcome ℕ) × Reach code
          (record { runs = t; now = and_then (lwt_die x w) (λ _. pure 0); saved = saved })
          (record { runs = m; now = k x u; saved = saved' })
        × Over is_head v v' m t w.current_kthd u
    lwt_join-lwt_die =
        let P = Queued is_head v c x m w in
        let l : Cmd (Unit {0}) = λ y. lwt_schedule (retire t (pop_registers y)) in
        let g =
          Gives-switched P (λ y. and_then (l y) (λ _. pure 0))
            (and_then (lwt_die x w) (λ _. pure 0))
            (Gives-bind P l (lwt_die x w) (λ _. pure 0)
              (lwt_die-unjoined d.system c x d.channel d.head m [] d.chl d.free full d.others)) in
        goes_to_end g.0 g.1 g.2 g.3 g.4
