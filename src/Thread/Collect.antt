-- ===== src/Thread/Collect.antt =====
-- `lwt_join` of a child that is blocked in `lwt_die`.
use mathlib.Core.List.{erase}
use light_weight_thread_libr.Prelude.{
  ℕ, ◌≡◌, ◌≢◌, refl, sym, ap, ◌∙◌, Bool, true, false, List, [], ◌∷◌, arith, ne→==, ==-of_eq,
}
use light_weight_thread_libr.Links.Ring.{has_self}
use light_weight_thread_libr.Links.Refine.{
  move_before_last, move_before_last_at, move_before_last-ne, erase_head,
}
use light_weight_thread_libr.Links.Queues.{erase_of_not_has, not_elsewhere}
use light_weight_thread_libr.State.{
  World, Node, Node-discrete, thread_node, run_queue, sender_queue, recycle_queue, ret_dispatch,
  lwt_current, lwt_running, can_run,
}
use light_weight_thread_libr.State.Gives.{Gives, Gives-bind, Gives-mono}
use light_weight_thread_libr.State.Cmd.{done, pure, follow}
use light_weight_thread_libr.Sched.{lwt_yield, uncount, set_runnable}
use light_weight_thread_libr.Sched.Handed.{pop_registers}
use light_weight_thread_libr.Sched.System.{System, has_node}
use light_weight_thread_libr.Sched.Turns.{Runs, lwt_yield-reaches}
use light_weight_thread_libr.Chan.Block.{resume_thread}
use light_weight_thread_libr.Chan.Receive.{lwt_rcv}
use light_weight_thread_libr.Chan.Receiving.{Readable}
use light_weight_thread_libr.Chan.Meeting.{wk, final, final-Took, direct, returns}
use light_weight_thread_libr.Chan.Full.{sender_apart}
use light_weight_thread_libr.Thread.{may_join, lwt_join}

-- The current thread is alone in the run queue, and its child `t` is the first that is blocked on the
-- channel `c` of its last word.
pub record Dead (is_head : Node → Bool) (v : Node → List Node) (c t : ℕ) (rest : List Node)
    (w : World) : Type 0 where
  pub channel : Readable is_head w v c
  pub drained : (w.chan c).buffer.head ≡ (w.chan c).buffer.tail
  pub blocked : v (sender_queue c) ≡ thread_node t ∷ rest
  pub alone : v (run_queue w.current_kthd) ≡ thread_node (lwt_current w) ∷ []
  pub recycle_head : is_head (recycle_queue w.current_kthd) ≡ true
  pub pos : t ≢ 0
  pub mine : (w.thread t).owner_kthd ≡ w.current_kthd
  pub parent : (w.thread t).parent ≡ lwt_current w
  pub joins : (w.thread t).nojoin ≡ 0
  pub chl : (w.thread t).chl ≡ c

-- `u` is `w` with the child `t` running again, in front of its parent.
pub record Collected (is_head : Node → Bool) (v v' : Node → List Node) (c t : ℕ) (rest : List Node)
    (w u : World) : Type 0 where
  pub now : lwt_current u ≡ t
  pub kthd : u.current_kthd ≡ w.current_kthd
  pub saved_ip : (u.thread (lwt_current w)).context.ip ≡ ret_dispatch
  pub contexts : (x : ℕ) → x ≢ lwt_current w → (u.thread x).context ≡ (w.thread x).context
  pub running : (u.thread t).state ≡ lwt_running
  pub queue : v' (run_queue w.current_kthd) ≡ thread_node t ∷ thread_node (lwt_current w) ∷ []
  pub senders : v' (sender_queue c) ≡ rest
  pub recycled : v' (recycle_queue w.current_kthd) ≡ v (recycle_queue w.current_kthd)
  pub system : System is_head u v'

module _ (is_head : Node → Bool) (w : World) (v : Node → List Node) (c t : ℕ) (rest : List Node)
    (d : Dead is_head v c t rest w) where
  abbrev cur : ℕ
  cur = lwt_current w

  abbrev rq : Node
  rq = run_queue w.current_kthd

  abbrev moved : Node → List Node
  moved = move_before_last Node-discrete v rq (thread_node t)

  abbrev pub collected_queues : Node → List Node
  collected_queues = move_before_last Node-discrete moved rq (thread_node t)

  abbrev took : World
  took = final is_head w v c t rest d.channel d.blocked d.pos d.mine d.drained

  blocked_in : has_node (thread_node t) (v (sender_queue c)) ≡ true
  blocked_in = rw d.blocked (has_self Node-discrete (thread_node t) rest)

  pub apart : t ≢ cur
  apart g =
      let out =
        sender_apart (d.channel).system c cur (d.channel).head (d.channel).system.current_in in
      cc (g, out, blocked_in)

  took_kthd : took.current_kthd ≡ w.current_kthd
  took_kthd = (wk is_head w v c t rest d.channel d.blocked d.pos d.mine).kthd

  took_current : lwt_current took ≡ cur
  unfolding lwt_current resume_thread uncount set_runnable
  took_current = ground arith

  took_System : System is_head took moved
  took_System = (final-Took is_head w v c t rest d.channel d.blocked d.pos d.mine d.drained).system

  not_running : has_node (thread_node t) (thread_node cur ∷ []) ≡ false
  not_running = ground (arith, apart)

  moved_at : moved rq ≡ thread_node t ∷ thread_node cur ∷ []
  moved_at =
      move_before_last_at Node-discrete v rq (thread_node t)
      ∙ rw
          (
            d.alone,
            erase_of_not_has Node-discrete (thread_node t) (thread_node cur ∷ []) not_running,
          )
          refl

  left : erase Node-discrete (moved rq) (thread_node t) ≡ thread_node cur ∷ []
  left = rw moved_at (erase_head Node-discrete (thread_node t) (thread_node cur ∷ []))

  queue : collected_queues rq ≡ thread_node t ∷ thread_node cur ∷ []
  queue = move_before_last_at Node-discrete moved rq (thread_node t) ∙ rw left refl

  moved_senders : moved (sender_queue c) ≡ rest
  moved_senders =
      move_before_last-ne Node-discrete v rq (thread_node t) (sender_queue c) (λ f. cc)
      ∙ rw d.blocked (erase_head Node-discrete (thread_node t) rest)

  senders : has_node (thread_node t) rest ≡ false → collected_queues (sender_queue c) ≡ rest
  senders once =
      move_before_last-ne Node-discrete moved rq (thread_node t) (sender_queue c) (λ f. cc)
      ∙ rw (moved_senders, erase_of_not_has Node-discrete (thread_node t) rest once) refl

  once : has_node (thread_node t) rest ≡ false
  once =
      let q = ((d.channel).system.queues.ring (sender_queue c) (d.channel).head).nodup.1 in
      (rw d.blocked at q).0

  took_contexts : (x : ℕ) → (took.thread x).context ≡ (w.thread x).context
  unfolding resume_thread uncount set_runnable
  took_contexts x = ground arith

  recycled : collected_queues (recycle_queue w.current_kthd) ≡ v (recycle_queue w.current_kthd)
  recycled =
      let r = recycle_queue w.current_kthd in
      let out : has_node (thread_node t) (v r) ≡ false =
        not_elsewhere Node-discrete is_head (d.channel).system.queues (sender_queue c) r
          (thread_node t) (d.channel).head d.recycle_head blocked_in (λ g. cc) in
      let once : moved r ≡ v r =
        move_before_last-ne Node-discrete v rq (thread_node t) r (λ g. cc)
        ∙ erase_of_not_has Node-discrete (thread_node t) (v r) out in
      move_before_last-ne Node-discrete moved rq (thread_node t) r (λ g. cc)
      ∙ rw (once, erase_of_not_has Node-discrete (thread_node t) (v r) out) refl

  abbrev Gone : World → Type 0
  Gone u = Collected is_head v collected_queues c t rest w u

  yields : Gives {A = ℕ} Gone (λ x. done 0 (pop_registers x)) (lwt_yield t took)
  unfolding resume_thread uncount set_runnable
  yields =
      Gives-mono (Runs took_System t collected_queues) Gone (λ x. done 0 (pop_registers x))
        (lwt_yield t took)
        (λ u r. record {
          now = r.0.now;
          kthd = r.0.kthd;
          saved_ip = ap (λ x. (u.thread x).context.ip) (sym took_current) ∙ r.0.saved_ip;
          contexts = λ x ne. r.0.contexts x (λ g. ne (g ∙ took_current)) ∙ took_contexts x;
          running = r.0.running;
          queue = queue;
          senders = senders once;
          recycled = recycled;
          system = r.1;
        })
        (lwt_yield-reaches took_System t (λ g. apart (g ∙ took_current))
          (ap can_run (wk is_head w v c t rest d.channel d.blocked d.pos d.mine).state)
          (rw moved_at (has_self Node-discrete (thread_node t) (thread_node cur ∷ [])))
          (thread_node cur) left)

  receives : lwt_rcv c w ≡ done (w.thread t).message_data took
  receives =
      direct is_head w v c t rest d.channel d.blocked d.pos d.mine d.drained
      ∙ returns is_head w v c t rest d.channel d.blocked d.pos d.mine d.drained

  may : may_join t w ≡ true
  unfolding may_join
  may = rw (d.parent, d.joins, ==-of_eq cur cur refl) refl

  -- `lwt_join` takes the last word from the child and runs it again; that word is the result.
  pub lwt_join-collects :
      Gives Gone (λ x. done (w.thread t).message_data (pop_registers x)) (lwt_join t w)
  unfolding lwt_join follow
  lwt_join-collects =
      rw (ne→== t 0 d.pos, may, d.chl, receives)
        (Gives-bind Gone (λ x. done 0 (pop_registers x)) (lwt_yield t took)
          (λ _. pure (w.thread t).message_data) yields)
