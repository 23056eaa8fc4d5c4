-- ===== src/Chan/Blocking.antt =====
-- `__block_thread` of the current thread: it is set aside, and the next of the run queue runs.
use mathlib.Core.List.{erase}
use light_weight_thread_libr.Prelude.{
  ℕ, ◌≡◌, sym, ap, ◌∙◌, subst, ◌≢◌, Bool, true, false, List, ◌∷◌, arith, head_or,
}
use light_weight_thread_libr.Links.Queues.{IsQueues, has-erase}
use light_weight_thread_libr.Links.Refine.{dequeue, IsOut-dequeue}
use light_weight_thread_libr.Links.Ring.{has_self}
use light_weight_thread_libr.State.{
  World, Node, Node-discrete, thread_node, run_queue, LwtStatus, lwt_blocked, BlockStatus,
  ret_dispatch, lwt_current, can_run, inc,
}
use light_weight_thread_libr.State.Cmd.{done, pure}
use light_weight_thread_libr.State.Gives.{Gives, Gives-bind, Gives-mono}
use light_weight_thread_libr.Sched.{lwt_yield}
use light_weight_thread_libr.Sched.Handed.{Handed, Kin, Kin-trans, pop_registers}
use light_weight_thread_libr.Sched.System.{
  System, System-handed, AllThreads, AllThreads-erase, has_node, IsThread-has, First,
}
use light_weight_thread_libr.Sched.Yield.{GoesTo, lwt_yield-blocked}
use light_weight_thread_libr.Chan.Block.{put_aside, block_thread}
use light_weight_thread_libr.Chan.Resume.{PutAside, put_aside-PutAside}

-- `u` is `w` with the current thread blocked for `b` and `t` running.
pub record Blocked (t : ℕ) (b : BlockStatus) (w u : World) : Type 0 where
  pub now : lwt_current u ≡ t
  pub kthd : u.current_kthd ≡ w.current_kthd
  pub state : lwt_current w ≢ t → (u.thread (lwt_current w)).state ≡ lwt_blocked
  pub block_for : (u.thread (lwt_current w)).block_for ≡ b
  pub rcving : (x : ℕ) → (u.thread x).now_rcving ≡ (w.thread x).now_rcving
  pub owners : (x : ℕ) → (u.thread x).owner_kthd ≡ (w.thread x).owner_kthd
  pub saved_ip : (u.thread (lwt_current w)).context.ip ≡ ret_dispatch
  pub contexts : (x : ℕ) → x ≢ lwt_current w → (u.thread x).context ≡ (w.thread x).context
  pub kin : Kin w u
  pub messages : (x : ℕ) → (u.thread x).message_data ≡ (w.thread x).message_data
  pub chan : u.chan ≡ w.chan
  pub cgrp : u.cgrp ≡ w.cgrp
  pub blocked : (u.kthd w.current_kthd).block_counter ≡ inc (w.kthd w.current_kthd).block_counter

-- The queues without the current thread in its run queue, and the thread that comes first there.
pub record Leaves (w : World) (v v' : Node → List Node) : Type 0 where
  pub others :
      v' (run_queue w.current_kthd)
      ≡ erase Node-discrete (v (run_queue w.current_kthd)) (thread_node (lwt_current w))
  pub next : First (v' (run_queue w.current_kthd))

-- A thread is not among those that are left when it is taken out of its run queue.
pub not_next :
    {is_head : Node → Bool} {w : World} {v : Node → List Node}
    → System is_head w v
    → (t : ℕ) (rest : List Node)
    → erase Node-discrete (v (run_queue w.current_kthd)) (thread_node (lwt_current w))
      ≡ thread_node t ∷ rest
    → lwt_current w ≢ t
unfolding dequeue
not_next {is_head} {w} s t rest e f =
    let x = thread_node (lwt_current w) in
    let out =
      IsOut-dequeue Node-discrete is_head x s.queues (run_queue w.current_kthd) s.run_head in
    let gone : has_node x (thread_node t ∷ rest) ≡ false = ap (has_node x) (sym e) ∙ out in
    absurd (cc (gone, f, has_self Node-discrete x rest))

blocked_cannot : (x : LwtStatus) → x ≡ lwt_blocked → can_run x ≡ false
blocked_cannot x e = ap can_run e

module _ {is_head : Node → Bool} {w : World} {v : Node → List Node} (s : System is_head w v) where
  abbrev cur : ℕ
  cur = lwt_current w

  abbrev rq : Node
  rq = run_queue w.current_kthd

  after-Handed :
      (b : BlockStatus) (t : ℕ) (w' u : World)
      → PutAside cur b w w'
      → Handed cur t w' u
      → Blocked t b w u
  after-Handed b t w' u p h = record {
    now = h.now;
    kthd = h.kthd ∙ p.kthd;
    state = λ ne. h.states cur ne ∙ p.state;
    block_for = h.reasons cur ∙ p.block_for;
    rcving = λ x. h.rcving x ∙ p.rcving x;
    owners = λ x. h.owners x ∙ p.owners x;
    saved_ip = h.saved_ip;
    contexts = λ x ne. h.contexts x ne ∙ p.contexts x;
    kin = Kin-trans w w' u p.kin h.kin;
    messages = λ x. h.messages x ∙ p.messages x;
    chan = h.chan ∙ p.chan;
    cgrp = h.cgrp ∙ p.cgrp;
    blocked = h.blocked w.current_kthd ∙ p.blocked;
  }

  module _ (b : BlockStatus) (c : ℕ) (v' : Node → List Node) (l : Leaves w v v') where
    abbrev aside : World
    aside = put_aside cur b c w

    p : PutAside cur b w aside
    p = put_aside-PutAside cur b c w

    runs : AllThreads (v' rq)
    runs = subst AllThreads (sym l.others) (AllThreads-erase (thread_node cur) (v rq) s.runs)

    first_in : has_node (thread_node (l.next).thread) (v' rq) ≡ true
    first_in = rw (l.next).whole (ground arith)

    handed_System :
        (u : World)
        → Handed cur (l.next).thread aside u
        → IsQueues Node-discrete is_head u.links v'
        → System is_head u v'
    handed_System u h q =
        System-handed v' h q (cc (p.kthd, s.run_head)) s.nodes
          (cc (p.kthd, p.polling w.current_kthd, s.off))
          (subst (λ j. AllThreads (v' (run_queue j))) (sym p.kthd) runs) (cc (p.kthd, first_in))
          (λ x i.
            p.owners x
            ∙ s.owned x
                (kept x (subst (λ j. has_node (thread_node x) (v' (run_queue j)) ≡ true) p.kthd i))
            ∙ sym p.kthd)
      where
        kept :
            (x : ℕ)
            → has_node (thread_node x) (v' rq) ≡ true
            → has_node (thread_node x) (v rq) ≡ true
        kept x i =
            has-erase Node-discrete (thread_node cur) (thread_node x) (v rq) (rw l.others at i)

    yields :
        IsQueues Node-discrete is_head aside.links v'
        → Gives {A = ℕ}
            (GoesTo is_head aside v' (l.next).thread v')
            (λ x. done 0 (pop_registers x))
            (lwt_yield 0 aside)
    yields q =
        lwt_yield-blocked is_head aside v' (l.next).thread
          (λ e. IsThread-has (thread_node cur) (v rq) s.runs s.current_in (sym p.current ∙ e))
          (blocked_cannot (aside.thread (lwt_current aside)).state
            (ap (λ x. (aside.thread x).state) p.current ∙ p.state))
          q (cc (p.kthd, s.run_head)) (cc (p.kthd, p.polling w.current_kthd, s.off))
          (ap (λ j. head_or (run_queue j) (v' (run_queue j))) p.kthd
            ∙ ap (head_or rq) (l.next).whole)

  pub block_thread-Blocked :
      (b : BlockStatus) (c : ℕ) (v' : Node → List Node)
      → IsQueues Node-discrete is_head (put_aside cur b c w).links v'
      → (l : Leaves w v v')
      → Gives
          (λ u. Blocked (l.next).thread b w u × System is_head u v')
          (λ x. done tt (pop_registers x))
          (block_thread cur b c w)
  unfolding block_thread
  block_thread-Blocked b c v' q l =
      let t = (l.next).thread in
      let u' = aside b c v' l in
      let P = GoesTo is_head u' v' t v' in
      let Q : World → Type 0 = λ u. Blocked t b w u × System is_head u v' in
      Gives-bind Q (λ x. done 0 (pop_registers x)) (lwt_yield 0 u') (λ _. pure tt)
        (Gives-mono P Q (λ x. done 0 (pop_registers x)) (lwt_yield 0 u')
          (λ u g.
            let h = subst (λ x. Handed x t u' u) (p b c v' l).current g.0 in
            (after-Handed b t u' u (p b c v' l) h, handed_System b c v' l u h g.1))
          (yields b c v' l q))
