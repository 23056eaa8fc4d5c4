-- ===== src/Group/Sleep.antt =====
-- lwt_chl.c: `lwt_cgrp_wait` on a group without a ready channel.
use mathlib.Core.List.{erase}
use light_weight_thread_libr.Prelude.{
  ℕ, suc, ◌<◌, ◌≡◌, refl, sym, ap, ◌∙◌, subst, ◌≢◌, inl, Bool, true, false, none, List, ◌∷◌, arith,
  length, head_or,
}
use light_weight_thread_libr.Links.{list_ll_rem}
use light_weight_thread_libr.Links.Queues.{IsQueues, has-erase}
use light_weight_thread_libr.Links.Refine.{
  is_empty, dequeue, list_ll_empty-eq, list_ll_rem-IsQueues,
}
use light_weight_thread_libr.State.{
  World, Node, Node-discrete, thread_node, run_queue, chl_list, lwt_blocked, can_run, lwt_current,
  current_info,
}
use light_weight_thread_libr.State.Cmd.{done, and_then}
use light_weight_thread_libr.State.Gives.{Gives, Gives-bind, Gives-mono}
use light_weight_thread_libr.Sched.{lwt_yield}
use light_weight_thread_libr.Sched.Handed.{pop_registers}
use light_weight_thread_libr.Sched.System.{
  System, System-handed, AllThreads, AllThreads-erase, has_node, IsThread-has,
}
use light_weight_thread_libr.Sched.Yield.{GoesTo, lwt_yield-blocked}
use light_weight_thread_libr.Chan.Block.{count, set_blocked}
use light_weight_thread_libr.Chan.Blocking.{not_next}
use light_weight_thread_libr.Group.{
  find_ready, set_waiting, wait_aside, wait_end, wait_loop, lwt_cgrp_wait,
}
use light_weight_thread_libr.Group.Ready.{NoneReady, find_ready-none}

-- The owner `t` of group `g` goes to sleep.
record Aside (g t : ℕ) (w u : World) : Type 0 where
  links : u.links ≡ list_ll_rem Node-discrete w.links (thread_node t)
  state : (u.thread t).state ≡ lwt_blocked
  owners : (x : ℕ) → (u.thread x).owner_kthd ≡ (w.thread x).owner_kthd
  kthd : u.current_kthd ≡ w.current_kthd
  current : lwt_current u ≡ lwt_current w
  polling : (x : ℕ) → (u.kthd x).polling_flag ≡ (w.kthd x).polling_flag
  waits : (u.cgrp g).blocked ≡ 1

wait_aside-Aside : (g t : ℕ) (w : World) → Aside g t w (wait_aside g t w)
unfolding wait_aside set_waiting count set_blocked lwt_current
wait_aside-Aside g t w = record {
  links = refl;
  state = ground arith;
  owners = λ x. ground arith;
  kthd = refl;
  current = ground arith;
  polling = λ x. ground arith;
  waits = ground arith;
}

pub wait_loop-none :
    (rounds g t : ℕ) (w : World)
    → find_ready w.rounds g w (w.links.n (chl_list g)) ≡ done none w
    → wait_loop (suc rounds) g t w
      ≡ and_then (lwt_yield 0 (wait_aside g t w)) (λ _. wait_loop rounds g t)
unfolding wait_loop wait_end
wait_loop-none rounds g t w e = rw e refl

-- `u` is `w` with the current thread asleep on group `g`, in no queue, and `t` running.
pub record Asleep (is_head : Node → Bool) (v : Node → List Node) (g t : ℕ) (w u : World)
    : Type 0 where
  pub now : lwt_current u ≡ t
  pub state : (u.thread (lwt_current w)).state ≡ lwt_blocked
  pub waits : (u.cgrp g).blocked ≡ 1
  pub system : System is_head u (dequeue Node-discrete v (thread_node (lwt_current w)))

module _ (is_head : Node → Bool) (w : World) (v : Node → List Node) (g t : ℕ) (rest : List Node)
    (s : System is_head w v)
    (e : erase Node-discrete (v (run_queue w.current_kthd)) (thread_node (lwt_current w))
      ≡ thread_node t ∷ rest) where
  abbrev cur : ℕ
  cur = lwt_current w

  abbrev rq : Node
  rq = run_queue w.current_kthd

  abbrev without : Node → List Node
  without = dequeue Node-discrete v (thread_node cur)

  abbrev aside : World
  aside = wait_aside g cur w

  a : Aside g cur w aside
  a = wait_aside-Aside g cur w

  without_run : without rq ≡ thread_node t ∷ rest
  unfolding dequeue
  without_run = e

  aside_run : without (run_queue aside.current_kthd) ≡ thread_node t ∷ rest
  aside_run = ap (λ j. without (run_queue j)) a.kthd ∙ without_run

  queues : IsQueues Node-discrete is_head aside.links without
  queues =
      subst (λ l. IsQueues Node-discrete is_head l without) (sym a.links)
        (list_ll_rem-IsQueues Node-discrete is_head s.queues (thread_node cur)
          (inl (rq, s.run_head, s.current_in))).0

  cannot : can_run (aside.thread (lwt_current aside)).state ≡ false
  cannot = ap can_run (ap (λ x. (aside.thread x).state) a.current ∙ a.state)

  here : lwt_current aside ≢ 0
  here f = IsThread-has (thread_node cur) (v rq) s.runs s.current_in (sym a.current ∙ f)

  aside_head : is_head (run_queue aside.current_kthd) ≡ true
  aside_head = cc (a.kthd, s.run_head)

  aside_off : (current_info aside).polling_flag ≡ 0
  aside_off = cc (a.kthd, a.polling w.current_kthd, s.off)

  runs : AllThreads (thread_node t ∷ rest)
  runs = subst AllThreads e (AllThreads-erase (thread_node cur) (v rq) s.runs)

  kept :
      (x : ℕ)
      → has_node (thread_node x) (thread_node t ∷ rest) ≡ true
      → has_node (thread_node x) (v rq) ≡ true
  kept x i = has-erase Node-discrete (thread_node cur) (thread_node x) (v rq) (rw e i)

  asleep : (u : World) → GoesTo is_head aside without t without u → Asleep is_head v g t w u
  asleep u h = record {
    now = h.0.now;
    state = h.0.states cur (not_next s t rest e) ∙ a.state;
    waits = ap (λ f. (f g).blocked) h.0.cgrp ∙ a.waits;
    system =
        System-handed without h.0 h.1 aside_head s.nodes aside_off
          (subst AllThreads (sym aside_run) runs) (rw aside_run (ground arith))
          (λ x i. a.owners x ∙ s.owned x (kept x (rw aside_run at i)) ∙ sym a.kthd);
  }

  yields :
      Gives {A = ℕ} (Asleep is_head v g t w) (λ x. done 0 (pop_registers x)) (lwt_yield 0 aside)
  yields =
      Gives-mono (GoesTo is_head aside without t without) (Asleep is_head v g t w)
        (λ x. done 0 (pop_registers x)) (lwt_yield 0 aside) asleep
        (lwt_yield-blocked is_head aside without t here cannot queues aside_head aside_off
          (ap (head_or (run_queue aside.current_kthd)) aside_run))

  -- Given the invariant, on a group that has channels, none of them ready, `lwt_cgrp_wait` of a
  -- thread that shares the run queue with others puts it to sleep in no queue, marks the group as
  -- waited for, and the first of the others runs; the invariant is kept, and when the thread runs
  -- again it looks at the channels again, with one round less. More rounds than channels are
  -- enough.
  pub lwt_cgrp_wait-sleeps :
      (rounds : ℕ)
      → w.rounds ≡ suc rounds
      → is_head (chl_list g) ≡ true
      → is_empty (v (chl_list g)) ≡ false
      → NoneReady w (v (chl_list g))
      → length (v (chl_list g)) < w.rounds
      → Gives
          (Asleep is_head v g t w)
          (λ x. wait_loop rounds g cur (pop_registers x))
          (lwt_cgrp_wait g w)
  unfolding lwt_cgrp_wait
  lwt_cgrp_wait-sleeps rounds er hg ne idle lt =
      let found =
        find_ready-none w.rounds g w (chl_list g) (v (chl_list g)) idle
          (s.queues.ring (chl_list g) hg).seg lt in
      let goes : wait_loop w.rounds g cur w
          ≡ and_then (lwt_yield 0 aside) (λ _. wait_loop rounds g cur) =
        ap (λ r. wait_loop r g cur w) er ∙ wait_loop-none rounds g cur w found in
      rw (list_ll_empty-eq Node-discrete is_head s.queues (chl_list g) hg, ne, goes)
        (Gives-bind (Asleep is_head v g t w) (λ x. done 0 (pop_registers x)) (lwt_yield 0 aside)
          (λ _. wait_loop rounds g cur) yields)
