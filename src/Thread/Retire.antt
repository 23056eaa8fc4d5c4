-- ===== src/Thread/Retire.antt =====
-- The end of `lwt_die`: the thread goes to the recycle queue, and another one runs.
use mathlib.Core.List.{erase}
use light_weight_thread_libr.Prelude.{
  ℕ, ◌≡◌, ◌≢◌, refl, sym, ap, ◌∙◌, subst, inl, Bool, true, List, [], ◌∷◌, ◌++◌, arith, head_or,
}
use light_weight_thread_libr.Links.Queues.{IsQueues, has-erase, erase_of_not_has, not_elsewhere}
use light_weight_thread_libr.Links.Refine.{
  move_to_end, move_to_end_at, move_to_end-ne, move_to_end-IsQueues, n-head_or,
}
use light_weight_thread_libr.State.{
  World, Node, Node-discrete, thread_node, run_queue, recycle_queue, lwt_current, lwt_running,
  lwt_zombies, current_recycle_queue, current_run_queue, current_info,
}
use light_weight_thread_libr.State.Gives.{Gives, Gives-mono}
use light_weight_thread_libr.State.Cmd.{done}
use light_weight_thread_libr.Sched.{lwt_schedule}
use light_weight_thread_libr.Sched.Handed.{Handed, pop_registers, lwt_schedule-Handed}
use light_weight_thread_libr.Sched.System.{
  System, System-handed, AllThreads, AllThreads-erase, Kept,
}
use light_weight_thread_libr.Chan.Blocking.{not_next}
use light_weight_thread_libr.Thread.{retire}

-- `u` is `w` after the current thread has gone to the recycle queue: `f` runs.
pub record Retired (is_head : Node → Bool) (v v' : Node → List Node) (f : ℕ) (rest : List Node)
    (w u : World) : Type 0 where
  pub now : lwt_current u ≡ f
  pub kthd : u.current_kthd ≡ w.current_kthd
  pub contexts : (x : ℕ) → x ≢ lwt_current w → (u.thread x).context ≡ (w.thread x).context
  pub running : (u.thread f).state ≡ lwt_running
  pub zombie : (u.thread (lwt_current w)).state ≡ lwt_zombies
  pub messages : (x : ℕ) → (u.thread x).message_data ≡ (w.thread x).message_data
  pub left : v' (run_queue w.current_kthd) ≡ thread_node f ∷ rest
  pub recycled :
      v' (recycle_queue w.current_kthd)
      ≡ v (recycle_queue w.current_kthd) ++ thread_node (lwt_current w) ∷ []
  pub system : System is_head u v'

module _ {is_head : Node → Bool} {w : World} {v : Node → List Node} (s : System is_head w v)
    (hk : is_head (recycle_queue w.current_kthd) ≡ true) (f : ℕ) (rest : List Node)
    (e : erase Node-discrete (v (run_queue w.current_kthd)) (thread_node (lwt_current w))
      ≡ thread_node f ∷ rest) where
  abbrev cur : ℕ
  cur = lwt_current w

  abbrev rq : Node
  rq = run_queue w.current_kthd

  abbrev retired : World
  retired = retire cur w

  abbrev v' : Node → List Node
  v' = move_to_end Node-discrete v (recycle_queue w.current_kthd) (thread_node cur)

  retired-Kept : Kept w retired
  unfolding retire lwt_current
  retired-Kept = record {
    kthd = refl;
    current = ground arith;
    polling = λ x. ground arith;
    owners = λ x. ground arith;
  }

  retired_queues : IsQueues Node-discrete is_head retired.links v'
  unfolding retire current_recycle_queue
  retired_queues =
      move_to_end-IsQueues Node-discrete is_head s.queues (recycle_queue w.current_kthd)
        (thread_node cur) hk (s.nodes cur) (inl (rq, s.run_head, s.current_in))

  retired_zombie : (retired.thread cur).state ≡ lwt_zombies
  unfolding retire
  retired_zombie = ground arith

  retired_messages : (x : ℕ) → (retired.thread x).message_data ≡ (w.thread x).message_data
  unfolding retire
  retired_messages x = ground arith

  retired_contexts : (x : ℕ) → (retired.thread x).context ≡ (w.thread x).context
  unfolding retire
  retired_contexts x = ground arith

  left : v' rq ≡ thread_node f ∷ rest
  left =
      move_to_end-ne Node-discrete v (recycle_queue w.current_kthd) (thread_node cur) rq (λ g. cc)
      ∙ e

  recycled :
      v' (recycle_queue w.current_kthd) ≡ v (recycle_queue w.current_kthd) ++ thread_node cur ∷ []
  recycled =
      move_to_end_at Node-discrete v (recycle_queue w.current_kthd) (thread_node cur)
      ∙ ap (λ l. l ++ thread_node cur ∷ [])
          (erase_of_not_has Node-discrete (thread_node cur) (v (recycle_queue w.current_kthd)) (
            not_elsewhere Node-discrete is_head s.queues rq (recycle_queue w.current_kthd)
              (thread_node cur) s.run_head hk s.current_in (λ g. cc)))

  off : (current_info retired).polling_flag ≡ 0
  off = cc (retired-Kept.kthd, retired-Kept.polling w.current_kthd, s.off)

  first : retired.links.n (current_run_queue retired) ≡ thread_node f
  unfolding current_run_queue
  first =
      rw retired-Kept.kthd
        (n-head_or Node-discrete is_head retired_queues rq s.run_head ∙ ap (head_or rq) left)

  runs : AllThreads (thread_node f ∷ rest)
  runs = subst AllThreads e (AllThreads-erase (thread_node cur) (v rq) s.runs)

  gone :
      (u : World)
      → Handed (lwt_current retired) f retired u × (u.links ≡ retired.links)
      → Retired is_head v v' f rest w u
  gone u h = record {
    now = h.0.now;
    kthd = h.0.kthd ∙ retired-Kept.kthd;
    contexts = λ x ne. h.0.contexts x (λ g. ne (g ∙ retired-Kept.current)) ∙ retired_contexts x;
    running = h.0.running;
    zombie = h.0.states cur (not_next s f rest e) ∙ retired_zombie;
    messages = λ x. h.0.messages x ∙ retired_messages x;
    left = left;
    recycled = recycled;
    system =
        System-handed v' h.0
          (subst (λ l. IsQueues Node-discrete is_head l v') (sym h.1) retired_queues)
          (rw retired-Kept.kthd s.run_head) s.nodes off (rw (retired-Kept.kthd, left) runs)
          (rw (retired-Kept.kthd, left) (ground arith))
          (λ x i.
            retired-Kept.owners x
            ∙ s.owned x (
                has-erase Node-discrete (thread_node cur) (thread_node x) (v rq)
                  (rw e (rw (retired-Kept.kthd, left) at i)))
            ∙ sym retired-Kept.kthd);
  }

  -- The end of `lwt_die` of a thread that shares the run queue with others.
  pub lwt_schedule-retire :
      Gives
        (Retired is_head v v' f rest w)
        (λ x. done tt (pop_registers x))
        (lwt_schedule (retire cur w))
  lwt_schedule-retire =
      Gives-mono (λ u. Handed (lwt_current retired) f retired u × (u.links ≡ retired.links))
        (Retired is_head v v' f rest w) (λ x. done tt (pop_registers x)) (lwt_schedule retired) gone
        (lwt_schedule-Handed f retired off first)
