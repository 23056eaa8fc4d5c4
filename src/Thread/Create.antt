-- ===== src/Thread/Create.antt =====
-- `lwt_create`: a thread of the recycle queue is used again, or a new one gets a stack.
use light_weight_thread_libr.Prelude.{
  ℕ, ◌+◌, ◌%◌, ◌^◌, ◌≡◌, refl, sym, ap, ◌∙◌, subst, ◌≢◌, inl, inr, Bool, true, false, Bool-cases,
  List, [], ◌∷◌, ◌++◌, arith, ne→==,
}
use light_weight_thread_libr.Links.Ring.{has_self}
use light_weight_thread_libr.Links.Queues.{IsOut, not_elsewhere, has-erase, erase_of_not_has}
use light_weight_thread_libr.Links.Refine.{
  dequeue, enqueue, list_ll_empty-eq, n-head_or, list_ll_rem-IsQueues, IsOut-dequeue,
}
use light_weight_thread_libr.State.{
  World, Node, Node-discrete, thread_node, run_queue, recycle_queue, sender_queue, trampoline,
  lwt_current, list_rem, set_thread, sub, current_recycle_queue,
}
use light_weight_thread_libr.State.Cmd.{done, follow, umalloc}
use light_weight_thread_libr.State.Gives.{Returns, Returns-mono}
use light_weight_thread_libr.Sched.System.{
  System, System-change, System-owners, AllThreads, has_node,
}
use light_weight_thread_libr.Chan.Lifetime.{with_head, with_queue}
use light_weight_thread_libr.Thread.{reuse, take_thread, allocate, max_stack_size, lwt_create}
use light_weight_thread_libr.Thread.Started.{Starts, lwt_create-Starts}

module _ (is_head : Node → Bool) (w : World) (v : Node → List Node) (s : System is_head w v)
    (hr : is_head (recycle_queue w.current_kthd) ≡ true) where
  abbrev k : ℕ
  k = w.current_kthd

  abbrev pub rq : Node
  rq = run_queue k

  module _ (t : ℕ) (rest : List Node) (e : v (recycle_queue k) ≡ thread_node t ∷ rest) where
    -- The thread leaves the recycle queue.
    abbrev pub off_queue : World
    off_queue = list_rem w (thread_node t)

    abbrev pub without : Node → List Node
    without = dequeue Node-discrete v (thread_node t)

    pub take_lem : take_thread w ≡ done t off_queue
    unfolding take_thread reuse current_recycle_queue
    take_lem =
        rw
          (
            list_ll_empty-eq Node-discrete is_head s.queues (recycle_queue k) hr,
            n-head_or Node-discrete is_head s.queues (recycle_queue k) hr,
            e,
          )
          refl

    in_recycle : has_node (thread_node t) (v (recycle_queue k)) ≡ true
    in_recycle = rw e (has_self Node-discrete (thread_node t) rest)

    not_running : has_node (thread_node t) (v rq) ≡ false
    not_running =
        not_elsewhere Node-discrete is_head s.queues (recycle_queue k) rq (thread_node t) hr
          s.run_head in_recycle (λ g. cc)

    pub same_run : without rq ≡ v rq
    unfolding dequeue
    same_run = erase_of_not_has Node-discrete (thread_node t) (v rq) not_running

    pub off_System : System is_head off_queue without
    unfolding lwt_current
    off_System =
        System-change s off_queue
          (record { kthd = refl; current = refl; polling = λ x. refl; owners = λ x. refl }) without
          (list_ll_rem-IsQueues Node-discrete is_head s.queues (thread_node t)
            (inl (recycle_queue k, hr, in_recycle))).0
          (subst AllThreads (sym same_run) s.runs) (rw same_run s.current_in)
          (λ x i. s.owned x (rw same_run at i))

    pub IsOut-taken : IsOut Node-discrete is_head without (thread_node t)
    IsOut-taken = IsOut-dequeue Node-discrete is_head (thread_node t) s.queues

    pub IsOut-without :
        (x : Node) → IsOut Node-discrete is_head v x → IsOut Node-discrete is_head without x
    unfolding dequeue
    IsOut-without x out h hh = elim (Bool-cases (has_node x (without h))) [
      | inl here ↦ absurd (cc (has-erase Node-discrete (thread_node t) x (v h) here, out h hh))
      | inr free ↦ free
    ]

    module _ (c b : ℕ) (more : List ℕ) (pos : t ≢ 0) (some_left : w.supply ≡ c ∷ b ∷ more)
        (pos_c : c ≢ 0) (pos_b : b ≢ 0) (fresh : is_head (sender_queue c) ≡ false)
        (out : IsOut Node-discrete is_head v (sender_queue c)) (fn arg : ℕ) (nojoin : Bool) where
      -- Given the invariant, a recycle queue that is not empty, and two addresses from the
      -- allocator of which the first has no sender queue yet, `lwt_create` returns the first
      -- thread of the recycle queue, now at the end of the run queue; it will start in
      -- `__lwt_trampoline` twelve bytes below the top of its old stack, the caller is its parent,
      -- its channel is the new one, and the invariant is kept.
      pub lwt_create-System :
          let v' =
            enqueue Node-discrete
              (with_queue (dequeue Node-discrete v (thread_node t)) c)
              rq
              (thread_node t) in
          Returns
            (λ r u.
              (r ≡ t)
              × System (with_head is_head c) u v'
              × (v' rq ≡ v rq ++ thread_node t ∷ [])
              × ((u.thread t).context.ip ≡ trampoline)
              × ((u.thread t).context.sp ≡ sub (w.thread t).init_sp 12)
              × ((u.thread t).parent ≡ lwt_current w)
              × ((u.thread t).chl ≡ c))
            (lwt_create fn arg nojoin w)
      unfolding lwt_current
      lwt_create-System =
          Returns-mono
            (Starts is_head off_queue without t c b more off_System pos IsOut-taken some_left pos_c
              pos_b fresh (IsOut-without (sender_queue c) out) fn arg nojoin)
            Goal (lwt_create fn arg nojoin w)
            (λ r u z.
              (z.0, z.1, z.2 ∙ ap (λ l. l ++ thread_node t ∷ []) same_run, z.3, z.4, z.5, z.6))
            (lwt_create-Starts is_head off_queue without t c b more off_System pos IsOut-taken
              some_left pos_c pos_b fresh (IsOut-without (sender_queue c) out) fn arg nojoin w
              take_lem)
        where
          v' : Node → List Node
          v' = enqueue Node-discrete (with_queue without c) rq (thread_node t)

          Goal : ℕ → World → Type 0
          Goal = λ r u.
              (r ≡ t)
              × System (with_head is_head c) u v'
              × (v' rq ≡ v rq ++ thread_node t ∷ [])
              × ((u.thread t).context.ip ≡ trampoline)
              × ((u.thread t).context.sp ≡ sub (w.thread t).init_sp 12)
              × ((u.thread t).parent ≡ lwt_current w)
              × ((u.thread t).chl ≡ c)

  module _ (t stack c b : ℕ) (more : List ℕ) (e : v (recycle_queue k) ≡ []) (pos : t ≢ 0)
      (some_left : w.supply ≡ t ∷ stack ∷ c ∷ b ∷ more) where
    -- The stack of a new thread.
    abbrev pub on_stack : World
    on_stack =
        set_thread (record w { supply = c ∷ b ∷ more }) t
          (record (w.thread t) { init_sp = (stack + max_stack_size) % 2 ^ 32 })

    pub allocate_lem : take_thread w ≡ done t on_stack
    unfolding take_thread allocate umalloc follow current_recycle_queue
    allocate_lem =
        rw
          (
            list_ll_empty-eq Node-discrete is_head s.queues (recycle_queue k) hr,
            e,
            some_left,
            ne→== t 0 pos,
          )
          refl

    pub on_stack-System : System is_head on_stack v
    unfolding lwt_current
    on_stack-System = System-owners on_stack s refl refl refl (λ x. inl (ground arith))

    stack_top : (on_stack.thread t).init_sp ≡ (stack + max_stack_size) % 2 ^ 32
    stack_top = ground arith

    module _ (loose : IsOut Node-discrete is_head v (thread_node t)) (pos_c : c ≢ 0) (pos_b : b ≢ 0)
        (fresh : is_head (sender_queue c) ≡ false)
        (out : IsOut Node-discrete is_head v (sender_queue c)) (fn arg : ℕ) (nojoin : Bool) where
      -- Given the invariant, an empty recycle queue, and four addresses from the allocator, for a
      -- thread that is in no queue, its stack, a channel that has no sender queue yet, and its
      -- buffer, `lwt_create` returns the new thread, at the end of the run queue; it will start in
      -- `__lwt_trampoline` twelve bytes below the top of its stack, the caller is its parent, its
      -- channel is the new one, and the invariant is kept.
      pub lwt_create-allocates :
          let v' = enqueue Node-discrete (with_queue v c) rq (thread_node t) in
          Returns
            (λ r u.
              (r ≡ t)
              × System (with_head is_head c) u v'
              × (v' rq ≡ v rq ++ thread_node t ∷ [])
              × ((u.thread t).context.ip ≡ trampoline)
              × ((u.thread t).context.sp ≡ sub ((stack + max_stack_size) % 2 ^ 32) 12)
              × ((u.thread t).parent ≡ lwt_current w)
              × ((u.thread t).chl ≡ c))
            (lwt_create fn arg nojoin w)
      unfolding lwt_current
      lwt_create-allocates =
          Returns-mono
            (Starts is_head on_stack v t c b more on_stack-System pos loose refl pos_c pos_b fresh
              out fn arg nojoin)
            Goal (lwt_create fn arg nojoin w)
            (λ r u z. (z.0, z.1, z.2, z.3, z.4 ∙ ap (λ y. sub y 12) stack_top, z.5, z.6))
            (lwt_create-Starts is_head on_stack v t c b more on_stack-System pos loose refl pos_c
              pos_b fresh out fn arg nojoin w allocate_lem)
        where
          v' : Node → List Node
          v' = enqueue Node-discrete (with_queue v c) rq (thread_node t)

          Goal : ℕ → World → Type 0
          Goal = λ r u.
              (r ≡ t)
              × System (with_head is_head c) u v'
              × (v' rq ≡ v rq ++ thread_node t ∷ [])
              × ((u.thread t).context.ip ≡ trampoline)
              × ((u.thread t).context.sp ≡ sub ((stack + max_stack_size) % 2 ^ 32) 12)
              × ((u.thread t).parent ≡ lwt_current w)
              × ((u.thread t).chl ≡ c)
