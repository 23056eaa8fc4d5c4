-- ===== src/Thread/Started.antt =====
-- `lwt_create` once it has a thread, which is in no queue: it ends up behind the run queue.
use mathlib.Core.Logic.{if_pos, if_neg}
use light_weight_thread_libr.Prelude.{
  ℕ, ◌≡◌, refl, sym, ap, ◌∙◌, subst, ◌≢◌, ◌⊎◌, inl, inr, Bool, true, false, List, [], ◌∷◌, ◌++◌,
  arith, ne→==,
}
use light_weight_thread_libr.Links.Ring.{has-append}
use light_weight_thread_libr.Links.Queues.{IsOut}
use light_weight_thread_libr.Links.Refine.{enqueue, list_head_add-IsQueues}
use light_weight_thread_libr.State.{
  World, Node, Node-discrete, thread_node, run_queue, sender_queue, trampoline, lwt_current, sub,
  head_add, current_run_queue,
}
use light_weight_thread_libr.State.Cmd.{done, follow}
use light_weight_thread_libr.State.Gives.{Returns}
use light_weight_thread_libr.Sched.System.{
  System, System-change, System-owners, AllThreads, AllThreads-append, has_node,
}
use light_weight_thread_libr.Chan.Life.{fill_chan}
use light_weight_thread_libr.Chan.Lifetime.{made, with_head, with_queue, lwt_chan-made}
use light_weight_thread_libr.Thread.{
  begin_thread, give_chan, init_thread, prepare, take_thread, lwt_create,
}
use light_weight_thread_libr.Thread.Prepared.{
  begun, n, supply_lem, given, with_kthd, given_owner, given_System,
}

module _ (is_head : Node → Bool) (w : World) (v : Node → List Node) (t c b : ℕ) (more : List ℕ)
    (s : System is_head w v) (pos : t ≢ 0) (loose : IsOut Node-discrete is_head v (thread_node t))
    (some_left : w.supply ≡ c ∷ b ∷ more) (pos_c : c ≢ 0) (pos_b : b ≢ 0)
    (fresh : is_head (sender_queue c) ≡ false)
    (out : IsOut Node-discrete is_head v (sender_queue c)) where
  abbrev pub run : Node
  run = run_queue w.current_kthd

  abbrev pub heads : Node → Bool
  heads = with_head is_head c

  abbrev pub queued : Node → List Node
  queued = with_queue v c

  abbrev pub begun_thread : World
  begun_thread = given is_head w v t c b more s pos loose some_left pos_c pos_b fresh out

  module _ (fn arg : ℕ) (nojoin : Bool) where
    abbrev pub ready : World
    ready = prepare t fn arg nojoin begun_thread

    ready_System : System heads ready queued
    unfolding prepare
    ready_System =
        System-owners ready
          (given_System is_head w v t c b more s pos loose some_left pos_c pos_b fresh out) refl
          refl refl (λ x. inl (ground arith))

    abbrev pub started : World
    started = head_add ready run (thread_node t)

    abbrev pub started_queues : Node → List Node
    started_queues = enqueue Node-discrete queued run (thread_node t)

    init_lem : init_thread t w.current_kthd w ≡ done tt begun_thread
    unfolding init_thread follow
    init_lem =
        rw
          (
            ne→== t 0 pos,
            lwt_chan-made c b 0 more
                (begun is_head w v t c b more s pos loose some_left pos_c pos_b fresh out)
                (supply_lem is_head w v t c b more s pos loose some_left pos_c pos_b fresh out)
                pos_c,
          )
          refl

    ready_kthd : ready.current_kthd ≡ w.current_kthd
    unfolding prepare give_chan
    ready_kthd = (with_kthd is_head w v t c b more s pos loose some_left pos_c pos_b fresh out)

    ready_current : lwt_current ready ≡ lwt_current w
    unfolding prepare give_chan begin_thread lwt_current
    ready_current = (n is_head w v t c b more s pos loose some_left pos_c pos_b fresh out).current

    ready_owner : (ready.thread t).owner_kthd ≡ w.current_kthd
    unfolding prepare
    ready_owner = ground (
      arith,
      (given_owner is_head w v t c b more s pos loose some_left pos_c pos_b fresh out),
      (with_kthd is_head w v t c b more s pos loose some_left pos_c pos_b fresh out),
    )

    pub create_lem :
        (u : World) → take_thread u ≡ done t w → lwt_create fn arg nojoin u ≡ done t started
    unfolding lwt_create current_run_queue
    create_lem u taken =
        rw (taken, init_lem)
          (ap (λ j. done t (head_add ready (run_queue j) (thread_node t))) ready_kthd)

    queues_run : queued run ≡ v run
    queues_run = ground arith

    IsOut-queues : IsOut Node-discrete heads queued (thread_node t)
    IsOut-queues h hh = elim (Node-discrete (sender_queue c) h) [
      | yes f ↦ rw (if_pos (Node-discrete (sender_queue c) h) f) refl
      | no ne ↦
          rw (if_neg (Node-discrete (sender_queue c) h) ne)
            (loose h (sym (if_neg (Node-discrete (sender_queue c) h) ne true (is_head h)) ∙ hh))
    ]

    head-run : heads run ≡ true
    head-run = ground (arith, s.run_head)

    node_free : heads (thread_node t) ≡ false
    node_free = ground (arith, s.nodes t)

    pub started_at : started_queues run ≡ v run ++ thread_node t ∷ []
    unfolding enqueue
    started_at =
        if_pos (Node-discrete run run) refl (queued run ++ thread_node t ∷ []) (queued run)
        ∙ ap (λ l. l ++ thread_node t ∷ []) queues_run

    at : started_queues (run_queue ready.current_kthd) ≡ v run ++ thread_node t ∷ []
    at = ap (λ j. started_queues (run_queue j)) ready_kthd ∙ started_at

    run_at : queued (run_queue ready.current_kthd) ≡ v run
    run_at = ap (λ j. queued (run_queue j)) ready_kthd ∙ queues_run

    in_started :
        (x : ℕ)
        → has_node (thread_node x) (v run ++ thread_node t ∷ []) ≡ true
        → (x ≡ t) ⊎ (has_node (thread_node x) (v run) ≡ true)
    in_started x i =
        ground (arith, has-append Node-discrete (thread_node x) (v run) (thread_node t ∷ []))

    pub started_System : System heads started started_queues
    unfolding lwt_current
    started_System =
        System-change ready_System started
          (record { kthd = refl; current = refl; polling = λ x. refl; owners = λ x. refl })
          started_queues
          (list_head_add-IsQueues Node-discrete heads ready_System.queues run (thread_node t)
            head-run node_free IsOut-queues)
          (subst AllThreads (sym at)
            (AllThreads-append (v run) (thread_node t ∷ []) s.runs (pos, tt)))
          (rw (at, ready_current)
            (ground (
              arith,
              s.current_in,
              has-append Node-discrete (thread_node (lwt_current w)) (v run) (thread_node t ∷ []),
            )))
          (λ x i. elim (in_started x (rw at at i)) [
            | inl f ↦ ap (λ y. (ready.thread y).owner_kthd) f ∙ ready_owner ∙ sym ready_kthd
            | inr j ↦ ready_System.owned x (rw run_at j)
          ])

    ready_start :
        ((ready.thread t).context.ip ≡ trampoline)
        × ((ready.thread t).context.sp ≡ sub (w.thread t).init_sp 12)
        × ((ready.thread t).parent ≡ lwt_current begun_thread)
        × ((ready.thread t).chl ≡ c)
    unfolding prepare give_chan begin_thread made fill_chan
    ready_start = (ground arith, ground arith, ground arith, ground arith)

    given_current : lwt_current begun_thread ≡ lwt_current w
    unfolding give_chan begin_thread lwt_current
    given_current = (n is_head w v t c b more s pos loose some_left pos_c pos_b fresh out).current

    -- A thread that was taken for `lwt_create` in `u`, at the end of the run queue.
    abbrev pub Starts : ℕ → World → Type 0
    Starts r x =
        (r ≡ t)
        × System heads x started_queues
        × (started_queues run ≡ v run ++ thread_node t ∷ [])
        × ((x.thread t).context.ip ≡ trampoline)
        × ((x.thread t).context.sp ≡ sub (w.thread t).init_sp 12)
        × ((x.thread t).parent ≡ lwt_current w)
        × ((x.thread t).chl ≡ c)

    pub lwt_create-Starts :
        (u : World) → take_thread u ≡ done t w → Returns Starts (lwt_create fn arg nojoin u)
    lwt_create-Starts u taken = rw (create_lem u taken) (
      refl,
      started_System,
      started_at,
      ready_start.0,
      ready_start.1,
      ready_start.2 ∙ given_current,
      ready_start.3,
    )
