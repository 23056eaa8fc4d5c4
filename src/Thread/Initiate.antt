-- ===== src/Thread/Initiate.antt =====
-- `__initiate`: the first thread of a kernel thread.
use light_weight_thread_libr.Prelude.{
  ℕ, ◌^◌, ◌<◌, ◌≡◌, refl, ap, sym, subst, ◌∙◌, ◌≢◌, Bool, true, false, List, [], ◌∷◌, arith, ne→==,
  ltb, ◌==◌, if◌then◌else◌,
}
use light_weight_thread_libr.Links.{update}
use light_weight_thread_libr.Links.Queues.{IsQueues, IsOut}
use light_weight_thread_libr.Links.Init.{list_ll_init-IsQueues}
use light_weight_thread_libr.Links.Refine.{enqueue_before_last, list_head_append-IsQueues}
use light_weight_thread_libr.State.{
  World, Node, Node-discrete, thread_node, run_queue, recycle_queue, wakeup_queue, sender_queue,
  lwt_running, lwt_current, enter_kthd, set_thread, set_kthd, head_append,
}
use light_weight_thread_libr.State.Cmd.{done, umalloc, follow}
use light_weight_thread_libr.State.Gives.{Returns}
use light_weight_thread_libr.Sched.System.{System, has_node}
use light_weight_thread_libr.Chan.Life.{fill_chan}
use light_weight_thread_libr.Chan.Lifetime.{with_head, with_queue, made, lwt_chan-made}
use light_weight_thread_libr.Thread.{
  init_kthd, begin_thread, give_chan, init_thread, initiate, max_kthd_num,
}
use light_weight_thread_libr.Thread.Forked.{Idle}

-- A node that may become a head.
abbrev pub Fresh : (Node → Bool) → (Node → List Node) → Node → Type 0
Fresh is_head v h = (is_head h ≡ false) × IsOut Node-discrete is_head v h

abbrev pub one_head : (Node → Bool) → Node → Node → Bool
one_head is_head h = update Node-discrete is_head h true

abbrev pub one_queue : (Node → List Node) → Node → Node → List Node
one_queue v h = update Node-discrete v h []

module _ (is_head : Node → Bool) (v : Node → List Node) (h : Node) where
  IsOut-one :
      (x : Node)
      → IsOut Node-discrete is_head v x
      → IsOut Node-discrete (one_head is_head h) (one_queue v h) x
  IsOut-one x out g hg = ground (arith, out g)

  Fresh-one : (x : Node) → h ≢ x → Fresh is_head v x → Fresh (one_head is_head h) (one_queue v h) x
  Fresh-one x ne f = (ground (arith, f.0), IsOut-one x f.1)

-- What the new kernel thread finds, and what its creator keeps.
pub record Initiated (k p c : ℕ) (more : List ℕ) (w u : World) : Type 0 where
  pub running : (u.thread p).state ≡ lwt_running
  pub current : lwt_current (enter_kthd k u) ≡ p
  pub receiver : (u.chan c).receiver ≡ (if w.current_kthd == k then p else lwt_current w)
  pub own : (u.thread p).chl ≡ c
  pub supply : u.supply ≡ more
  pub memory : u.memory ≡ w.memory
  pub creator : u.current_kthd ≡ w.current_kthd
  pub others : (j : ℕ) → j ≢ k → u.kthd j ≡ w.kthd j
  pub threads : (t : ℕ) → t ≢ p → u.thread t ≡ w.thread t

-- Kernel thread `k` is initialised by any other, or by itself.
module _ (is_head : Node → Bool) (w : World) (v : Node → List Node) (k p c b : ℕ) (more : List ℕ)
    (q : IsQueues Node-discrete is_head w.links v)
    (nodes : (t : ℕ) → is_head (thread_node t) ≡ false)
    (loose : IsOut Node-discrete is_head v (thread_node p)) (runs : Fresh is_head v (run_queue k))
    (recycles : Fresh is_head v (recycle_queue k)) (wakes : Fresh is_head v (wakeup_queue k))
    (sends : Fresh is_head v (sender_queue c)) (some_left : w.supply ≡ p ∷ c ∷ b ∷ more)
    (pos : p ≢ 0) (pos_c : c ≢ 0) (pos_b : b ≢ 0) (small : k < max_kthd_num) where
  abbrev heads3 : Node → Bool
  heads3 = one_head (one_head (one_head is_head (run_queue k)) (recycle_queue k)) (wakeup_queue k)

  abbrev queues3 : Node → List Node
  queues3 = one_queue (one_queue (one_queue v (run_queue k)) (recycle_queue k)) (wakeup_queue k)

  abbrev pub heads : Node → Bool
  heads = with_head heads3 c

  abbrev empty_queues : Node → List Node
  empty_queues = with_queue queues3 c

  abbrev pub queues : Node → List Node
  queues = enqueue_before_last Node-discrete empty_queues (run_queue k) (thread_node p)

  abbrev set_up : World
  set_up =
      let u = record (init_kthd k w) { supply = c ∷ b ∷ more } in
      begin_thread p (set_kthd u k (record (u.kthd k) { current_thread = p }))

  abbrev given : World
  given = give_chan p k c (made c b 0 more set_up)

  abbrev pub first : World
  first =
      let u = set_thread given p (record (given.thread p) { state = lwt_running }) in
      head_append (set_kthd u k (record (u.kthd k) { main_thread = p })) (run_queue k)
        (thread_node p)

  set_up_supply : set_up.supply ≡ c ∷ b ∷ more
  unfolding begin_thread
  set_up_supply = refl

  small_test : ltb k max_kthd_num ≡ true
  small_test = ground (arith, small)

  pub initiate_lem : initiate k w ≡ done tt first
  unfolding initiate init_thread init_kthd umalloc follow
  initiate_lem =
      rw (small_test, some_left, ne→== p 0 pos, lwt_chan-made c b 0 more set_up set_up_supply pos_c)
        refl

  queues3-IsQueues : IsQueues Node-discrete heads3 (init_kthd k w).links queues3
  unfolding init_kthd
  queues3-IsQueues =
      list_ll_init-IsQueues Node-discrete heads2 (wakeup_queue k)
        (list_ll_init-IsQueues Node-discrete heads1 (recycle_queue k)
          (list_ll_init-IsQueues Node-discrete is_head (run_queue k) q runs.0 runs.1) recycles1.0
          recycles1.1)
        wakes2.0 wakes2.1
    where
      heads1 : Node → Bool
      heads1 = one_head is_head (run_queue k)

      heads2 : Node → Bool
      heads2 = one_head heads1 (recycle_queue k)

      queues1 : Node → List Node
      queues1 = one_queue v (run_queue k)

      recycles1 : Fresh heads1 queues1 (recycle_queue k)
      recycles1 = Fresh-one is_head v (run_queue k) (recycle_queue k) (λ e. cc) recycles

      wakes2 : Fresh heads2 (one_queue queues1 (recycle_queue k)) (wakeup_queue k)
      wakes2 =
          Fresh-one heads1 queues1 (recycle_queue k) (wakeup_queue k) (λ e. cc)
            (Fresh-one is_head v (run_queue k) (wakeup_queue k) (λ e. cc) wakes)

  -- A node that is no queue of the kernel thread is as fresh as before.
  sends3 : Fresh heads3 queues3 (sender_queue c)
  sends3 = (ground (arith, sends.0), λ g hg. ground (arith, sends.1 g))

  loose3 : IsOut Node-discrete heads empty_queues (thread_node p)
  loose3 g hg = ground (arith, loose g)

  abbrev pub entered : World
  entered = enter_kthd k first

  first-IsQueues : IsQueues Node-discrete heads first.links queues
  unfolding made fill_chan give_chan begin_thread
  first-IsQueues =
      list_head_append-IsQueues Node-discrete heads
        (list_ll_init-IsQueues Node-discrete heads3 (sender_queue c) queues3-IsQueues sends3.0
          sends3.1)
        (run_queue k) (thread_node p) (ground arith) (ground (arith, nodes p)) loose3

  run_at : queues (run_queue k) ≡ thread_node p ∷ []
  unfolding enqueue_before_last
  run_at = ground arith

  recycle_at : queues (recycle_queue k) ≡ []
  unfolding enqueue_before_last
  recycle_at = ground arith

  first_owner : (first.thread p).owner_kthd ≡ k
  unfolding made fill_chan give_chan begin_thread
  first_owner = ground arith

  only : (t : ℕ) → has_node (thread_node t) (queues (run_queue k)) ≡ true → t ≡ p
  only t i =
      let j : has_node (thread_node t) (thread_node p ∷ []) ≡ true = rw run_at at i in ground arith

  first-System : System heads entered queues
  unfolding made fill_chan give_chan begin_thread init_kthd lwt_current
  first-System = record {
    queues = first-IsQueues;
    run_head = ground arith;
    nodes = λ t. ground (arith, nodes t);
    off = ground arith;
    runs = rw run_at (pos, tt);
    current_in = rw run_at (ground arith);
    owned = λ t i. ap (λ y. (first.thread y).owner_kthd) (only t i) ∙ first_owner;
  }

  pub first-Initiated : Initiated k p c more w first
  unfolding made fill_chan give_chan begin_thread lwt_current init_kthd
  first-Initiated = record {
    running = ground arith;
    current = ground arith;
    receiver = ground arith;
    own = ground arith;
    supply = refl;
    memory = refl;
    creator = refl;
    others = λ j ne. ground arith;
    threads = λ t ne. ground arith;
  }

  -- The kernel thread that calls `__initiate` for another one.
  module _ (s : System is_head w v) (other : w.current_kthd ≢ k) where
    abbrev j : ℕ
    j = w.current_kthd

    same_run : queues (run_queue j) ≡ v (run_queue j)
    unfolding enqueue_before_last
    same_run = ground arith

    same_kthd : first.kthd j ≡ w.kthd j
    same_kthd = first-Initiated.others j other

    same_current : lwt_current first ≡ lwt_current w
    unfolding made fill_chan give_chan begin_thread init_kthd lwt_current
    same_current = ap (λ r. r.current_thread) same_kthd

    old : (t : ℕ) → has_node (thread_node t) (v (run_queue j)) ≡ true → t ≢ p
    old t i e = ground (arith, i, loose (run_queue j), s.run_head)

    creator-System : System heads first queues
    unfolding made fill_chan give_chan begin_thread init_kthd lwt_current
    creator-System = record {
      queues = first-IsQueues;
      run_head = ground (arith, s.run_head);
      nodes = λ t. ground (arith, nodes t);
      off = ap (λ r. r.polling_flag) same_kthd ∙ s.off;
      runs = rw same_run s.runs;
      current_in = rw same_run (
          subst (λ t. has_node (thread_node t) (v (run_queue j)) ≡ true) (sym same_current)
            s.current_in);
      owned = λ t i.
          let i' : has_node (thread_node t) (v (run_queue j)) ≡ true = rw same_run at i in
          ap (λ r. r.owner_kthd) (first-Initiated.threads t (old t i')) ∙ s.owned t i';
    }

    -- Given the invariant of the kernel thread that calls `__initiate` for another one, `k`, with
    -- an index below `MAX_KTHD_NUM` and no queues yet, and addresses from the allocator for a
    -- thread that is in no queue and for its channel, the invariant of the caller is kept, with
    -- its run queue and its current thread.
    pub initiate-System :
        Returns
          (λ _ u.
            System heads u queues
            × (queues (run_queue w.current_kthd) ≡ v (run_queue w.current_kthd))
            × (lwt_current u ≡ lwt_current w))
          (initiate k w)
    initiate-System = rw initiate_lem (creator-System, same_run, same_current)

  module _ (stacks : (x : ℕ) → (w.thread x).init_sp < 2 ^ 32) (enough : 1 < w.rounds)
      (rounds : w.rounds < 2 ^ 32) where
    pub first-Idle : Idle heads queues p [] entered
    unfolding made fill_chan give_chan begin_thread init_kthd
    first-Idle = record {
      system = first-System;
      recycle_head = ground arith;
      alone = run_at;
      recycled = recycle_at;
      threads = tt;
      stacks = λ x. ground (arith, stacks x);
      no_zombies = ground arith;
      none_blocked = ground arith;
      enough = enough;
      small = rounds;
    }

    -- Given queues of which none belongs to kernel thread `k` yet, an index `k` below
    -- `MAX_KTHD_NUM`, more than one and fewer than 2 ^ 32 rounds, stack tops of 32 bits, and
    -- addresses from the allocator for a thread that is in no queue and for its channel,
    -- `__initiate` of `k`, called by this or another kernel thread, makes the thread the only one
    -- of the run queue of `k`: once `k` is the current kernel thread, it is idle, with an empty
    -- recycle queue and that thread running. The receiver of the thread's channel is the thread
    -- only if `k` calls, and otherwise the current thread of the caller. The current kernel
    -- thread, the other kernel threads, the other threads and the memory stay as they are.
    pub initiate-Idle :
        Returns
          (λ _ u. Idle heads queues p [] (enter_kthd k u) × Initiated k p c more w u)
          (initiate k w)
    initiate-Idle = rw initiate_lem (first-Idle, first-Initiated)
