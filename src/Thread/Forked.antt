-- ===== src/Thread/Forked.antt =====
-- The state behind `lwt_create` in a kernel thread with one thread that can run.
use light_weight_thread_libr.Prelude.{
  ℕ, ◌+◌, ◌%◌, ◌^◌, ◌<◌, ◌≡◌, refl, ap, ◌∙◌, ◌≢◌, inr, Bool, true, false, List, [], ◌∷◌, ◌++◌,
  arith,
}
use light_weight_thread_libr.Links.Queues.{IsOut}
use light_weight_thread_libr.Links.Refine.{dequeue, enqueue}
use light_weight_thread_libr.State.{
  World, Node, Node-discrete, thread_node, run_queue, recycle_queue, sender_queue, trampoline,
  lwt_current, current_info,
}
use light_weight_thread_libr.State.Cmd.{done}
use light_weight_thread_libr.Sched.System.{System, AllThreads, has_node}
use light_weight_thread_libr.Chan.Lifetime.{with_head, made}
use light_weight_thread_libr.Chan.Life.{fill_chan}
use light_weight_thread_libr.Chan.Contents.{IsChan}
use light_weight_thread_libr.Chan.Receiving.{Readable}
use light_weight_thread_libr.Thread.{begin_thread, give_chan, prepare, take_thread, lwt_create}
use light_weight_thread_libr.Thread.Started.{
  create_lem, started, started_queues, started_System, started_at,
}

-- `m` alone can run, and the threads of the recycle queue are `idle`.
pub record Idle (is_head : Node → Bool) (v : Node → List Node) (m : ℕ) (idle : List Node)
    (w : World) : Type 0 where
  pub system : System is_head w v
  pub recycle_head : is_head (recycle_queue w.current_kthd) ≡ true
  pub alone : v (run_queue w.current_kthd) ≡ thread_node m ∷ []
  pub recycled : v (recycle_queue w.current_kthd) ≡ idle
  pub threads : AllThreads idle
  pub stacks : (x : ℕ) → (w.thread x).init_sp < 2 ^ 32
  pub no_zombies : (current_info w).zombie_counter ≡ 0
  pub none_blocked : (current_info w).block_counter ≡ 0
  pub enough : 1 < w.rounds
  pub small : w.rounds < 2 ^ 32

-- `take_thread` has taken `t` in `w`, which is in no queue of `u`; `m` alone can run.
pub record Taken (is_head : Node → Bool) (v : Node → List Node) (m t : ℕ) (rest : List Node)
    (w u : World) : Type 0 where
  pub takes : take_thread w ≡ done t u
  pub system : System is_head u v
  pub pos : t ≢ 0
  pub loose : IsOut Node-discrete is_head v (thread_node t)
  pub recycle_head : is_head (recycle_queue u.current_kthd) ≡ true
  pub alone : v (run_queue u.current_kthd) ≡ thread_node m ∷ []
  pub recycled : v (recycle_queue u.current_kthd) ≡ rest
  pub others : AllThreads rest
  pub stacks : (x : ℕ) → (u.thread x).init_sp < 2 ^ 32
  pub no_zombies : (current_info u).zombie_counter ≡ 0
  pub none_blocked : (current_info u).block_counter ≡ 0
  pub enough : 1 < u.rounds
  pub small : u.rounds < 2 ^ 32

-- `m` runs, and its child `t` will run `fn arg` and tell it the result over channel `c`.
pub record Forked (is_head : Node → Bool) (v : Node → List Node) (m t c : ℕ) (rest : List Node)
    (fn arg : ℕ) (w : World) : Type 0 where
  pub channel : Readable is_head w v c
  pub receiver : (w.chan c).receiver ≡ m
  pub empty : (w.chan c).buffer.head ≡ (w.chan c).buffer.tail
  pub no_senders : v (sender_queue c) ≡ []
  pub recycle_head : is_head (recycle_queue w.current_kthd) ≡ true
  pub both : v (run_queue w.current_kthd) ≡ thread_node m ∷ thread_node t ∷ []
  pub recycled : v (recycle_queue w.current_kthd) ≡ rest
  pub current : lwt_current w ≡ m
  pub chl : (w.thread t).chl ≡ c
  pub parent : (w.thread t).parent ≡ m
  pub joins : (w.thread t).nojoin ≡ 0
  pub ip : (w.thread t).context.ip ≡ trampoline
  pub function : w.memory (((w.thread t).context.sp + 4) % 2 ^ 32) ≡ fn
  pub argument : w.memory (((w.thread t).context.sp + 8) % 2 ^ 32) ≡ arg
  pub stacks : (x : ℕ) → (w.thread x).init_sp < 2 ^ 32
  pub no_zombies : (current_info w).zombie_counter ≡ 0
  pub none_blocked : (current_info w).block_counter ≡ 0
  pub enough : 1 < w.rounds
  pub small : w.rounds < 2 ^ 32

module _ (is_head : Node → Bool) (w u : World) (v : Node → List Node) (m t c b : ℕ)
    (rest : List Node) (more : List ℕ) (i : Taken is_head v m t rest w u)
    (some_left : u.supply ≡ c ∷ b ∷ more) (pos_c : c ≢ 0) (pos_b : b ≢ 0)
    (fresh : is_head (sender_queue c) ≡ false)
    (out : IsOut Node-discrete is_head v (sender_queue c)) (fn arg : ℕ) where
  current-eq : lwt_current u ≡ m
  current-eq =
      let j : has_node (thread_node (lwt_current u)) (thread_node m ∷ []) ≡ true =
        rw i.alone at i.system.current_in in
      ground arith

  abbrev pub forked : World
  forked =
      started is_head u v t c b more i.system i.pos i.loose some_left pos_c pos_b fresh out fn arg
        false

  abbrev pub forked_queues : Node → List Node
  forked_queues =
      started_queues is_head u v t c b more i.system i.pos i.loose some_left pos_c pos_b fresh out
        fn arg false

  pub create-forked : lwt_create fn arg false w ≡ done t forked
  create-forked =
      create_lem is_head u v t c b more i.system i.pos i.loose some_left pos_c pos_b fresh out fn
        arg false w i.takes

  parent : (forked.thread t).parent ≡ m
  unfolding prepare give_chan begin_thread lwt_current made fill_chan
  parent = ground (arith, current-eq)

  kthd : forked.current_kthd ≡ u.current_kthd
  unfolding prepare give_chan begin_thread made fill_chan
  kthd = refl

  forked_System : System (with_head is_head c) forked forked_queues
  forked_System =
      started_System is_head u v t c b more i.system i.pos i.loose some_left pos_c pos_b fresh out
        fn arg false

  both : forked_queues (run_queue u.current_kthd) ≡ thread_node m ∷ thread_node t ∷ []
  both =
      started_at is_head u v t c b more i.system i.pos i.loose some_left pos_c pos_b fresh out fn
        arg false
      ∙ ap (λ l. l ++ thread_node t ∷ []) i.alone

  no_senders : forked_queues (sender_queue c) ≡ []
  unfolding enqueue
  no_senders = ground arith

  recycled : forked_queues (recycle_queue u.current_kthd) ≡ rest
  unfolding enqueue dequeue
  recycled = ground (arith, i.recycled)

  forked_IsChan : IsChan (forked.chan c) (forked_queues (sender_queue c))
  unfolding prepare give_chan begin_thread made fill_chan
  forked_IsChan = record {
    pointer = λ g. ground arith;
    order = ground arith;
    fits = ground arith;
    few = ground arith;
    small = ground arith;
    busy = inr no_senders;
  }

  pub forked-Forked : Forked (with_head is_head c) forked_queues m t c rest fn arg forked
  unfolding prepare give_chan begin_thread lwt_current made fill_chan
  forked-Forked = record {
    channel = record {
      pointer = pos_c;
      type = ground arith;
      chan = forked_IsChan;
      head = ground arith;
      system = forked_System;
    };
    receiver = ground (arith, current-eq);
    empty = ground arith;
    no_senders = no_senders;
    recycle_head = ground (arith, i.recycle_head);
    both = both;
    recycled = recycled;
    current = current-eq;
    chl = ground arith;
    parent = parent;
    joins = ground arith;
    ip = ground arith;
    function = ground (arith, i.stacks t);
    argument = ground (arith, i.stacks t);
    stacks = λ x. ground (arith, i.stacks x);
    no_zombies = i.no_zombies;
    none_blocked = i.none_blocked;
    enough = i.enough;
    small = i.small;
  }

  pub forked_supply : forked.supply ≡ more
  unfolding prepare give_chan begin_thread made fill_chan
  forked_supply = refl
