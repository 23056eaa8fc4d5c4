-- ===== src/Thread/Joining.antt =====
-- `lwt_join` of a child that has not run yet.
use mathlib.Core.List.{erase}
use light_weight_thread_libr.Prelude.{
  ℕ, ◌+◌, ◌%◌, ◌^◌, ◌<◌, ◌≡◌, refl, sym, ap, ◌∙◌, subst, ◌≢◌, inl, Bool, true, false, List, [], ◌∷◌,
  arith, ne→==, ==-of_eq, head_or,
}
use light_weight_thread_libr.Links.Queues.{IsQueues, IsOut, erase_of_not_has, not_elsewhere}
use light_weight_thread_libr.Links.Ring.{IsLoose, IsRing, IsNodup}
use light_weight_thread_libr.Links.Refine.{dequeue, n-head_or, IsOut-dequeue}
use light_weight_thread_libr.State.{
  World, Node, Node-discrete, thread_node, run_queue, recycle_queue, sender_queue, trampoline,
  ret_dispatch, lwt_current, current_info, current_run_queue, blocked_receiving, can_run,
}
use light_weight_thread_libr.State.Cmd.{done, switched, and_then, pure, follow}
use light_weight_thread_libr.State.Gives.{Gives}
use light_weight_thread_libr.Sched.{lwt_yield}
use light_weight_thread_libr.Sched.Handed.{hand_to, pop_registers}
use light_weight_thread_libr.Sched.Yield.{lwt_yield-hand_to}
use light_weight_thread_libr.Sched.System.{System, AllThreads, has_node}
use light_weight_thread_libr.Chan.Block.{put_aside, block_thread, count, set_blocked}
use light_weight_thread_libr.Chan.Contents.{IsChan}
use light_weight_thread_libr.Chan.Receive.{set_rcving, wait_message, lwt_rcv}
use light_weight_thread_libr.Chan.Resume.{put_aside-receiving}
use light_weight_thread_libr.Chan.Receiving.{Readable}
use light_weight_thread_libr.Chan.Send.{is_awaited}
use light_weight_thread_libr.Chan.Waiting.{Awaiting, waits_lem, lwt_rcv-waits}
use light_weight_thread_libr.Thread.{may_join, lwt_join}
use light_weight_thread_libr.Thread.Forked.{Forked}

module _ (is_head : Node → Bool) (w : World) (v : Node → List Node) (m t c : ℕ) (rest : List Node)
    (fn arg : ℕ) (f : Forked is_head v m t c rest fn arg w) where
  abbrev aside : World
  aside = put_aside m blocked_receiving c (set_rcving m c w)

  -- The child runs, and the parent waits.
  abbrev pub asleep : World
  asleep = hand_to m t aside

  abbrev pub asleep_queues : Node → List Node
  asleep_queues = dequeue Node-discrete v (thread_node m)

  abbrev k : ℕ
  k = w.current_kthd

  pub runs : AllThreads (thread_node m ∷ thread_node t ∷ [])
  runs = subst AllThreads f.both ((f.channel).system).runs

  rings : IsRing Node-discrete w.links (run_queue k) (v (run_queue k))
  rings = ((f.channel).system).queues.ring (run_queue k) ((f.channel).system).run_head

  pub apart : m ≢ t
  apart g =
      let n : IsNodup Node-discrete (run_queue k ∷ thread_node m ∷ thread_node t ∷ []) =
        rw f.both at rings.nodup in
      ground (arith, n.1.0, g)

  left_at : asleep_queues (run_queue k) ≡ thread_node t ∷ []
  unfolding dequeue
  left_at = ground (arith, f.both, apart)

  here : has_node (thread_node m) (v (run_queue k)) ≡ true
  here = ground (arith, f.both)

  aside_queues :
      IsQueues Node-discrete is_head aside.links asleep_queues × IsLoose aside.links (thread_node m)
  unfolding set_rcving
  aside_queues =
      put_aside-receiving is_head m c (set_rcving m c w) v ((f.channel).system).queues
        (inl (run_queue k, ((f.channel).system).run_head, here))

  aside_first : aside.links.n (current_run_queue aside) ≡ thread_node t
  unfolding put_aside count set_blocked set_rcving current_run_queue
  aside_first =
      n-head_or Node-discrete is_head aside_queues.0 (run_queue k) ((f.channel).system).run_head
      ∙ ap (head_or (run_queue k)) left_at

  aside_current : lwt_current aside ≡ m
  unfolding put_aside count set_blocked set_rcving lwt_current
  aside_current = ground (arith, f.current)

  aside_state : can_run (aside.thread m).state ≡ false
  unfolding put_aside count set_blocked set_rcving
  aside_state = ground arith

  aside_off : (current_info aside).polling_flag ≡ 0
  unfolding put_aside count set_blocked set_rcving
  aside_off = ground (arith, ((f.channel).system).off)

  blocks :
      block_thread m blocked_receiving c (set_rcving m c w)
      ≡ switched asleep (λ x. done tt (pop_registers x))
  unfolding block_thread
  blocks =
      rw
        (
          lwt_yield-hand_to t aside (λ g. runs.0 (sym aside_current ∙ g))
              (ap (λ x. can_run (aside.thread x).state) aside_current ∙ aside_state) aside_off
              aside_first,
          aside_current,
        )
        refl

  left_behind :
      erase Node-discrete (v (run_queue k)) (thread_node (lwt_current w)) ≡ thread_node t ∷ []
  unfolding dequeue
  left_behind = ap (λ x. erase Node-discrete (v (run_queue k)) (thread_node x)) f.current ∙ left_at

  receives : lwt_rcv c w ≡ switched asleep (λ x. done (x.thread m).message_data (pop_registers x))
  unfolding wait_message dequeue
  receives =
      waits_lem is_head w v c f.channel t [] left_behind f.empty f.no_senders
        (f.receiver ∙ sym f.current)
      ∙ (rw (f.current, blocks) refl)

  joins : may_join t w ≡ true
  unfolding may_join
  joins = rw (f.current, f.parent, f.joins, ==-of_eq m m refl) refl

  pub join-asleep :
      lwt_join t w
      ≡ switched asleep
          (λ x. and_then (lwt_yield t (pop_registers x)) (λ _. pure (x.thread m).message_data))
  unfolding lwt_join follow
  join-asleep = rw (ne→== t 0 runs.1.0, joins, f.chl, receives) refl

  asleep_esp : asleep.esp ≡ (w.thread t).context.sp
  unfolding hand_to put_aside count set_blocked set_rcving
  asleep_esp = ground (arith, apart)

  asleep_memory : asleep.memory ≡ w.memory
  unfolding hand_to put_aside count set_blocked set_rcving
  asleep_memory = refl

  asleep_chan : asleep.chan ≡ w.chan
  unfolding hand_to put_aside count set_blocked set_rcving
  asleep_chan = refl

  pub asleep_kthd : asleep.current_kthd ≡ k
  unfolding hand_to put_aside count set_blocked set_rcving
  asleep_kthd = refl

  asleep-Awaiting : Awaiting is_head v c t w asleep
  unfolding dequeue
  asleep-Awaiting =
      let g : Gives (Awaiting is_head v c t w)
          (λ x. done (x.thread (lwt_current w)).message_data (pop_registers x)) (lwt_rcv c w) =
        lwt_rcv-waits is_head w v c f.channel t [] left_behind f.empty f.no_senders
          (f.receiver ∙ sym f.current) in
      (rw receives at g).0

  asleep_System : System is_head asleep asleep_queues
  asleep_System =
      subst (λ x. System is_head asleep (dequeue Node-discrete v (thread_node x))) f.current
        asleep-Awaiting.system

  asleep_senders : asleep_queues (sender_queue c) ≡ []
  unfolding dequeue
  asleep_senders = rw f.no_senders refl

  asleep_recycled : asleep_queues (recycle_queue k) ≡ rest
  unfolding dequeue
  asleep_recycled =
      erase_of_not_has Node-discrete (thread_node m) (v (recycle_queue k)) (
        not_elsewhere Node-discrete is_head ((f.channel).system).queues (run_queue k)
          (recycle_queue k) (thread_node m) ((f.channel).system).run_head f.recycle_head here
          (λ g. cc))
      ∙ f.recycled

  asleep-Readable : Readable is_head asleep asleep_queues c
  asleep-Readable = record {
    pointer = (f.channel).pointer;
    type = ap (λ g. (g c).type) asleep_chan ∙ (f.channel).type;
    chan =
        subst (λ g. IsChan (g c) (asleep_queues (sender_queue c))) (sym asleep_chan)
          (subst (IsChan (w.chan c)) (f.no_senders ∙ sym asleep_senders) (f.channel).chan);
    head = (f.channel).head;
    system = asleep_System;
  }

  -- What the child finds.
  pub record Asleep (u : World) : Type 0 where
    pub channel : Readable is_head u asleep_queues c
    pub receiver : (u.chan c).receiver ≡ m
    pub awaited : is_awaited c u ≡ true
    pub current : lwt_current u ≡ t
    pub chl : (u.thread t).chl ≡ c
    pub ip : (u.thread t).context.ip ≡ trampoline
    pub function : u.memory ((u.esp + 4) % 2 ^ 32) ≡ fn
    pub argument : u.memory ((u.esp + 8) % 2 ^ 32) ≡ arg
    pub saved_ip : (u.thread m).context.ip ≡ ret_dispatch
    pub out : IsOut Node-discrete is_head asleep_queues (thread_node m)
    pub loose : IsLoose u.links (thread_node m)
    pub mine : (u.thread m).owner_kthd ≡ u.current_kthd
    pub recycle_head : is_head (recycle_queue u.current_kthd) ≡ true
    pub child_alone : asleep_queues (run_queue u.current_kthd) ≡ thread_node t ∷ []
    pub recycled : asleep_queues (recycle_queue u.current_kthd) ≡ rest
    pub stacks : (x : ℕ) → (u.thread x).init_sp < 2 ^ 32
    pub supply : u.supply ≡ w.supply
    pub no_zombies : (current_info u).zombie_counter ≡ 0
    pub one_blocked : (current_info u).block_counter ≡ 1
    pub enough : 1 < u.rounds
    pub small : u.rounds < 2 ^ 32

  pub asleep-Asleep : Asleep asleep
  unfolding hand_to put_aside count set_blocked set_rcving lwt_current
  asleep-Asleep = record {
    channel = asleep-Readable;
    receiver = f.receiver;
    awaited = asleep-Awaiting.awaited;
    current = asleep-Awaiting.now;
    chl = ground (arith, f.chl, apart);
    ip = ground (arith, f.ip, apart);
    function = ap (λ e. w.memory ((e + 4) % 2 ^ 32)) asleep_esp ∙ f.function;
    argument = ap (λ e. w.memory ((e + 8) % 2 ^ 32)) asleep_esp ∙ f.argument;
    saved_ip = ground arith;
    out = IsOut-dequeue Node-discrete is_head (thread_node m) ((f.channel).system).queues;
    loose = aside_queues.1;
    mine = ground (arith, ((f.channel).system).owned m here);
    recycle_head = f.recycle_head;
    child_alone = left_at;
    recycled = asleep_recycled;
    stacks = λ x. ground (arith, f.stacks x);
    supply = refl;
    no_zombies = ground (arith, f.no_zombies);
    one_blocked = ground (arith, f.none_blocked);
    enough = f.enough;
    small = f.small;
  }
