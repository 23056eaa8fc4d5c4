-- ===== src/Thread/Die.antt =====
-- `lwt_die` of a thread whose parent waits in `lwt_join`.
use mathlib.Core.List.{erase}
use light_weight_thread_libr.Prelude.{
  ℕ, ◌≡◌, refl, sym, ap, ◌∙◌, subst, ◌≢◌, Bool, true, false, List, [], ◌∷◌, ◌++◌, arith, head_or,
  ℕ_discrete,
}
use light_weight_thread_libr.Links.Queues.{has-erase}
use light_weight_thread_libr.Links.Refine.{dequeue, IsOut-dequeue, n-head_or}
use light_weight_thread_libr.State.{
  World, Node, Node-discrete, thread_node, run_queue, recycle_queue, lwt_zombies, dec, inc,
  lwt_current, can_run, current_run_queue, current_info,
}
use light_weight_thread_libr.State.Cmd.{done, switched}
use light_weight_thread_libr.State.Gives.{Gives}
use light_weight_thread_libr.Sched.{uncount, set_runnable}
use light_weight_thread_libr.Sched.Handed.{
  Handed, hand_to, hand_to-Handed, hand_to-links, lwt_schedule-hand_to, pop_registers,
}
use light_weight_thread_libr.Sched.System.{
  System, System-handed, AllThreads, AllThreads-erase, has_node,
}
use light_weight_thread_libr.Chan.Handing.{told_message}
use light_weight_thread_libr.Chan.Block.{resume_thread}
use light_weight_thread_libr.Chan.Sending.{hold_message}
use light_weight_thread_libr.Thread.{last_word, retire, lwt_die}
use light_weight_thread_libr.Thread.Dying.{
  Dying, said, said-Kept, said-Readable, resumed, resumed_queues, resumed_System, resumed-Resumed,
  retired, die_lem, resumed_current, resumed_kthd, queues, retired_queues, retired-Kept,
  retired_zombie, retired_others, recycled_at, apart, left_at,
}

-- `u` is `w` after the death of the current thread: `f` runs, and its parent `a` has the message `m`.
pub record Died (is_head : Node → Bool) (v : Node → List Node) (a m f : ℕ) (w u : World)
    : Type 0 where
  pub current : lwt_current u ≡ f
  pub message : (u.thread a).message_data ≡ m
  pub runs : can_run (u.thread a).state ≡ true
  pub zombie : (u.thread (lwt_current w)).state ≡ lwt_zombies
  pub contexts : (x : ℕ) → x ≢ lwt_current w → (u.thread x).context ≡ (w.thread x).context
  pub stacks : (x : ℕ) → (u.thread x).init_sp ≡ (w.thread x).init_sp
  pub supply : u.supply ≡ w.supply
  pub kthd : u.current_kthd ≡ w.current_kthd
  pub zombies : (current_info u).zombie_counter ≡ dec (inc (current_info w).zombie_counter)
  pub blocked : (current_info u).block_counter ≡ dec (current_info w).block_counter
  pub rounds : u.rounds ≡ w.rounds
  pub system : System is_head u v

module _ (is_head : Node → Bool) (w : World) (v : Node → List Node) (c m a : ℕ)
    (d : Dying is_head v c a w) (f : ℕ) (rest : List Node)
    (e : erase Node-discrete
        ((resumed_queues is_head w v c m a d) (run_queue w.current_kthd))
        (thread_node (lwt_current w))
      ≡ thread_node f ∷ rest) where
  pub run_at : (queues is_head w v c m a d) (run_queue w.current_kthd) ≡ thread_node f ∷ rest
  run_at = (left_at is_head w v c m a d) ∙ e

  retired_kthd : (retired is_head w v c m a d).current_kthd ≡ w.current_kthd
  retired_kthd = (retired-Kept is_head w v c m a d).kthd ∙ (resumed_kthd is_head w v c m a d)

  retired_current : lwt_current (retired is_head w v c m a d) ≡ (lwt_current w)
  retired_current =
      (retired-Kept is_head w v c m a d).current ∙ (resumed_current is_head w v c m a d)

  retired_off : (current_info (retired is_head w v c m a d)).polling_flag ≡ 0
  unfolding hold_message lwt_current
  retired_off = cc (
    (retired-Kept is_head w v c m a d).kthd,
    (retired-Kept is_head w v c m a d).polling (resumed is_head w v c m a d).current_kthd,
    (resumed_System is_head w v c m a d).off,
  )

  first :
      (retired is_head w v c m a d).links.n (current_run_queue (retired is_head w v c m a d))
      ≡ thread_node f
  unfolding current_run_queue
  first = rw retired_kthd (
      n-head_or Node-discrete is_head (retired_queues is_head w v c m a d)
        (run_queue w.current_kthd) (d.channel).system.run_head
      ∙ ap (head_or (run_queue w.current_kthd)) run_at)

  abbrev pub after : World
  after = hand_to (lwt_current w) f (retired is_head w v c m a d)

  pub lwt_die-hand_to : lwt_die m w ≡ switched after (λ x. done tt (pop_registers x))
  lwt_die-hand_to =
      (die_lem is_head w v c m a d)
      ∙ lwt_schedule-hand_to f (retired is_head w v c m a d) retired_off first
      ∙ ap
          (λ t.
            switched (hand_to t f (retired is_head w v c m a d)) (λ x. done tt (pop_registers x)))
          retired_current

  after-Handed : Handed (lwt_current w) f (retired is_head w v c m a d) after
  after-Handed = hand_to-Handed (lwt_current w) f (retired is_head w v c m a d)

  owned :
      (x : ℕ)
      → has_node
          (thread_node x)
          ((queues is_head w v c m a d) (run_queue (retired is_head w v c m a d).current_kthd))
        ≡ true
      → ((retired is_head w v c m a d).thread x).owner_kthd
        ≡ (retired is_head w v c m a d).current_kthd
  owned x i =
      let j : has_node (thread_node x) (
            (resumed_queues is_head w v c m a d)
              (run_queue (resumed is_head w v c m a d).current_kthd))
          ≡ true =
        rw (resumed_kthd is_head w v c m a d) (
          has-erase Node-discrete (thread_node (lwt_current w)) (thread_node x)
            ((resumed_queues is_head w v c m a d) (run_queue w.current_kthd))
            (rw (retired_kthd, (left_at is_head w v c m a d)) at i)) in
      (retired-Kept is_head w v c m a d).owners x
      ∙ (resumed_System is_head w v c m a d).owned x j
      ∙ sym (retired-Kept is_head w v c m a d).kthd

  after_System : System is_head after (queues is_head w v c m a d)
  after_System =
      System-handed (queues is_head w v c m a d) after-Handed
        (rw (hand_to-links (lwt_current w) f (retired is_head w v c m a d))
          (retired_queues is_head w v c m a d))
        (rw retired_kthd (d.channel).system.run_head) (d.channel).system.nodes retired_off
        (rw retired_kthd (
          rw (left_at is_head w v c m a d) (
            AllThreads-erase (thread_node (lwt_current w))
              ((resumed_queues is_head w v c m a d) (run_queue w.current_kthd))
              (subst (λ j. AllThreads ((resumed_queues is_head w v c m a d) (run_queue j)))
                (resumed_kthd is_head w v c m a d) (resumed_System is_head w v c m a d).runs))))
        (rw (retired_kthd, run_at) (ground arith)) owned

  after_parent : can_run (after.thread a).state ≡ true
  after_parent = elim (ℕ_discrete a f) [
    | yes g ↦ ap (λ x. can_run (after.thread x).state) g ∙ ap can_run after-Handed.running
    | no ne ↦ ap can_run (
        after-Handed.states a ne
        ∙ ap (λ r. r.state) ((retired_others is_head w v c m a d) a (apart is_head w v c m a d))
        ∙ (resumed-Resumed is_head w v c m a d).state)
  ]

  not_first : (lwt_current w) ≢ f
  unfolding dequeue
  not_first g =
      let no : has_node (thread_node (lwt_current w)) (thread_node f ∷ rest) ≡ false = rw e at (
        IsOut-dequeue Node-discrete is_head (thread_node (lwt_current w))
          (resumed_System is_head w v c m a d).queues (run_queue w.current_kthd)
          (d.channel).system.run_head) in
      ground (arith, g, no)

  after_zombie : (after.thread (lwt_current w)).state ≡ lwt_zombies
  after_zombie =
      after-Handed.states (lwt_current w) not_first ∙ (retired_zombie is_head w v c m a d)

  after_message : (after.thread a).message_data ≡ m
  unfolding last_word
  after_message =
      after-Handed.messages a
      ∙ ap (λ r. r.message_data)
          ((retired_others is_head w v c m a d) a (apart is_head w v c m a d))
      ∙ (resumed-Resumed is_head w v c m a d).messages a
      ∙ told_message is_head (said is_head w v c m a d) v c m a (said-Readable is_head w v c m a d)
          d.receiver d.pos d.out d.loose ((said-Kept is_head w v c m a d).owners a ∙ d.mine)

  after_contexts : (x : ℕ) → x ≢ (lwt_current w) → (after.thread x).context ≡ (w.thread x).context
  unfolding hand_to retire resume_thread uncount set_runnable hold_message last_word
  after_contexts x ne = ground arith

  after_stacks : (x : ℕ) → (after.thread x).init_sp ≡ (w.thread x).init_sp
  unfolding hand_to retire resume_thread uncount set_runnable hold_message last_word
  after_stacks x = ground arith

  after_zombies : (current_info after).zombie_counter ≡ dec (inc (current_info w).zombie_counter)
  unfolding hand_to retire resume_thread uncount set_runnable hold_message last_word
  after_zombies = ground arith

  after_blocked : (current_info after).block_counter ≡ dec (current_info w).block_counter
  unfolding hand_to retire resume_thread uncount set_runnable hold_message last_word
  after_blocked = ground arith

  after_rounds : after.rounds ≡ w.rounds
  unfolding hand_to retire resume_thread uncount set_runnable hold_message last_word
  after_rounds = refl

  after_supply : after.supply ≡ w.supply
  unfolding hand_to retire resume_thread uncount set_runnable hold_message last_word
  after_supply = refl

  pub after-Died : Died is_head (queues is_head w v c m a d) a m f w after
  after-Died = record {
    current = after-Handed.now;
    message = after_message;
    runs = after_parent;
    zombie = after_zombie;
    contexts = after_contexts;
    stacks = after_stacks;
    supply = after_supply;
    kthd = after-Handed.kthd ∙ retired_kthd;
    zombies = after_zombies;
    blocked = after_blocked;
    rounds = after_rounds;
    system = after_System;
  }

  -- Given a local channel of the dying thread whose receiver is in no queue, belongs to this
  -- kernel thread and waits for a message of this channel, `lwt_die` gives the processor to the
  -- first of the run queue, in which the receiver is again but the dying thread is not: the
  -- receiver has the message and can run, the dying thread is a zombie behind the recycle queue,
  -- stacks and saved contexts of the others are untouched, and the invariant is kept.
  pub lwt_die-awaited :
      Gives
        (λ u.
          Died is_head (queues is_head w v c m a d) a m f w u
          × ((queues is_head w v c m a d) (run_queue w.current_kthd) ≡ thread_node f ∷ rest)
          × ((queues is_head w v c m a d) (recycle_queue w.current_kthd)
              ≡ v (recycle_queue w.current_kthd) ++ thread_node (lwt_current w) ∷ []))
        (λ x. done tt (pop_registers x))
        (lwt_die m w)
  lwt_die-awaited =
      rw lwt_die-hand_to ((after-Died, run_at, (recycled_at is_head w v c m a d)), λ x. refl)
