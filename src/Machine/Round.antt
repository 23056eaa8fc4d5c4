-- ===== src/Machine/Round.antt =====
-- main3.c: one round of `fork_join`, on the machine.
use mathlib.Core.List.{erase}
use mathlib.Core.Logic.{if_pos, if_neg}
use light_weight_thread_libr.Prelude.{
  ℕ, ◌≡◌, refl, sym, ap, ◌∙◌, ◌≢◌, inl, Bool, true, false, List, [], ◌∷◌, ◌++◌, arith, ℕ_discrete,
  some, ne→==,
}
use light_weight_thread_libr.Links.{update}
use light_weight_thread_libr.Links.Refine.{
  dequeue, enqueue_before_last, move_to_end, move_before_last, move_before_last_at,
}
use light_weight_thread_libr.State.{
  World, Node, Node-discrete, thread_node, run_queue, recycle_queue, ret_dispatch, lwt_current,
  can_run,
}
use light_weight_thread_libr.State.Cmd.{Cmd, Outcome, done, switched, and_then, pure}
use light_weight_thread_libr.Sched.{lwt_yield, stays}
use light_weight_thread_libr.Sched.Handed.{pop_registers}
use light_weight_thread_libr.Sched.Yield.{lwt_yield-stays}
use light_weight_thread_libr.Sched.System.{System, System-owners, AllThreads, AllThreads-append}
use light_weight_thread_libr.Thread.{lwt_trampoline, lwt_die, lwt_join}
use light_weight_thread_libr.Thread.Dying.{Dying, queues, recycled_at}
use light_weight_thread_libr.Thread.Die.{Died, lwt_die-hand_to, after, after-Died, run_at}
use light_weight_thread_libr.Thread.Forked.{Forked, Idle}
use light_weight_thread_libr.Thread.Joining.{
  asleep, asleep_queues, Asleep, asleep-Asleep, join-asleep, apart, runs,
}
use light_weight_thread_libr.Machine.{Machine, start, jump, enter, step}
use light_weight_thread_libr.Machine.Supply.{
  Fewer, Fewer-dequeue, Fewer-enqueue, Fewer-enqueue_before_last,
}
use light_weight_thread_libr.Machine.Reach.{Reach, here, next}

stays_dead : (y : ℕ) (w : World) → y ≢ 0 → can_run (w.thread y).state ≡ false → stays y w ≡ true
unfolding stays
stays_dead y w ne cannot = rw (ne→== y 0 ne, cannot) (ground arith)

-- `lwt_join` waits for a child whose function returns `x` at once.
module _ (is_head : Node → Bool) (w : World) (v : Node → List Node) (m t c : ℕ) (rest : List Node)
    (fn arg x : ℕ) (f : Forked is_head v m t c rest fn arg w) (code : ℕ → ℕ → Cmd ℕ)
    (returns : (u : World) → code fn arg u ≡ done x u) where
  abbrev slept : World
  slept = asleep is_head w v m t c rest fn arg f

  abbrev slept_queues : Node → List Node
  slept_queues = asleep_queues is_head w v m t c rest fn arg f

  a : Asleep is_head w v m t c rest fn arg f slept
  a = asleep-Asleep is_head w v m t c rest fn arg f

  threads : AllThreads (thread_node m ∷ thread_node t ∷ [])
  threads = runs is_head w v m t c rest fn arg f

  distinct : m ≢ t
  distinct = apart is_head w v m t c rest fn arg f

  starts : start code slept ≡ lwt_trampoline (code fn) arg slept
  unfolding start
  starts = rw (a.function, a.argument) refl

  own : (slept.thread (lwt_current slept)).chl ≡ c
  own = ap (λ y. (slept.thread y).chl) a.current ∙ a.chl

  dying : Dying is_head slept_queues c m slept
  dying = record {
    channel = a.channel;
    receiver = a.receiver;
    pos = threads.0;
    out = a.out;
    loose = a.loose;
    mine = a.mine;
    awaited = a.awaited;
    own = own;
    recycle_head = a.recycle_head;
  }

  first_is :
      erase Node-discrete
        (move_before_last Node-discrete slept_queues
          (run_queue slept.current_kthd)
          (thread_node m)
          (run_queue slept.current_kthd))
        (thread_node (lwt_current slept))
      ≡ thread_node m ∷ []
  first_is =
      rw
        (
          move_before_last_at Node-discrete slept_queues (run_queue slept.current_kthd)
              (thread_node m),
          a.child_alone,
          a.current,
        )
        (ground (arith, distinct))

  abbrev woken : World
  woken = after is_head slept slept_queues c x m dying m [] first_is

  abbrev woken_queues : Node → List Node
  woken_queues = queues is_head slept slept_queues c x m dying

  dies : lwt_die x slept ≡ switched woken (λ y. done tt (pop_registers y))
  dies = lwt_die-hand_to is_head slept slept_queues c x m dying m [] first_is

  ends : start code slept ≡ switched woken (λ y. done 0 (pop_registers y))
  unfolding lwt_trampoline
  ends = starts ∙ rw (returns slept, dies) refl

  d : Died is_head woken_queues m x m slept woken
  d = after-Died is_head slept slept_queues c x m dying m [] first_is

  -- The child starts when the parent sleeps.
  enter_child : (saved : ℕ → World → Outcome ℕ) → enter code saved slept ≡ start code slept
  unfolding enter jump
  enter_child saved = rw (a.current, a.ip) refl

  woken_ip : (woken.thread m).context.ip ≡ ret_dispatch
  woken_ip = ap (λ r. r.ip) (d.contexts m (λ g. distinct (g ∙ a.current))) ∙ a.saved_ip

  enter_parent : (saved : ℕ → World → Outcome ℕ) → enter code saved woken ≡ saved m woken
  unfolding enter jump
  enter_parent saved = rw (d.current, woken_ip) refl

  abbrev back : World
  back = pop_registers woken

  stays_zombie : stays t back ≡ true
  stays_zombie =
      stays_dead t back threads.1.0
        (ap can_run (ap (λ y. (woken.thread y).state) (sym a.current) ∙ d.zombie))

  yields : lwt_yield t back ≡ done 0 back
  yields = lwt_yield-stays t back stays_zombie

  back_System : System is_head back woken_queues
  back_System = System-owners back d.system refl refl refl (λ y. inl refl)

  back-Idle : AllThreads rest → Idle is_head woken_queues m (rest ++ thread_node t ∷ []) back
  back-Idle others = record {
    system = back_System;
    recycle_head = rw d.kthd a.recycle_head;
    alone = rw d.kthd (run_at is_head slept slept_queues c x m dying m [] first_is);
    recycled =
        rw d.kthd
          (recycled_at is_head slept slept_queues c x m dying ∙ rw (a.recycled, a.current) refl);
    threads = AllThreads-append rest (thread_node t ∷ []) others (threads.1.0, tt);
    stacks = λ y. rw (d.stacks y) (a.stacks y);
    no_zombies = rw (d.zombies, a.no_zombies) refl;
    none_blocked = rw (d.blocked, a.one_blocked) refl;
    enough = rw d.rounds a.enough;
    small = rw d.rounds a.small;
  }

  back_supply : back.supply ≡ w.supply
  back_supply = d.supply ∙ a.supply

  back-Fewer : Fewer woken_queues v
  unfolding move_to_end move_before_last
  back-Fewer =
      let v1 : Node → List Node = dequeue Node-discrete v (thread_node m) in
      let v2 : Node → List Node = dequeue Node-discrete v1 (thread_node m) in
      let v3 : Node → List Node =
        enqueue_before_last Node-discrete v2 (run_queue slept.current_kthd) (thread_node m) in
      let v4 : Node → List Node = dequeue Node-discrete v3 (thread_node (lwt_current slept)) in
      Fewer-enqueue v4 v
        (Fewer-dequeue v3 v
          (Fewer-enqueue_before_last v2 v
            (Fewer-dequeue v1 v (Fewer-dequeue v v (λ y h i. i) (thread_node m)) (thread_node m))
            (run_queue slept.current_kthd) m)
          (thread_node (lwt_current slept)))
        (recycle_queue slept.current_kthd) (lwt_current slept)

  module _ (k : ℕ → Cmd ℕ) (saved : ℕ → World → Outcome ℕ) where
    abbrev resume : World → Outcome ℕ
    resume y =
        and_then (and_then (lwt_yield t (pop_registers y)) (λ _. pure (y.thread m).message_data)) k

    resumes : resume woken ≡ k x back
    resumes = rw (yields, d.message) refl

    abbrev saved1 : ℕ → World → Outcome ℕ
    saved1 = update ℕ_discrete saved m resume

    abbrev saved2 : ℕ → World → Outcome ℕ
    saved2 = update ℕ_discrete saved1 t (λ y. done 0 (pop_registers y))

    abbrev before : Machine
    before = record { runs = m; now = and_then (lwt_join t w) k; saved = saved }

    abbrev between : Machine
    between = record { runs = t; now = start code slept; saved = saved1 }

    abbrev behind : Machine
    behind = record { runs = m; now = k x back; saved = saved2 }

    saved_parent : saved2 m ≡ resume
    saved_parent =
        if_neg (ℕ_discrete t m) (λ g. distinct (sym g)) (λ y. done 0 (pop_registers y)) (saved1 m)
        ∙ if_pos (ℕ_discrete m m) refl resume (saved m)

    sleeps : step code before ≡ some between
    unfolding step
    sleeps = rw (join-asleep is_head w v m t c rest fn arg f, enter_child saved1, a.current) refl

    wakes : step code between ≡ some behind
    unfolding step
    wakes =
        rw (ends, enter_parent saved2, d.current)
          (ap (λ o. some (record { runs = m; now = o; saved = saved2 }))
            (ap (λ g. g woken) saved_parent ∙ resumes))

    join-Reach : Reach code before behind
    join-Reach = next before between behind sleeps (next between behind behind wakes (here behind))

    -- The join comes back with `x`, in a kernel thread that is idle again.
    pub lwt_join-returns :
        AllThreads rest
        → (v' : Node → List Node) × (u : World) × (saved' : ℕ → World → Outcome ℕ) × Reach code
            (record { runs = m; now = and_then (lwt_join t w) k; saved = saved })
            (record { runs = m; now = k x u; saved = saved' })
          × Idle is_head v' m (rest ++ thread_node t ∷ []) u
          × (u.supply ≡ w.supply)
          × Fewer v' v
    lwt_join-returns others =
        (woken_queues, back, saved2, join-Reach, back-Idle others, back_supply, back-Fewer)
