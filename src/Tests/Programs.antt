-- ===== src/Tests/Programs.antt =====
-- The properties of the threads together: thread 1 creates thread 3 and joins it, twice.
use light_weight_thread_libr.Prelude.{ℕ, ◌≡◌, refl, inl, Bool, true, false, List, [], ◌∷◌, arith}
use light_weight_thread_libr.Links.{Links, list_head_add}
use light_weight_thread_libr.Links.Queues.{IsQueues, IsOut}
use light_weight_thread_libr.Links.Refine.{
  enqueue, list_head_add-IsQueues, move_before_last, move_to_end,
}
use light_weight_thread_libr.State.{
  World, Node, Node-discrete, thread_node, run_queue, recycle_queue, sender_queue, lwt_current,
}
use light_weight_thread_libr.State.Cmd.{Cmd, Outcome, done, fault, and_then}
use light_weight_thread_libr.State.Gives.{Gives}
use light_weight_thread_libr.Sched.Handed.{pop_registers}
use light_weight_thread_libr.Sched.System.{System-owners, System-change, has_node}
use light_weight_thread_libr.Chan.Lifetime.{with_head, with_queue}
use light_weight_thread_libr.Thread.{lwt_die}
use light_weight_thread_libr.Thread.Forked.{Idle}
use light_weight_thread_libr.Machine.Supply.{Room}
use light_weight_thread_libr.Machine.ForkJoin.{Continues, for_loop-fork_join}
use light_weight_thread_libr.Machine.Child.{Returned, Forks, lwt_join-lwt_create}
use light_weight_thread_libr.Programs.Threads.{for_loop, fork_join, fn_identity, fn_identity_at}
use light_weight_thread_libr.Programs.Main.{code}
use light_weight_thread_libr.Chan.Send.{is_awaited}
use light_weight_thread_libr.Chan.Receiving.{Readable}
use light_weight_thread_libr.Thread.Dying.{Dying}
use light_weight_thread_libr.Thread.Die.{Died, lwt_die-awaited}
use light_weight_thread_libr.Tests.Channels.{IsChan_two}
use light_weight_thread_libr.Tests.{
  thread, two, two_world, two-System, two-IsOut, is_head, rq, no_links, no_queues,
  no_links-IsQueues, add, push, chan, world, world-System,
}

abbrev heads : Node → Bool
heads (run_queue k) = true
heads (recycle_queue k) = true
heads _ = false

abbrev recycled : Node
recycled = recycle_queue 0

abbrev links : Links Node
links = add (add no_links rq (thread_node 1)) recycled (thread_node 3)

abbrev queues : Node → List Node
queues = push (push no_queues rq (thread_node 1)) recycled (thread_node 3)

abbrev full : World
full = world links (chan 2 0 1 0)

abbrev idle : World
idle = record full {
  supply = 20 ∷ 30 ∷ 40 ∷ 50 ∷ [];
  kthd = λ k. record (full.kthd k) { block_counter = 0 };
}

idle_IsQueues : IsQueues Node-discrete heads links queues
unfolding enqueue
idle_IsQueues =
    list_head_add-IsQueues Node-discrete heads
      (list_head_add-IsQueues Node-discrete heads (no_links-IsQueues heads) rq (thread_node 1) refl
        refl (λ h hh. refl))
      recycled (thread_node 3) refl refl (λ h hh. ground arith)

idle-Idle : Idle heads queues 1 (thread_node 3 ∷ []) idle
unfolding enqueue Node-discrete lwt_current
idle-Idle = record {
  system =
      let q = idle_IsQueues in
      let s =
        world-System heads links queues (chan 2 0 1 0) q refl (λ t. refl) ((λ e. omega arith), tt)
          refl in
      System-change s idle
        (record { kthd = refl; current = refl; polling = λ x. refl; owners = λ x. refl }) queues q
        s.runs s.current_in s.owned;
  recycle_head = refl;
  alone = refl;
  recycled = refl;
  threads = ((λ e. omega arith), tt);
  stacks = λ x. omega arith;
  no_zombies = refl;
  none_blocked = refl;
  enough = omega arith;
  small = omega arith;
}

IsOut-channel : (d : ℕ) → IsOut Node-discrete heads queues (sender_queue d)
unfolding enqueue
IsOut-channel d h hh = ground arith

free-channel : (c d : ℕ) (h : Node) → has_node (sender_queue d) (with_queue queues c h) ≡ false
unfolding enqueue
free-channel c d h = ground arith

idle_Room : Room 2 heads queues (20 ∷ 30 ∷ 40 ∷ 50 ∷ [])
unfolding Room Node-discrete
idle_Room = (
  (λ e. omega arith),
  (λ e. omega arith),
  refl,
  IsOut-channel 20,
  ((λ e. omega arith), (λ e. omega arith), refl, (λ h hh. free-channel 20 40 h), tt),
)

abbrev exits : Unit {0} → Cmd ℕ
exits _ = done 0

abbrev no_others : ℕ → World → Outcome ℕ
no_others t w = fault

for_loop-fork_join_example :
    Continues
      (code 2)
      1
      (record { runs = 1; now = and_then (for_loop 2 0 fork_join idle) exits; saved = no_others })
      exits
for_loop-fork_join_example =
    for_loop-fork_join 2 1 exits 2 0 heads queues 3 [] idle no_others idle-Idle idle_Room

-- A child that returns its argument.
abbrev program : ℕ → ℕ → Cmd ℕ
program = code 2

lwt_join-lwt_create_example :
    Returned program done 42 1
      (with_head heads 20)
      (with_queue queues 20)
      (thread_node 3 ∷ [])
      (40 ∷ 50 ∷ [])
      (Forks fn_identity_at 42 idle 1 done no_others)
unfolding code fn_identity
lwt_join-lwt_create_example =
    lwt_join-lwt_create program fn_identity_at 42 42 (λ u. refl) heads idle queues 1 3 20 30
      (λ e. omega arith) (λ e. omega arith) refl (IsOut-channel 20) (40 ∷ 50 ∷ []) done no_others []
      idle-Idle refl

-- Thread 1 dies, and thread 9 waits for its message.
abbrev joined : World
joined = record (two_world (chan 2 0 9 0)) { thread = λ t. record (thread t) { chl = 7 } }

joined-Readable : Readable is_head joined two 7
joined-Readable = record {
  pointer = λ f. omega arith;
  type = refl;
  chan = IsChan_two 0 9 0 (omega arith);
  head = refl;
  system = System-owners joined (two-System (chan 2 0 9 0)) refl refl refl (λ x. inl refl);
}

joined-Dying : Dying is_head two 7 9 joined
unfolding enqueue Node-discrete is_awaited lwt_current list_head_add
joined-Dying = record {
  channel = joined-Readable;
  receiver = refl;
  pos = λ e. omega arith;
  out = two-IsOut 9 (omega arith) (omega arith);
  loose = (refl, refl);
  mine = refl;
  awaited = refl;
  own = refl;
  recycle_head = refl;
}

lwt_die-awaited_example :
    let v' =
      move_to_end Node-discrete
        (move_before_last Node-discrete two rq (thread_node 9))
        recycled
        (thread_node 1) in
    Gives
      (λ u.
        Died is_head v' 9 5 9 joined u
        × (v' rq ≡ thread_node 9 ∷ thread_node 2 ∷ [])
        × (v' recycled ≡ thread_node 1 ∷ []))
      (λ x. done tt (pop_registers x))
      (lwt_die 5 joined)
unfolding enqueue Node-discrete is_awaited lwt_current list_head_add move_before_last
lwt_die-awaited_example =
    lwt_die-awaited is_head joined two 7 5 9 joined-Dying 9 (thread_node 2 ∷ []) refl
