-- ===== src/Tests/Groups.antt =====
-- The properties of channel groups, on group 5 with channels 7 and 8.
use light_weight_thread_libr.Prelude.{
  ℕ, suc, ℕ_discrete, ◌≡◌, refl, inl, inr, false, List, [], ◌∷◌, arith,
}
use light_weight_thread_libr.Links.{Links, list_head_add}
use light_weight_thread_libr.Links.Ring.{IsLoose}
use light_weight_thread_libr.Links.Queues.{IsQueues, IsOut}
use light_weight_thread_libr.Links.Refine.{enqueue, move_before_last, list_head_add-IsQueues}
use light_weight_thread_libr.State.{
  World, Node, Node-discrete, thread_node, chan_node, chl_list, lwt_current, set_chan, set_thread,
}
use light_weight_thread_libr.State.Cmd.{done, and_then}
use light_weight_thread_libr.State.Gives.{Gives, Returns}
use light_weight_thread_libr.Chan.Send.{minus_one, is_awaited, lwt_snd}
use light_weight_thread_libr.Chan.Receiving.{Readable}
use light_weight_thread_libr.Group.{
  lwt_cgrp_add, lwt_cgrp_rem, lwt_cgrp_free, lwt_cgrp_wait, wait_loop, set_waiting,
}
use light_weight_thread_libr.Group.Ready.{lwt_cgrp_wait-ready, lwt_cgrp_free_lem}
use light_weight_thread_libr.Group.Members.{lwt_cgrp_rem-lwt_cgrp_add}
use light_weight_thread_libr.Tests.{
  is_head, rq, no_links, no_queues, no_links-IsQueues, add, push, chan, world, two, two_links,
  two-IsQueues, world-System,
}
use light_weight_thread_libr.Sched.Handed.{pop_registers}
use light_weight_thread_libr.Sched.System.{System, System-owners}
use light_weight_thread_libr.Group.Sleep.{Asleep, lwt_cgrp_wait-sleeps}
use light_weight_thread_libr.Group.Wakes.{Watched, Woken, lwt_snd-wakes}

abbrev group : Node
group = chl_list 5

abbrev links : Links Node
links = add (add no_links group (chan_node 7)) group (chan_node 8)

abbrev queues : Node → List Node
queues = push (push no_queues group (chan_node 7)) group (chan_node 8)

links-IsQueues : IsQueues Node-discrete is_head links queues
unfolding enqueue ℕ_discrete
links-IsQueues =
    list_head_add-IsQueues Node-discrete is_head
      (list_head_add-IsQueues Node-discrete is_head (no_links-IsQueues is_head) group (chan_node 7)
        refl refl (λ h hh. refl))
      group (chan_node 8) refl refl (λ h hh. ground arith)

-- Channel 8 is ready, channel 7 is not.
abbrev grouped : World
grouped = set_chan (world links (chan 2 0 1 0)) 8 (chan 2 1 1 1)

lwt_cgrp_wait-ready_example : lwt_cgrp_wait 5 grouped ≡ done 8 (set_waiting 5 0 grouped)
unfolding enqueue Node-discrete
lwt_cgrp_wait-ready_example =
    lwt_cgrp_wait-ready is_head grouped queues 5 links-IsQueues refl 8 (chan_node 7 ∷ []) [] refl
      ((λ e. omega arith), tt) refl (omega arith)

lwt_cgrp_free_lem_example : lwt_cgrp_free 5 grouped ≡ done minus_one grouped
unfolding enqueue Node-discrete
lwt_cgrp_free_lem_example =
    lwt_cgrp_free_lem is_head grouped queues 5 links-IsQueues refl (omega arith)

lwt_cgrp_rem-lwt_cgrp_add_example :
    Returns
      (λ r u.
        (r ≡ 0)
        × IsQueues Node-discrete is_head u.links queues
        × IsLoose u.links (chan_node 9)
        × ((u.chan 9).cgroup ≡ 0))
      (and_then (lwt_cgrp_add 5 9 grouped) (λ _. lwt_cgrp_rem 5 9))
unfolding enqueue ℕ_discrete
lwt_cgrp_rem-lwt_cgrp_add_example =
    lwt_cgrp_rem-lwt_cgrp_add is_head grouped queues 5 9 links-IsQueues refl refl
      (λ h hh. ground arith) refl (λ e. omega arith) refl

-- Threads 1 and 2 run; group 5 has channel 7, which is not ready.
abbrev idle_links : Links Node
idle_links = add two_links group (chan_node 7)

abbrev idle_queues : Node → List Node
idle_queues = push two group (chan_node 7)

abbrev idle : World
idle = world idle_links (chan 2 0 1 0)

idle-IsQueues : IsQueues Node-discrete is_head idle_links idle_queues
unfolding enqueue
idle-IsQueues =
    list_head_add-IsQueues Node-discrete is_head two-IsQueues group (chan_node 7) refl refl
      (λ h hh. ground arith)

idle-System : System is_head idle idle_queues
unfolding enqueue Node-discrete
idle-System =
    world-System is_head idle_links idle_queues (chan 2 0 1 0) idle-IsQueues refl (λ t. refl)
      ((λ e. omega arith), ((λ e. omega arith), tt)) refl

lwt_cgrp_wait-sleeps_example :
    Gives
      (Asleep is_head idle_queues 5 2 idle)
      (λ x. wait_loop 9 5 1 (pop_registers x))
      (lwt_cgrp_wait 5 idle)
unfolding enqueue Node-discrete lwt_current
lwt_cgrp_wait-sleeps_example =
    lwt_cgrp_wait-sleeps is_head idle idle_queues 5 2 [] idle-System refl 9 refl refl refl
      ((λ e. omega arith), tt) (omega arith)

-- Thread 9 sleeps in a wait on group 5; the channel that it waited for before is 0, or 7.
abbrev sleeping : ℕ → World
sleeping before =
    let c = record (chan 2 0 9 0) { cgroup = 5 } in
    let w = record (world idle_links c) { cgrp = λ g. record { owner = 9; blocked = 1 } } in
    set_thread w 9 (record (w.thread 9) { now_rcving = before })

sleeping-System : (before : ℕ) → System is_head (sleeping before) idle_queues
sleeping-System before =
    System-owners (sleeping before) idle-System refl refl refl (λ x. inl (ground arith))

sleeping-Readable : (before : ℕ) → Readable is_head (sleeping before) idle_queues 7
unfolding enqueue Node-discrete
sleeping-Readable before = record {
  pointer = λ e. omega arith;
  type = refl;
  chan = record {
    pointer = λ f. omega arith;
    order = omega arith;
    fits = omega arith;
    few = omega arith;
    small = omega arith;
    busy = inr refl;
  };
  head = refl;
  system = sleeping-System before;
}

nine-IsOut : IsOut Node-discrete is_head idle_queues (thread_node 9)
unfolding enqueue
nine-IsOut h hh = ground arith

nine-IsLoose : IsLoose idle_links (thread_node 9)
unfolding list_head_add Node-discrete
nine-IsLoose = (refl, refl)

watched : Watched is_head idle_queues 7 5 9 (sleeping 0)
watched = record {
  channel = sleeping-Readable 0;
  receiver = λ e. omega arith;
  cgroup = refl;
  group = λ e. omega arith;
  waits = λ e. omega arith;
  owner = refl;
  pos = λ e. omega arith;
  out = nine-IsOut;
  loose = nine-IsLoose;
  mine = ground arith;
}

not_awaited : is_awaited 7 (sleeping 0) ≡ false
unfolding is_awaited
not_awaited = ground arith

abbrev woken_queues : Node → List Node
woken_queues = move_before_last Node-discrete idle_queues rq (thread_node 9)

lwt_snd-wakes_example :
    Returns
      (λ r u.
        (r ≡ 0)
        × Woken is_head idle_queues woken_queues 7 4 9 (sleeping 0) u
        × ((rounds : ℕ) → wait_loop (suc rounds) 5 9 u ≡ done 7 (set_waiting 5 0 u)))
      (lwt_snd 7 4 (sleeping 0))
unfolding enqueue Node-discrete
lwt_snd-wakes_example =
    lwt_snd-wakes is_head (sleeping 0) idle_queues 7 4 5 9 watched (omega arith) (omega arith) [] []
      refl refl tt (omega arith) not_awaited
