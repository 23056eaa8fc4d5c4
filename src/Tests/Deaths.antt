-- ===== src/Tests/Deaths.antt =====
-- The properties of a thread that dies before it is joined, on thread 1, the child of thread 2.
use light_weight_thread_libr.Prelude.{ℕ, ◌≡◌, refl, inl, inr, false, List, [], arith}
use light_weight_thread_libr.Links.Refine.{enqueue}
use light_weight_thread_libr.State.{World, Node, Node-discrete, set_thread, lwt_current}
use light_weight_thread_libr.State.Cmd.{Outcome, and_then, done, pure}
use light_weight_thread_libr.State.Gives.{Gives}
use light_weight_thread_libr.Sched.{lwt_schedule}
use light_weight_thread_libr.Sched.Handed.{pop_registers}
use light_weight_thread_libr.Sched.System.{System, System-owners}
use light_weight_thread_libr.Chan.Send.{is_awaited}
use light_weight_thread_libr.Chan.Sending.{Open}
use light_weight_thread_libr.Chan.Full.{Queued}
use light_weight_thread_libr.Thread.{retire, lwt_die, lwt_join}
use light_weight_thread_libr.Thread.Unjoined.{lwt_die-unjoined}
use light_weight_thread_libr.Machine.Reach.{Reach}
use light_weight_thread_libr.Machine.Collect.{Over}
use light_weight_thread_libr.Machine.Early.{Early, lwt_join-lwt_die}
use light_weight_thread_libr.Tests.{is_head, two, two_world, two-System, chan}

-- Channel 7 has no buffer, and thread 2 receives from it.
abbrev dying : World
dying =
    let w = two_world (chan 0 0 2 0) in set_thread w 1 (record (w.thread 1) { parent = 2; chl = 7 })

dying-System : System is_head dying two
dying-System =
    System-owners dying (two-System (chan 0 0 2 0)) refl refl refl (λ x. inl (ground arith))

dying-Open : Open dying two 7
unfolding enqueue Node-discrete
dying-Open = record {
  pointer = λ f. omega arith;
  type = refl;
  receiver = λ f. omega arith;
  chan = record {
    pointer = λ f. omega arith;
    order = omega arith;
    fits = omega arith;
    few = omega arith;
    small = omega arith;
    busy = inr refl;
  };
  quiet = inl refl;
}

not_awaited : is_awaited 7 dying ≡ false
unfolding is_awaited
not_awaited = ground arith

early : Early is_head two 7 2 dying
unfolding enqueue Node-discrete lwt_current
early = record {
  system = dying-System;
  channel = dying-Open;
  head = refl;
  recycle_head = refl;
  others = refl;
  chl = refl;
  parent = refl;
  joins = refl;
  free = not_awaited;
  drained = refl;
  no_buffer = refl;
  senders = refl;
  parent_ip = refl;
}

lwt_die-unjoined_example :
    Gives
      (Queued is_head two 7 5 2 dying)
      (λ x. lwt_schedule (retire 1 (pop_registers x)))
      (lwt_die 5 dying)
unfolding enqueue Node-discrete lwt_current
lwt_die-unjoined_example =
    lwt_die-unjoined dying-System 7 5 dying-Open refl 2 [] refl not_awaited refl refl

abbrev joining : ℕ → World → Outcome ℕ
joining s y = and_then (lwt_join 1 (pop_registers y)) pure

lwt_join-lwt_die_example :
    (v' : Node → List Node) × (u : World) × (saved : ℕ → World → Outcome ℕ) × Reach
      (λ f a. pure a)
      (record { runs = 1; now = and_then (lwt_die 5 dying) (λ _. pure 0); saved = joining })
      (record { runs = 2; now = done 5 u; saved = saved })
    × Over is_head two v' 2 1 0 u
unfolding lwt_current
lwt_join-lwt_die_example =
    lwt_join-lwt_die is_head dying two 7 2 5 early (λ f a. pure a) pure joining (λ y. refl)
