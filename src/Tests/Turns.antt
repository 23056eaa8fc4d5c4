-- ===== src/Tests/Turns.antt =====
-- The properties of the switch between threads, on two and three threads.
use light_weight_thread_libr.Prelude.{ℕ, ◌≡◌, refl, inr, List, [], ◌∷◌, arith}
use light_weight_thread_libr.Links.{list_head_add}
use light_weight_thread_libr.Links.Refine.{enqueue, move_to_end, move_before_last}
use light_weight_thread_libr.State.{
  World, Node, Node-discrete, thread_node, lwt_current, ret_dispatch, nthd_runnable, nthd_recycle,
}
use light_weight_thread_libr.State.Cmd.{Cmd, done, hung, ufree}
use light_weight_thread_libr.Sched.Rounds.{Turns, Front, Turns-Front}
use light_weight_thread_libr.Kthd.{kthd_loop, lwt_kthd_trampline}
use light_weight_thread_libr.Kthd.Loop.{lwt_kthd_trampline_spins}
use light_weight_thread_libr.State.Gives.{Gives, Returns}
use light_weight_thread_libr.Sched.{lwt_yield, lwt_dispatch}
use light_weight_thread_libr.Sched.Handed.{pop_registers}
use light_weight_thread_libr.Sched.System.{System}
use light_weight_thread_libr.Sched.Turns.{
  Runs, lwt_yield-System, lwt_yield-round_robin, lwt_yield-misses,
}
use light_weight_thread_libr.Chan.Block.{resume_thread}
use light_weight_thread_libr.Chan.Taking.{resume_thread-System}
use light_weight_thread_libr.Thread.Start.{Switches, keep_context, lwt_dispatch-esp}
use light_weight_thread_libr.Info.{lwt_info}
use light_weight_thread_libr.Info.Counts.{lwt_info-length}
use light_weight_thread_libr.Tests.{
  is_head, rq, two, two_world, third_world, with_third, chan, two-System, three-System, two-IsOut,
  two-IsQueues,
}

abbrev start : World
start = two_world (chan 2 0 1 0)

abbrev three : World
three = third_world rq (chan 2 0 1 0)

s2 : System is_head start two
s2 = two-System (chan 2 0 1 0)

s3 : System is_head three (with_third rq)
s3 = three-System (chan 2 0 1 0)

abbrev turned : Node → List Node
turned = move_to_end Node-discrete two rq (thread_node 1)

lwt_yield-System_example :
    (t : ℕ) × Gives {A = ℕ} (Runs s2 t turned) (λ x. done 0 (pop_registers x)) (lwt_yield 0 start)
unfolding lwt_current
lwt_yield-System_example = lwt_yield-System s2 refl

lwt_yield-round_robin_example :
    Gives {A = ℕ}
      (λ u. Runs s2 2 turned u × (turned rq ≡ thread_node 2 ∷ thread_node 1 ∷ []))
      (λ x. done 0 (pop_registers x))
      (lwt_yield 0 start)
unfolding enqueue Node-discrete lwt_current
lwt_yield-round_robin_example = lwt_yield-round_robin s2 2 (thread_node 2 ∷ []) refl refl refl

-- Thread 1 yields to thread 3, and runs itself.
lwt_yield-misses_example :
    Gives {A = ℕ}
      (Runs s3 1 (move_before_last Node-discrete (with_third rq) rq (thread_node 3)))
      (λ x. done 0 (pop_registers x))
      (lwt_yield 3 three)
unfolding enqueue Node-discrete lwt_current
lwt_yield-misses_example =
    lwt_yield-misses s3 3 1 (thread_node 2) [] (λ e. omega arith) refl refl refl

resume_thread-System_example :
    System is_head (resume_thread 9 start) (move_before_last Node-discrete two rq (thread_node 9))
unfolding enqueue Node-discrete list_head_add
resume_thread-System_example =
    resume_thread-System s2 9 (inr (two-IsOut 9 (omega arith) (omega arith), (refl, refl)))
      (λ e. omega arith) refl

lwt_dispatch-esp_example :
    Switches
      (λ u r.
        (u.esp ≡ (start.thread 2).context.sp)
        × ((u.thread 1).context.ip ≡ ret_dispatch)
        × ((v : World)
            → Switches
                (λ y _.
                  (y.esp ≡ (u.thread 1).context.sp) × Returns (λ _ z. z.esp ≡ start.esp) (r y))
                (lwt_dispatch 3 1 (keep_context 1 u v))))
      (lwt_dispatch 1 2 start)
lwt_dispatch-esp_example =
    lwt_dispatch-esp 1 2 3 start (λ e. omega arith) (λ e. omega arith) (omega arith)

lwt_info-length_example :
    (lwt_info nthd_runnable start ≡ done 2 start) × (lwt_info nthd_recycle start ≡ done 0 start)
unfolding enqueue Node-discrete
lwt_info-length_example =
    lwt_info-length is_head start two two-IsQueues refl refl (omega arith) (omega arith)
      (omega arith)

-- Threads 1, 2 and 3 can run, in this order.
three-Front : Front is_head (with_third rq) three 1 (2 ∷ 3 ∷ [])
unfolding enqueue Node-discrete lwt_current
three-Front = record { system = s3; whole = refl; current = refl; can = λ x i. ground (arith, i) }

Turns-Front_example :
    (x : World) × (v' : Node → List Node) × Turns 2 three x × Front is_head v' x 3 (1 ∷ 2 ∷ [])
Turns-Front_example = Turns-Front is_head (2 ∷ []) (with_third rq) three 1 3 [] three-Front

-- Thread 2 can still run when the function of the kernel thread returns.
abbrev no_code : ℕ → ℕ → Cmd ℕ
no_code f d = done 0

lwt_kthd_trampline_spins_example :
    (lwt_kthd_trampline (λ w. w) no_code 40 start ≡ hung)
    × ((n : ℕ) → kthd_loop (λ w. w) n (ufree 40 start) ≡ hung)
unfolding enqueue Node-discrete
lwt_kthd_trampline_spins_example =
    lwt_kthd_trampline_spins (λ w. w) no_code 40 0 start start refl s2 (omega arith) (omega arith)
      (λ e. omega arith)
