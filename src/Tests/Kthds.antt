-- ===== src/Tests/Kthds.antt =====
-- The properties of the creation of kernel threads: kernel thread 0 creates kernel thread 3.
use light_weight_thread_libr.Prelude.{
  ℕ_discrete, ℕ, zero, suc, ◌+◌, ◌≤◌, List, ◌≡◌, ◌≢◌, refl, inl, Bool, false, [], ◌∷◌, arith, ◌==◌,
}
use light_weight_thread_libr.Links.Queues.{IsQueues, IsOut}
use light_weight_thread_libr.Links.Refine.{enqueue, list_head_add-IsQueues}
use light_weight_thread_libr.State.{
  World, Node, Node-discrete, thread_node, run_queue, recycle_queue, wakeup_queue, sender_queue,
  lwt_current, enter_kthd,
}
use light_weight_thread_libr.State.Cmd.{Cmd, done, and_then}
use light_weight_thread_libr.State.Gives.{Returns}
use light_weight_thread_libr.Sched.System.{System, System-owners}
use light_weight_thread_libr.Chan.Lifetime.{with_head, with_queue}
use light_weight_thread_libr.Thread.{initiate}
use light_weight_thread_libr.Kthd.{lwt_kthd_create}
use light_weight_thread_libr.Thread.Forked.{Idle}
use light_weight_thread_libr.Machine.Supply.{Addresses}
use light_weight_thread_libr.Machine.ForkJoin.{Continues}
use light_weight_thread_libr.Machine.Begin.{begin_kthd, behind}
use light_weight_thread_libr.Machine.Boot.{lwt_kthd_create-test_perf}
use light_weight_thread_libr.Thread.Initiate.{
  Fresh, Initiated, one_head, one_queue, initiate-Idle, initiate-System,
}
use light_weight_thread_libr.Links.Refine.{enqueue_before_last}
use light_weight_thread_libr.Programs.Threads.{test_perf, fn_null, fn_null_at}
use light_weight_thread_libr.Programs.Main.{code}
use light_weight_thread_libr.Links.Ring.{has}
use light_weight_thread_libr.Programs.Unit.{
  unit_iter, test_file_at, file_tests, test_file, unit_code,
}
use light_weight_thread_libr.Tests.{
  two, two_links, two_world, rq, no_links, no_queues, no_links-IsQueues, chan, world, world-System,
}

-- `n` pairs of addresses from `a` on.
pairs : ℕ → ℕ → List ℕ
pairs zero a = []
pairs (suc n) a = a ∷ (a + 1) ∷ pairs n (a + 2)

-- Kernel thread 0 creates kernel thread 3 for `test_file`, as `test_hw3` does, with addresses for its
-- parameter, its first thread, a child and the channels of the turns of the loop.
abbrev memory : World
memory = record (world no_links (chan 2 0 1 0)) {
  supply = 90 ∷ 100 ∷ 20 ∷ 30 ∷ 101 ∷ 200 ∷ pairs unit_iter 300;
}

abbrev nothing : Node → Bool
nothing h = false

abbrev started : World
started = record memory { supply = 100 ∷ 20 ∷ 30 ∷ [] }

free : (h : Node) → Fresh nothing no_queues h
free h = (refl, λ g hg. refl)

initiate-Idle_example :
    let is_head =
      with_head
        (one_head (one_head (one_head nothing (run_queue 3)) (recycle_queue 3)) (wakeup_queue 3))
        20 in
    let v =
      with_queue
        (one_queue
          (one_queue (one_queue no_queues (run_queue 3)) (recycle_queue 3))
          (wakeup_queue 3))
        20 in
    Returns
      (λ _ u.
        Idle is_head
          (enqueue_before_last Node-discrete v (run_queue 3) (thread_node 100))
          100
          []
          (enter_kthd 3 u)
        × Initiated 3 100 20 [] started u)
      (initiate 3 started)
initiate-Idle_example =
    initiate-Idle nothing started no_queues 3 100 20 30 [] (no_links-IsQueues nothing) (λ t. refl)
      (λ h hh. refl) (free (run_queue 3)) (free (recycle_queue 3)) (free (wakeup_queue 3))
      (free (sender_queue 20)) refl (λ e. omega arith) (λ e. omega arith) (λ e. omega arith)
      (omega arith) (λ x. omega arith) (omega arith) (omega arith)

pairs-Addresses :
    (n a : ℕ) (used : List ℕ)
    → a ≢ 0
    → ((d : ℕ) → a ≤ d → has ℕ_discrete d used ≡ false)
    → Addresses n used (pairs n a)
unfolding Addresses pairs
pairs-Addresses zero a used pos new = tt
pairs-Addresses (suc n) a used pos new = (
  pos,
  λ e. omega arith,
  new a (omega arith),
  pairs-Addresses n (a + 2) (a ∷ used) (λ e. omega arith)
      (λ d le. ground (arith, new d (omega arith))),
)

new-Addresses : Addresses unit_iter (20 ∷ []) (pairs unit_iter 300)
new-Addresses = pairs-Addresses unit_iter 300 (20 ∷ []) (λ e. omega arith) (λ d le. ground arith)

abbrev alloc : ℕ → World → ℕ
alloc fp w = 400

abbrev index : ℕ → ℕ
index thd = 3

abbrev same : World → World
same w = w

-- The program of unit_schedlib.c.
abbrev program : ℕ → ℕ → Cmd ℕ
program = unit_code 0 (λ t. same)

program_null : (y : World) → program fn_null_at 0 y ≡ done 0 y
unfolding unit_code code fn_null
program_null y = refl

program_file :
    (y : World) → program test_file_at 0 y ≡ and_then (test_perf unit_iter y) (λ _. file_tests)
unfolding unit_code test_file
program_file y = refl

lwt_kthd_create-test_perf_example :
    Returns
      (λ r u.
        (r ≡ 400)
        × (u.current_kthd ≡ 0)
        × Continues program 100
            (begin_kthd same 90 program (enter_kthd 3 u))
            (λ _. behind same 90 unit_iter file_tests))
      (lwt_kthd_create alloc index test_file_at 0 memory)
lwt_kthd_create-test_perf_example =
    lwt_kthd_create-test_perf alloc index same program program_null unit_iter test_file_at 0
      file_tests program_file 90 memory 100 20 30 (101 ∷ 200 ∷ pairs unit_iter 300) refl
      (λ e. omega arith) (λ e. omega arith) (λ e. omega arith) (λ e. omega arith) (λ e. omega arith)
      (omega arith) (λ x. omega arith) (omega arith) (omega arith) 101 200 (pairs unit_iter 300)
      refl (λ e. omega arith) (λ e. omega arith) new-Addresses (λ e. omega arith)

-- Kernel thread 0, which runs threads 1 and 2, initialises kernel thread 3.
abbrev working : World
working = record (two_world (chan 2 0 1 0)) { supply = 100 ∷ 20 ∷ 30 ∷ [] }

abbrev some_heads : Node → Bool
some_heads (run_queue k) = k == 0
some_heads _ = false

working-IsQueues : IsQueues Node-discrete some_heads two_links two
unfolding enqueue
working-IsQueues =
    list_head_add-IsQueues Node-discrete some_heads
      (list_head_add-IsQueues Node-discrete some_heads (no_links-IsQueues some_heads) rq
        (thread_node 1) refl refl (λ h hh. refl))
      rq (thread_node 2) refl refl (λ h hh. ground arith)

working-System : System some_heads working two
unfolding enqueue Node-discrete
working-System =
    System-owners working
      (world-System some_heads two_links two (chan 2 0 1 0) working-IsQueues refl (λ t. refl)
        ((λ e. omega arith), ((λ e. omega arith), tt)) refl)
      refl refl refl (λ x. inl refl)

IsOut-head :
    (x : Node) → x ≢ thread_node 1 → x ≢ thread_node 2 → IsOut Node-discrete some_heads two x
unfolding enqueue
IsOut-head x a b h hh = ground arith

new_queue :
    (h : Node)
    → some_heads h ≡ false
    → h ≢ thread_node 1
    → h ≢ thread_node 2
    → Fresh some_heads two h
new_queue h e a b = (e, IsOut-head h a b)

initiate-System_example :
    let is_head =
      with_head
        (one_head (one_head (one_head some_heads (run_queue 3)) (recycle_queue 3)) (wakeup_queue 3))
        20 in
    let v =
      enqueue_before_last Node-discrete
        (with_queue
          (one_queue (one_queue (one_queue two (run_queue 3)) (recycle_queue 3)) (wakeup_queue 3))
          20)
        (run_queue 3)
        (thread_node 100) in
    Returns
      (λ _ u. System is_head u v × (v rq ≡ two rq) × (lwt_current u ≡ lwt_current working))
      (initiate 3 working)
initiate-System_example =
    initiate-System some_heads working two 3 100 20 30 [] working-IsQueues (λ t. refl)
      (IsOut-head (thread_node 100) (λ e. cc) (λ e. cc))
      (new_queue (run_queue 3) refl (λ e. cc) (λ e. cc))
      (new_queue (recycle_queue 3) refl (λ e. cc) (λ e. cc))
      (new_queue (wakeup_queue 3) refl (λ e. cc) (λ e. cc))
      (new_queue (sender_queue 20) refl (λ e. cc) (λ e. cc)) refl (λ e. omega arith)
      (λ e. omega arith) (λ e. omega arith) (omega arith) working-System (λ e. omega arith)
