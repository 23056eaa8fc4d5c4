-- ===== src/Machine/Boot.antt =====
-- lwt_chl.c: a kernel thread from `lwt_kthd_create` on, whose function begins with `test_perf`.
use mathlib.Core.Path.{ap₂}
use light_weight_thread_libr.Prelude.{
  ℕ, ◌+◌, ◌%◌, ◌^◌, ◌<◌, ◌≡◌, refl, ap, ◌∙◌, subst, ◌≢◌, Bool, false, List, [], ◌∷◌, arith,
  ℕ_discrete, ne→==,
}
use light_weight_thread_libr.Links.Queues.{IsQueues, IsOut}
use light_weight_thread_libr.State.{
  World, Node, Node-discrete, thread_node, run_queue, recycle_queue, wakeup_queue, sender_queue,
  enter_kthd,
}
use light_weight_thread_libr.State.Gives.{Returns}
use light_weight_thread_libr.State.Cmd.{Cmd, done, fault, and_then, umalloc, follow}
use light_weight_thread_libr.Links.Ring.{has}
use light_weight_thread_libr.Links.Refine.{enqueue_before_last}
use light_weight_thread_libr.Sched.System.{has_node}
use light_weight_thread_libr.Thread.{max_kthd_num}
use light_weight_thread_libr.Thread.Forked.{Idle}
use light_weight_thread_libr.Thread.Initiate.{
  Fresh, heads, queues, first, initiate_lem, first-Idle, Initiated, first-Initiated,
}
use light_weight_thread_libr.Kthd.{set_param, lwt_kthd_create}
use light_weight_thread_libr.Machine.Supply.{Addresses, Room-Addresses}
use light_weight_thread_libr.Machine.Reach.{Reach}
use light_weight_thread_libr.Machine.ForkJoin.{Continues, for_loop-fork_join_new}
use light_weight_thread_libr.Programs.Threads.{for_loop, fork_join, fn_null_at, test_perf}
use light_weight_thread_libr.Machine.Begin.{begin_kthd, behind, from_checks, trampline, passes}

abbrev no_heads : Node → Bool
no_heads h = false

abbrev no_queues : Node → List Node
no_queues h = []

module _ (sl_thd_alloc : ℕ → World → ℕ) (thdid : ℕ → ℕ) (sl_yield : World → World)
    (prog : ℕ → ℕ → Cmd ℕ) (null : (y : World) → prog fn_null_at 0 y ≡ done 0 y)
    (iter fn argument : ℕ) (after : Cmd ℕ)
    (runs : (y : World) → prog fn argument y ≡ and_then (test_perf iter y) (λ _. after))
    (fp : ℕ) where
  abbrev checks_on : Unit {0} → Cmd ℕ
  checks_on = from_checks sl_yield fp iter after

  module _ (w : World) (p c b : ℕ) (more : List ℕ) (some_left : w.supply ≡ fp ∷ p ∷ c ∷ b ∷ more)
      (pos_fp : fp ≢ 0) (pos : p ≢ 0) (pos_c : c ≢ 0) (pos_b : b ≢ 0) where
    abbrev pub given : World
    given = set_param fp fn argument (record w { supply = p ∷ c ∷ b ∷ more })

    abbrev pub thd : ℕ
    thd = sl_thd_alloc fp given

    abbrev pub k : ℕ
    k = thdid thd

    module _ (alloc : thd ≢ 0) (small : k < max_kthd_num) where
      no_heads-IsQueues : IsQueues Node-discrete no_heads given.links no_queues
      no_heads-IsQueues = record {
        ring = λ h hh. cc;
        inside = λ h x hh i. cc;
        apart = λ h g x hh hg i j. cc;
      }

      no_heads-Fresh : (h : Node) → Fresh no_heads no_queues h
      no_heads-Fresh h = (refl, λ g hg. refl)

      given_supply : given.supply ≡ p ∷ c ∷ b ∷ more
      unfolding set_param
      given_supply = refl

      abbrev made : World
      made =
          first no_heads given no_queues k p c b more no_heads-IsQueues (λ t. refl) (λ h hh. refl)
            (no_heads-Fresh (run_queue k)) (no_heads-Fresh (recycle_queue k))
            (no_heads-Fresh (wakeup_queue k)) (no_heads-Fresh (sender_queue c)) given_supply pos
            pos_c pos_b small

      abbrev first_heads : Node → Bool
      first_heads =
          heads no_heads given no_queues k p c b more no_heads-IsQueues (λ t. refl) (λ h hh. refl)
            (no_heads-Fresh (run_queue k)) (no_heads-Fresh (recycle_queue k))
            (no_heads-Fresh (wakeup_queue k)) (no_heads-Fresh (sender_queue c)) given_supply pos
            pos_c pos_b small

      abbrev first_queues : Node → List Node
      first_queues =
          queues no_heads given no_queues k p c b more no_heads-IsQueues (λ t. refl) (λ h hh. refl)
            (no_heads-Fresh (run_queue k)) (no_heads-Fresh (recycle_queue k))
            (no_heads-Fresh (wakeup_queue k)) (no_heads-Fresh (sender_queue c)) given_supply pos
            pos_c pos_b small

      creates : lwt_kthd_create sl_thd_alloc thdid fn argument w ≡ done thd made
      unfolding lwt_kthd_create umalloc follow
      creates =
          rw
            (
              some_left,
              ne→== fp 0 pos_fp,
              ne→== thd 0 alloc,
              initiate_lem no_heads given no_queues k p c b more no_heads-IsQueues (λ t. refl)
                  (λ h hh. refl) (no_heads-Fresh (run_queue k)) (no_heads-Fresh (recycle_queue k))
                  (no_heads-Fresh (wakeup_queue k)) (no_heads-Fresh (sender_queue c)) given_supply
                  pos pos_c pos_b small,
            )
            refl

      i : Initiated k p c more given made
      i =
          first-Initiated no_heads given no_queues k p c b more no_heads-IsQueues (λ t. refl)
            (λ h hh. refl) (no_heads-Fresh (run_queue k)) (no_heads-Fresh (recycle_queue k))
            (no_heads-Fresh (wakeup_queue k)) (no_heads-Fresh (sender_queue c)) given_supply pos
            pos_c pos_b small

      -- The parameter is still in the memory.
      func_there : made.memory fp ≡ fn
      unfolding set_param
      func_there = ap (λ f. f fp) i.memory ∙ ground arith

      data_there : made.memory ((fp + 4) % 2 ^ 32) ≡ argument
      unfolding set_param
      data_there = ap (λ f. f ((fp + 4) % 2 ^ 32)) i.memory ∙ ground arith

      free_senders : (d : ℕ) (h : Node) → has_node (sender_queue d) (first_queues h) ≡ false
      unfolding enqueue_before_last
      free_senders d h = ground arith

      first_senders : (d : ℕ) → first_heads (sender_queue d) ≡ has ℕ_discrete d (c ∷ [])
      first_senders d = ground arith

      child_free : (t : ℕ) → t ≢ p → IsOut Node-discrete first_heads first_queues (thread_node t)
      unfolding enqueue_before_last
      child_free t ne h hh = ground arith

      module _ (stacks : (x : ℕ) → (w.thread x).init_sp < 2 ^ 32) (enough : 1 < w.rounds)
          (rounds : w.rounds < 2 ^ 32) (t stack : ℕ) (xs : List ℕ)
          (two_more : more ≡ t ∷ stack ∷ xs) (pos_t : t ≢ 0) (other : t ≢ p)
          (addresses : Addresses iter (c ∷ []) xs) where
        made-Idle : Idle first_heads first_queues p [] (enter_kthd k made)
        unfolding set_param
        made-Idle =
            first-Idle no_heads given no_queues k p c b more no_heads-IsQueues (λ t. refl)
              (λ h hh. refl) (no_heads-Fresh (run_queue k)) (no_heads-Fresh (recycle_queue k))
              (no_heads-Fresh (wakeup_queue k)) (no_heads-Fresh (sender_queue c)) given_supply pos
              pos_c pos_b small stacks enough rounds

        loop_ends :
            Continues prog p
              (record {
                runs = p;
                now = and_then (for_loop iter 0 fork_join (enter_kthd k made)) checks_on;
                saved = λ t v. fault;
              })
              checks_on
        loop_ends =
            for_loop-fork_join_new prog null p checks_on iter 0 first_heads first_queues t stack xs
              (enter_kthd k made) (λ t v. fault) made-Idle pos_t (child_free t other)
              (i.supply ∙ two_more)
              (Room-Addresses iter (c ∷ []) xs first_heads first_queues first_senders free_senders
                addresses)

        begins : begin_kthd sl_yield fp prog (enter_kthd k made) ≡ record {
          runs = p;
          now = and_then (for_loop iter 0 fork_join (enter_kthd k made)) checks_on;
          saved = λ t v. fault;
        }
        begins =
            ap₂ (λ r o. record { runs = r; now = o; saved = λ t v. fault }) i.current
              (trampline sl_yield fp iter after prog fn argument runs (enter_kthd k made) func_there
                data_there)

        -- Let `prog` have `fn_null` at its address and, at `fn`, a function that begins with
        -- `test_perf`, for an `ITER` other than 0. From a world with stack tops of 32 bits, more
        -- than one and fewer than 2 ^ 32 rounds, and an allocator with new addresses for the
        -- parameter, the first thread, its channel, one child with its stack, and the channels of
        -- `ITER` children, and given a kernel thread from `sl_thd_alloc` with an index below
        -- `MAX_KTHD_NUM`: `lwt_kthd_create` returns that kernel thread, with the caller's still
        -- the current one; and the machine that runs `lwt_kthd_trampline` in the first thread of
        -- the new one, once sl has made it the current one, makes the `ITER` turns that create a
        -- thread and join it, passes `IS_RESET`, and reaches the rest of `test_perf`, of the
        -- function and of the trampoline, run by the first thread in a kernel thread that is idle.
        -- No assertion fails.
        pub lwt_kthd_create-test_perf :
            iter ≢ 0
            → Returns
                (λ r u.
                  (r ≡ thd)
                  × (u.current_kthd ≡ w.current_kthd)
                  × Continues prog p
                      (begin_kthd sl_yield fp prog (enter_kthd k u))
                      (λ _. behind sl_yield fp iter after))
                (lwt_kthd_create sl_thd_alloc thdid fn argument w)
        unfolding set_param
        lwt_kthd_create-test_perf some = rw creates (
          refl,
          i.creator,
          (
            loop_ends.0,
            loop_ends.1,
            loop_ends.2,
            loop_ends.3,
            loop_ends.4,
            rw begins (
                subst
                  (λ o.
                    Reach prog
                      (record {
                        runs = p;
                        now = and_then (for_loop iter 0 fork_join (enter_kthd k made)) checks_on;
                        saved = λ t v. fault;
                      })
                      (record { runs = p; now = o; saved = loop_ends.4 }))
                  (passes sl_yield fp iter after some loop_ends.6) loop_ends.5),
            loop_ends.6,
          ),
        )
