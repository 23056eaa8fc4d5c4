-- ===== src/Sched/Turns.antt =====
-- Who runs next: the properties of `lwt_yield`.
use mathlib.Core.List.{erase}
use light_weight_thread_libr.Prelude.{
  ℕ, ◌≡◌, sym, ◌≢◌, ◌∙◌, ap, subst, Bool, true, List, [], ◌∷◌, ◌++◌, arith, head_or,
}
use light_weight_thread_libr.Links.Queues.{has-erase}
use light_weight_thread_libr.Links.Ring.{has-append}
use light_weight_thread_libr.Links.Refine.{
  move_to_end, move_to_end_at, move_to_end-head, move_before_last_at, before_last,
}
use light_weight_thread_libr.State.{
  World, Node, Node-discrete, thread_node, run_queue, can_run, lwt_current,
}
use light_weight_thread_libr.State.Cmd.{done}
use light_weight_thread_libr.State.Gives.{Gives, Gives-mono}
use light_weight_thread_libr.Sched.{lwt_yield}
use light_weight_thread_libr.Sched.Handed.{Handed, pop_registers}
use light_weight_thread_libr.Sched.System.{
  System, System-handed, AllThreads, AllThreads-append, AllThreads-erase, AllThreads-before_last,
  has_node, has-before_last, IsThread-has, First-thread,
}
use light_weight_thread_libr.Sched.Yield.{
  GoesTo, round, directed, round-GoesTo, directed-GoesTo, head_or-append,
}

module _ {is_head : Node → Bool} {w : World} {v : Node → List Node} (s : System is_head w v) where
  abbrev k : ℕ
  k = w.current_kthd

  abbrev cur : ℕ
  cur = lwt_current w

  abbrev queue : List Node
  queue = v (run_queue k)

  -- `t` runs in place of the current thread; the links stand for `v'`, and the invariant holds.
  abbrev pub Runs : ℕ → (Node → List Node) → World → Type 0
  Runs t v' u = Handed cur t w u × System is_head u v'

  with_System :
      (t : ℕ) (v' : Node → List Node)
      → AllThreads (v' (run_queue k))
      → has_node (thread_node t) (v' (run_queue k)) ≡ true
      → ((x : ℕ)
          → has_node (thread_node x) (v' (run_queue k)) ≡ true
          → has_node (thread_node x) queue ≡ true)
      → (u : World) → GoesTo is_head w v t v' u
      → Runs t v' u
  with_System t v' runs here less u g = (
    g.0,
    System-handed v' g.0 g.1 s.run_head s.nodes s.off runs here (λ x i. s.owned x (less x i)),
  )

  abbrev others : ℕ → List Node
  others x = erase Node-discrete queue (thread_node x)

  round_at : round is_head w v s (run_queue k) ≡ others cur ++ thread_node cur ∷ []
  round_at = move_to_end_at Node-discrete v (run_queue k) (thread_node cur)

  round_runs : AllThreads (round is_head w v s (run_queue k))
  round_runs = subst AllThreads (sym round_at) (
      AllThreads-append (others cur) (thread_node cur ∷ [])
        (AllThreads-erase (thread_node cur) queue s.runs)
        (IsThread-has (thread_node cur) queue s.runs s.current_in, tt))

  round_has :
      (x : Node) → has_node x (round is_head w v s (run_queue k)) ≡ true → has_node x queue ≡ true
  round_has x i =
      let i' : has_node x (others cur ++ thread_node cur ∷ []) ≡ true = rw round_at at i in
      ground (
        arith,
        s.current_in,
        has-append Node-discrete x (others cur) (thread_node cur ∷ []),
        has-erase Node-discrete (thread_node cur) x queue,
      )

  has_head :
      (t : ℕ) (xs : List Node)
      → head_or (run_queue k) xs ≡ thread_node t
      → has_node (thread_node t) xs ≡ true
  has_head t [] e = cc
  has_head t (x ∷ xs) e = ground arith

  round-Runs :
      (t : ℕ)
      → can_run (w.thread cur).state ≡ true
      → head_or (run_queue k) (round is_head w v s (run_queue k)) ≡ thread_node t
      → Gives {A = ℕ} (Runs t (round is_head w v s)) (λ x. done 0 (pop_registers x)) (lwt_yield 0 w)
  round-Runs t can first =
      let v' = round is_head w v s in
      Gives-mono (GoesTo is_head w v t v') (Runs t v') (λ x. done 0 (pop_registers x))
        (lwt_yield 0 w)
        (with_System t v' round_runs (has_head t (v' (run_queue k)) first)
          (λ x. round_has (thread_node x)))
        (round-GoesTo is_head w v s t can first)

  directed_at :
      (y : ℕ) → directed is_head w v s y (run_queue k) ≡ before_last (others y) (thread_node y)
  directed_at y = move_before_last_at Node-discrete v (run_queue k) (thread_node y)

  directed-Runs :
      (y t : ℕ)
      → y ≢ cur
      → can_run (w.thread y).state ≡ true
      → has_node (thread_node y) queue ≡ true
      → head_or (run_queue k) (before_last (others y) (thread_node y)) ≡ thread_node t
      → Gives {A = ℕ}
          (Runs t (directed is_head w v s y))
          (λ x. done 0 (pop_registers x))
          (lwt_yield y w)
  directed-Runs y t other can i first =
      let v' = directed is_head w v s y in
      let first' : head_or (run_queue k) (v' (run_queue k)) ≡ thread_node t =
        ap (head_or (run_queue k)) (directed_at y) ∙ first in
      Gives-mono (GoesTo is_head w v t v') (Runs t v') (λ x. done 0 (pop_registers x))
        (lwt_yield y w)
        (with_System t v'
          (subst AllThreads (sym (directed_at y)) (
            AllThreads-before_last (thread_node y) (others y)
              (IsThread-has (thread_node y) queue s.runs i)
              (AllThreads-erase (thread_node y) queue s.runs)))
          (has_head t (v' (run_queue k)) first')
          (λ x j.
            let j' : has_node (thread_node x) (thread_node y ∷ others y) ≡ true =
              rw (directed_at y, has-before_last (thread_node y) (thread_node x) (others y)) at j in
            ground (arith, i, has-erase Node-discrete (thread_node y) (thread_node x) queue)))
        (directed-GoesTo is_head w v s y t other can i first')

  -- Given the invariant, `lwt_yield(NULL)` of a thread that can run gives the processor to a
  -- thread of the run queue, with the caller moved to the end of the queue and the invariant kept;
  -- the call never faults or hangs, and on its return only the stack pointer is touched.
  pub lwt_yield-System :
      can_run (w.thread cur).state ≡ true
      → (t : ℕ) × Gives {A = ℕ}
          (Runs t (move_to_end Node-discrete v (run_queue k) (thread_node cur)))
          (λ x. done 0 (pop_registers x))
          (lwt_yield 0 w)
  lwt_yield-System can =
      let f = First-thread (thread_node cur) (round is_head w v s (run_queue k)) round_runs here in
      (f.thread, round-Runs f.thread can (ap (head_or (run_queue k)) f.whole))
    where
      here : has_node (thread_node cur) (round is_head w v s (run_queue k)) ≡ true
      here = rw round_at (
          ground
            (arith, has-append Node-discrete (thread_node cur) (others cur) (thread_node cur ∷ [])))

  -- Given the invariant, `lwt_yield(NULL)` of a thread that can run and is at the front of the run
  -- queue puts it behind the others, and the second thread runs, or the caller itself if there is
  -- no other; the invariant is kept.
  pub lwt_yield-round_robin :
      (t : ℕ) (rest : List Node)
      → can_run (w.thread cur).state ≡ true
      → queue ≡ thread_node cur ∷ rest
      → head_or (thread_node cur) rest ≡ thread_node t
      → Gives {A = ℕ}
          (λ u.
            Runs t (round is_head w v s) u
            × (round is_head w v s (run_queue k) ≡ rest ++ thread_node cur ∷ []))
          (λ x. done 0 (pop_registers x))
          (lwt_yield 0 w)
  lwt_yield-round_robin t rest can e next =
      Gives-mono (Runs t (round is_head w v s))
        (λ u.
          Runs t (round is_head w v s) u
          × (round is_head w v s (run_queue k) ≡ rest ++ thread_node cur ∷ []))
        (λ x. done 0 (pop_registers x)) (lwt_yield 0 w) (λ u r. (r, turned))
        (round-Runs t can (
          ap (head_or (run_queue k)) turned
          ∙ head_or-append (run_queue k) (thread_node cur) rest
          ∙ next))
    where
      turned : round is_head w v s (run_queue k) ≡ rest ++ thread_node cur ∷ []
      turned = move_to_end-head Node-discrete v (run_queue k) (thread_node cur) rest e

  -- Given the invariant, a directed yield to another thread of the run queue that can run reaches
  -- it if the queue holds, besides it, one thread; the invariant is kept.
  pub lwt_yield-reaches :
      (y : ℕ)
      → y ≢ cur
      → can_run (w.thread y).state ≡ true
      → has_node (thread_node y) queue ≡ true
      → (a : Node) → others y ≡ a ∷ []
      → Gives {A = ℕ}
          (Runs y (directed is_head w v s y))
          (λ x. done 0 (pop_registers x))
          (lwt_yield y w)
  lwt_yield-reaches y other can i a e =
      directed-Runs y y other can i
        (ap (λ r. head_or (run_queue k) (before_last r (thread_node y))) e)

  -- Given the invariant, a directed yield to another thread of the run queue that can run does not
  -- reach it if the queue holds, besides it, two or more: the first of those runs, and the
  -- invariant is kept.
  pub lwt_yield-misses :
      (y t : ℕ) (b : Node) (l : List Node)
      → y ≢ cur
      → can_run (w.thread y).state ≡ true
      → has_node (thread_node y) queue ≡ true
      → others y ≡ thread_node t ∷ b ∷ l
      → Gives {A = ℕ}
          (Runs t (directed is_head w v s y))
          (λ x. done 0 (pop_registers x))
          (lwt_yield y w)
  lwt_yield-misses y t b l other can i e =
      directed-Runs y t other can i
        (ap (λ r. head_or (run_queue k) (before_last r (thread_node y))) e)
