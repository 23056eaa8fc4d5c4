-- ===== src/Kthd/Loop.antt =====
-- The loop at the end of `lwt_kthd_trampline`.
use light_weight_thread_libr.Prelude.{
  ℕ, zero, suc, inl, ◌+◌, ◌%◌, ◌^◌, ◌<◌, ◌≡◌, refl, ◌≢◌, ◌∙◌, Bool, List, some, arith, length,
  ne→==,
}
use light_weight_thread_libr.Links.{get_queue_size}
use light_weight_thread_libr.Links.Init.{get_queue_size-length}
use light_weight_thread_libr.State.{
  World, Node, Node-discrete, run_queue, current_run_queue, lwt_current,
}
use light_weight_thread_libr.State.Cmd.{Cmd, done, hung, ufree}
use light_weight_thread_libr.Sched.System.{System, System-owners}
use light_weight_thread_libr.Kthd.{kthd_loop, lwt_kthd_trampline}

module _ (sl_yield : World → World) {is_head : Node → Bool} {w : World} {v : Node → List Node}
    (s : System is_head w v) (enough : length (v (run_queue w.current_kthd)) < w.rounds)
    (small : w.rounds < 2 ^ 32) where
  counts :
      get_queue_size Node-discrete w.rounds w.links (current_run_queue w)
      ≡ some (length (v (run_queue w.current_kthd)))
  unfolding current_run_queue
  counts =
      get_queue_size-length Node-discrete w.links (run_queue w.current_kthd) w.rounds
        (v (run_queue w.current_kthd)) (s.queues.ring (run_queue w.current_kthd) s.run_head) enough
        (omega arith)

  spins : length (v (run_queue w.current_kthd)) ≢ 1 → (n : ℕ) → kthd_loop sl_yield n w ≡ hung
  unfolding kthd_loop
  spins ne zero = refl
  spins ne (suc n) =
      rw (kthd_loop, counts, ne→== (length (v (run_queue w.current_kthd))) 1 ne) (spins ne n)

module _ (sl_yield : World → World) (code : ℕ → ℕ → Cmd ℕ) (ptr r : ℕ) (w u : World)
    (returns : code (w.memory ptr) (w.memory ((ptr + 4) % 2 ^ 32)) w ≡ done r u)
    {is_head : Node → Bool} {v : Node → List Node} (s : System is_head u v)
    (enough : length (v (run_queue u.current_kthd)) < u.rounds) (small : u.rounds < 2 ^ 32) where
  abbrev pub freed : World
  freed = ufree ptr u

  freed-System : System is_head freed v
  unfolding lwt_current
  freed-System = System-owners freed s refl refl refl (λ x. inl refl)

  ends : lwt_kthd_trampline sl_yield code ptr w ≡ kthd_loop sl_yield u.rounds freed
  unfolding lwt_kthd_trampline
  ends = rw returns refl

  -- Given the invariant when the function of a kernel thread returns, more rounds than its run
  -- queue has threads, and a number of threads other than one there, the loop of
  -- `lwt_kthd_trampline` goes round without giving the processor away, for every number of rounds.
  pub lwt_kthd_trampline_spins :
      length (v (run_queue u.current_kthd)) ≢ 1
      → (lwt_kthd_trampline sl_yield code ptr w ≡ hung)
        × ((n : ℕ) → kthd_loop sl_yield n freed ≡ hung)
  lwt_kthd_trampline_spins ne =
      let never = spins sl_yield freed-System enough small ne in (ends ∙ never u.rounds, never)
