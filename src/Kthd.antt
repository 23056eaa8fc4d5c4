-- ===== src/Kthd.antt =====
-- lwt_chl.c: the creation of kernel threads, and what one does when its function has returned.
pub mod Loop
use light_weight_thread_libr.Prelude.{
  ℕ, zero, suc, ◌+◌, ◌%◌, ◌^◌, none, some, ◌==◌, if◌then◌else◌, ℕ_discrete,
}
use light_weight_thread_libr.Links.{update, get_queue_size}
use light_weight_thread_libr.State.{World, Node-discrete, current_run_queue}
use light_weight_thread_libr.State.Cmd.{
  Cmd, done, hung, pure, ◌>>=◌, ◌>>◌, gets, modify, follow, umalloc, ufree,
}
use light_weight_thread_libr.Sched.{lwt_schedule}
use light_weight_thread_libr.Thread.{initiate}

-- `struct __func_param`, two words: `func` and `data`.
unfoldable pub set_param : ℕ → ℕ → ℕ → World → World
set_param fp fn argument w =
    let m = update ℕ_discrete w.memory fp fn in
    record w { memory = update ℕ_discrete m ((fp + 4) % 2 ^ 32) argument }

-- `sl_thd_alloc` returns a kernel thread that will run `lwt_kthd_trampline` with the parameter
-- given, and `thdid` is its field of that name. `sl_thd_param_set` changes nothing here.
module _ (sl_thd_alloc : ℕ → World → ℕ) (thdid : ℕ → ℕ) where
  unfoldable pub lwt_kthd_create : ℕ → ℕ → Cmd ℕ
  lwt_kthd_create fn c = do
    fp ← umalloc
    follow fp
    modify (set_param fp fn c)
    curr_kthd ← gets (sl_thd_alloc fp)
    follow curr_kthd
    initiate (thdid curr_kthd)
    pure curr_kthd

-- `sl_yield` is what the other kernel threads do in `sl_thd_block(0)` and `sl_thd_yield(NULL)`.
module _ (sl_yield : World → World) where
  -- `while (1)`, for `rounds` turns.
  unfoldable pub kthd_loop : ℕ → Cmd (Unit {0})
  kthd_loop zero w = hung
  kthd_loop (suc rounds) w =
      let again = kthd_loop rounds in
      elim (get_queue_size Node-discrete w.rounds w.links (current_run_queue w)) [
        | none ↦ hung
        | some n ↦ if n == 1 then (do modify sl_yield; lwt_schedule; again) w else again w
      ]

  -- `code` has the functions of the program by their addresses.
  unfoldable pub lwt_kthd_trampline : (ℕ → ℕ → Cmd ℕ) → ℕ → Cmd (Unit {0})
  lwt_kthd_trampline code ptr = do
    func ← gets (λ w. w.memory ptr)
    argument ← gets (λ w. w.memory ((ptr + 4) % 2 ^ 32))
    _ ← code func argument
    modify (ufree ptr)
    λ w. kthd_loop w.rounds w
