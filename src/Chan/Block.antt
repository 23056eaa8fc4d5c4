-- ===== src/Chan/Block.antt =====
-- `__block_thread` and `__resume_thread`.
use light_weight_thread_libr.Prelude.{ℕ, if◌then◌else◌}
use light_weight_thread_libr.State.{
  World, thread_node, sender_queue, BlockStatus, lwt_blocked, inc, is_receiving, set_thread,
  set_kthd, list_rem, head_add, head_append, current_info, owner_run_queue,
}
use light_weight_thread_libr.State.Cmd.{Cmd, pure, ◌>>=◌, ◌>>◌, modify}
use light_weight_thread_libr.Sched.{uncount, set_runnable, lwt_yield}

-- The counters of the running kernel thread when one of its threads blocks.
unfoldable pub count : BlockStatus → World → World
count block_for w =
    let k = current_info w in
    set_kthd w w.current_kthd (record k {
      nrcving = if is_receiving block_for then inc k.nrcving else k.nrcving;
      nsnding = if is_receiving block_for then k.nsnding else inc k.nsnding;
      block_counter = inc k.block_counter;
    })

unfoldable pub set_blocked : ℕ → BlockStatus → World → World
set_blocked thread block_for w =
    set_thread w thread (record (w.thread thread) { state = lwt_blocked; block_for = block_for })

-- What `__block_thread` does before it yields.
unfoldable pub put_aside : ℕ → BlockStatus → ℕ → World → World
put_aside thread block_for chan w =
    let w' = list_rem w (thread_node thread) in
    let w' =
      if is_receiving block_for then w' else head_add w' (sender_queue chan) (thread_node thread) in
    set_blocked thread block_for (count block_for w')

unfoldable pub block_thread : ℕ → BlockStatus → ℕ → Cmd (Unit {0})
block_thread thread block_for chan = do
  modify (put_aside thread block_for chan)
  _ ← lwt_yield 0
  pure tt

unfoldable pub resume_thread : ℕ → World → World
resume_thread thread w =
    let w' = set_runnable thread (list_rem (uncount thread w) (thread_node thread)) in
    head_append w' (owner_run_queue w') (thread_node thread)
