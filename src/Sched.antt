-- ===== src/Sched.antt =====
-- lwt.c: the switch between threads, `__lwt_schedule` and `lwt_yield`.
pub mod Turns
pub mod System
pub mod Yield
pub mod Handed
pub mod Rounds
use light_weight_thread_libr.Prelude.{
  ℕ, zero, suc, ◌+◌, ◌%◌, ◌^◌, Bool, not, ◌&&◌, ◌||◌, ◌∷◌, ◌==◌, if◌then◌else◌,
}
use light_weight_thread_libr.State.{
  Node, thread_node, wrap_node, wakeup_queue, World, lwt_runnable, lwt_running, ret_dispatch, dec,
  sub, is_receiving, is_sending, can_run, set_thread, set_kthd, list_rem, head_add, head_append,
  current_info, lwt_current, current_run_queue, owner_run_queue,
}
use light_weight_thread_libr.State.Cmd.{
  Cmd, done, switched, fault, hung, pure, ◌>>=◌, ◌>>◌, gets, modify,
}

-- `__lwt_dispatch(&curr->context, &next->context)`. `pushal` and `popal` move eight words.
unfoldable pub lwt_dispatch : ℕ → ℕ → Cmd (Unit {0})
lwt_dispatch curr next w =
    let saved = record (w.thread curr) {
      context = record { ip = ret_dispatch; sp = sub w.esp 32 };
    } in
    let w' = set_thread w curr saved in
    switched (record w' { esp = (w'.thread next).context.sp })
      (λ v. done tt (record v { esp = (v.esp + 32) % 2 ^ 32 }))

-- The counters of the running kernel thread when the blocked `thread` goes on.
unfoldable pub uncount : ℕ → World → World
uncount thread w =
    let b = (w.thread thread).block_for in
    let k = current_info w in
    set_kthd w w.current_kthd (record k {
      nrcving = if is_receiving b then dec k.nrcving else k.nrcving;
      nsnding = if is_sending b then dec k.nsnding else k.nsnding;
      block_counter = dec k.block_counter;
    })

unfoldable pub set_runnable : ℕ → World → World
set_runnable thread w = set_thread w thread (record (w.thread thread) { state = lwt_runnable })

-- The body of the loop over the wakeup queue. `_thd == LWT_BLOCKED` compares the pointer with 1.
unfoldable pub poll_body : ℕ → World → World
poll_body lw w =
    let thd = w.wrap lw in
    let woken = set_runnable thd (uncount thd w) in
    let w' =
      if (thd == 1) && is_receiving (w.thread thd).block_for
      then head_append woken (owner_run_queue woken) (thread_node thd)
      else w in
    record (list_rem w' (wrap_node lw)) { freed = lw ∷ w'.freed }

-- `list_foreach_d(&kthds[current_kthd].wakeup_queue, _lw)`; the step to the next node follows the
-- pointer of the node that the body has taken out and freed.
unfoldable pub poll_loop : ℕ → Node → Cmd (Unit {0})
poll_loop zero iter w = hung
poll_loop (suc rounds) (wrap_node lw) w =
    let w' = poll_body lw w in poll_loop rounds (w'.links.n (wrap_node lw)) w'
poll_loop (suc rounds) (wakeup_queue k) w = if k == w.current_kthd then done tt w else fault
poll_loop (suc rounds) _ w = fault

unfoldable pub poll : Cmd (Unit {0})
poll w =
    if (current_info w).polling_flag == 0
    then done tt w
    else poll_loop w.rounds (w.links.n (wakeup_queue w.current_kthd)) w

-- The end of `__lwt_schedule`, given the first node of the run queue. The head of an empty queue
-- is no thread.
unfoldable pub run_first : ℕ → Node → Cmd (Unit {0})
run_first old_thread (thread_node new_thread) w =
    let w' = set_thread w new_thread (record (w.thread new_thread) { state = lwt_running }) in
    let k = record (current_info w') { current_thread = new_thread } in
    lwt_dispatch old_thread new_thread (set_kthd w' w'.current_kthd k)
run_first old_thread _ w = fault

unfoldable pub lwt_schedule : Cmd (Unit {0})
lwt_schedule = do
  old_thread ← gets lwt_current
  new_thread ← gets (λ w. w.links.n (current_run_queue w))
  poll
  run_first old_thread new_thread

-- The first test of `lwt_yield`.
unfoldable pub stays : ℕ → World → Bool
stays yield_to w =
    (yield_to == lwt_current w) || (not (yield_to == 0) && not (can_run (w.thread yield_to).state))

-- What `lwt_yield` does to the run queue.
unfoldable pub make_way : ℕ → World → World
make_way yield_to w =
    let current_thread = lwt_current w in
    if not (yield_to == 0)
    then head_append (list_rem w (thread_node yield_to)) (owner_run_queue w) (thread_node yield_to)
    else if can_run (w.thread current_thread).state
    then head_add (list_rem w (thread_node current_thread)) (owner_run_queue w)
        (thread_node current_thread)
    else w

unfoldable pub lwt_yield : ℕ → Cmd ℕ
lwt_yield yield_to = do
  at_once ← gets (stays yield_to)
  if at_once then pure 0 else do modify (make_way yield_to); lwt_schedule; pure 0
