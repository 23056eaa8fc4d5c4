-- ===== src/Thread.antt =====
-- lwt.c: a thread from `lwt_create` to `lwt_die`, `lwt_join`, and the set-up of a kernel thread.
pub mod Start
pub mod Create
pub mod Prepared
pub mod Started
pub mod Dying
pub mod Die
pub mod Forked
pub mod Joining
pub mod Taking
pub mod Initiate
pub mod Unjoined
pub mod Collect
pub mod Retire
use light_weight_thread_libr.Prelude.{
  ℕ, ◌+◌, ◌*◌, ◌%◌, ◌^◌, ◌&&◌, Bool, false, not, ◌==◌, ltb, if◌then◌else◌, ℕ_discrete,
}
use light_weight_thread_libr.Links.{update, list_ll_empty}
use light_weight_thread_libr.State.{
  World, Node, Node-discrete, thread_node, run_queue, recycle_queue, wakeup_queue, lwt_running,
  lwt_zombies, trampoline, inc, dec, sub, set_thread, set_chan, set_kthd, list_rem, head_add,
  head_append, head_init, current_info, lwt_current, current_run_queue, current_recycle_queue,
}
use light_weight_thread_libr.State.Cmd.{
  Cmd, done, fault, pure, ◌>>=◌, ◌>>◌, gets, modify, follow, umalloc,
}
use light_weight_thread_libr.Sched.{lwt_schedule, lwt_yield}
use light_weight_thread_libr.Chan.Life.{lwt_chan}
use light_weight_thread_libr.Chan.Send.{lwt_snd}
use light_weight_thread_libr.Chan.Receive.{lwt_rcv}

abbrev pub max_stack_size : ℕ
max_stack_size = 100 * 1024 * 8

abbrev pub max_kthd_num : ℕ
max_kthd_num = 35

-- `__init_thread`, before and after its channel is made.
unfoldable pub begin_thread : ℕ → World → World
begin_thread created_thread w =
    let t = record (w.thread created_thread) {
      lwt_id = w.lwt_counter;
      state = lwt_running;
      parent = 0;
      message_data = 0;
    } in
    record (set_thread w created_thread t) { lwt_counter = inc w.lwt_counter }

unfoldable pub give_chan : ℕ → ℕ → ℕ → World → World
give_chan created_thread k_id chan w =
    let t = record (w.thread created_thread) { chl = chan; nojoin = 0; owner_kthd = k_id } in
    let c = w.chan chan in
    set_chan (set_thread w created_thread t) chan (record c { snd_cnt = inc c.snd_cnt })

unfoldable pub init_thread : ℕ → ℕ → Cmd (Unit {0})
init_thread created_thread k_id = do
  follow created_thread
  modify (begin_thread created_thread)
  chan ← lwt_chan 0
  modify (give_chan created_thread k_id chan)

-- The thread at the front of the recycle queue, or a new one with a stack of its own.
unfoldable pub reuse : Node → Cmd ℕ
reuse (thread_node next_thread) w = done next_thread (list_rem w (thread_node next_thread))
reuse _ w = fault

unfoldable pub allocate : Cmd ℕ
allocate = do
  next_thread ← umalloc
  stack ← umalloc
  follow next_thread
  modify (λ w.
      set_thread w next_thread
        (record (w.thread next_thread) { init_sp = (stack + max_stack_size) % 2 ^ 32 }))
  pure next_thread

unfoldable pub take_thread : Cmd ℕ
take_thread w =
    let q = current_recycle_queue w in
    if list_ll_empty Node-discrete w.links q then allocate w else reuse (w.links.n q) w

-- The two words on the stack of a new thread, and the context that starts it.
unfoldable pub prepare : ℕ → ℕ → ℕ → Bool → World → World
prepare next_thread fn arg nojoin w =
    let t = w.thread next_thread in
    let sp = t.init_sp in
    let t' = record t {
      parent = lwt_current w;
      context = record { ip = trampoline; sp = sub sp 12 };
      nojoin = if nojoin then 1 else t.nojoin;
    } in
    let m = update ℕ_discrete (update ℕ_discrete w.memory (sub sp 4) arg) (sub sp 8) fn in
    record (set_thread w next_thread t') { memory = m }

-- `nojoin` is `flags & LWT_NOJOIN`.
unfoldable pub lwt_create : ℕ → ℕ → Bool → Cmd ℕ
lwt_create fn arg nojoin = do
  next_thread ← take_thread
  k ← gets (λ w. w.current_kthd)
  init_thread next_thread k
  modify (prepare next_thread fn arg nojoin)
  modify (λ w. head_add w (current_run_queue w) (thread_node next_thread))
  pure next_thread

unfoldable pub lwt_create_chan : ℕ → ℕ → Cmd ℕ
lwt_create_chan fn chan = do
  created_thread ← lwt_create fn chan false
  follow chan
  modify (λ w. set_chan w chan (record (w.chan chan) { snd_cnt = inc (w.chan chan).snd_cnt }))
  pure created_thread

unfoldable pub last_word : ℕ → ℕ → World → World
last_word thread message w =
    let k = record (current_info w) { zombie_counter = inc (current_info w).zombie_counter } in
    let w' = set_kthd w w.current_kthd k in
    set_thread w' thread (record (w'.thread thread) { message_data = message })

unfoldable pub retire : ℕ → World → World
retire thread w =
    let w' = set_thread w thread (record (w.thread thread) { state = lwt_zombies }) in
    let k = record (current_info w') { zombie_counter = dec (current_info w').zombie_counter } in
    let w' = list_rem (set_kthd w' w'.current_kthd k) (thread_node thread) in
    head_add w' (current_recycle_queue w') (thread_node thread)

unfoldable pub lwt_die : ℕ → Cmd (Unit {0})
lwt_die message = do
  current_thread ← gets lwt_current
  modify (last_word current_thread message)
  chl ← gets (λ w. (w.thread current_thread).chl)
  _ ← lwt_snd chl message
  modify (retire current_thread)
  lwt_schedule

-- `fn` is what the function does with its argument.
unfoldable pub lwt_trampoline : (ℕ → Cmd ℕ) → ℕ → Cmd ℕ
lwt_trampoline fn arg = do return_message ← fn arg; lwt_die return_message; pure 0

unfoldable pub may_join : ℕ → World → Bool
may_join thread w = (lwt_current w == (w.thread thread).parent) && ((w.thread thread).nojoin == 0)

unfoldable pub lwt_join : ℕ → Cmd ℕ
lwt_join thread_to_wait = do
  follow thread_to_wait
  joins ← gets (may_join thread_to_wait)
  if not joins then pure 0 else do
    chl ← gets (λ w. (w.thread thread_to_wait).chl)
    data_received ← lwt_rcv chl
    _ ← lwt_yield thread_to_wait
    pure data_received

unfoldable pub init_kthd : ℕ → World → World
init_kthd kthd w =
    let k = record (w.kthd kthd) {
      block_counter = 0;
      zombie_counter = 0;
      nrcving = 0;
      nsnding = 0;
      wq_occupied = 0;
      polling_flag = 0;
    } in
    head_init (head_init (head_init (set_kthd w kthd k) (run_queue kthd)) (recycle_queue kthd))
      (wakeup_queue kthd)

-- `__initiate`; `kthds` has `MAX_KTHD_NUM` entries.
unfoldable pub initiate : ℕ → Cmd (Unit {0})
initiate kthd_id w =
    if not (ltb kthd_id max_kthd_num)
    then fault
    else (do
      modify (init_kthd kthd_id)
      thread ← umalloc
      modify (λ w. set_kthd w kthd_id (record (w.kthd kthd_id) { current_thread = thread }))
      init_thread thread kthd_id
      modify (λ w. set_thread w thread (record (w.thread thread) { state = lwt_running }))
      modify (λ w. set_kthd w kthd_id (record (w.kthd kthd_id) { main_thread = thread }))
      modify (λ w. head_append w (run_queue kthd_id) (thread_node thread)))
        w
