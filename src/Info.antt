-- ===== src/Info.antt =====
-- lwt_chl.c: `lwt_info`, and `lwt_snd_thd` and `lwt_rcv_thd`, which move a thread between kernel
-- threads.
pub mod Counts
use light_weight_thread_libr.Prelude.{ℕ, Bool, true, false, none, some, ◌==◌, if◌then◌else◌}
use light_weight_thread_libr.Links.{get_queue_size}
use light_weight_thread_libr.State.{
  World, Node, Node-discrete, thread_node, LwtInfo, nthd_runnable, nthd_blocked, nthd_zombies,
  nthd_recycle, nsnding, nrcving, njoining, LwtStatus, lwt_runnable, set_thread, list_rem,
  head_append, current_info, lwt_current, current_run_queue, current_recycle_queue, owner_run_queue,
}
use light_weight_thread_libr.State.Cmd.{Cmd, done, fault, hung, pure, ◌>>=◌, ◌>>◌, modify, follow}
use light_weight_thread_libr.Chan.Send.{minus_one, lwt_snd}
use light_weight_thread_libr.Chan.Receive.{lwt_rcv}

abbrev size_of : Node → Cmd ℕ
size_of q w = elim (get_queue_size Node-discrete w.rounds w.links q) [
  | none ↦ hung
  | some n ↦ done n w
]

unfoldable pub lwt_info : LwtInfo → Cmd ℕ
lwt_info nthd_runnable w = size_of (current_run_queue w) w
lwt_info nthd_blocked w = done (current_info w).block_counter w
lwt_info nthd_zombies w = done (current_info w).zombie_counter w
lwt_info nthd_recycle w = size_of (current_recycle_queue w) w
lwt_info nsnding w = done (current_info w).nsnding w
lwt_info nrcving w = done (current_info w).nrcving w
lwt_info njoining w = done minus_one w

-- A failed `assert` is a fault. There is no `return`, so no result.
unfoldable pub lwt_snd_thd : ℕ → ℕ → Cmd (Unit {0})
lwt_snd_thd chan sending w =
    if lwt_current w == sending then fault else (lwt_snd chan sending >>= λ _. pure tt) w

abbrev is_runnable : LwtStatus → Bool
is_runnable lwt_runnable = true
is_runnable _ = false

unfoldable pub adopt : ℕ → World → World
adopt t w =
    let w' = set_thread w t (record (w.thread t) { owner_kthd = w.current_kthd }) in
    if is_runnable (w'.thread t).state
    then head_append (list_rem w' (thread_node t)) (owner_run_queue w') (thread_node t)
    else w'

unfoldable pub lwt_rcv_thd : ℕ → Cmd ℕ
lwt_rcv_thd chan = do t ← lwt_rcv chan; follow t; modify (adopt t); pure t
