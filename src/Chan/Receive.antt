-- ===== src/Chan/Receive.antt =====
-- `lwt_rcv`, `lwt_sync_rcv` and `lwt_rcv_chan`.
use light_weight_thread_libr.Prelude.{ℕ, zero, suc, Bool, not, ◌==◌, if◌then◌else◌}
use light_weight_thread_libr.Links.{list_ll_empty}
use light_weight_thread_libr.State.{
  World, Node, Node-discrete, thread_node, sender_queue, blocked_receiving, inc, set_thread,
  set_chan, lwt_current,
}
use light_weight_thread_libr.State.Cmd.{
  Cmd, done, fault, hung, pure, ◌>>=◌, ◌>>◌, gets, modify, follow,
}
use light_weight_thread_libr.Sched.{lwt_yield}
use light_weight_thread_libr.Chan.Buffer.{used, put_cell, take_cell}
use light_weight_thread_libr.Chan.Block.{put_aside, block_thread, resume_thread}
use light_weight_thread_libr.Chan.Send.{is_global}

abbrev pub no_sender : ℕ → World → Bool
no_sender chan w = list_ll_empty Node-discrete w.links (sender_queue chan)

-- The sender at the front of the queue is resumed; its message goes into the buffer.
unfoldable pub refill : ℕ → Node → Cmd (Unit {0})
refill chan (thread_node sender) w =
    let w' = resume_thread sender w in put_cell chan (w'.thread sender).message_data w'
refill chan _ w = fault

abbrev pub set_ready : ℕ → Bool → World → World
set_ready chan b w = set_chan w chan (record (w.chan chan) { ready = if b then 1 else 0 })

unfoldable pub rcv_buffered : ℕ → Cmd ℕ
rcv_buffered chan = do
  result ← take_cell chan
  (λ w. if no_sender chan w then done tt w else refill chan (w.links.n (sender_queue chan)) w)
  modify (λ w. set_ready chan (not ((w.chan chan).buffer.head == (w.chan chan).buffer.tail)) w)
  pure result

-- The message of a sender that is blocked on a channel with an empty buffer.
unfoldable pub rcv_direct : ℕ → Node → Cmd ℕ
rcv_direct chan (thread_node sender) w =
    let w' = resume_thread sender w in
    done (w.thread sender).message_data (set_ready chan (not (no_sender chan w')) w')
rcv_direct chan _ w = fault

unfoldable pub set_rcving : ℕ → ℕ → World → World
set_rcving thread chan w = set_thread w thread (record (w.thread thread) { now_rcving = chan })

unfoldable pub wait_message : ℕ → Cmd ℕ
wait_message chan = do
  current_thread ← gets lwt_current
  modify (set_rcving current_thread chan)
  block_thread current_thread blocked_receiving chan
  gets (λ w. (w.thread current_thread).message_data)

unfoldable pub rcv_local : ℕ → Cmd ℕ
rcv_local chan w =
    if not (used (w.chan chan) == 0)
    then rcv_buffered chan w
    else if not (no_sender chan w)
    then rcv_direct chan (w.links.n (sender_queue chan)) w
    else wait_message chan w

-- The loop of `lwt_sync_rcv`, for `rounds` turns.
unfoldable pub sync_rcv_loop : ℕ → ℕ → ℕ → Cmd ℕ
sync_rcv_loop zero chan current_thread w = hung
sync_rcv_loop (suc rounds) chan current_thread w =
    let again = sync_rcv_loop rounds chan current_thread in
    if not (used (w.chan chan) == 0)
    then take_cell chan w
    else (do
      modify (set_rcving current_thread chan)
      modify (put_aside current_thread blocked_receiving chan)
      _ ← lwt_yield 0
      again)
        w

unfoldable pub lwt_sync_rcv : ℕ → Cmd ℕ
lwt_sync_rcv chan = do
  receiver ← gets (λ w. (w.chan chan).receiver)
  follow receiver
  current_thread ← gets lwt_current
  λ w. sync_rcv_loop w.rounds chan current_thread w

unfoldable pub lwt_rcv : ℕ → Cmd ℕ
lwt_rcv chan = do
  follow chan
  type ← gets (λ w. (w.chan chan).type)
  if is_global type then lwt_sync_rcv chan else rcv_local chan

unfoldable pub lwt_rcv_chan : ℕ → Cmd ℕ
lwt_rcv_chan chan = do
  rec ← lwt_rcv chan
  modify (λ w.
      if rec == 0
      then w
      else set_chan w rec (record (w.chan rec) { snd_cnt = inc (w.chan rec).snd_cnt }))
  pure rec
