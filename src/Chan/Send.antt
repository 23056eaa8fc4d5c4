-- ===== src/Chan/Send.antt =====
-- `lwt_snd`, `lwt_sync_snd` and `lwt_snd_chan`. A result of -1 is `minus_one`.
use light_weight_thread_libr.Prelude.{
  ℕ, ◌-◌, ◌^◌, Bool, true, false, not, ◌&&◌, ◌==◌, if◌then◌else◌, ℕ_discrete,
}
use light_weight_thread_libr.Links.{update}
use light_weight_thread_libr.State.{
  World, wrap_node, wakeup_queue, ChanType, local_chan, global_chan, blocked_sending, is_receiving,
  is_blocked, set_thread, set_chan, set_kthd, head_add, lwt_current,
}
use light_weight_thread_libr.State.Cmd.{
  Cmd, done, hung, pure, ◌>>=◌, ◌>>◌, gets, modify, follow, umalloc,
}
use light_weight_thread_libr.Sched.{lwt_yield}
use light_weight_thread_libr.Chan.Buffer.{used, put_cell}
use light_weight_thread_libr.Chan.Life.{set_chan_type}
use light_weight_thread_libr.Chan.Block.{block_thread, resume_thread}

abbrev pub minus_one : ℕ
minus_one = 2 ^ 32 - 1

abbrev pub is_global : ChanType → Bool
is_global local_chan = false
is_global global_chan = true

-- `cas_lock` on a lock that nobody else releases meanwhile: a retry never ends.
unfoldable pub cas_lock_rb : ℕ → Cmd (Unit {0})
cas_lock_rb chan w =
    let c = w.chan chan in
    if c.rb_occupied == 0 then done tt (set_chan w chan (record c { rb_occupied = 1 })) else hung

unfoldable pub cas_unlock_rb : ℕ → World → World
cas_unlock_rb chan w = set_chan w chan (record (w.chan chan) { rb_occupied = 0 })

unfoldable pub cas_lock_wq : ℕ → Cmd (Unit {0})
cas_lock_wq k w =
    let i = w.kthd k in
    if i.wq_occupied == 0 then done tt (set_kthd w k (record i { wq_occupied = 1 })) else hung

unfoldable pub cas_unlock_wq : ℕ → World → World
cas_unlock_wq k w = set_kthd w k (record (w.kthd k) { wq_occupied = 0 })

unfoldable pub post : ℕ → ℕ → ℕ → World → World
post k lw thd w =
    head_add (record w { wrap = update ℕ_discrete w.wrap lw thd }) (wakeup_queue k) (wrap_node lw)

unfoldable pub lwt_sync_snd : ℕ → ℕ → Cmd ℕ
lwt_sync_snd chan message = do
  receiver ← gets (λ w. (w.chan chan).receiver)
  follow receiver
  remote_thdid ← gets (λ w. (w.thread receiver).owner_kthd)
  cas_lock_rb chan
  put_cell chan message
  modify (cas_unlock_rb chan)
  cas_lock_wq remote_thdid
  lw ← umalloc
  follow lw
  modify (post remote_thdid lw receiver)
  modify (cas_unlock_wq remote_thdid)
  pure 0

-- Does the receiver wait on this channel?
unfoldable pub is_awaited : ℕ → World → Bool
is_awaited chan w =
    let r = w.thread (w.chan chan).receiver in
    is_blocked r.state && is_receiving r.block_for && (r.now_rcving == chan)

unfoldable pub hand_over : ℕ → ℕ → World → World
hand_over chan message w =
    let receiver = (w.chan chan).receiver in
    resume_thread receiver
      (set_thread w receiver (record (w.thread receiver) { message_data = message }))

-- `chan->ready = 1`, and the owner of a group that waits is resumed.
unfoldable pub announce : ℕ → World → World
announce chan w =
    let c = w.chan chan in
    let w' = set_chan w chan (record c { ready = 1 }) in
    let g = w'.cgrp c.cgroup in
    if not (c.cgroup == 0) && not (g.blocked == 0) then resume_thread g.owner w' else w'

-- The end of `lwt_snd`: into the buffer, or behind the other senders.
unfoldable pub store_or_block : ℕ → ℕ → Cmd ℕ
store_or_block chan message w =
    let c = w.chan chan in
    let current_thread = lwt_current w in
    if used c == c.size
    then (do
      modify (λ w.
          set_thread w current_thread (record (w.thread current_thread) { message_data = message }))
      block_thread current_thread blocked_sending chan
      pure 0)
        w
    else (do put_cell chan message; pure 0) w

unfoldable pub snd_local : ℕ → ℕ → Cmd ℕ
snd_local chan message w =
    if (w.chan chan).receiver == 0
    then done minus_one w
    else if is_awaited chan w
    then done 0 (hand_over chan message w)
    else store_or_block chan message (announce chan w)

unfoldable pub snd_global : ℕ → ℕ → Cmd ℕ
snd_global chan message = do modify (set_chan_type chan global_chan); lwt_sync_snd chan message

unfoldable pub lwt_snd : ℕ → ℕ → Cmd ℕ
lwt_snd chan message = do
  follow chan
  type ← gets (λ w. (w.chan chan).type)
  if is_global type then snd_global chan message else snd_local chan message

unfoldable pub lwt_snd_chan : ℕ → ℕ → Cmd ℕ
lwt_snd_chan through sending = do
  return_value ← lwt_snd through sending
  _ ← lwt_yield 0
  pure return_value
