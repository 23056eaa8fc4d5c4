-- ===== src/Chan/Life.antt =====
-- A channel from `lwt_chan` to the last `lwt_chan_deref`, its type and its mark.
use light_weight_thread_libr.Prelude.{ℕ, ◌&&◌, ◌==◌, if◌then◌else◌}
use light_weight_thread_libr.State.{
  World, sender_queue, ChanType, local_chan, inc, dec, set_chan, head_init, lwt_current,
}
use light_weight_thread_libr.State.Cmd.{Cmd, pure, ◌>>=◌, ◌>>◌, modify, follow, umalloc, ufree}

-- What `__init_chan` stores once it has the buffer. `cgroup`, `ready`, `mark` and the two locks
-- keep what was in memory.
unfoldable pub fill_chan : ℕ → ℕ → World → World
fill_chan chan data_buffer w =
    let c = w.chan chan in
    let c' = record c {
      buffer = record (c.buffer) { data_buffer = data_buffer; tail = 0; head = 0 };
      type = local_chan;
      receiver = lwt_current w;
      snd_cnt = 0;
      chan_id = w.chan_counter;
    } in
    head_init (record (set_chan w chan c') { chan_counter = inc w.chan_counter })
      (sender_queue chan)

unfoldable pub init_chan : ℕ → ℕ → Cmd (Unit {0})
init_chan chan size = do
  follow chan
  modify (λ w. set_chan w chan (record (w.chan chan) { size = size }))
  data_buffer ← umalloc
  modify (fill_chan chan data_buffer)

unfoldable pub lwt_chan : ℕ → Cmd ℕ
lwt_chan size = do chan ← umalloc; init_chan chan size; pure chan

unfoldable pub set_chan_type : ℕ → ChanType → World → World
set_chan_type chan type w = set_chan w chan (record (w.chan chan) { type = type })

unfoldable pub give_up : ℕ → World → World
give_up chan w =
    let c = w.chan chan in
    let c' =
      if c.receiver == lwt_current w
      then record c { receiver = 0 }
      else record c { snd_cnt = dec c.snd_cnt } in
    let w' = set_chan w chan c' in
    if (c'.snd_cnt == 0) && (c'.receiver == 0) then ufree chan w' else w'

unfoldable pub lwt_chan_deref : ℕ → Cmd (Unit {0})
lwt_chan_deref chan = do follow chan; modify (give_up chan)

unfoldable pub lwt_chan_mark_set : ℕ → ℕ → World → World
lwt_chan_mark_set chan mark w = set_chan w chan (record (w.chan chan) { mark = mark })

unfoldable pub lwt_chan_mark_get : ℕ → World → ℕ
lwt_chan_mark_get chan w = (w.chan chan).mark
