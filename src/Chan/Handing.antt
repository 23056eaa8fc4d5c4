-- ===== src/Chan/Handing.antt =====
-- The `lwt_snd` that finds its receiver waiting.
use mathlib.Core.Path.{ap₂}
use light_weight_thread_libr.Prelude.{
  ℕ, ◌≡◌, refl, ap, ◌∙◌, ◌≢◌, inr, Bool, true, List, ◌++◌, arith, ne→==,
}
use light_weight_thread_libr.Links.Ring.{IsLoose}
use light_weight_thread_libr.Links.Queues.{IsOut, erase_of_not_has}
use light_weight_thread_libr.Links.Refine.{move_before_last, move_before_last-ne}
use light_weight_thread_libr.State.{
  World, Node, Node-discrete, thread_node, run_queue, sender_queue, lwt_runnable, lwt_current,
}
use light_weight_thread_libr.State.Cmd.{done}
use light_weight_thread_libr.State.Gives.{Returns}
use light_weight_thread_libr.Sched.System.{System, System-change, Kept}
use light_weight_thread_libr.Chan.Block.{resume_thread}
use light_weight_thread_libr.Chan.Send.{is_awaited, hand_over, snd_local, lwt_snd}
use light_weight_thread_libr.Chan.Contents.{in_buffer, messages, messages_same, contents}
use light_weight_thread_libr.Chan.Resume.{Resumed, resume_thread-Resumed}
use light_weight_thread_libr.Chan.Sending.{hold_message, lwt_snd-local}
use light_weight_thread_libr.Chan.Taking.{resume_thread-System}
use light_weight_thread_libr.Chan.Receiving.{Readable}

module _ (is_head : Node → Bool) (w : World) (v : Node → List Node) (c m a : ℕ)
    (o : Readable is_head w v c) (at : (w.chan c).receiver ≡ a) (pos : a ≢ 0)
    (out : IsOut Node-discrete is_head v (thread_node a)) (loose : IsLoose w.links (thread_node a))
    (mine : (w.thread a).owner_kthd ≡ w.current_kthd) where
  abbrev told : World
  told = hold_message a m w

  told-Kept : Kept w told
  unfolding hold_message lwt_current
  told-Kept = record {
    kthd = refl;
    current = refl;
    polling = λ x. refl;
    owners = λ x. ground arith;
  }

  told_System : System is_head told v
  unfolding hold_message
  told_System =
      System-change o.system told told-Kept v o.system.queues o.system.runs o.system.current_in
        o.system.owned

  abbrev pub moved : Node → List Node
  moved = move_before_last Node-discrete v (run_queue w.current_kthd) (thread_node a)

  abbrev pub woken : World
  woken = resume_thread a told

  pub wk : Resumed a told woken
  wk = resume_thread-Resumed a told

  pub woken_System : System is_head woken moved
  unfolding hold_message
  woken_System =
      resume_thread-System told_System a (inr (out, loose)) pos (told-Kept.owners a ∙ mine)

  pub told_message : (told.thread a).message_data ≡ m
  unfolding hold_message
  told_message = ground arith

  told_others : (x : ℕ) → x ≢ a → (told.thread x).message_data ≡ (w.thread x).message_data
  unfolding hold_message
  told_others x ne = ground arith

  pub woken_chan : woken.chan ≡ w.chan
  unfolding hold_message
  woken_chan = wk.chan

  moved_at : moved (sender_queue c) ≡ v (sender_queue c)
  moved_at =
      move_before_last-ne Node-discrete v (run_queue w.current_kthd) (thread_node a)
        (sender_queue c) (λ f. cc)
      ∙ erase_of_not_has Node-discrete (thread_node a) (v (sender_queue c))
          (out (sender_queue c) o.head)

  pub woken_contents : contents woken moved c ≡ contents w v c
  woken_contents = ap₂ ◌++◌ (ap (λ f. in_buffer (f c)) woken_chan) (
      ap (messages woken) moved_at
      ∙ messages_same woken w a (v (sender_queue c)) (out (sender_queue c) o.head)
          (λ x ne. wk.messages x ∙ told_others x ne))

  pub hands_over : is_awaited c w ≡ true → lwt_snd c m w ≡ done 0 woken
  unfolding snd_local hand_over hold_message
  hands_over e = lwt_snd-local w c m o.pointer o.type ∙ rw (at, ne→== a 0 pos, e)

  -- On a local channel in use whose receiver waits for it, belongs to this kernel thread and is in
  -- no queue, `lwt_snd` returns 0 at once with its message in the receiver's thread, which can run
  -- again in the run queue; the channel stands for the same messages as before, and the invariant
  -- is kept.
  pub lwt_snd-awaited :
      is_awaited c w ≡ true
      → Returns
          (λ r u.
            (r ≡ 0)
            × ((u.thread a).message_data ≡ m)
            × ((u.thread a).state ≡ lwt_runnable)
            × (contents u moved c ≡ contents w v c)
            × System is_head u moved)
          (lwt_snd c m w)
  lwt_snd-awaited e =
      rw (hands_over e) (refl, wk.messages a ∙ told_message, wk.state, woken_contents, woken_System)
