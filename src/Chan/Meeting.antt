-- ===== src/Chan/Meeting.antt =====
-- Sender and receiver of a local channel that meet without its buffer.
use mathlib.Core.Path.{ap₂}
use light_weight_thread_libr.Prelude.{
  ℕ, ◌+◌, ◌≡◌, refl, sym, ap, ◌∙◌, subst, ◌≢◌, inl, inr, Bool, List, [], ◌∷◌, ◌++◌, arith, ==-of_eq,
  if◌then◌else◌, Bool-cases,
}
use light_weight_thread_libr.Links.Ring.{has_self}
use light_weight_thread_libr.Links.Refine.{
  is_empty, erase_head, move_before_last, move_before_last-ne,
}
use light_weight_thread_libr.State.{
  World, Node, Node-discrete, thread_node, run_queue, sender_queue, lwt_runnable, set_chan,
}
use light_weight_thread_libr.State.Cmd.{done}
use light_weight_thread_libr.State.Gives.{Returns}
use light_weight_thread_libr.Sched.System.{System}
use light_weight_thread_libr.Chan.Buffer.{used}
use light_weight_thread_libr.Chan.Block.{resume_thread}
use light_weight_thread_libr.Chan.Receive.{rcv_direct, rcv_local, lwt_rcv}
use light_weight_thread_libr.Chan.Contents.{
  in_buffer, messages, messages_all, IsChan, used_lem, in_buffer-nil,
}
use light_weight_thread_libr.Chan.Resume.{Resumed, resume_thread-Resumed}
use light_weight_thread_libr.Chan.Sending.{chan-set_chan}
use light_weight_thread_libr.Chan.Taking.{
  lwt_rcv-local, flagged, in_buffer-flagged, IsChan-flagged, no_sender-eq, first_sender,
  resume_thread-System,
}
use light_weight_thread_libr.Chan.Receiving.{Readable, Took, System-set_chan}

module _ (is_head : Node → Bool) (w : World) (v : Node → List Node) (c a : ℕ) (rest : List Node)
    (o : Readable is_head w v c) (e : v (sender_queue c) ≡ thread_node a ∷ rest) (pos : a ≢ 0)
    (mine : (w.thread a).owner_kthd ≡ w.current_kthd) where
  abbrev pub moved : Node → List Node
  moved = move_before_last Node-discrete v (run_queue w.current_kthd) (thread_node a)

  abbrev pub woken : World
  woken = resume_thread a w

  pub wk : Resumed a w woken
  wk = resume_thread-Resumed a w

  moved_at : moved (sender_queue c) ≡ rest
  moved_at =
      move_before_last-ne Node-discrete v (run_queue w.current_kthd) (thread_node a)
        (sender_queue c) (λ f. cc)
      ∙ rw e (erase_head Node-discrete (thread_node a) rest)

  woken_System : System is_head woken moved
  woken_System =
      resume_thread-System o.system a
        (inl (sender_queue c, o.head, rw e (has_self Node-discrete (thread_node a) rest))) pos mine

  woken_chan : woken.chan c ≡ w.chan c
  woken_chan = ap (λ f. f c) wk.chan

  abbrev flag : ℕ
  flag = if is_empty rest then 0 else 1

  sent : messages w (v (sender_queue c)) ≡ (w.thread a).message_data ∷ messages w rest
  unfolding messages
  sent = rw e refl

  woken_messages : messages woken (moved (sender_queue c)) ≡ messages w rest
  woken_messages = ap (messages woken) moved_at ∙ messages_all woken w rest wk.messages

  module _ (drained : (w.chan c).buffer.head ≡ (w.chan c).buffer.tail) where
    full : (w.chan c).buffer.tail ≡ (w.chan c).buffer.head + (w.chan c).size
    full = elim o.chan.busy [ inl f ↦ f | inr none ↦ absurd (cc (e, none)) ]

    no_buffer : in_buffer (w.chan c) ≡ []
    no_buffer = in_buffer-nil o.chan drained

    woken_IsChan : IsChan (woken.chan c) (moved (sender_queue c))
    woken_IsChan =
        subst (λ r. IsChan r (moved (sender_queue c))) (sym woken_chan)
          (record {
            pointer = o.chan.pointer;
            order = o.chan.order;
            fits = o.chan.fits;
            few = o.chan.few;
            small = o.chan.small;
            busy = inl full;
          })

    abbrev pub final : World
    final = set_chan woken c (flagged flag (woken.chan c))

    final_chan : final.chan c ≡ flagged flag (woken.chan c)
    final_chan = chan-set_chan woken c (flagged flag (woken.chan c))

    final_buffer : in_buffer (final.chan c) ≡ []
    final_buffer =
        ap in_buffer final_chan
        ∙ in_buffer-flagged flag (woken.chan c)
        ∙ ap in_buffer woken_chan
        ∙ no_buffer

    final_messages : messages final (moved (sender_queue c)) ≡ messages w rest
    unfolding messages
    final_messages = woken_messages

    pub final-Took : Took is_head v moved c w (w.thread a).message_data final
    final-Took = record {
      contents =
          ap₂ ◌++◌ no_buffer sent
          ∙ ap (λ l. (w.thread a).message_data ∷ l) (sym (ap₂ ◌++◌ final_buffer final_messages));
      chan =
          subst (λ r. IsChan r (moved (sender_queue c))) (sym final_chan)
            (IsChan-flagged flag (woken.chan c) (moved (sender_queue c)) woken_IsChan);
      system = System-set_chan c (flagged flag (woken.chan c)) woken_System;
    }

    ready_flag : (final.chan c).ready ≡ flag
    unfolding flagged
    ready_flag = rw final_chan refl

    pub direct : lwt_rcv c w ≡ rcv_direct c (thread_node a) w
    unfolding rcv_local
    direct =
        lwt_rcv-local w c o.pointer o.type
        ∙ rw (
          ==-of_eq (used (w.chan c)) 0 (used_lem o.chan ∙ omega arith),
          no_sender-eq is_head w v c o.system.queues o.head,
          e,
          first_sender is_head w v c a rest o.system.queues o.head e,
        )

    pub returns : rcv_direct c (thread_node a) w ≡ done (w.thread a).message_data final
    unfolding rcv_direct flagged
    returns =
        rw (no_sender-eq is_head woken moved c woken_System.queues o.head, moved_at)
          (elim (Bool-cases (is_empty rest)) [ inl t ↦ rw t refl | inr f ↦ rw f refl ])

    -- On a channel that can be read, with an empty buffer and blocked senders of which the first
    -- belongs to this kernel thread, `lwt_rcv` returns the message of the first sender at once;
    -- that sender can run again, in the run queue, the messages of the others keep their order,
    -- `ready` says whether there are others, and the invariant is kept.
    pub lwt_rcv-direct :
        Returns
          (λ x u.
            Took is_head v moved c w x u
            × ((u.thread a).state ≡ lwt_runnable)
            × ((u.chan c).ready ≡ flag))
          (lwt_rcv c w)
    lwt_rcv-direct = rw (direct, returns) (final-Took, wk.state, ready_flag)
