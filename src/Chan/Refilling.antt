-- ===== src/Chan/Refilling.antt =====
-- `lwt_rcv` on a channel with blocked senders: the first of them goes on.
use mathlib.Core.List.{append_assoc}
use mathlib.Core.Path.{ap₂}
use light_weight_thread_libr.Prelude.{
  ℕ, ◌+◌, ◌^◌, ◌<◌, ◌≡◌, refl, sym, ap, ◌∙◌, subst, ◌≢◌, inl, inr, Bool, true, false, List, [], ◌∷◌,
  ◌++◌, arith,
}
use light_weight_thread_libr.Links.Ring.{has_self}
use light_weight_thread_libr.Links.Refine.{erase_head, move_before_last, move_before_last-ne}
use light_weight_thread_libr.State.{
  World, Node, Node-discrete, LwtChannel, thread_node, run_queue, sender_queue, lwt_runnable,
  set_chan,
}
use light_weight_thread_libr.State.Cmd.{done}
use light_weight_thread_libr.State.Gives.{Returns}
use light_weight_thread_libr.Sched.System.{has_node}
use light_weight_thread_libr.Chan.Block.{resume_thread}
use light_weight_thread_libr.Chan.Receive.{no_sender, refill, rcv_buffered, lwt_rcv}
use light_weight_thread_libr.Chan.Contents.{
  in_buffer, messages, messages_all, contents, IsChan, popped, pushed, popped-IsChan, pushed-IsChan,
  in_buffer-pushed,
}
use light_weight_thread_libr.Chan.Resume.{Resumed, resume_thread-Resumed}
use light_weight_thread_libr.Chan.Sending.{chan-set_chan, put_cell-pushed}
use light_weight_thread_libr.Chan.Taking.{
  take_cell-popped, no_sender-eq, first_sender, resume_thread-System,
}
use light_weight_thread_libr.Chan.Receiving.{
  Readable, Took, System-set_chan, taken, first, left, taken_chan, taken_System, taken_buffer,
  final-Took, buffered,
}

-- A sender is blocked: it goes on, and its message takes the place that has become free.
module _ (is_head : Node → Bool) (w : World) (v : Node → List Node) (c : ℕ)
    (o : Readable is_head w v c) (more : (w.chan c).buffer.head < (w.chan c).buffer.tail) (a : ℕ)
    (rest : List Node) (e : v (sender_queue c) ≡ thread_node a ∷ rest) (pos : a ≢ 0)
    (mine : (w.thread a).owner_kthd ≡ w.current_kthd)
    (few : (w.chan c).buffer.tail + 1 < 2 ^ 31) where
  abbrev moved : Node → List Node
  moved = move_before_last Node-discrete v (run_queue w.current_kthd) (thread_node a)

  abbrev woken : World
  woken = resume_thread a (taken is_head w v c o)

  wk : Resumed a (taken is_head w v c o) woken
  wk = resume_thread-Resumed a (taken is_head w v c o)

  abbrev stored : World
  stored = set_chan woken c (pushed (woken.thread a).message_data (woken.chan c))

  woken_chan : woken.chan c ≡ popped (w.chan c)
  woken_chan = ap (λ f. f c) wk.chan ∙ taken_chan is_head w v c o

  woken_IsChan : IsChan (woken.chan c) []
  woken_IsChan = subst (λ r. IsChan r []) (sym woken_chan) (popped-IsChan o.chan [] more refl)

  stored_chan : stored.chan c ≡ pushed (woken.thread a).message_data (woken.chan c)
  stored_chan = chan-set_chan woken c (pushed (woken.thread a).message_data (woken.chan c))

  full : (w.chan c).buffer.tail ≡ (w.chan c).buffer.head + (w.chan c).size
  full = elim o.chan.busy [ inl f ↦ f | inr none ↦ absurd (cc (e, none)) ]

  along : (P : LwtChannel → Type 0) → P (popped (w.chan c)) → P (woken.chan c)
  along P = subst P (sym woken_chan)

  room : (woken.chan c).buffer.tail < (woken.chan c).buffer.head + (woken.chan c).size
  unfolding popped
  room = along (λ r. r.buffer.tail < r.buffer.head + r.size) (omega arith)

  filled : (woken.chan c).buffer.tail + 1 ≡ (woken.chan c).buffer.head + (woken.chan c).size
  unfolding popped
  filled = along (λ r. r.buffer.tail + 1 ≡ r.buffer.head + r.size) (omega (arith, full, o.chan.few))

  few' : (woken.chan c).buffer.tail + 1 < 2 ^ 31
  unfolding popped
  few' = along (λ r. r.buffer.tail + 1 < 2 ^ 31) few

  moved_at : moved (sender_queue c) ≡ rest
  moved_at =
      move_before_last-ne Node-discrete v (run_queue w.current_kthd) (thread_node a)
        (sender_queue c) (λ f. cc)
      ∙ rw e (erase_head Node-discrete (thread_node a) rest)

  refill_lem : refill c (thread_node a) (taken is_head w v c o) ≡ done tt stored
  unfolding refill popped
  refill_lem =
      put_cell-pushed woken c (woken.thread a).message_data [] woken_IsChan
        (along (λ r. 0 < r.size) (omega (arith, o.chan.fits)))

  stored_buffer :
      in_buffer (stored.chan c)
      ≡ in_buffer ((taken is_head w v c o).chan c) ++ (w.thread a).message_data ∷ []
  stored_buffer =
      ap in_buffer stored_chan
      ∙ in_buffer-pushed woken_IsChan (woken.thread a).message_data room
      ∙ ap₂ (λ r m. in_buffer r ++ m ∷ []) (ap (λ f. f c) wk.chan) (wk.messages a)

  stored_messages : messages stored rest ≡ messages w rest
  stored_messages = messages_all stored w rest wk.messages

  sent : messages w (v (sender_queue c)) ≡ (w.thread a).message_data ∷ messages w rest
  unfolding messages
  sent = rw e refl

  stored_contents : contents w v c ≡ (first is_head w v c o) ∷ contents stored moved c
  stored_contents =
      ap₂ ◌++◌ (taken_buffer is_head w v c o more) sent
      ∙ ap (λ l. (first is_head w v c o) ∷ l)
          (sym (
            ap₂ ◌++◌ stored_buffer (ap (messages stored) moved_at ∙ stored_messages)
            ∙ append_assoc (in_buffer ((taken is_head w v c o).chan c))
                ((w.thread a).message_data ∷ []) (messages w rest)))

  here : has_node (thread_node a) (v (sender_queue c)) ≡ true
  here = rw e (has_self Node-discrete (thread_node a) rest)

  stored-Took : Took is_head v moved c w (first is_head w v c o) stored
  stored-Took = record {
    contents = stored_contents;
    chan =
        subst (λ r. IsChan r (moved (sender_queue c))) (sym stored_chan)
          (pushed-IsChan woken_IsChan (woken.thread a).message_data (moved (sender_queue c)) room
            few' (inl filled));
    system = System-set_chan c (pushed (woken.thread a).message_data (woken.chan c)) (
        resume_thread-System (taken_System is_head w v c o more) a
          (inl (sender_queue c, o.head, here)) pos mine);
  }

  -- On a channel that can be read, with a message in the buffer, its tail below 2 ^ 31 - 1, and
  -- blocked senders of which the first belongs to this kernel thread, `lwt_rcv` returns the oldest
  -- message at once; the first sender can run again, in the run queue, the channel keeps all other
  -- messages in order, those of the senders behind those of the buffer, `ready` says whether the
  -- buffer has any, and the invariant is kept.
  pub lwt_rcv-refills :
      Returns
        (λ x u.
          Took is_head v moved c w x u
          × ((u.thread a).state ≡ lwt_runnable)
          × ((u.chan c).ready ≡ left is_head w v c o u))
        (lwt_rcv c w)
  unfolding rcv_buffered
  lwt_rcv-refills =
      let sys = (taken_System is_head w v c o more).queues in
      let busy : no_sender c (taken is_head w v c o) ≡ false =
        no_sender-eq is_head (taken is_head w v c o) v c sys o.head ∙ rw e refl in
      let t = final-Took is_head w v c o moved (first is_head w v c o) stored stored-Took in
      rw
        (
          buffered is_head w v c o more,
          take_cell-popped w c (v (sender_queue c)) o.chan more,
          busy,
          first_sender is_head (taken is_head w v c o) v c a rest sys o.head e,
          refill_lem,
        )
        (t.0, wk.state, t.1)
