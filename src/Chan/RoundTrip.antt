-- ===== src/Chan/RoundTrip.antt =====
-- `lwt_snd` followed by `lwt_rcv` on the same channel.
use light_weight_thread_libr.Prelude.{
  ℕ, ◌+◌, ◌^◌, ◌<◌, ◌≡◌, sym, ap, ◌∙◌, subst, Bool, false, List, [], ◌∷◌, ◌++◌, arith,
}
use light_weight_thread_libr.State.{World, Node, sender_queue, local_chan}
use light_weight_thread_libr.State.Cmd.{and_then}
use light_weight_thread_libr.State.Gives.{Returns, Returns-mono}
use light_weight_thread_libr.Sched.System.{System}
use light_weight_thread_libr.Chan.Send.{is_awaited, lwt_snd}
use light_weight_thread_libr.Chan.Receive.{lwt_rcv}
use light_weight_thread_libr.Chan.Contents.{contents, pushed}
use light_weight_thread_libr.Chan.Sending.{readied, Open}
use light_weight_thread_libr.Chan.Fifo.{
  ready_world, sent_world, sent_chan, lwt_snd-sent_world, sent_contents, sent-IsChan,
}
use light_weight_thread_libr.Chan.Receiving.{Readable, Took, System-set_chan, left, lwt_rcv-takes}

module _ (is_head : Node → Bool) (w : World) (v : Node → List Node) (c m : ℕ) (o : Open w v c)
    (d : Readable is_head w v c) (free : is_awaited c w ≡ false)
    (room : (w.chan c).buffer.tail < (w.chan c).buffer.head + (w.chan c).size)
    (few : (w.chan c).buffer.tail + 1 < 2 ^ 31) (none : v (sender_queue c) ≡ []) where
  abbrev sent : World
  sent = sent_world w v c m o

  sent_type : (sent.chan c).type ≡ local_chan
  unfolding pushed readied
  sent_type = ap (λ r. r.type) (sent_chan w v c m o) ∙ d.type

  sent_more : (sent.chan c).buffer.head < (sent.chan c).buffer.tail
  unfolding pushed readied
  sent_more =
      subst (λ r. r.buffer.head < r.buffer.tail) (sym (sent_chan w v c m o))
        (omega (arith, d.chan.order))

  sent-Readable : Readable is_head sent v c
  sent-Readable = record {
    pointer = d.pointer;
    type = sent_type;
    chan = sent-IsChan w v c m o free room few;
    head = d.head;
    system =
        System-set_chan c (pushed m ((ready_world w v c m o).chan c))
          (System-set_chan c (readied (w.chan c)) d.system);
  }

  -- On a channel that is open to sending and to receiving, whose buffer has room and whose tail
  -- stays below 2 ^ 31, with no sender blocked and the receiver not waiting, a message that is
  -- sent and one that is received change its messages as a queue: the result is the first of the
  -- old ones with the new one behind them, and the others are left in order. Nobody blocks, and
  -- the invariant is kept.
  pub lwt_rcv-lwt_snd :
      Returns
        (λ x u. (contents w v c ++ m ∷ [] ≡ x ∷ contents u v c) × System is_head u v)
        (and_then (lwt_snd c m w) (λ _. lwt_rcv c))
  lwt_rcv-lwt_snd = rw (lwt_snd-sent_world w v c m o free room few) (
      Returns-mono
        (λ x u.
          Took is_head v v c sent x u × ((u.chan c).ready ≡ left is_head sent v c sent-Readable u))
        (λ x u. (contents w v c ++ m ∷ [] ≡ x ∷ contents u v c) × System is_head u v)
        (lwt_rcv c sent)
        (λ x u t. (sym (sent_contents w v c m o free room few) ∙ t.0.contents, t.0.system))
        (lwt_rcv-takes is_head sent v c sent-Readable sent_more none))
