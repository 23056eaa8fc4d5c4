-- ===== src/Chan/Taking.antt =====
-- The steps of `lwt_rcv`: the oldest message leaves the buffer, `ready` is set, and a sender is
-- resumed.
use light_weight_thread_libr.Prelude.{
  ℕ, ◌%◌, ◌<◌, ◌≡◌, refl, ◌∙◌, subst, ◌≢◌, Bool, true, List, ◌∷◌, arith, ne→==,
}
use light_weight_thread_libr.Links.Queues.{IsQueues}
use light_weight_thread_libr.Links.Refine.{is_empty, list_ll_empty-eq, move_before_last, n-head_or}
use light_weight_thread_libr.State.{
  World, Node, Node-discrete, LwtChannel, thread_node, run_queue, sender_queue, local_chan,
  set_chan, lwt_current,
}
use light_weight_thread_libr.State.Cmd.{done, follow}
use light_weight_thread_libr.Sched.System.{System, System-move_before_last, Kept}
use light_weight_thread_libr.Chan.Buffer.{take_cell}
use light_weight_thread_libr.Chan.Block.{resume_thread}
use light_weight_thread_libr.Chan.Receive.{no_sender, rcv_local, lwt_rcv}
use light_weight_thread_libr.Chan.Contents.{in_buffer, IsChan, slot_lem, popped}
use light_weight_thread_libr.Chan.Resume.{
  Placed, resume_thread-IsQueues, Resumed, resume_thread-Resumed,
}

pub lwt_rcv-local :
    (w : World) (c : ℕ) → c ≢ 0 → (w.chan c).type ≡ local_chan → lwt_rcv c w ≡ rcv_local c w
unfolding lwt_rcv follow
lwt_rcv-local w c pos loc = rw (ne→== c 0 pos, loc)

pub take_cell-popped :
    (w : World) (c : ℕ) (xs : List Node)
    → IsChan (w.chan c) xs
    → (w.chan c).buffer.head < (w.chan c).buffer.tail
    → take_cell c w
      ≡ done
          ((w.chan c).buffer.cells ((w.chan c).buffer.head % (w.chan c).size))
          (set_chan w c (popped (w.chan c)))
unfolding take_cell popped
take_cell-popped w c xs ic some_left =
    let ord = ic.fits in
    rw (
      ne→== (w.chan c).buffer.data_buffer 0 ic.pointer,
      slot_lem (w.chan c).buffer.head (w.chan c).size (omega (arith, ic.few)) ic.small
          (omega arith),
    )

-- The channel with its `ready` set.
unfoldable pub flagged : ℕ → LwtChannel → LwtChannel
flagged b r = record r { ready = b }

pub in_buffer-flagged : (b : ℕ) (r : LwtChannel) → in_buffer (flagged b r) ≡ in_buffer r
unfolding in_buffer flagged
in_buffer-flagged b r = refl

pub IsChan-flagged :
    (b : ℕ) (r : LwtChannel) (xs : List Node) → IsChan r xs → IsChan (flagged b r) xs
unfolding flagged
IsChan-flagged b r xs ic = record {
  pointer = ic.pointer;
  order = ic.order;
  fits = ic.fits;
  few = ic.few;
  small = ic.small;
  busy = ic.busy;
}

pub no_sender-eq :
    (is_head : Node → Bool) (w : World) (v : Node → List Node) (c : ℕ)
    → IsQueues Node-discrete is_head w.links v
    → is_head (sender_queue c) ≡ true
    → no_sender c w ≡ is_empty (v (sender_queue c))
no_sender-eq is_head w v c q hc = list_ll_empty-eq Node-discrete is_head q (sender_queue c) hc

pub first_sender :
    (is_head : Node → Bool) (w : World) (v : Node → List Node) (c a : ℕ) (rest : List Node)
    → IsQueues Node-discrete is_head w.links v
    → is_head (sender_queue c) ≡ true
    → v (sender_queue c) ≡ thread_node a ∷ rest
    → w.links.n (sender_queue c) ≡ thread_node a
first_sender is_head w v c a rest q hc e =
    n-head_or Node-discrete is_head q (sender_queue c) hc ∙ rw e

-- A thread of this kernel thread that stands in some queue is resumed.
module _ {is_head : Node → Bool} {w : World} {v : Node → List Node} (s : System is_head w v)
    (a : ℕ) where
  abbrev pub resumed_queues : Node → List Node
  resumed_queues = move_before_last Node-discrete v (run_queue w.current_kthd) (thread_node a)

  own : (w.thread (lwt_current w)).owner_kthd ≡ w.current_kthd
  own = s.owned (lwt_current w) s.current_in

  -- Given the invariant, `__resume_thread` of a thread of this kernel thread, which is in some
  -- queue or loose, puts it before the last thread of the run queue, takes it out of every other,
  -- and keeps the invariant.
  pub resume_thread-System :
      Placed is_head w.links v (thread_node a)
      → a ≢ 0
      → (w.thread a).owner_kthd ≡ w.current_kthd
      → System is_head (resume_thread a w) resumed_queues
  resume_thread-System place pos mine =
      System-move_before_last s (resume_thread a w) kept a pos mine (
        subst
          (λ k.
            IsQueues Node-discrete is_head (resume_thread a w).links
              (move_before_last Node-discrete v (run_queue k) (thread_node a)))
          own (resume_thread-IsQueues is_head a w v s.queues (rw own s.run_head) (s.nodes a) place))
    where
      r : Resumed a w (resume_thread a w)
      r = resume_thread-Resumed a w

      kept : Kept w (resume_thread a w)
      kept = record { kthd = r.kthd; current = r.current; polling = r.polling; owners = r.owners }
