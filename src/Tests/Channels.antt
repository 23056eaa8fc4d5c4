-- ===== src/Tests/Channels.antt =====
-- The properties of channels, on channel 7 of two or three threads.
use light_weight_thread_libr.Prelude.{
  ℕ, ◌+◌, ◌≤◌, not, ◌≡◌, refl, ◌≢◌, inl, inr, false, List, [], ◌∷◌, ◌++◌, arith, ◌==◌,
  if◌then◌else◌,
}
use light_weight_thread_libr.Links.{list_head_add}
use light_weight_thread_libr.Links.Refine.{enqueue, move_before_last}
use light_weight_thread_libr.State.{
  World, LwtChannel, Node, Node-discrete, thread_node, lwt_current, lwt_runnable,
}
use light_weight_thread_libr.State.Cmd.{done, and_then}
use light_weight_thread_libr.State.Gives.{Gives, Returns}
use light_weight_thread_libr.Sched.Handed.{pop_registers}
use light_weight_thread_libr.Sched.System.{System}
use light_weight_thread_libr.Chan.Buffer.{put_cell, take_cell}
use light_weight_thread_libr.Chan.Buffer.Bounds.{Written, Read, put_cell-take_cell_bounds}
use light_weight_thread_libr.Chan.Send.{is_awaited, lwt_snd}
use light_weight_thread_libr.Chan.Receive.{lwt_rcv}
use light_weight_thread_libr.Chan.Life.{give_up, lwt_chan_deref}
use light_weight_thread_libr.Chan.Contents.{contents, IsChan}
use light_weight_thread_libr.Chan.Sending.{Open}
use light_weight_thread_libr.Chan.Fifo.{lwt_snd-room}
use light_weight_thread_libr.Chan.Full.{Queued, lwt_snd-full}
use light_weight_thread_libr.Chan.Receiving.{Readable, Took, lwt_rcv-takes}
use light_weight_thread_libr.Chan.Refilling.{lwt_rcv-refills}
use light_weight_thread_libr.Chan.Meeting.{lwt_rcv-direct}
use light_weight_thread_libr.Chan.Waiting.{Awaiting, lwt_rcv-waits}
use light_weight_thread_libr.Chan.Handing.{lwt_snd-awaited}
use light_weight_thread_libr.Chan.Lifetime.{references, lwt_chan_deref-frees}
use light_weight_thread_libr.Chan.RoundTrip.{lwt_rcv-lwt_snd}
use light_weight_thread_libr.Tests.{
  is_head, rq, senders, two, two_links, two_world, third_world, with_third, chan, two-System,
  sender-System, two-IsOut,
}

-- One message in a buffer of two; a full buffer; an empty one; a receiver that waits.
abbrev one : World
one = two_world (chan 2 1 1 1)

abbrev full : World
full = two_world (chan 2 2 1 1)

abbrev empty : World
empty = two_world (chan 2 0 1 0)

abbrev awaited : World
awaited = two_world (chan 2 0 9 0)

-- Thread 3 is blocked on the full buffer, or on a channel without one.
abbrev stuck : World
stuck = third_world senders (chan 2 2 1 1)

abbrev direct : World
direct = third_world senders (chan 0 0 1 1)

pub IsChan_two : (t r e : ℕ) → t ≤ 2 → IsChan (chan 2 t r e) (two senders)
unfolding enqueue Node-discrete
IsChan_two t r e lt = record {
  pointer = λ f. omega arith;
  order = omega arith;
  fits = omega arith;
  few = omega arith;
  small = omega arith;
  busy = inr refl;
}

two-Open : (t r e : ℕ) → t ≤ 2 → r ≢ 0 → Open (two_world (chan 2 t r e)) two 7
two-Open t r e lt pos = record {
  pointer = λ f. omega arith;
  type = refl;
  receiver = pos;
  chan = IsChan_two t r e lt;
  quiet = inl refl;
}

two-Readable : (t r e : ℕ) → t ≤ 2 → Readable is_head (two_world (chan 2 t r e)) two 7
two-Readable t r e lt = record {
  pointer = λ f. omega arith;
  type = refl;
  chan = IsChan_two t r e lt;
  head = refl;
  system = two-System (chan 2 t r e);
}

third-Readable :
    (n : ℕ) → n ≤ 2 → Readable is_head (third_world senders (chan n n 1 1)) (with_third senders) 7
third-Readable n lt = record {
  pointer = λ f. omega arith;
  type = refl;
  chan = record {
    pointer = λ f. omega arith;
    order = omega arith;
    fits = omega arith;
    few = omega arith;
    small = omega arith;
    busy = inl (omega arith);
  };
  head = refl;
  system = sender-System (chan n n 1 1);
}

is_awaited_one : (c : LwtChannel) → c.receiver ≡ 1 → is_awaited 7 (two_world c) ≡ false
unfolding is_awaited
is_awaited_one c e = rw e refl

o1 : Open one two 7
o1 = two-Open 1 1 1 (omega arith) (λ e. omega arith)

d1 : Readable is_head one two 7
d1 = two-Readable 1 1 1 (omega arith)

lwt_rcv-lwt_snd_example :
    Returns
      (λ x u. (contents one two 7 ++ 5 ∷ [] ≡ x ∷ contents u two 7) × System is_head u two)
      (and_then (lwt_snd 7 5 one) (λ _. lwt_rcv 7))
unfolding enqueue Node-discrete
lwt_rcv-lwt_snd_example =
    lwt_rcv-lwt_snd is_head one two 7 5 o1 d1 (is_awaited_one (chan 2 1 1 1) refl) (omega arith)
      (omega arith) refl

lwt_snd-room_example :
    Returns
      (λ r u.
        (r ≡ 0)
        × (contents u two 7 ≡ contents one two 7 ++ 5 ∷ [])
        × (u.links ≡ two_links)
        × IsChan (u.chan 7) (two senders))
      (lwt_snd 7 5 one)
lwt_snd-room_example =
    lwt_snd-room one two 7 5 o1 (is_awaited_one (chan 2 1 1 1) refl) (omega arith) (omega arith)

lwt_snd-full_example :
    Gives {A = ℕ} (Queued is_head two 7 5 2 full) (λ x. done 0 (pop_registers x)) (lwt_snd 7 5 full)
unfolding enqueue Node-discrete lwt_current
lwt_snd-full_example =
    lwt_snd-full (two-System (chan 2 2 1 1)) 7 5 (two-Open 2 1 1 (omega arith) (λ e. omega arith))
      refl 2 [] (is_awaited_one (chan 2 2 1 1) refl) refl refl

lwt_rcv-takes_example :
    Returns
      (λ x u.
        Took is_head two two 7 one x u
        × ((u.chan 7).ready
            ≡ (if not ((u.chan 7).buffer.head == (u.chan 7).buffer.tail) then 1 else 0)))
      (lwt_rcv 7 one)
unfolding enqueue Node-discrete
lwt_rcv-takes_example = lwt_rcv-takes is_head one two 7 d1 (omega arith) refl

abbrev moved : Node → List Node
moved = move_before_last Node-discrete (with_third senders) rq (thread_node 3)

lwt_rcv-refills_example :
    Returns
      (λ x u.
        Took is_head (with_third senders) moved 7 stuck x u
        × ((u.thread 3).state ≡ lwt_runnable)
        × ((u.chan 7).ready
            ≡ (if not ((u.chan 7).buffer.head == (u.chan 7).buffer.tail) then 1 else 0)))
      (lwt_rcv 7 stuck)
unfolding enqueue Node-discrete
lwt_rcv-refills_example =
    lwt_rcv-refills is_head stuck (with_third senders) 7 (third-Readable 2 (omega arith))
      (omega arith) 3 [] refl (λ e. omega arith) refl (omega arith)

lwt_rcv-direct_example :
    Returns
      (λ x u.
        Took is_head (with_third senders) moved 7 direct x u
        × ((u.thread 3).state ≡ lwt_runnable)
        × ((u.chan 7).ready ≡ 0))
      (lwt_rcv 7 direct)
unfolding enqueue Node-discrete
lwt_rcv-direct_example =
    lwt_rcv-direct is_head direct (with_third senders) 7 3 [] (third-Readable 0 (omega arith)) refl
      (λ e. omega arith) refl refl

lwt_rcv-waits_example :
    Gives
      (Awaiting is_head two 7 2 empty)
      (λ x. done (x.thread 1).message_data (pop_registers x))
      (lwt_rcv 7 empty)
unfolding enqueue Node-discrete lwt_current
lwt_rcv-waits_example =
    lwt_rcv-waits is_head empty two 7 (two-Readable 0 1 0 (omega arith)) 2 [] refl refl refl refl

lwt_snd-awaited_example :
    let v' = move_before_last Node-discrete two rq (thread_node 9) in
    Returns
      (λ r u.
        (r ≡ 0)
        × ((u.thread 9).message_data ≡ 5)
        × ((u.thread 9).state ≡ lwt_runnable)
        × (contents u v' 7 ≡ contents awaited two 7)
        × System is_head u v')
      (lwt_snd 7 5 awaited)
unfolding is_awaited list_head_add Node-discrete
lwt_snd-awaited_example =
    lwt_snd-awaited is_head awaited two 7 5 9 (two-Readable 0 9 0 (omega arith)) refl
      (λ e. omega arith) (two-IsOut 9 (omega arith) (omega arith)) (refl, refl) refl refl

lwt_chan_deref-frees_example :
    let u = give_up 7 one in
    (lwt_chan_deref 7 one ≡ done tt u)
    × (references (u.chan 7) + 1 ≡ 2)
    × (u.freed ≡ (if references (u.chan 7) == 0 then 7 ∷ [] else []))
unfolding lwt_current
lwt_chan_deref-frees_example =
    lwt_chan_deref-frees 7 one (λ e. omega arith) (omega arith) (inl refl)

put_cell-take_cell_bounds_example :
    Returns (λ _ u. Written 7 5 one u) (put_cell 7 5 one) × Returns (Read 7 5 one) (take_cell 7 one)
put_cell-take_cell_bounds_example =
    put_cell-take_cell_bounds 7 5 one (λ e. omega arith) (omega arith) (omega arith) (omega arith)
      (omega arith)
