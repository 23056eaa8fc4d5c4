-- ===== src/Chan/Receiving.antt =====
-- `lwt_rcv` on a local channel: the oldest message of what the channel stands for is the result.
use mathlib.Core.Path.{ap₂}
use light_weight_thread_libr.Prelude.{
  ℕ, ◌%◌, ◌<◌, ◌≡◌, refl, sym, ap, ◌∙◌, subst, ◌≢◌, Bool, true, not, List, [], ◌∷◌, ◌++◌, arith,
  ne→==, ◌==◌, if◌then◌else◌,
}
use light_weight_thread_libr.State.{
  World, Node, LwtChannel, sender_queue, local_chan, set_chan, lwt_current,
}
use light_weight_thread_libr.State.Gives.{Returns}
use light_weight_thread_libr.Sched.System.{System, System-change}
use light_weight_thread_libr.Chan.Buffer.{used}
use light_weight_thread_libr.Chan.Receive.{no_sender, set_ready, rcv_buffered, rcv_local, lwt_rcv}
use light_weight_thread_libr.Chan.Contents.{
  in_buffer, messages, contents, IsChan, used_lem, popped, popped-IsChan, in_buffer-popped,
}
use light_weight_thread_libr.Chan.Sending.{chan-set_chan}
use light_weight_thread_libr.Chan.Taking.{
  lwt_rcv-local, take_cell-popped, flagged, in_buffer-flagged, IsChan-flagged, no_sender-eq,
}

-- A local channel that the current thread may receive from.
pub record Readable (is_head : Node → Bool) (w : World) (v : Node → List Node) (c : ℕ)
    : Type 0 where
  pub pointer : c ≢ 0
  pub type : (w.chan c).type ≡ local_chan
  pub chan : IsChan (w.chan c) (v (sender_queue c))
  pub head : is_head (sender_queue c) ≡ true
  pub system : System is_head w v

-- `x` came first in channel `c` of `w`; `u` holds what is left, in the queues `v'`.
pub record Took (is_head : Node → Bool) (v v' : Node → List Node) (c : ℕ) (w : World) (x : ℕ)
    (u : World) : Type 0 where
  pub contents : contents w v c ≡ x ∷ contents u v' c
  pub chan : IsChan (u.chan c) (v' (sender_queue c))
  pub system : System is_head u v'

pub System-set_chan :
    {is_head : Node → Bool} {w : World} {v : Node → List Node} (c : ℕ) (r : LwtChannel)
    → System is_head w v
    → System is_head (set_chan w c r) v
unfolding lwt_current
System-set_chan {w} {v} c r s =
    System-change s (set_chan w c r)
      (record { kthd = refl; current = refl; polling = λ x. refl; owners = λ x. refl }) v s.queues
      s.runs s.current_in s.owned

module _ (is_head : Node → Bool) (w : World) (v : Node → List Node) (c : ℕ)
    (o : Readable is_head w v c) where
  abbrev pub first : ℕ
  first = (w.chan c).buffer.cells ((w.chan c).buffer.head % (w.chan c).size)

  abbrev pub taken : World
  taken = set_chan w c (popped (w.chan c))

  pub taken_chan : taken.chan c ≡ popped (w.chan c)
  taken_chan = chan-set_chan w c (popped (w.chan c))

  abbrev pub left : World → ℕ
  left u = if not ((u.chan c).buffer.head == (u.chan c).buffer.tail) then 1 else 0

  -- `ready` says whether a message is left, and nothing else changes.
  abbrev pub final : World → World
  final u = set_ready c (not ((u.chan c).buffer.head == (u.chan c).buffer.tail)) u

  final_chan : (u : World) → (final u).chan c ≡ flagged (left u) (u.chan c)
  unfolding flagged
  final_chan u = chan-set_chan u c (flagged (left u) (u.chan c))

  pub final-Took :
      (v' : Node → List Node) (x : ℕ) (u : World)
      → Took is_head v v' c w x u
      → Took is_head v v' c w x (final u) × (((final u).chan c).ready ≡ left (final u))
  unfolding flagged messages
  final-Took v' x u t = (
    record {
      contents =
          t.contents
          ∙ ap (λ b. x ∷ b ++ messages u (v' (sender_queue c)))
              (sym (ap in_buffer (final_chan u) ∙ in_buffer-flagged (left u) (u.chan c)));
      chan =
          subst (λ r. IsChan r (v' (sender_queue c))) (sym (final_chan u))
            (IsChan-flagged (left u) (u.chan c) (v' (sender_queue c)) t.chan);
      system = System-set_chan c (flagged (left u) (u.chan c)) t.system;
    },
    rw (final_chan u) refl,
  )

  pub buffered : (w.chan c).buffer.head < (w.chan c).buffer.tail → lwt_rcv c w ≡ rcv_buffered c w
  unfolding rcv_local
  buffered more =
      lwt_rcv-local w c o.pointer o.type
      ∙ rw (ne→== (used (w.chan c)) 0 (λ e. absurd (omega (arith, used_lem o.chan))))

  module _ (more : (w.chan c).buffer.head < (w.chan c).buffer.tail) where
    pub taken_System : System is_head taken v
    taken_System = System-set_chan c (popped (w.chan c)) o.system

    pub taken_buffer : in_buffer (w.chan c) ≡ first ∷ in_buffer (taken.chan c)
    taken_buffer = in_buffer-popped o.chan more ∙ ap (λ r. first ∷ in_buffer r) (sym taken_chan)

    taken_messages : messages taken (v (sender_queue c)) ≡ messages w (v (sender_queue c))
    unfolding messages
    taken_messages = refl

    taken-Took : v (sender_queue c) ≡ [] → Took is_head v v c w first taken
    taken-Took none = record {
      contents = ap₂ ◌++◌ taken_buffer (sym taken_messages);
      chan =
          subst (λ r. IsChan r (v (sender_queue c))) (sym taken_chan)
            (popped-IsChan o.chan (v (sender_queue c)) more none);
      system = taken_System;
    }

    -- On a channel that can be read, with a message in the buffer and no sender that is blocked,
    -- `lwt_rcv` returns the oldest message at once; the channel keeps the others in order, `ready`
    -- says whether the buffer still has any, and the invariant is kept.
    pub lwt_rcv-takes :
        v (sender_queue c) ≡ []
        → Returns (λ x u. Took is_head v v c w x u × ((u.chan c).ready ≡ left u)) (lwt_rcv c w)
    unfolding rcv_buffered
    lwt_rcv-takes none =
        let free : no_sender c taken ≡ true =
          no_sender-eq is_head taken v c taken_System.queues o.head ∙ rw none in
        rw (buffered more, take_cell-popped w c (v (sender_queue c)) o.chan more, free)
          (final-Took v first taken (taken-Took none))
