-- ===== src/Chan/Waiting.antt =====
-- A receiver that comes before the message: `lwt_rcv` on an empty channel, and the `lwt_snd` that
-- finds it waiting.
use mathlib.Core.List.{erase}
use mathlib.Core.Path.{ap₂}
use light_weight_thread_libr.Prelude.{
  ℕ, ◌≡◌, refl, sym, ap, ◌∙◌, ◌≢◌, inl, Bool, true, List, [], ◌∷◌, ◌++◌, arith, ==-of_eq,
}
use light_weight_thread_libr.Links.Queues.{IsQueues}
use light_weight_thread_libr.Links.Refine.{dequeue}
use light_weight_thread_libr.State.{
  World, Node, Node-discrete, thread_node, run_queue, sender_queue, lwt_blocked, blocked_receiving,
  lwt_current,
}
use light_weight_thread_libr.State.Cmd.{done, gets}
use light_weight_thread_libr.State.Gives.{Gives, Gives-bind, Gives-mono}
use light_weight_thread_libr.Sched.Handed.{pop_registers}
use light_weight_thread_libr.Sched.System.{System, System-change, Kept}
use light_weight_thread_libr.Chan.Buffer.{used}
use light_weight_thread_libr.Chan.Block.{block_thread, put_aside}
use light_weight_thread_libr.Chan.Send.{is_awaited}
use light_weight_thread_libr.Chan.Receive.{set_rcving, wait_message, rcv_local, lwt_rcv}
use light_weight_thread_libr.Chan.Contents.{in_buffer, messages, contents, used_lem, in_buffer-nil}
use light_weight_thread_libr.Chan.Resume.{put_aside-receiving}
use light_weight_thread_libr.Chan.Blocking.{Blocked, Leaves, not_next, block_thread-Blocked}
use light_weight_thread_libr.Chan.Taking.{lwt_rcv-local, no_sender-eq}
use light_weight_thread_libr.Chan.Receiving.{Readable}

-- `u` is `w` with the current thread waiting for a message of `c`, in no queue, and `t` running.
pub record Awaiting (is_head : Node → Bool) (v : Node → List Node) (c t : ℕ) (w u : World)
    : Type 0 where
  pub now : lwt_current u ≡ t
  pub awaited : is_awaited c u ≡ true
  pub contents : contents u (dequeue Node-discrete v (thread_node (lwt_current w))) c ≡ []
  pub system : System is_head u (dequeue Node-discrete v (thread_node (lwt_current w)))

module _ (is_head : Node → Bool) (w : World) (v : Node → List Node) (c : ℕ)
    (o : Readable is_head w v c) where
  abbrev cur : ℕ
  cur = lwt_current w

  abbrev rq : Node
  rq = run_queue w.current_kthd

  abbrev without : Node → List Node
  without = dequeue Node-discrete v (thread_node cur)

  abbrev waiting : World
  waiting = set_rcving cur c w

  waiting-Kept : Kept w waiting
  unfolding set_rcving lwt_current
  waiting-Kept = record {
    kthd = refl;
    current = refl;
    polling = λ x. refl;
    owners = λ x. ground arith;
  }

  waiting_System : System is_head waiting v
  unfolding set_rcving
  waiting_System =
      System-change o.system waiting waiting-Kept v o.system.queues o.system.runs
        o.system.current_in o.system.owned

  waiting_chan : waiting.chan ≡ w.chan
  unfolding set_rcving
  waiting_chan = refl

  waiting_rcving : (waiting.thread cur).now_rcving ≡ c
  unfolding set_rcving
  waiting_rcving = ground arith

  module _ (t : ℕ) (rest : List Node)
      (e : erase Node-discrete (v rq) (thread_node cur) ≡ thread_node t ∷ rest)
      (drained : (w.chan c).buffer.head ≡ (w.chan c).buffer.tail) (none : v (sender_queue c) ≡ [])
      (mine : (w.chan c).receiver ≡ cur) where
    other : cur ≢ t
    other f = not_next o.system t rest e f

    leaves : Leaves waiting v without
    unfolding set_rcving lwt_current dequeue
    leaves = record { others = refl; next = record { thread = t; rest = rest; whole = e } }

    aside_queues :
        IsQueues Node-discrete is_head
          (put_aside (lwt_current waiting) blocked_receiving c waiting).links
          without
    unfolding set_rcving lwt_current
    aside_queues =
        (put_aside-receiving is_head cur c waiting v waiting_System.queues
          (inl (rq, o.system.run_head, o.system.current_in))).0

    without_senders : without (sender_queue c) ≡ []
    unfolding dequeue
    without_senders = rw none refl

    no_messages : (u : World) → messages u [] ≡ []
    unfolding messages
    no_messages u = refl

    is_awaited_lem :
        (u : World) (x : ℕ)
        → (u.chan c).receiver ≡ x
        → (u.thread x).state ≡ lwt_blocked
        → (u.thread x).block_for ≡ blocked_receiving
        → (u.thread x).now_rcving ≡ c
        → is_awaited c u ≡ true
    unfolding is_awaited
    is_awaited_lem u x r s b n = rw (r, s, b, n, ==-of_eq c c refl) refl

    waits :
        (u : World)
        → Blocked t blocked_receiving waiting u
        → System is_head u without
        → Awaiting is_head v c t w u
    waits u b sys = record {
      now = b.now;
      awaited =
          is_awaited_lem u cur (ap (λ f. (f c).receiver) (b.chan ∙ waiting_chan) ∙ mine)
            (ap (λ x. (u.thread x).state) (sym waiting-Kept.current)
              ∙ b.state (λ f. other (sym waiting-Kept.current ∙ f)))
            (ap (λ x. (u.thread x).block_for) (sym waiting-Kept.current) ∙ b.block_for)
            (b.rcving cur ∙ waiting_rcving);
      contents =
          ap₂ ◌++◌
            (ap (λ f. in_buffer (f c)) (b.chan ∙ waiting_chan) ∙ in_buffer-nil o.chan drained)
            (ap (messages u) without_senders ∙ no_messages u);
      system = sys;
    }

    blocks :
        Gives
          (Awaiting is_head v c t w)
          (λ x. done tt (pop_registers x))
          (block_thread (lwt_current waiting) blocked_receiving c waiting)
    unfolding leaves
    blocks =
        let P : World → Type 0 =
          λ u. Blocked t blocked_receiving waiting u × System is_head u without in
        Gives-mono P (Awaiting is_head v c t w) (λ x. done tt (pop_registers x))
          (block_thread (lwt_current waiting) blocked_receiving c waiting) (λ u b. waits u b.0 b.1)
          (block_thread-Blocked waiting_System blocked_receiving c without aside_queues leaves)

    pub waits_lem : lwt_rcv c w ≡ wait_message c w
    unfolding rcv_local
    waits_lem =
        lwt_rcv-local w c o.pointer o.type
        ∙ rw (
          ==-of_eq (used (w.chan c)) 0 (used_lem o.chan ∙ omega arith),
          no_sender-eq is_head w v c o.system.queues o.head,
          none,
        )

    -- On a channel that can be read and stands for no message, `lwt_rcv` of its receiver, which
    -- shares the run queue with others, makes the receiver wait, as `lwt_snd` tests for it, and
    -- the first of the others runs; the invariant is kept. The call returns what is the message of
    -- the receiver's thread when that runs again.
    pub lwt_rcv-waits :
        Gives
          (Awaiting is_head v c t w)
          (λ x. done (x.thread cur).message_data (pop_registers x))
          (lwt_rcv c w)
    unfolding wait_message set_rcving lwt_current
    lwt_rcv-waits = rw waits_lem (
        Gives-bind (Awaiting is_head v c t w) (λ x. done tt (pop_registers x))
          (block_thread cur blocked_receiving c waiting)
          (λ _. gets (λ x. (x.thread cur).message_data)) blocks)
