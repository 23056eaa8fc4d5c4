-- ===== src/Chan/Full.antt =====
-- `lwt_snd` on a local channel that is full: the sender waits behind the others.
use mathlib.Core.List.{erase, append_assoc}
use mathlib.Core.Path.{ap₂}
use light_weight_thread_libr.Prelude.{
  ℕ, ◌+◌, ◌≡◌, refl, sym, ap, ◌∙◌, subst, ◌≢◌, inl, inr, Bool, true, false, List, [], ◌∷◌, ◌++◌,
  arith, Bool-cases,
}
use light_weight_thread_libr.Links.Ring.{has}
use light_weight_thread_libr.Links.Queues.{IsQueues, erase_of_not_has}
use light_weight_thread_libr.Links.Refine.{move_to_end, move_to_end_at, move_to_end-ne}
use light_weight_thread_libr.State.{
  World, Node, Node-discrete, thread_node, run_queue, sender_queue, lwt_blocked, blocked_sending,
  lwt_current, ret_dispatch,
}
use light_weight_thread_libr.State.Cmd.{done, pure}
use light_weight_thread_libr.State.Gives.{Gives, Gives-bind, Gives-mono}
use light_weight_thread_libr.Sched.Handed.{pop_registers, Kin, Kin-trans}
use light_weight_thread_libr.Sched.System.{System, System-change, Kept}
use light_weight_thread_libr.Chan.Block.{block_thread, put_aside}
use light_weight_thread_libr.Chan.Send.{is_awaited, lwt_snd}
use light_weight_thread_libr.Chan.Contents.{
  in_buffer, messages, contents, messages-append, messages_same,
}
use light_weight_thread_libr.Chan.Resume.{put_aside-sending}
use light_weight_thread_libr.Chan.Blocking.{Blocked, Leaves, not_next, block_thread-Blocked}
use light_weight_thread_libr.Chan.Sending.{
  hold_message, store-full, readied, in_buffer-readied, Open, snd_local-stores,
}
use light_weight_thread_libr.Chan.Fifo.{ready_world, ready_chan, ready-IsChan, along}

pub sender_apart :
    {is_head : Node → Bool} {w : World} {v : Node → List Node}
    → System is_head w v
    → (c t : ℕ) → is_head (sender_queue c) ≡ true
    → has Node-discrete (thread_node t) (v (run_queue w.current_kthd)) ≡ true
    → has Node-discrete (thread_node t) (v (sender_queue c)) ≡ false
sender_apart {w} {v} s c t hc i =
    elim (Bool-cases (has Node-discrete (thread_node t) (v (sender_queue c)))) [
      | inl here ↦ absurd (
          cc (
            s.queues.apart (sender_queue c) (run_queue w.current_kthd) (thread_node t) hc s.run_head
              here i))
      | inr free ↦ free
    ]

-- `u` is `w` with the current thread blocked behind the other senders of `c`, its message `m` last
-- among those of the channel, and `t` running.
pub record Queued (is_head : Node → Bool) (v : Node → List Node) (c m t : ℕ) (w u : World)
    : Type 0 where
  pub now : lwt_current u ≡ t
  pub state : (u.thread (lwt_current w)).state ≡ lwt_blocked
  pub message : (u.thread (lwt_current w)).message_data ≡ m
  pub chan : u.chan c ≡ readied (w.chan c)
  pub kthd : u.current_kthd ≡ w.current_kthd
  pub owners : (x : ℕ) → (u.thread x).owner_kthd ≡ (w.thread x).owner_kthd
  pub saved_ip : (u.thread (lwt_current w)).context.ip ≡ ret_dispatch
  pub contexts : (x : ℕ) → x ≢ lwt_current w → (u.thread x).context ≡ (w.thread x).context
  pub kin : Kin w u
  pub contents :
      contents u (move_to_end Node-discrete v (sender_queue c) (thread_node (lwt_current w))) c
      ≡ contents w v c ++ m ∷ []
  pub system :
      System is_head u (move_to_end Node-discrete v (sender_queue c) (thread_node (lwt_current w)))

module _ {is_head : Node → Bool} {w : World} {v : Node → List Node} (s : System is_head w v)
    (c m : ℕ) (o : Open w v c) where
  abbrev cur : ℕ
  cur = lwt_current w

  abbrev rq : Node
  rq = run_queue w.current_kthd

  abbrev behind : Node → List Node
  behind = move_to_end Node-discrete v (sender_queue c) (thread_node cur)

  abbrev held : World
  held = hold_message cur m (ready_world w v c m o)

  held-Kept : Kept w held
  unfolding hold_message lwt_current
  held-Kept = record {
    kthd = refl;
    current = refl;
    polling = λ x. refl;
    owners = λ x. ground arith;
  }

  held_links : held.links ≡ w.links
  unfolding hold_message
  held_links = refl

  held_System : System is_head held v
  held_System =
      System-change s held held-Kept v
        (subst (λ l. IsQueues Node-discrete is_head l v) (sym held_links) s.queues) s.runs
        s.current_in s.owned

  held_chan : held.chan c ≡ readied (w.chan c)
  unfolding hold_message
  held_chan = ready_chan w v c m o

  held_message : (held.thread cur).message_data ≡ m
  unfolding hold_message
  held_message = ground arith

  held_contexts : (x : ℕ) → (held.thread x).context ≡ (w.thread x).context
  unfolding hold_message
  held_contexts x = ground arith

  held-Kin : Kin w held
  unfolding hold_message
  held-Kin x = (ground arith, ground arith, ground arith)

  held_others : (x : ℕ) → x ≢ cur → (held.thread x).message_data ≡ (w.thread x).message_data
  unfolding hold_message
  held_others x ne = ground arith

  module _ (hc : is_head (sender_queue c) ≡ true) where
    alone : has Node-discrete (thread_node cur) (v (sender_queue c)) ≡ false
    alone = sender_apart s c cur hc s.current_in

    behind_at : behind (sender_queue c) ≡ v (sender_queue c) ++ thread_node cur ∷ []
    behind_at =
        move_to_end_at Node-discrete v (sender_queue c) (thread_node cur)
        ∙ ap (λ l. l ++ thread_node cur ∷ [])
            (erase_of_not_has Node-discrete (thread_node cur) (v (sender_queue c)) alone)

    one_message : (u : World) → messages u (thread_node cur ∷ []) ≡ (u.thread cur).message_data ∷ []
    unfolding messages
    one_message u = refl

    queued_messages :
        (u : World)
        → ((x : ℕ) → (u.thread x).message_data ≡ (held.thread x).message_data)
        → messages u (behind (sender_queue c)) ≡ messages w (v (sender_queue c)) ++ m ∷ []
    queued_messages u same =
        ap (messages u) behind_at
        ∙ messages-append u (v (sender_queue c)) (thread_node cur ∷ [])
        ∙ ap₂ ◌++◌
            (messages_same u w cur (v (sender_queue c)) alone (λ x ne. same x ∙ held_others x ne))
            (one_message u ∙ ap (λ x. x ∷ []) (same cur ∙ held_message))

    held-Queued :
        (t : ℕ) (u : World)
        → cur ≢ t
        → Blocked t blocked_sending held u
        → System is_head u behind
        → Queued is_head v c m t w u
    held-Queued t u other b sys = record {
      now = b.now;
      message = b.messages cur ∙ held_message;
      chan = ap (λ f. f c) b.chan ∙ held_chan;
      kthd = b.kthd ∙ held-Kept.kthd;
      owners = λ x. b.owners x ∙ held-Kept.owners x;
      saved_ip = ap (λ x. (u.thread x).context.ip) (sym held-Kept.current) ∙ b.saved_ip;
      contexts = λ x ne. b.contexts x (λ g. ne (g ∙ held-Kept.current)) ∙ held_contexts x;
      kin = Kin-trans w held u held-Kin b.kin;
      state =
          ap (λ x. (u.thread x).state) (sym held-Kept.current)
          ∙ b.state (λ e. other (sym held-Kept.current ∙ e));
      contents =
          ap₂ ◌++◌ (ap in_buffer (ap (λ f. f c) b.chan ∙ held_chan) ∙ in_buffer-readied (w.chan c))
            (queued_messages u b.messages)
          ∙ sym (append_assoc (in_buffer (w.chan c)) (messages w (v (sender_queue c))) (m ∷ []));
      system = sys;
    }

    module _ (t : ℕ) (rest : List Node)
        (e : erase Node-discrete (v rq) (thread_node cur) ≡ thread_node t ∷ rest) where
      run_behind : behind rq ≡ erase Node-discrete (v rq) (thread_node cur)
      run_behind = move_to_end-ne Node-discrete v (sender_queue c) (thread_node cur) rq (λ f. cc)

      other : cur ≢ t
      other f = not_next s t rest e f

      leaves : Leaves held v behind
      unfolding hold_message lwt_current
      leaves = record {
        others = run_behind;
        next = record { thread = t; rest = rest; whole = run_behind ∙ e };
      }

      aside_queues :
          IsQueues Node-discrete is_head
            (put_aside (lwt_current held) blocked_sending c held).links
            behind
      unfolding hold_message lwt_current
      aside_queues =
          put_aside-sending is_head cur c held v held_System.queues hc (s.nodes cur)
            (inl (rq, s.run_head, s.current_in))

      blocks :
          Gives
            (Queued is_head v c m t w)
            (λ x. done tt (pop_registers x))
            (block_thread (lwt_current held) blocked_sending c held)
      unfolding leaves
      blocks =
          let P : World → Type 0 =
            λ u. Blocked t blocked_sending held u × System is_head u behind in
          Gives-mono P (Queued is_head v c m t w) (λ x. done tt (pop_registers x))
            (block_thread (lwt_current held) blocked_sending c held)
            (λ u b. held-Queued t u other b.0 b.1)
            (block_thread-Blocked held_System blocked_sending c behind aside_queues leaves)

    -- Given the invariant, on an open channel whose buffer is full and whose receiver does not
    -- wait, `lwt_snd` of a thread that shares the run queue with others sets its caller aside, and
    -- the first of the others runs; the channel stands for one message more, behind all others,
    -- the invariant is kept, and the call returns 0 once the caller runs again.
    pub lwt_snd-full :
        (t : ℕ) (rest : List Node)
        → is_awaited c w ≡ false
        → (w.chan c).buffer.tail ≡ (w.chan c).buffer.head + (w.chan c).size
        → erase Node-discrete (v rq) (thread_node cur) ≡ thread_node t ∷ rest
        → Gives {A = ℕ} (Queued is_head v c m t w) (λ x. done 0 (pop_registers x)) (lwt_snd c m w)
    unfolding readied lwt_current hold_message
    lwt_snd-full t rest free full e =
        let full' = along w v c m o (λ r. r.buffer.tail ≡ r.buffer.head + r.size) full in
        rw
          (
            snd_local-stores w v c m o free,
            store-full (ready_world w v c m o) v c m (ready-IsChan w v c m o) full',
          )
          (Gives-bind (Queued is_head v c m t w) (λ x. done tt (pop_registers x))
            (block_thread cur blocked_sending c held) (λ _. pure {A = ℕ} 0) (blocks t rest e))
