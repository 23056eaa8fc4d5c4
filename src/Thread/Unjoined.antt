-- ===== src/Thread/Unjoined.antt =====
-- `lwt_die` of a thread that nobody waits for yet: it blocks on its own channel.
use mathlib.Core.List.{erase}
use light_weight_thread_libr.Links.Refine.{move_to_end}
use light_weight_thread_libr.Prelude.{
  ℕ, ◌+◌, ◌≡◌, ◌≢◌, refl, sym, ap, ◌∙◌, subst, Bool, true, false, List, [], ◌∷◌, ◌++◌, arith,
}
use light_weight_thread_libr.State.{
  World, LwtChannel, Node, Node-discrete, thread_node, run_queue, sender_queue, lwt_current,
}
use light_weight_thread_libr.State.Gives.{Gives, Gives-bind, Gives-mono}
use light_weight_thread_libr.State.Cmd.{done, modify, ◌>>◌}
use light_weight_thread_libr.Sched.{lwt_schedule}
use light_weight_thread_libr.Sched.Handed.{pop_registers, Kin, Kin-trans}
use light_weight_thread_libr.Sched.System.{System, System-change, Kept}
use light_weight_thread_libr.Chan.Send.{is_awaited, lwt_snd}
use light_weight_thread_libr.Chan.Contents.{contents, in_buffer, messages_same}
use light_weight_thread_libr.Chan.Sending.{Open, readied}
use light_weight_thread_libr.Chan.Full.{Queued, sender_apart, lwt_snd-full}
use light_weight_thread_libr.Thread.{last_word, retire, lwt_die}

module _ {is_head : Node → Bool} {w : World} {v : Node → List Node} (s : System is_head w v)
    (c m : ℕ) (o : Open w v c) where
  abbrev cur : ℕ
  cur = lwt_current w

  abbrev said : World
  said = last_word cur m w

  said-Kept : Kept w said
  unfolding last_word lwt_current
  said-Kept = record {
    kthd = refl;
    current = ground arith;
    polling = λ x. ground arith;
    owners = λ x. ground arith;
  }

  said_System : System is_head said v
  unfolding last_word
  said_System = System-change s said said-Kept v s.queues s.runs s.current_in s.owned

  said-Open : Open said v c
  unfolding last_word
  said-Open = record {
    pointer = o.pointer;
    type = o.type;
    receiver = o.receiver;
    chan = o.chan;
    quiet = o.quiet;
  }

  said_awaited : is_awaited c w ≡ false → is_awaited c said ≡ false
  unfolding last_word is_awaited
  said_awaited free = ground (arith, free)

  said_chl : (w.thread cur).chl ≡ c → (said.thread cur).chl ≡ c
  unfolding last_word
  said_chl own = ground (arith, own)

  said_readied : {r : LwtChannel} → r ≡ readied (said.chan c) → r ≡ readied (w.chan c)
  unfolding last_word
  said_readied e = e

  said_contexts : (x : ℕ) → (said.thread x).context ≡ (w.thread x).context
  unfolding last_word
  said_contexts x = ground arith

  said-Kin : Kin w said
  unfolding last_word
  said-Kin x = (ground arith, ground arith, ground arith)

  said_messages : (x : ℕ) → x ≢ cur → (said.thread x).message_data ≡ (w.thread x).message_data
  unfolding last_word
  said_messages x ne = ground arith

  module _ (hc : is_head (sender_queue c) ≡ true) where
    same_contents : contents said v c ≡ contents w v c
    unfolding last_word
    same_contents =
        ap (λ l. in_buffer (w.chan c) ++ l)
          (messages_same said w cur (v (sender_queue c)) (sender_apart s c cur hc s.current_in)
            said_messages)

    said-Queued : (t : ℕ) (u : World) → Queued is_head v c m t said u → Queued is_head v c m t w u
    said-Queued t u q =
        let P : ℕ → Type 0 = λ x.
          contents u (move_to_end Node-discrete v (sender_queue c) (thread_node x)) c
          ≡ contents said v c ++ m ∷ [] in
        let Q : ℕ → Type 0 =
          λ x. System is_head u (move_to_end Node-discrete v (sender_queue c) (thread_node x)) in
        record {
          now = q.now;
          message = ap (λ x. (u.thread x).message_data) (sym said-Kept.current) ∙ q.message;
          chan = said_readied q.chan;
          kthd = q.kthd ∙ said-Kept.kthd;
          owners = λ x. q.owners x ∙ said-Kept.owners x;
          saved_ip = ap (λ x. (u.thread x).context.ip) (sym said-Kept.current) ∙ q.saved_ip;
          contexts = λ x ne. q.contexts x (λ g. ne (g ∙ said-Kept.current)) ∙ said_contexts x;
          kin = Kin-trans w said u said-Kin q.kin;
          state = ap (λ x. (u.thread x).state) (sym said-Kept.current) ∙ q.state;
          contents = subst P said-Kept.current q.contents ∙ ap (λ l. l ++ m ∷ []) same_contents;
          system = subst Q said-Kept.current q.system;
        }

    -- Given the invariant and a thread whose own channel is open and full, with a receiver that
    -- does not wait for it, and that shares the run queue with others: `lwt_die` sets the thread
    -- aside behind the senders of its channel, with its message last among those of the channel,
    -- and the first of the others runs; the invariant is kept, and only when it runs again does
    -- the thread go to the recycle queue and give the processor away.
    pub lwt_die-unjoined :
        (t : ℕ) (rest : List Node)
        → (w.thread cur).chl ≡ c
        → is_awaited c w ≡ false
        → (w.chan c).buffer.tail ≡ (w.chan c).buffer.head + (w.chan c).size
        → erase Node-discrete (v (run_queue w.current_kthd)) (thread_node cur)
          ≡ thread_node t ∷ rest
        → Gives
            (Queued is_head v c m t w)
            (λ x. lwt_schedule (retire cur (pop_registers x)))
            (lwt_die m w)
    unfolding lwt_die last_word
    lwt_die-unjoined t rest own free full e =
        let full' : (said.chan c).buffer.tail ≡ (said.chan c).buffer.head + (said.chan c).size =
          full in
        let e' : erase Node-discrete (v (run_queue said.current_kthd))
              (thread_node (lwt_current said))
            ≡ thread_node t ∷ rest =
          ap (λ x. erase Node-discrete (v (run_queue w.current_kthd)) (thread_node x))
            said-Kept.current
          ∙ e in
        rw (said_chl own) (
          Gives-bind (Queued is_head v c m t w) (λ x. done 0 (pop_registers x)) (lwt_snd c m said)
            (λ _. modify (retire cur) >> lwt_schedule)
            (Gives-mono (Queued is_head v c m t said) (Queued is_head v c m t w)
              (λ x. done 0 (pop_registers x)) (lwt_snd c m said) (said-Queued t)
              (lwt_snd-full said_System c m said-Open hc t rest (said_awaited free) full' e')))
