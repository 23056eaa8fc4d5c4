-- ===== src/Chan/Lifetime.antt =====
-- `lwt_chan` and `lwt_chan_deref`.
use light_weight_thread_libr.Prelude.{
  ℕ, ◌+◌, ◌^◌, ◌<◌, ◌≡◌, refl, sym, ap, ◌∙◌, subst, ◌≢◌, ◌⊎◌, inl, inr, Bool-cases, Bool, true,
  false, List, [], ◌∷◌, arith, ne→==, ◌==◌, if◌then◌else◌,
}
use light_weight_thread_libr.Links.{update, list_ll_init}
use light_weight_thread_libr.Links.Queues.{IsQueues, IsOut}
use light_weight_thread_libr.Links.Init.{list_ll_init-IsQueues}
use light_weight_thread_libr.State.{
  World, LwtChannel, Node, Node-discrete, run_queue, sender_queue, local_chan, set_chan,
  lwt_current,
}
use light_weight_thread_libr.State.Cmd.{done, fault, follow, umalloc}
use light_weight_thread_libr.State.Gives.{Returns}
use light_weight_thread_libr.Sched.System.{System, AllThreads}
use light_weight_thread_libr.Chan.Life.{fill_chan, init_chan, lwt_chan, give_up, lwt_chan_deref}
use light_weight_thread_libr.Chan.Contents.{messages, contents, IsChan, in_buffer-nil}
use light_weight_thread_libr.Chan.Receiving.{Readable}

-- The references to a channel: its senders, and its receiver.
abbrev pub references : LwtChannel → ℕ
references r = r.snd_cnt + (if r.receiver == 0 then 0 else 1)

-- `lwt_chan_deref` of `NULL` is a fault. Of a thread that is the receiver, or of any other while
-- the channel counts a sender, it returns, gives up one reference, and frees the channel when, and
-- only when, that was the last.
pub lwt_chan_deref-frees :
    (c : ℕ) (w : World)
    → lwt_current w ≢ 0
    → (w.chan c).snd_cnt < 2 ^ 32
    → ((w.chan c).receiver ≡ lwt_current w) ⊎ (0 < (w.chan c).snd_cnt)
    → let u = give_up c w in
      (lwt_chan_deref c w ≡ (if c == 0 then fault else done tt u))
      × (references (u.chan c) + 1 ≡ references (w.chan c))
      × (u.freed ≡ (if references (u.chan c) == 0 then c ∷ w.freed else w.freed))
unfolding lwt_chan_deref give_up follow
lwt_chan_deref-frees c w here small held = (
  elim (Bool-cases (c == 0)) [ inl t ↦ rw t refl | inr f ↦ rw f refl ],
  ground arith,
  ground arith,
)

-- `is_head` and the queues with a new sender queue.
abbrev pub with_head : (Node → Bool) → ℕ → Node → Bool
with_head is_head c = update Node-discrete is_head (sender_queue c) true

abbrev pub with_queue : (Node → List Node) → ℕ → Node → List Node
with_queue v c = update Node-discrete v (sender_queue c) []

unfoldable pub made : ℕ → ℕ → ℕ → List ℕ → World → World
made c b size rest w =
    let w' : World = record w { supply = b ∷ rest } in
    let w'' = set_chan w' c (record (w'.chan c) { size = size }) in
    fill_chan c b (record w'' { supply = rest })

pub lwt_chan-made :
    (c b size : ℕ) (rest : List ℕ) (w : World)
    → w.supply ≡ c ∷ b ∷ rest
    → c ≢ 0
    → lwt_chan size w ≡ done c (made c b size rest w)
unfolding lwt_chan init_chan follow umalloc made
lwt_chan-made c b size rest w e pos = rw (e, ne→== c 0 pos)

pub record New (c b cells : ℕ) (rest : List ℕ) (w u : World) : Type 0 where
  pub type : (u.chan c).type ≡ local_chan
  pub receiver : (u.chan c).receiver ≡ lwt_current w
  pub data_buffer : (u.chan c).buffer.data_buffer ≡ b
  pub tail : (u.chan c).buffer.tail ≡ 0
  pub head : (u.chan c).buffer.head ≡ 0
  pub size : (u.chan c).size ≡ cells
  pub supply : u.supply ≡ rest
  pub links : u.links ≡ list_ll_init Node-discrete w.links (sender_queue c)
  pub kthds : u.kthd ≡ w.kthd
  pub kthd : u.current_kthd ≡ w.current_kthd
  pub threads : u.thread ≡ w.thread
  pub current : lwt_current u ≡ lwt_current w

pub made-New :
    (c b size : ℕ) (rest : List ℕ) (w : World) → New c b size rest w (made c b size rest w)
unfolding made fill_chan lwt_current
made-New c b size rest w = record {
  type = ground arith;
  receiver = ground arith;
  data_buffer = ground arith;
  tail = ground arith;
  head = ground arith;
  size = ground arith;
  supply = refl;
  links = refl;
  kthds = refl;
  kthd = refl;
  threads = refl;
  current = refl;
}

module _ (is_head : Node → Bool) (w : World) (v : Node → List Node) (c b size : ℕ) (rest : List ℕ)
    (s : System is_head w v) (some_left : w.supply ≡ c ∷ b ∷ rest) (pos : c ≢ 0) (pos' : b ≢ 0)
    (small : size < 2 ^ 31) (fresh : is_head (sender_queue c) ≡ false)
    (out : IsOut Node-discrete is_head v (sender_queue c)) where
  abbrev new : World
  new = made c b size rest w

  n : New c b size rest w new
  n = made-New c b size rest w

  no_senders : with_queue v c (sender_queue c) ≡ []
  no_senders = ground arith

  same_run : with_queue v c (run_queue w.current_kthd) ≡ v (run_queue w.current_kthd)
  same_run = ground arith

  new_queues : IsQueues Node-discrete (with_head is_head c) new.links (with_queue v c)
  new_queues =
      subst (λ l. IsQueues Node-discrete (with_head is_head c) l (with_queue v c)) (sym n.links)
        (list_ll_init-IsQueues Node-discrete is_head (sender_queue c) s.queues fresh out)

  new_run : with_queue v c (run_queue new.current_kthd) ≡ v (run_queue w.current_kthd)
  new_run = ap (λ k. with_queue v c (run_queue k)) n.kthd ∙ same_run

  pub new_System : System (with_head is_head c) new (with_queue v c)
  new_System = record {
    queues = new_queues;
    run_head = rw n.kthd (ground (arith, s.run_head));
    nodes = λ t. ground (arith, s.nodes t);
    off = rw (n.kthd, n.kthds) s.off;
    runs = subst AllThreads (sym new_run) s.runs;
    current_in = rw (new_run, n.current) s.current_in;
    owned = λ t i. rw (n.threads, n.kthd) (s.owned t (rw new_run at i));
  }

  new_IsChan : IsChan (new.chan c) (with_queue v c (sender_queue c))
  new_IsChan = record {
    pointer = λ e. pos' (sym n.data_buffer ∙ e);
    order = rw (n.head, n.tail) (omega arith);
    fits = rw (n.head, n.tail, n.size) (omega arith);
    few = rw n.tail (omega arith);
    small = rw n.size small;
    busy = inr no_senders;
  }

  new_contents : contents new (with_queue v c) c ≡ []
  unfolding messages
  new_contents = rw (no_senders, in_buffer-nil new_IsChan (n.head ∙ sym n.tail)) refl

  -- Given the invariant, and two addresses from the allocator of which the first has no sender
  -- queue yet, `lwt_chan` of a size below 2 ^ 31 returns the first; what is there is a local
  -- channel without messages that can be read and that the caller receives from, and the invariant
  -- is kept.
  pub lwt_chan-Readable :
      Returns
        (λ r u.
          (r ≡ c)
          × Readable (with_head is_head c) u (with_queue v c) c
          × ((u.chan c).receiver ≡ lwt_current w)
          × (contents u (with_queue v c) c ≡ [])
          × (u.supply ≡ rest))
        (lwt_chan size w)
  lwt_chan-Readable = rw (lwt_chan-made c b size rest w some_left pos) (
    refl,
    record {
      pointer = pos;
      type = n.type;
      chan = new_IsChan;
      head = ground arith;
      system = new_System;
    },
    n.receiver,
    new_contents,
    n.supply,
  )
