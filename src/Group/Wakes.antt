-- ===== src/Group/Wakes.antt =====
-- lwt_chl.c: the `lwt_snd` that wakes the owner of a group which sleeps in `lwt_cgrp_wait`.
use mathlib.Core.Path.{ap₂}
use light_weight_thread_libr.Prelude.{
  ℕ, suc, ◌+◌, ◌^◌, ◌<◌, ◌≡◌, refl, sym, ap, ◌∙◌, subst, ◌≢◌, inr, Bool, true, false, some, List,
  [], ◌∷◌, ◌++◌, arith, length, ne→==,
}
use light_weight_thread_libr.Links.Ring.{Seg, IsLoose, IsNodup, IsNodup-drop, has-parts}
use light_weight_thread_libr.Links.Queues.{IsOut}
use light_weight_thread_libr.Links.Refine.{move_before_last, move_before_last-ne}
use light_weight_thread_libr.State.{
  World, Node, Node-discrete, thread_node, chan_node, run_queue, chl_list, sender_queue, set_chan,
  lwt_runnable, LwtChannel, dec,
}
use light_weight_thread_libr.State.Cmd.{done}
use light_weight_thread_libr.State.Gives.{Returns}
use light_weight_thread_libr.Sched.{uncount, set_runnable}
use light_weight_thread_libr.Sched.System.{System, has_node}
use light_weight_thread_libr.Chan.Block.{resume_thread}
use light_weight_thread_libr.Chan.Send.{is_awaited, announce, snd_local, store_or_block, lwt_snd}
use light_weight_thread_libr.Chan.Contents.{
  in_buffer, messages, contents, IsChan, pushed, pushed-IsChan, idle_senders,
}
use light_weight_thread_libr.Chan.Sending.{
  chan-set_chan, readied, in_buffer-readied, IsChan-readied, store-room, contents-pushed,
  lwt_snd-local,
}
use light_weight_thread_libr.Chan.Taking.{resume_thread-System}
use light_weight_thread_libr.Chan.Receiving.{Readable, System-set_chan}
use light_weight_thread_libr.Chan.Resume.{Resumed, resume_thread-Resumed}
use light_weight_thread_libr.Group.{wait_loop, set_waiting, find_ready}
use light_weight_thread_libr.Group.Ready.{NoneReady, find_ready-skip, wait_loop-found}
use light_weight_thread_libr.Group.Lost.{moved_group}

-- Channel `c` is in group `g`, whose owner `a` sleeps in `lwt_cgrp_wait`, in no queue.
pub record Watched (is_head : Node → Bool) (v : Node → List Node) (c g a : ℕ) (w : World)
    : Type 0 where
  pub channel : Readable is_head w v c
  pub receiver : (w.chan c).receiver ≢ 0
  pub cgroup : (w.chan c).cgroup ≡ g
  pub group : g ≢ 0
  pub waits : (w.cgrp g).blocked ≢ 0
  pub owner : (w.cgrp g).owner ≡ a
  pub pos : a ≢ 0
  pub out : IsOut Node-discrete is_head v (thread_node a)
  pub loose : IsLoose w.links (thread_node a)
  pub mine : (w.thread a).owner_kthd ≡ w.current_kthd

-- `u` is `w` after message `m` on channel `c` has woken `a`.
pub record Woken (is_head : Node → Bool) (v v' : Node → List Node) (c m a : ℕ) (w u : World)
    : Type 0 where
  pub contents : contents u v' c ≡ contents w v c ++ m ∷ []
  pub chan : IsChan (u.chan c) (v' (sender_queue c))
  pub ready : (u.chan c).ready ≡ 1
  pub state : (u.thread a).state ≡ lwt_runnable
  pub blocked : (u.kthd w.current_kthd).block_counter ≡ dec (w.kthd w.current_kthd).block_counter
  pub system : System is_head u v'

-- The channels in front of `c` are as ready as before when only `c` has changed.
NoneReady-before :
    (u w : World) (c : ℕ) (xs : List Node)
    → ((d : ℕ) → d ≢ c → u.chan d ≡ w.chan d)
    → has_node (chan_node c) xs ≡ false
    → NoneReady w xs
    → NoneReady u xs
NoneReady-before u w c [] same out h = tt
NoneReady-before u w c (chan_node d ∷ xs) same out h = (
  λ r. h.0 (sym (ap (λ x. x.ready) (same d (λ e. ground arith))) ∙ r),
  NoneReady-before u w c xs same (ground arith) h.1,
)
NoneReady-before u w c (_ ∷ xs) same out h = absurd h

module _ (is_head : Node → Bool) (w : World) (v : Node → List Node) (c m g a : ℕ)
    (s : Watched is_head v c g a w) where
  abbrev ready_world : World
  ready_world = set_chan w c (readied (w.chan c))

  abbrev woken : World
  woken = resume_thread a ready_world

  abbrev v' : Node → List Node
  v' = move_before_last Node-discrete v (run_queue w.current_kthd) (thread_node a)

  abbrev sent : World
  sent = set_chan woken c (pushed m (woken.chan c))

  wk : Resumed a ready_world woken
  wk = resume_thread-Resumed a ready_world

  announces : announce c w ≡ woken
  unfolding announce readied
  announces = rw (s.cgroup, ne→== g 0 s.group, ne→== (w.cgrp g).blocked 0 s.waits, s.owner) refl

  stores : is_awaited c w ≡ false → lwt_snd c m w ≡ store_or_block c m woken
  unfolding snd_local
  stores free =
      lwt_snd-local w c m (s.channel).pointer (s.channel).type
      ∙ rw (ne→== (w.chan c).receiver 0 s.receiver, free, announces) refl

  woken_chan : woken.chan c ≡ readied (w.chan c)
  woken_chan = ap (λ f. f c) wk.chan ∙ chan-set_chan w c (readied (w.chan c))

  along : (P : LwtChannel → Type 0) → P (readied (w.chan c)) → P (woken.chan c)
  along P = subst P (sym woken_chan)

  woken_System : System is_head woken v'
  woken_System =
      resume_thread-System (System-set_chan c (readied (w.chan c)) (s.channel).system) a
        (inr (s.out, s.loose)) s.pos s.mine

  sent_chan : sent.chan c ≡ pushed m (woken.chan c)
  sent_chan = chan-set_chan woken c (pushed m (woken.chan c))

  sent_ready : (sent.chan c).ready ≡ 1
  unfolding pushed readied
  sent_ready = ap (λ r. r.ready) sent_chan ∙ ap (λ r. r.ready) woken_chan

  sent_others : (d : ℕ) → d ≢ c → sent.chan d ≡ w.chan d
  unfolding resume_thread uncount set_runnable
  sent_others d ne = ground arith

  sent_rounds : sent.rounds ≡ w.rounds
  unfolding resume_thread uncount set_runnable
  sent_rounds = refl

  sent_System : System is_head sent v'
  sent_System = System-set_chan c (pushed m (woken.chan c)) woken_System

  module _ (room : (w.chan c).buffer.tail < (w.chan c).buffer.head + (w.chan c).size)
      (few : (w.chan c).buffer.tail + 1 < 2 ^ 31) where
    no_senders : v (sender_queue c) ≡ []
    no_senders = idle_senders (s.channel).chan room

    still_none : v' (sender_queue c) ≡ []
    still_none =
        move_before_last-ne Node-discrete v (run_queue w.current_kthd) (thread_node a)
          (sender_queue c) (λ f. cc)
        ∙ rw no_senders refl

    woken-IsChan : IsChan (woken.chan c) (v' (sender_queue c))
    woken-IsChan = rw still_none (
        along (λ r. IsChan r [])
          (IsChan-readied (w.chan c) [] (subst (IsChan (w.chan c)) no_senders (s.channel).chan)))

    woken_room : (woken.chan c).buffer.tail < (woken.chan c).buffer.head + (woken.chan c).size
    unfolding readied
    woken_room = along (λ r. r.buffer.tail < r.buffer.head + r.size) room

    woken_few : (woken.chan c).buffer.tail + 1 < 2 ^ 31
    unfolding readied
    woken_few = along (λ r. r.buffer.tail + 1 < 2 ^ 31) few

    woken_contents : contents woken v' c ≡ contents w v c
    unfolding messages
    woken_contents =
        ap₂ ◌++◌ (ap in_buffer woken_chan ∙ in_buffer-readied (w.chan c))
          (ap (messages woken) still_none ∙ sym (ap (messages w) no_senders))

    sent-Woken : Woken is_head v v' c m a w sent
    sent-Woken = record {
      contents =
          contents-pushed woken v' c m woken-IsChan sent sent_chan woken_room
          ∙ ap (λ l. l ++ m ∷ []) woken_contents;
      chan =
          subst (λ r. IsChan r (v' (sender_queue c))) (sym sent_chan)
            (pushed-IsChan woken-IsChan m (v' (sender_queue c)) woken_room woken_few
              (inr still_none));
      ready = sent_ready;
      state = wk.state;
      blocked = wk.blocked;
      system = sent_System;
    }

    module _ (front back : List Node) (hg : is_head (chl_list g) ≡ true)
        (e : v (chl_list g) ≡ front ++ chan_node c ∷ back) (idle : NoneReady w front)
        (lt : length front < w.rounds) where
      whole : v' (chl_list g) ≡ front ++ chan_node c ∷ back
      whole = moved_group is_head v w.current_kthd g a hg s.out ∙ e

      not_before : has_node (chan_node c) front ≡ false
      not_before =
          let d : IsNodup Node-discrete (front ++ chan_node c ∷ back) =
            subst (IsNodup Node-discrete) e
              ((s.channel).system.queues.ring (chl_list g) hg).nodup.1 in
          (has-parts Node-discrete (chan_node c) front back
            (IsNodup-drop Node-discrete (chan_node c) front back d).0).0

      finds : find_ready sent.rounds g sent (sent.links.n (chl_list g)) ≡ done (some c) sent
      finds =
          find_ready-skip sent.rounds g sent c (chl_list g) front back
            (NoneReady-before sent w c front sent_others not_before idle)
            (subst (λ l. Seg sent.links (chl_list g) l (chl_list g)) whole
              (sent_System.queues.ring (chl_list g) hg).seg)
            sent_ready (rw sent_rounds lt)

      -- Given the invariant and a local channel `c` with a receiver in a group whose owner sleeps
      -- in `lwt_cgrp_wait`, in no queue and of this kernel thread, with room in the buffer, a tail
      -- that stays below 2 ^ 31 and a receiver that does not wait in `lwt_rcv`: `lwt_snd` returns
      -- 0 at once, the message is behind all others of the channel, the channel is ready, the
      -- owner can run and is in the run queue, and the invariant is kept. If no channel in front
      -- of `c` in the group is ready, and there are more rounds than these, the owner's wait then
      -- returns `c`, with the group not waited for.
      pub lwt_snd-wakes :
          is_awaited c w ≡ false
          → Returns
              (λ r u.
                (r ≡ 0)
                × Woken is_head v v' c m a w u
                × ((rounds : ℕ) → wait_loop (suc rounds) g a u ≡ done c (set_waiting g 0 u)))
              (lwt_snd c m w)
      lwt_snd-wakes free =
          rw (stores free ∙ store-room woken v' c m woken-IsChan woken_room) (
            refl,
            sent-Woken,
            λ rounds. wait_loop-found (suc rounds) g c a sent finds (omega arith),
          )
