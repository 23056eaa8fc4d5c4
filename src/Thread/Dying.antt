-- ===== src/Thread/Dying.antt =====
-- `lwt_die` of a thread whose parent waits in `lwt_join`, up to its `__lwt_schedule`.
use mathlib.Core.List.{erase}
use light_weight_thread_libr.Prelude.{
  ℕ, ◌≡◌, refl, ap, ◌∙◌, ◌≢◌, inl, Bool, true, false, List, [], ◌∷◌, ◌++◌, arith,
}
use light_weight_thread_libr.Links.Ring.{IsLoose}
use light_weight_thread_libr.Links.Queues.{IsQueues, not_elsewhere, IsOut, erase_of_not_has}
use light_weight_thread_libr.Links.Refine.{
  move_to_end, move_before_last, move_before_last-ne, move_to_end-ne, move_to_end_at,
  move_to_end-IsQueues,
}
use light_weight_thread_libr.State.{
  World, Node, Node-discrete, thread_node, run_queue, recycle_queue, lwt_zombies, lwt_current,
  current_recycle_queue,
}
use light_weight_thread_libr.Sched.{lwt_schedule}
use light_weight_thread_libr.Sched.System.{System, System-change, Kept, has_node}
use light_weight_thread_libr.Chan.Send.{is_awaited}
use light_weight_thread_libr.Chan.Receiving.{Readable}
use light_weight_thread_libr.Chan.Handing.{hands_over, woken_System}
use light_weight_thread_libr.Chan.Block.{resume_thread}
use light_weight_thread_libr.Chan.Sending.{hold_message}
use light_weight_thread_libr.Chan.Resume.{Resumed, resume_thread-Resumed}
use light_weight_thread_libr.Thread.{last_word, retire, lwt_die}

-- What `lwt_die` of the current thread of `w` finds: its channel `c` is one whose receiver `a` waits
-- for a message of it, in no queue and in this kernel thread.
pub record Dying (is_head : Node → Bool) (v : Node → List Node) (c a : ℕ) (w : World) : Type 0 where
  pub channel : Readable is_head w v c
  pub receiver : (w.chan c).receiver ≡ a
  pub pos : a ≢ 0
  pub out : IsOut Node-discrete is_head v (thread_node a)
  pub loose : IsLoose w.links (thread_node a)
  pub mine : (w.thread a).owner_kthd ≡ w.current_kthd
  pub awaited : is_awaited c w ≡ true
  pub own : (w.thread (lwt_current w)).chl ≡ c
  pub recycle_head : is_head (recycle_queue w.current_kthd) ≡ true

module _ (is_head : Node → Bool) (w : World) (v : Node → List Node) (c m a : ℕ)
    (d : Dying is_head v c a w) where
  abbrev pub cur : ℕ
  cur = lwt_current w

  abbrev pub said : World
  said = last_word cur m w

  pub said-Kept : Kept w said
  unfolding last_word lwt_current
  said-Kept = record {
    kthd = refl;
    current = ground arith;
    polling = λ x. ground arith;
    owners = λ x. ground arith;
  }

  pub said_links : said.links ≡ w.links
  unfolding last_word
  said_links = refl

  pub said_chan : said.chan ≡ w.chan
  unfolding last_word
  said_chan = refl

  pub said-Readable : Readable is_head said v c
  unfolding last_word
  said-Readable = record {
    pointer = (d.channel).pointer;
    type = (d.channel).type;
    chan = (d.channel).chan;
    head = (d.channel).head;
    system =
        System-change (d.channel).system said said-Kept v (d.channel).system.queues
          (d.channel).system.runs (d.channel).system.current_in (d.channel).system.owned;
  }

  pub said_awaited : is_awaited c said ≡ true
  unfolding last_word is_awaited
  said_awaited = ground (arith, d.awaited)

  pub said_chl : (said.thread cur).chl ≡ c
  unfolding last_word
  said_chl = ground (arith, d.own)

  abbrev pub resumed : World
  resumed = resume_thread a (hold_message a m said)

  abbrev pub resumed_queues : Node → List Node
  resumed_queues = move_before_last Node-discrete v (run_queue w.current_kthd) (thread_node a)

  pub resumed_System : System is_head resumed resumed_queues
  unfolding last_word
  resumed_System =
      woken_System is_head said v c m a said-Readable d.receiver d.pos d.out d.loose
        (said-Kept.owners a ∙ d.mine)

  pub resumed-Resumed : Resumed a (hold_message a m said) resumed
  resumed-Resumed = resume_thread-Resumed a (hold_message a m said)

  abbrev pub retired : World
  retired = retire cur resumed

  pub die_lem : lwt_die m w ≡ lwt_schedule retired
  unfolding lwt_die last_word
  die_lem =
      rw
        (
          said_chl,
          hands_over is_head said v c m a said-Readable d.receiver d.pos d.out d.loose
              (said-Kept.owners a ∙ d.mine) said_awaited,
        )
        refl

  pub resumed_current : lwt_current resumed ≡ cur
  unfolding hold_message last_word lwt_current
  resumed_current = resumed-Resumed.current ∙ said-Kept.current

  pub resumed_kthd : resumed.current_kthd ≡ w.current_kthd
  unfolding hold_message last_word
  resumed_kthd = resumed-Resumed.kthd ∙ said-Kept.kthd

  abbrev pub queues : Node → List Node
  queues = move_to_end Node-discrete resumed_queues (recycle_queue w.current_kthd) (thread_node cur)

  pub resumed_in : has_node (thread_node cur) (resumed_queues (run_queue w.current_kthd)) ≡ true
  resumed_in = cc (resumed_current, resumed_kthd, resumed_System.current_in)

  pub retired_queues : IsQueues Node-discrete is_head retired.links queues
  unfolding retire current_recycle_queue
  retired_queues = rw resumed_kthd (
      move_to_end-IsQueues Node-discrete is_head resumed_System.queues
        (recycle_queue w.current_kthd) (thread_node cur) d.recycle_head
        ((d.channel).system.nodes cur)
        (inl (run_queue w.current_kthd, (d.channel).system.run_head, resumed_in)))

  pub retired-Kept : Kept resumed retired
  unfolding retire lwt_current
  retired-Kept = record {
    kthd = refl;
    current = ground arith;
    polling = λ x. ground arith;
    owners = λ x. ground arith;
  }

  pub retired_zombie : (retired.thread cur).state ≡ lwt_zombies
  unfolding retire
  retired_zombie = ground arith

  pub retired_others : (x : ℕ) → x ≢ cur → retired.thread x ≡ resumed.thread x
  unfolding retire
  retired_others x ne = ground arith

  pub recycled_at :
      queues (recycle_queue w.current_kthd)
      ≡ v (recycle_queue w.current_kthd) ++ thread_node cur ∷ []
  recycled_at =
      move_to_end_at Node-discrete resumed_queues (recycle_queue w.current_kthd) (thread_node cur)
      ∙ ap (λ l. l ++ thread_node cur ∷ [])
          (erase_of_not_has Node-discrete (thread_node cur)
              (resumed_queues (recycle_queue w.current_kthd)) not_recycled
            ∙ move_before_last-ne Node-discrete v (run_queue w.current_kthd) (thread_node a)
                (recycle_queue w.current_kthd) (λ g. cc)
            ∙ erase_of_not_has Node-discrete (thread_node a) (v (recycle_queue w.current_kthd))
                (d.out (recycle_queue w.current_kthd) d.recycle_head))
    where
      not_recycled :
          has_node (thread_node cur) (resumed_queues (recycle_queue w.current_kthd)) ≡ false
      not_recycled =
          not_elsewhere Node-discrete is_head resumed_System.queues (run_queue w.current_kthd)
            (recycle_queue w.current_kthd) (thread_node cur) (d.channel).system.run_head
            d.recycle_head resumed_in (λ g. cc)

  pub apart : a ≢ cur
  apart g = ground (
    arith,
    (d.channel).system.current_in,
    d.out (run_queue w.current_kthd) (d.channel).system.run_head,
  )

  pub left_at :
      queues (run_queue w.current_kthd)
      ≡ erase Node-discrete (resumed_queues (run_queue w.current_kthd)) (thread_node cur)
  left_at =
      move_to_end-ne Node-discrete resumed_queues (recycle_queue w.current_kthd) (thread_node cur)
        (run_queue w.current_kthd) (λ g. cc)
