-- ===== src/Group/Lost.antt =====
-- lwt_chl.c: `now_rcving` is never reset, so `lwt_snd` takes a thread that sleeps in
-- `lwt_cgrp_wait` for one that waits in `lwt_rcv`.
use light_weight_thread_libr.Prelude.{ℕ, ◌≡◌, sym, ap, ◌∙◌, ◌≢◌, Bool, true, List, [], ◌∷◌}
use light_weight_thread_libr.Links.Ring.{IsLoose}
use light_weight_thread_libr.Links.Queues.{IsOut, erase_of_not_has}
use light_weight_thread_libr.Links.Refine.{move_before_last, move_before_last-ne}
use light_weight_thread_libr.State.{
  World, Node, Node-discrete, thread_node, chan_node, run_queue, chl_list, lwt_blocked,
  blocked_receiving,
}
use light_weight_thread_libr.Sched.System.{System}
use light_weight_thread_libr.Chan.Receiving.{Readable}
use light_weight_thread_libr.Chan.Handing.{woken}
use light_weight_thread_libr.Group.Ready.{NoneReady}

pub NoneReady-same :
    (u w : World) (xs : List Node) → u.chan ≡ w.chan → NoneReady w xs → NoneReady u xs
NoneReady-same u w [] e h = tt
NoneReady-same u w (chan_node c ∷ xs) e h =
    ((λ r. h.0 (ap (λ f. (f c).ready) (sym e) ∙ r)), NoneReady-same u w xs e h.1)
NoneReady-same u w (_ ∷ xs) e h = absurd h

-- The queue of a group is not changed when a thread that is in no queue is resumed.
pub moved_group :
    (is_head : Node → Bool) (v : Node → List Node) (k g a : ℕ)
    → is_head (chl_list g) ≡ true
    → IsOut Node-discrete is_head v (thread_node a)
    → move_before_last Node-discrete v (run_queue k) (thread_node a) (chl_list g) ≡ v (chl_list g)
moved_group is_head v k g a hg out =
    move_before_last-ne Node-discrete v (run_queue k) (thread_node a) (chl_list g) (λ f. cc)
    ∙ erase_of_not_has Node-discrete (thread_node a) (v (chl_list g)) (out (chl_list g) hg)

-- `a` sleeps in `lwt_cgrp_wait`, and the channel that it waited for in `lwt_rcv` before is `c`.
pub record Stale (is_head : Node → Bool) (v : Node → List Node) (c a : ℕ) (w : World) : Type 0 where
  pub channel : Readable is_head w v c
  pub receiver : (w.chan c).receiver ≡ a
  pub pos : a ≢ 0
  pub out : IsOut Node-discrete is_head v (thread_node a)
  pub loose : IsLoose w.links (thread_node a)
  pub mine : (w.thread a).owner_kthd ≡ w.current_kthd
  pub state : (w.thread a).state ≡ lwt_blocked
  pub block_for : (w.thread a).block_for ≡ blocked_receiving
  pub rcving : (w.thread a).now_rcving ≡ c

module _ (is_head : Node → Bool) (w : World) (v : Node → List Node) (c m a g : ℕ)
    (s : Stale is_head v c a w) where
  abbrev u : World
  u = woken is_head w v c m a s.channel s.receiver s.pos s.out s.loose s.mine

  abbrev v' : Node → List Node
  v' = move_before_last Node-discrete v (run_queue w.current_kthd) (thread_node a)
