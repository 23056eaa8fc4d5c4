-- ===== src/Info/Counts.antt =====
-- The numbers that `lwt_info` counts.
use light_weight_thread_libr.Prelude.{
  ℕ, ◌^◌, ◌<◌, ◌≡◌, ap, Option, none, some, Bool, true, List, arith, length,
}
use light_weight_thread_libr.Links.Queues.{IsQueues}
use light_weight_thread_libr.Links.Init.{get_queue_size-length}
use light_weight_thread_libr.State.{
  World, Node, Node-discrete, run_queue, recycle_queue, nthd_runnable, nthd_recycle,
  current_run_queue, current_recycle_queue,
}
use light_weight_thread_libr.State.Cmd.{Outcome, done, hung}
use light_weight_thread_libr.Info.{lwt_info}

abbrev counted : World → Option ℕ → Outcome ℕ
counted w o = elim o [ none ↦ hung | some n ↦ done n w ]

pub lwt_info-runnable :
    (is_head : Node → Bool) (w : World) (v : Node → List Node)
    → IsQueues Node-discrete is_head w.links v
    → is_head (run_queue w.current_kthd) ≡ true
    → length (v (run_queue w.current_kthd)) < w.rounds
    → w.rounds < 2 ^ 32
    → lwt_info nthd_runnable w ≡ done (length (v (run_queue w.current_kthd))) w
unfolding lwt_info current_run_queue
lwt_info-runnable is_head w v q hr lr small = ap (counted w) (
    get_queue_size-length Node-discrete w.links (run_queue w.current_kthd) w.rounds
      (v (run_queue w.current_kthd)) (q.ring (run_queue w.current_kthd) hr) lr (omega arith))

-- `lwt_info` returns the lengths of the run queue and of the recycle queue, and changes nothing,
-- given fewer than 2 ^ 32 rounds and more than either queue has nodes.
pub lwt_info-length :
    (is_head : Node → Bool) (w : World) (v : Node → List Node)
    → IsQueues Node-discrete is_head w.links v
    → is_head (run_queue w.current_kthd) ≡ true
    → is_head (recycle_queue w.current_kthd) ≡ true
    → length (v (run_queue w.current_kthd)) < w.rounds
    → length (v (recycle_queue w.current_kthd)) < w.rounds
    → w.rounds < 2 ^ 32
    → (lwt_info nthd_runnable w ≡ done (length (v (run_queue w.current_kthd))) w)
      × (lwt_info nthd_recycle w ≡ done (length (v (recycle_queue w.current_kthd))) w)
unfolding lwt_info current_recycle_queue
lwt_info-length is_head w v q hr hc lr lc small = (
  lwt_info-runnable is_head w v q hr lr small,
  ap (counted w) (
      get_queue_size-length Node-discrete w.links (recycle_queue w.current_kthd) w.rounds
        (v (recycle_queue w.current_kthd)) (q.ring (recycle_queue w.current_kthd) hc) lc
        (omega arith)),
)
