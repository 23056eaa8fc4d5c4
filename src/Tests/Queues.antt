-- ===== src/Tests/Queues.antt =====
-- The properties of lwt_list.h, and of `lwt_chan` and `lwt_create`, on small queues.
use light_weight_thread_libr.Prelude.{inl, ◌≡◌, refl, inl, Bool, false, some, List, [], ◌∷◌, arith}
use light_weight_thread_libr.Links.{
  Links, list_ll_rem, list_head_add, list_head_append, get_queue_size,
}
use light_weight_thread_libr.Links.Ring.{IsLoose}
use light_weight_thread_libr.Links.Queues.{IsQueues}
use light_weight_thread_libr.Links.Refine.{
  enqueue, enqueue_before_last, dequeue, list_head_add-IsQueues, list_head_append-IsQueues,
  list_ll_rem-IsQueues,
}
use light_weight_thread_libr.Links.Init.{get_queue_size-length}
use light_weight_thread_libr.State.{
  World, Node, Node-discrete, thread_node, sender_queue, recycle_queue, trampoline, lwt_current,
}
use light_weight_thread_libr.Sched.System.{System-owners, System}
use light_weight_thread_libr.Thread.{lwt_create}
use light_weight_thread_libr.Thread.Create.{lwt_create-System, lwt_create-allocates}
use light_weight_thread_libr.State.Gives.{Returns}
use light_weight_thread_libr.Chan.Life.{lwt_chan}
use light_weight_thread_libr.Chan.Contents.{contents}
use light_weight_thread_libr.Chan.Receiving.{Readable}
use light_weight_thread_libr.Chan.Lifetime.{with_head, with_queue, lwt_chan-Readable}
use light_weight_thread_libr.Tests.{
  is_head, no_links, no_queues, no_links-IsQueues, rq, two, two_links, two-IsQueues, two-IsOut,
  chan, world, world-System,
}

list_head_add-IsQueues_example :
    IsQueues Node-discrete is_head
      (list_head_add Node-discrete two_links rq (thread_node 5))
      (enqueue Node-discrete two rq (thread_node 5))
list_head_add-IsQueues_example =
    list_head_add-IsQueues Node-discrete is_head two-IsQueues rq (thread_node 5) refl refl
      (two-IsOut 5 (omega arith) (omega arith))

list_head_append-IsQueues_example :
    IsQueues Node-discrete is_head
      (list_head_append Node-discrete two_links rq (thread_node 5))
      (enqueue_before_last Node-discrete two rq (thread_node 5))
list_head_append-IsQueues_example =
    list_head_append-IsQueues Node-discrete is_head two-IsQueues rq (thread_node 5) refl refl
      (two-IsOut 5 (omega arith) (omega arith))

list_ll_rem-IsQueues_example :
    IsQueues Node-discrete is_head
      (list_ll_rem Node-discrete two_links (thread_node 1))
      (dequeue Node-discrete two (thread_node 1))
    × IsLoose (list_ll_rem Node-discrete two_links (thread_node 1)) (thread_node 1)
unfolding enqueue Node-discrete
list_ll_rem-IsQueues_example =
    list_ll_rem-IsQueues Node-discrete is_head two-IsQueues (thread_node 1) (inl (rq, refl, refl))

get_queue_size-length_example : get_queue_size Node-discrete 3 two_links rq ≡ some 2
unfolding enqueue Node-discrete
get_queue_size-length_example =
    get_queue_size-length Node-discrete two_links rq 3 (thread_node 1 ∷ thread_node 2 ∷ [])
      (two-IsQueues.ring rq refl) (omega arith) (omega arith)

-- Channel 20 is not there yet.
abbrev older : Node → Bool
older (sender_queue c) = false
older x = is_head x

abbrev one_links : Links Node
one_links = list_head_add Node-discrete no_links rq (thread_node 1)

abbrev one_queue : Node → List Node
one_queue = enqueue Node-discrete no_queues rq (thread_node 1)

abbrev first : World
first = world one_links (chan 2 0 1 0)

lwt_chan-Readable_example :
    Returns
      (λ r u.
        (r ≡ 20)
        × Readable (with_head older 20) u (with_queue one_queue 20) 20
        × ((u.chan 20).receiver ≡ 1)
        × (contents u (with_queue one_queue 20) 20 ≡ [])
        × (u.supply ≡ []))
      (lwt_chan 4 first)
unfolding enqueue Node-discrete lwt_current
lwt_chan-Readable_example =
    let q =
      list_head_add-IsQueues Node-discrete older (no_links-IsQueues older) rq (thread_node 1) refl
        refl (λ h hh. refl) in
    lwt_chan-Readable older first one_queue 20 30 4 []
      (world-System older one_links one_queue (chan 2 0 1 0) q refl (λ t. refl)
        ((λ e. omega arith), tt) refl)
      refl (λ e. omega arith) (λ e. omega arith) (omega arith) refl (λ h hh. ground arith)

-- Thread 3 waits to be used again.
abbrev recycled : Node
recycled = recycle_queue 0

abbrev recycled_links : Links Node
recycled_links = list_head_add Node-discrete one_links recycled (thread_node 3)

abbrev recycled_queue : Node → List Node
recycled_queue = enqueue Node-discrete one_queue recycled (thread_node 3)

recycled-IsQueues : IsQueues Node-discrete older recycled_links recycled_queue
unfolding enqueue
recycled-IsQueues =
    list_head_add-IsQueues Node-discrete older
      (list_head_add-IsQueues Node-discrete older (no_links-IsQueues older) rq (thread_node 1) refl
        refl (λ h hh. refl))
      recycled (thread_node 3) refl refl (λ h hh. ground arith)

abbrev second : World
second = world recycled_links (chan 2 0 1 0)

second-System : System older second recycled_queue
unfolding enqueue Node-discrete
second-System =
    world-System older recycled_links recycled_queue (chan 2 0 1 0) recycled-IsQueues refl
      (λ t. refl) ((λ e. omega arith), tt) refl

lwt_create-System_example :
    let v' =
      enqueue Node-discrete
        (with_queue (dequeue Node-discrete recycled_queue (thread_node 3)) 20)
        rq
        (thread_node 3) in
    Returns
      (λ r u.
        (r ≡ 3)
        × System (with_head older 20) u v'
        × (v' rq ≡ thread_node 1 ∷ thread_node 3 ∷ [])
        × ((u.thread 3).context.ip ≡ trampoline)
        × ((u.thread 3).context.sp ≡ 4084)
        × ((u.thread 3).parent ≡ 1)
        × ((u.thread 3).chl ≡ 20))
      (lwt_create 11 12 false second)
unfolding enqueue Node-discrete lwt_current
lwt_create-System_example =
    lwt_create-System older second recycled_queue second-System refl 3 [] refl 20 30 []
      (λ e. omega arith) refl (λ e. omega arith) (λ e. omega arith) refl (λ h hh. ground arith) 11
      12 false

-- No thread waits to be used again.
abbrev alone : World
alone = record first { supply = 40 ∷ 50 ∷ 20 ∷ 30 ∷ [] }

lwt_create-allocates_example :
    let v' = enqueue Node-discrete (with_queue one_queue 20) rq (thread_node 40) in
    Returns
      (λ r u.
        (r ≡ 40)
        × System (with_head older 20) u v'
        × (v' rq ≡ thread_node 1 ∷ thread_node 40 ∷ [])
        × ((u.thread 40).context.ip ≡ trampoline)
        × ((u.thread 40).context.sp ≡ 819238)
        × ((u.thread 40).parent ≡ 1)
        × ((u.thread 40).chl ≡ 20))
      (lwt_create 11 12 false alone)
unfolding enqueue Node-discrete lwt_current
lwt_create-allocates_example =
    let q =
      list_head_add-IsQueues Node-discrete older (no_links-IsQueues older) rq (thread_node 1) refl
        refl (λ h hh. refl) in
    let s =
      world-System older one_links one_queue (chan 2 0 1 0) q refl (λ t. refl)
        ((λ e. omega arith), tt) refl in
    lwt_create-allocates older alone one_queue
      (System-owners alone s refl refl refl (λ x. inl refl)) refl 40 50 20 30 [] refl
      (λ e. omega arith) refl (λ h hh. ground arith) (λ e. omega arith) (λ e. omega arith) refl
      (λ h hh. ground arith) 11 12 false
