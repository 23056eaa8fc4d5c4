-- ===== src/Thread/Taking.antt =====
-- Where `lwt_create` has its thread from, in an idle kernel thread.
use light_weight_thread_libr.Prelude.{ℕ, ◌≡◌, ◌∙◌, ◌≢◌, Bool, List, [], ◌∷◌, arith}
use light_weight_thread_libr.Links.Queues.{IsOut}
use light_weight_thread_libr.Links.Refine.{dequeue, erase_head}
use light_weight_thread_libr.State.{World, Node, Node-discrete, thread_node, recycle_queue}
use light_weight_thread_libr.Thread.Create.{
  off_queue, take_lem, same_run, off_System, IsOut-taken, on_stack, allocate_lem, on_stack-System,
}
use light_weight_thread_libr.Thread.Forked.{Idle, Taken}

module _ (is_head : Node → Bool) (w : World) (v : Node → List Node) (m t : ℕ) where
  module _ (rest : List Node) (i : Idle is_head v m (thread_node t ∷ rest) w) where
    abbrev pub reused : World
    reused = off_queue is_head w v i.system i.recycle_head t rest i.recycled

    left : dequeue Node-discrete v (thread_node t) (recycle_queue w.current_kthd) ≡ rest
    unfolding dequeue
    left = rw i.recycled (erase_head Node-discrete (thread_node t) rest)

    pub reused-Taken : Taken is_head (dequeue Node-discrete v (thread_node t)) m t rest w reused
    reused-Taken = record {
      takes = take_lem is_head w v i.system i.recycle_head t rest i.recycled;
      system = off_System is_head w v i.system i.recycle_head t rest i.recycled;
      pos = i.threads.0;
      loose = IsOut-taken is_head w v i.system i.recycle_head t rest i.recycled;
      recycle_head = i.recycle_head;
      alone = same_run is_head w v i.system i.recycle_head t rest i.recycled ∙ i.alone;
      recycled = left;
      others = i.threads.1;
      stacks = i.stacks;
      no_zombies = i.no_zombies;
      none_blocked = i.none_blocked;
      enough = i.enough;
      small = i.small;
    }

  module _ (stack c b : ℕ) (more : List ℕ) (i : Idle is_head v m [] w) (pos : t ≢ 0)
      (some_left : w.supply ≡ t ∷ stack ∷ c ∷ b ∷ more)
      (loose : IsOut Node-discrete is_head v (thread_node t)) where
    abbrev pub allocated : World
    allocated =
        on_stack is_head w v i.system i.recycle_head t stack c b more i.recycled pos some_left

    pub allocated-Taken : Taken is_head v m t [] w allocated
    allocated-Taken = record {
      takes =
          allocate_lem is_head w v i.system i.recycle_head t stack c b more i.recycled pos
            some_left;
      system =
          on_stack-System is_head w v i.system i.recycle_head t stack c b more i.recycled pos
            some_left;
      pos = pos;
      loose = loose;
      recycle_head = i.recycle_head;
      alone = i.alone;
      recycled = i.recycled;
      others = tt;
      stacks = λ x. ground (arith, i.stacks x);
      no_zombies = i.no_zombies;
      none_blocked = i.none_blocked;
      enough = i.enough;
      small = i.small;
    }
