-- ===== src/Sched/Yield.antt =====
-- `lwt_yield` on the queues that the links stand for.
use light_weight_thread_libr.Prelude.{
  ℕ, ◌≡◌, refl, sym, ◌≢◌, ◌∙◌, subst, inl, Bool, true, false, List, [], ◌∷◌, ◌++◌, arith, head_or,
  ne→==,
}
use light_weight_thread_libr.Links.{Links, list_head_add, list_head_append, list_ll_rem}
use light_weight_thread_libr.Links.Queues.{IsQueues}
use light_weight_thread_libr.Links.Refine.{
  move_to_end, move_before_last, move_to_end-IsQueues, move_before_last-IsQueues, n-head_or,
}
use light_weight_thread_libr.State.{
  World, Node, Node-discrete, thread_node, run_queue, can_run, current_info, lwt_current,
  current_run_queue, owner_run_queue,
}
use light_weight_thread_libr.State.Cmd.{done, switched, pure, and_then}
use light_weight_thread_libr.State.Gives.{Gives, Gives-bind, Gives-mono}
use light_weight_thread_libr.Sched.{lwt_schedule, stays, make_way, lwt_yield}
use light_weight_thread_libr.Sched.System.{System, has_node, IsThread-has}
use light_weight_thread_libr.Sched.Handed.{
  Handed, Handed-relink, pop_registers, lwt_schedule-Handed, hand_to, lwt_schedule-hand_to,
}

-- A thread that yields to itself, or to one that cannot run, goes on at once; nothing changes.
pub lwt_yield-stays : (y : ℕ) (w : World) → stays y w ≡ true → lwt_yield y w ≡ done 0 w
unfolding lwt_yield
lwt_yield-stays y w e = rw e

pub lwt_yield-goes :
    (y : ℕ) (w : World)
    → stays y w ≡ false
    → lwt_yield y w ≡ and_then (lwt_schedule (make_way y w)) (λ _. pure 0)
unfolding lwt_yield
lwt_yield-goes y w e = rw e

pub head_or-append : {A : Type 0} (d x : A) (l : List A) → head_or d (l ++ x ∷ []) ≡ head_or x l
head_or-append d x [] = refl
head_or-append d x (y ∷ l) = refl

stays_null : (w : World) → lwt_current w ≢ 0 → stays 0 w ≡ false
unfolding stays
stays_null w here = ground arith

stays_directed :
    (w : World) (y : ℕ) → y ≢ lwt_current w → can_run (w.thread y).state ≡ true → stays y w ≡ false
unfolding stays
stays_directed w y other can = rw (ne→== y (lwt_current w) other, can) (ground arith)

make_way_blocked : (w : World) → can_run (w.thread (lwt_current w)).state ≡ false → make_way 0 w ≡ w
unfolding make_way
make_way_blocked w cannot = rw cannot

-- The same as an equation.
pub lwt_yield-hand_to :
    (t : ℕ) (w : World)
    → lwt_current w ≢ 0
    → can_run (w.thread (lwt_current w)).state ≡ false
    → (current_info w).polling_flag ≡ 0
    → w.links.n (current_run_queue w) ≡ thread_node t
    → lwt_yield 0 w ≡ switched (hand_to (lwt_current w) t w) (λ x. done 0 (pop_registers x))
lwt_yield-hand_to t w here cannot off first =
    rw
      (
        lwt_yield-goes 0 w (stays_null w here),
        make_way_blocked w cannot,
        lwt_schedule-hand_to t w off first,
      )
      refl

module _ (is_head : Node → Bool) (w : World) (v : Node → List Node) where
  abbrev pub k : ℕ
  k = w.current_kthd

  -- `t` runs in place of the current thread, and the links stand for `v'`.
  abbrev pub GoesTo : ℕ → (Node → List Node) → World → Type 0
  GoesTo t v' u = Handed (lwt_current w) t w u × IsQueues Node-discrete is_head u.links v'

  scheduled :
      (t : ℕ) (l : Links Node) (v' : Node → List Node)
      → IsQueues Node-discrete is_head l v'
      → is_head (run_queue k) ≡ true
      → (current_info w).polling_flag ≡ 0
      → head_or (run_queue k) (v' (run_queue k)) ≡ thread_node t
      → Gives {A = ℕ}
          (GoesTo t v')
          (λ x. done 0 (pop_registers x))
          (and_then (lwt_schedule (record w { links = l })) (λ _. pure 0))
  unfolding lwt_current current_run_queue
  scheduled t l v' q hk off first =
      let w' : World = record w { links = l } in
      let P : World → Type 0 = λ u. Handed (lwt_current w') t w' u × (u.links ≡ l) in
      Gives-bind (GoesTo t v') (λ x. done tt (pop_registers x)) (lwt_schedule w') (λ _. pure 0)
        (Gives-mono P (GoesTo t v') (λ x. done tt (pop_registers x)) (lwt_schedule w')
          (λ u h.
            (Handed-relink l w u h.0, subst (λ m. IsQueues Node-discrete is_head m v') (sym h.1) q))
          (lwt_schedule-Handed t w' off
            (n-head_or Node-discrete is_head q (run_queue k) hk ∙ first)))

  -- A thread that is blocked gives the processor to the first of the run queue.
  pub lwt_yield-blocked :
      (t : ℕ)
      → lwt_current w ≢ 0
      → can_run (w.thread (lwt_current w)).state ≡ false
      → IsQueues Node-discrete is_head w.links v
      → is_head (run_queue k) ≡ true
      → (current_info w).polling_flag ≡ 0
      → head_or (run_queue k) (v (run_queue k)) ≡ thread_node t
      → Gives {A = ℕ} (GoesTo t v) (λ x. done 0 (pop_registers x)) (lwt_yield 0 w)
  lwt_yield-blocked t here cannot q hk off first =
      rw (lwt_yield-goes 0 w (stays_null w here), make_way_blocked w cannot)
        (scheduled t w.links v q hk off first)

  module _ (s : System is_head w v) where
    abbrev pub cur : ℕ
    cur = lwt_current w

    abbrev pub queue : List Node
    queue = v (run_queue k)

    here : cur ≢ 0
    here = IsThread-has (thread_node cur) queue s.runs s.current_in

    own : (w.thread cur).owner_kthd ≡ k
    own = s.owned cur s.current_in

    make_way_null :
        can_run (w.thread cur).state ≡ true
        → make_way 0 w ≡ record w {
          links =
              list_head_add Node-discrete
                (list_ll_rem Node-discrete w.links (thread_node cur))
                (run_queue k)
                (thread_node cur);
        }
    unfolding make_way owner_run_queue
    make_way_null can = rw (can, own)

    make_way_to :
        (y : ℕ)
        → y ≢ 0
        → make_way y w ≡ record w {
          links =
              list_head_append Node-discrete
                (list_ll_rem Node-discrete w.links (thread_node y))
                (run_queue k)
                (thread_node y);
        }
    unfolding make_way owner_run_queue
    make_way_to y ne = rw (ne→== y 0 ne, own)

    abbrev pub round : Node → List Node
    round = move_to_end Node-discrete v (run_queue k) (thread_node cur)

    abbrev pub directed : ℕ → Node → List Node
    directed y = move_before_last Node-discrete v (run_queue k) (thread_node y)

    pub round-GoesTo :
        (t : ℕ)
        → can_run (w.thread cur).state ≡ true
        → head_or (run_queue k) (round (run_queue k)) ≡ thread_node t
        → Gives {A = ℕ} (GoesTo t round) (λ x. done 0 (pop_registers x)) (lwt_yield 0 w)
    round-GoesTo t can first =
        rw (lwt_yield-goes 0 w (stays_null w here), make_way_null can)
          (scheduled t _ _
            (move_to_end-IsQueues Node-discrete is_head s.queues (run_queue k) (thread_node cur)
              s.run_head (s.nodes cur) (inl (run_queue k, s.run_head, s.current_in)))
            s.run_head s.off first)

    pub directed-GoesTo :
        (y t : ℕ)
        → y ≢ cur
        → can_run (w.thread y).state ≡ true
        → has_node (thread_node y) queue ≡ true
        → head_or (run_queue k) (directed y (run_queue k)) ≡ thread_node t
        → Gives {A = ℕ} (GoesTo t (directed y)) (λ x. done 0 (pop_registers x)) (lwt_yield y w)
    directed-GoesTo y t other can i first =
        rw
          (
            lwt_yield-goes y w (stays_directed w y other can),
            make_way_to y (IsThread-has (thread_node y) queue s.runs i),
          )
          (scheduled t _ _
            (move_before_last-IsQueues Node-discrete is_head s.queues (run_queue k) (thread_node y)
              s.run_head (s.nodes y) (inl (run_queue k, s.run_head, i)))
            s.run_head s.off first)
