-- ===== src/Machine/Child.antt =====
-- The life of a thread that is created and joined, on the machine.
use light_weight_thread_libr.Prelude.{ℕ, ◌≡◌, refl, ◌∙◌, ◌≢◌, Bool, false, List, [], ◌∷◌, ◌++◌}
use light_weight_thread_libr.Links.Queues.{IsOut}
use light_weight_thread_libr.Links.Refine.{dequeue}
use light_weight_thread_libr.State.{
  World, Node, Node-discrete, thread_node, run_queue, sender_queue,
}
use light_weight_thread_libr.State.Cmd.{Cmd, Outcome, done, and_then}
use light_weight_thread_libr.Chan.Lifetime.{with_head, with_queue}
use light_weight_thread_libr.Thread.{lwt_create, lwt_join}
use light_weight_thread_libr.Thread.Forked.{
  Idle, Taken, create-forked, forked-Forked, forked, forked_queues, forked_supply,
}
use light_weight_thread_libr.Thread.Taking.{reused, reused-Taken, allocated, allocated-Taken}
use light_weight_thread_libr.Machine.{Machine}
use light_weight_thread_libr.Machine.Reach.{Reach}
use light_weight_thread_libr.Machine.Round.{lwt_join-returns}
use light_weight_thread_libr.Machine.Supply.{
  Fewer, Fewer-dequeue, Fewer-enqueue, Fewer-with_queue, IsOut-Fewer,
}

-- The machine goes on from `a` to `k`, with the result `x`, in an idle kernel thread.
abbrev pub Returned :
    (ℕ → ℕ → Cmd ℕ)
    → (ℕ → Cmd ℕ)
    → ℕ
    → ℕ
    → (Node → Bool)
    → (Node → List Node)
    → List Node
    → List ℕ
    → Machine
    → Type 0
Returned prog k x m is_head v idle more a =
    (v' : Node → List Node) × (u : World) × (saved : ℕ → World → Outcome ℕ) × Reach prog a
      (record { runs = m; now = k x u; saved = saved })
    × Idle is_head v' m idle u
    × (u.supply ≡ more)
    × Fewer v' v

abbrev pub Forks : ℕ → ℕ → World → ℕ → (ℕ → Cmd ℕ) → (ℕ → World → Outcome ℕ) → Machine
Forks fn arg w m k saved = record {
  runs = m;
  now = and_then (and_then (lwt_create fn arg false w) lwt_join) k;
  saved = saved;
}

-- A child that returns `x` at once, from its creation to the return of the join.
module _ (prog : ℕ → ℕ → Cmd ℕ) (fn arg x : ℕ) (returns : (u : World) → prog fn arg u ≡ done x u)
    (is_head : Node → Bool) (w : World) (v : Node → List Node) (m t c b : ℕ) where
  Taken-returns :
      (u : World) (rest : List Node) (more : List ℕ)
      → Taken is_head v m t rest w u
      → u.supply ≡ c ∷ b ∷ more
      → c ≢ 0
      → b ≢ 0
      → is_head (sender_queue c) ≡ false
      → IsOut Node-discrete is_head v (sender_queue c)
      → (k : ℕ → Cmd ℕ) (saved : ℕ → World → Outcome ℕ)
      → Returned prog k x m
          (with_head is_head c)
          (with_queue v c)
          (rest ++ thread_node t ∷ [])
          more
          (Forks fn arg w m k saved)
  Taken-returns u rest more i some_left pos_c pos_b fresh out k saved =
      let r =
        lwt_join-returns (with_head is_head c)
          (forked is_head w u v m t c b rest more i some_left pos_c pos_b fresh out fn arg)
          (forked_queues is_head w u v m t c b rest more i some_left pos_c pos_b fresh out fn arg) m
          t c rest fn arg x
          (forked-Forked is_head w u v m t c b rest more i some_left pos_c pos_b fresh out fn arg)
          prog returns k saved i.others in
      (
        r.0,
        r.1,
        r.2,
        rw (create-forked is_head w u v m t c b rest more i some_left pos_c pos_b fresh out fn arg)
            r.3,
        r.4,
        r.5
            ∙ forked_supply is_head w u v m t c b rest more i some_left pos_c pos_b fresh out fn
                arg,
        λ y h j.
            Fewer-enqueue (with_queue v c) (with_queue v c) (λ y h j. j) (run_queue u.current_kthd)
              t y h (r.6 y h j),
      )

module _ (prog : ℕ → ℕ → Cmd ℕ) (fn arg x : ℕ) (returns : (u : World) → prog fn arg u ≡ done x u)
    (is_head : Node → Bool) (w : World) (v : Node → List Node) (m t c b : ℕ) (pos_c : c ≢ 0)
    (pos_b : b ≢ 0) (fresh : is_head (sender_queue c) ≡ false)
    (out : IsOut Node-discrete is_head v (sender_queue c)) (more : List ℕ) (k : ℕ → Cmd ℕ)
    (saved : ℕ → World → Outcome ℕ) where
  -- In an idle kernel thread whose recycle queue begins with `t`, given two addresses from the
  -- allocator of which the first has no sender queue yet, `lwt_create` followed by `lwt_join` of a
  -- function that returns `x` at once makes the machine reach what follows the join, run by the
  -- same thread, with `x` as the result; the kernel thread is idle again, with `t` at the end of
  -- the recycle queue, and the other addresses are left.
  pub lwt_join-lwt_create :
      (rest : List Node)
      → Idle is_head v m (thread_node t ∷ rest) w
      → w.supply ≡ c ∷ b ∷ more
      → Returned prog k x m
          (with_head is_head c)
          (with_queue v c)
          (rest ++ thread_node t ∷ [])
          more
          (Forks fn arg w m k saved)
  lwt_join-lwt_create rest i some_left =
      let v1 : Node → List Node = dequeue Node-discrete v (thread_node t) in
      let f : Fewer v1 v = Fewer-dequeue v v (λ y h j. j) (thread_node t) in
      let r =
        Taken-returns prog fn arg x returns is_head w v1 m t c b (reused is_head w v m t rest i)
          rest more (reused-Taken is_head w v m t rest i) some_left pos_c pos_b fresh
          (IsOut-Fewer v1 v f is_head c out) k saved in
      (r.0, r.1, r.2, r.3, r.4, r.5, λ y h j. Fewer-with_queue v1 v f c y h (r.6 y h j))

  -- The same with an empty recycle queue and a new thread.
  pub lwt_join-lwt_create_new :
      (stack : ℕ)
      → Idle is_head v m [] w
      → t ≢ 0
      → IsOut Node-discrete is_head v (thread_node t)
      → w.supply ≡ t ∷ stack ∷ c ∷ b ∷ more
      → Returned prog k x m
          (with_head is_head c)
          (with_queue v c)
          (thread_node t ∷ [])
          more
          (Forks fn arg w m k saved)
  lwt_join-lwt_create_new stack i pos loose some_left =
      Taken-returns prog fn arg x returns is_head w v m t c b
        (allocated is_head w v m t stack c b more i pos some_left loose) [] more
        (allocated-Taken is_head w v m t stack c b more i pos some_left loose) refl pos_c pos_b
        fresh out k saved
