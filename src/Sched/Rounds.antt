-- ===== src/Sched/Rounds.antt =====
-- Round robin: every thread of the run queue has its turn.
use mathlib.Core.List.{map, map-append, append_assoc}
use light_weight_thread_libr.Prelude.{
  ℕ, zero, suc, ◌≡◌, refl, sym, ap, ◌∙◌, subst, inl, Bool, true, List, [], ◌∷◌, ◌++◌, arith, length,
  ℕ_discrete,
}
use light_weight_thread_libr.Links.Ring.{has-append}
use light_weight_thread_libr.Links.Refine.{move_to_end}
use light_weight_thread_libr.State.{
  World, Node, Node-discrete, thread_node, run_queue, can_run, lwt_current,
}
use light_weight_thread_libr.State.Cmd.{Outcome, Cmd, done, switched, fault, hung}
use light_weight_thread_libr.State.Gives.{Gives, Gives-mono}
use light_weight_thread_libr.Sched.{lwt_yield}
use light_weight_thread_libr.Sched.Handed.{Handed, pop_registers}
use light_weight_thread_libr.Sched.System.{System, System-owners, has_node}
use light_weight_thread_libr.Sched.Turns.{Runs, lwt_yield-round_robin}

-- `Turns n w x`: after `n` calls of `lwt_yield(NULL)`, each by the thread that then runs, the state
-- is `x`.
pub data Turns : ℕ → World → World → Type 0 where
  stop : (w : World) → Turns zero w w
  turn :
      (n : ℕ) (w u x : World) (r : World → Outcome ℕ)
      → lwt_yield 0 w ≡ switched u r
      → Turns n (pop_registers u) x
      → Turns (suc n) w x

abbrev pub nodes : List ℕ → List Node
nodes = map thread_node

-- `c` runs at the front of the run queue, the others are behind it in the order of `xs`, and all
-- can run.
pub record Front (is_head : Node → Bool) (v : Node → List Node) (w : World) (c : ℕ) (xs : List ℕ)
    : Type 0 where
  pub system : System is_head w v
  pub whole : v (run_queue w.current_kthd) ≡ thread_node c ∷ nodes xs
  pub current : lwt_current w ≡ c
  pub can :
      (x : ℕ)
      → has_node (thread_node x) (thread_node c ∷ nodes xs) ≡ true
      → can_run (w.thread x).state ≡ true

record Switched (P : World → Type 0) (o : Outcome ℕ) : Type 0 where
  world : World
  rest : World → Outcome ℕ
  switches : o ≡ switched world rest
  holds : P world

Gives-Switched : (P : World → Type 0) (k : Cmd ℕ) (o : Outcome ℕ) → Gives P k o → Switched P o
Gives-Switched P k (switched u r) g = record { world = u; rest = r; switches = refl; holds = g.0 }
Gives-Switched P k (done a w) g = absurd g
Gives-Switched P k fault g = absurd g
Gives-Switched P k hung g = absurd g

module _ (is_head : Node → Bool) (v : Node → List Node) (w : World) (c t : ℕ) (ys : List ℕ)
    (f : Front is_head v w c (t ∷ ys)) where
  abbrev turned : Node → List Node
  turned = move_to_end Node-discrete v (run_queue w.current_kthd) (thread_node c)

  abbrev Next : ℕ → World → Type 0
  Next y u =
      let v' = move_to_end Node-discrete v (run_queue w.current_kthd) (thread_node y) in
      Handed y t w u
      × System is_head u v'
      × (v' (run_queue w.current_kthd) ≡ nodes (t ∷ ys) ++ thread_node y ∷ [])

  whole : v (run_queue w.current_kthd) ≡ thread_node (lwt_current w) ∷ nodes (t ∷ ys)
  whole = rw f.current f.whole

  can_now : can_run (w.thread (lwt_current w)).state ≡ true
  can_now = rw f.current (f.can c (ground arith))

  next : Switched (Next c) (lwt_yield 0 w)
  next =
      subst (λ y. Switched (Next y) (lwt_yield 0 w)) f.current
        (Gives-Switched (Next (lwt_current w)) (λ x. done 0 (pop_registers x)) (lwt_yield 0 w)
          (Gives-mono Robin (Next (lwt_current w)) (λ x. done 0 (pop_registers x)) (lwt_yield 0 w)
            (λ u z. (z.0.0, z.0.1, z.1))
            (lwt_yield-round_robin f.system t (nodes (t ∷ ys)) can_now whole refl)))
    where
      Robin : World → Type 0
      Robin u =
          let v' =
            move_to_end Node-discrete v (run_queue w.current_kthd) (thread_node (lwt_current w)) in
          Runs f.system t v' u
          × (v' (run_queue w.current_kthd) ≡ nodes (t ∷ ys) ++ thread_node (lwt_current w) ∷ [])

  abbrev later : World
  later = pop_registers next.world

  nodes-append : nodes (t ∷ ys) ++ thread_node c ∷ [] ≡ thread_node t ∷ nodes (ys ++ c ∷ [])
  nodes-append = ap (λ l. thread_node t ∷ l) (sym (map-append thread_node ys (c ∷ [])))

  in_queue :
      (x : ℕ)
      → has_node (thread_node x) (nodes (t ∷ ys) ++ thread_node c ∷ []) ≡ true
      → has_node (thread_node x) (thread_node c ∷ nodes (t ∷ ys)) ≡ true
  in_queue x i =
      ground (arith, has-append Node-discrete (thread_node x) (nodes (t ∷ ys)) (thread_node c ∷ []))

  later_can :
      (x : ℕ)
      → has_node (thread_node x) (thread_node t ∷ nodes (ys ++ c ∷ [])) ≡ true
      → can_run (next.world.thread x).state ≡ true
  later_can x i = elim (ℕ_discrete x t) [
    | yes e ↦ ap (λ y. can_run (next.world.thread y).state) e ∙ ap can_run (next.holds).0.running
    | no ne ↦
        ap can_run ((next.holds).0.states x ne)
        ∙ f.can x (in_queue x (subst (λ l. has_node (thread_node x) l ≡ true) (sym nodes-append) i))
  ]

  later-Front : Front is_head turned later t (ys ++ c ∷ [])
  unfolding lwt_current
  later-Front = record {
    system = System-owners later (next.holds).1 refl refl refl (λ x. inl refl);
    whole = rw (next.holds).0.kthd ((next.holds).2 ∙ nodes-append);
    current = (next.holds).0.now;
    can = later_can;
  }

  one_turn : (n : ℕ) (x : World) → Turns n later x → Turns (suc n) w x
  one_turn n x rest = turn n w next.world x next.rest next.switches rest

-- Given the invariant, with the current thread `c` at the front of a run queue of threads that can
-- all run, the thread behind `c` and the threads `xs` runs after one call of `lwt_yield(NULL)` by
-- `c` and one by each of `xs`: no call faults or hangs, the thread is then at the front, the
-- others are behind it in the order of a round, and the invariant is kept.
pub Turns-Front :
    (is_head : Node → Bool) (xs : List ℕ) (v : Node → List Node) (w : World) (c t : ℕ) (ys : List ℕ)
    → Front is_head v w c (xs ++ t ∷ ys)
    → (x : World) × (v' : Node → List Node) × Turns (suc (length xs)) w x
      × Front is_head v' x t (ys ++ c ∷ xs)
Turns-Front is_head [] v w c t ys f =
    let x = later is_head v w c t ys f in
    (
      x,
      turned is_head v w c t ys f,
      one_turn is_head v w c t ys f 0 x (stop x),
      later-Front is_head v w c t ys f,
    )
Turns-Front is_head (a ∷ xs) v w c t ys f =
    let g =
      subst
        (Front is_head (turned is_head v w c a (xs ++ t ∷ ys) f)
          (later is_head v w c a (xs ++ t ∷ ys) f) a)
        (append_assoc xs (t ∷ ys) (c ∷ [])) (later-Front is_head v w c a (xs ++ t ∷ ys) f) in
    let r =
      Turns-Front is_head xs (turned is_head v w c a (xs ++ t ∷ ys) f)
        (later is_head v w c a (xs ++ t ∷ ys) f) a t (ys ++ c ∷ []) g in
    (
      r.0,
      r.1,
      one_turn is_head v w c a (xs ++ t ∷ ys) f (suc (length xs)) r.0 r.2,
      subst (Front is_head r.1 r.0 t) (append_assoc ys (c ∷ []) (a ∷ xs)) r.3,
    )
