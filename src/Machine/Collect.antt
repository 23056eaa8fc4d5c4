-- ===== src/Machine/Collect.antt =====
-- lwt.c: on the machine, the join of a child that has died before.
use mathlib.Core.List.{erase}
use mathlib.Core.Path.{ap₂}
use mathlib.Core.Logic.{if_pos, if_neg}
use light_weight_thread_libr.Prelude.{
  ℕ, ◌≡◌, ◌≢◌, refl, sym, ap, ◌∙◌, inl, Bool, true, List, [], ◌∷◌, ◌++◌, some, ℕ_discrete,
}
use light_weight_thread_libr.Links.{update}
use light_weight_thread_libr.Links.Refine.{erase_head, move_to_end}
use light_weight_thread_libr.State.{
  World, Node, Node-discrete, thread_node, run_queue, recycle_queue, lwt_current, lwt_zombies,
  ret_dispatch,
}
use light_weight_thread_libr.State.Cmd.{Cmd, Outcome, done, switched, and_then, pure}
use light_weight_thread_libr.State.Gives.{Gives, Gives-bind, Gives-switched}
use light_weight_thread_libr.Sched.{lwt_schedule}
use light_weight_thread_libr.Sched.Handed.{pop_registers}
use light_weight_thread_libr.Sched.System.{System, System-owners}
use light_weight_thread_libr.Thread.{retire, lwt_join}
use light_weight_thread_libr.Thread.Collect.{
  Dead, Collected, collected_queues, lwt_join-collects, apart,
}
use light_weight_thread_libr.Thread.Retire.{Retired, lwt_schedule-retire}
use light_weight_thread_libr.Machine.{Machine, enter, jump, step}
use light_weight_thread_libr.Machine.Reach.{Reach, here, next}

-- What is left of `lwt_die` and of the trampoline behind the last word.
abbrev pub rest_of_life : ℕ → Cmd ℕ
rest_of_life t y = and_then (lwt_schedule (retire t (pop_registers y))) (λ _. pure 0)

-- The join of the thread `m` is over: `m` alone can run, and `t` is a zombie behind the others in the
-- recycle queue of `v`.
pub record Over (is_head : Node → Bool) (v v' : Node → List Node) (m t k : ℕ) (u : World)
    : Type 0 where
  pub now : lwt_current u ≡ m
  pub zombie : (u.thread t).state ≡ lwt_zombies
  pub alone : v' (run_queue k) ≡ thread_node m ∷ []
  pub recycled : v' (recycle_queue k) ≡ v (recycle_queue k) ++ thread_node t ∷ []
  pub system : System is_head u v'

enter_saved :
    (code : ℕ → ℕ → Cmd ℕ) (saved : ℕ → World → Outcome ℕ) (u : World) (x : ℕ)
    → lwt_current u ≡ x
    → (u.thread x).context.ip ≡ ret_dispatch
    → enter code saved u ≡ saved x u
unfolding enter jump
enter_saved code saved u x e ip = rw (e, ip) refl

pub step_switched :
    (code : ℕ → ℕ → Cmd ℕ) (x y : ℕ) (o : Outcome ℕ) (saved : ℕ → World → Outcome ℕ) (u : World)
    (r : World → Outcome ℕ)
    → o ≡ switched u r
    → lwt_current u ≡ y
    → (u.thread y).context.ip ≡ ret_dispatch
    → step code (record { runs = x; now = o; saved = saved })
      ≡ some (record {
        runs = y;
        now = update ℕ_discrete saved x r y u;
        saved = update ℕ_discrete saved x r;
      })
unfolding step
step_switched code x y o saved u r e cur ip =
    rw (e, enter_saved code (update ℕ_discrete saved x r) u y cur ip, cur) refl

module _ (is_head : Node → Bool) (w : World) (v : Node → List Node) (c t : ℕ) (rest : List Node)
    (d : Dead is_head v c t rest w) (code : ℕ → ℕ → Cmd ℕ) (k : ℕ → Cmd ℕ)
    (saved : ℕ → World → Outcome ℕ) where
  abbrev m : ℕ
  m = lwt_current w

  abbrev x : ℕ
  x = (w.thread t).message_data

  abbrev kt : ℕ
  kt = w.current_kthd

  abbrev mid : Node → List Node
  mid = collected_queues is_head w v c t rest d

  other : t ≢ m
  other = apart is_head w v c t rest d

  module _ (dead : (y : World) → saved t y ≡ rest_of_life t y)
      (ip : (w.thread t).context.ip ≡ ret_dispatch) where
    abbrev before : Machine
    before = record { runs = m; now = and_then (lwt_join t w) k; saved = saved }

    abbrev Ends : Type 0
    Ends =
        (v' : Node → List Node) × (u : World) × (saved' : ℕ → World → Outcome ℕ) × Reach code before
          (record { runs = m; now = k x u; saved = saved' })
        × Over is_head v v' m t kt u

    -- Behind the first switch, the child runs in `u`.
    module _ (u : World) (r : Cmd ℕ) (e : and_then (lwt_join t w) k ≡ switched u r)
        (a : Collected is_head v mid c t rest w u)
        (goes_on : (y : World) → r y ≡ k x (pop_registers y)) where
      abbrev saved1 : ℕ → World → Outcome ℕ
      saved1 = update ℕ_discrete saved m r

      popped_System : System is_head (pop_registers u) mid
      popped_System = System-owners (pop_registers u) a.system refl refl refl (λ y. inl refl)

      recycle_head : is_head (recycle_queue u.current_kthd) ≡ true
      recycle_head = rw a.kthd d.recycle_head

      left :
          erase Node-discrete (mid (run_queue u.current_kthd)) (thread_node (lwt_current u))
          ≡ thread_node m ∷ []
      left =
          ap₂ (λ l y. erase Node-discrete l (thread_node y))
            (ap (λ j. mid (run_queue j)) a.kthd ∙ a.queue) a.now
          ∙ erase_head Node-discrete (thread_node t) (thread_node m ∷ [])

      abbrev last : Node → List Node
      last =
          move_to_end Node-discrete mid (recycle_queue u.current_kthd) (thread_node (lwt_current u))

      abbrev Gone : World → Type 0
      Gone = Retired is_head mid last m [] (pop_registers u)

      now_dead : saved1 t u ≡ rest_of_life (lwt_current u) u
      now_dead =
          ap (λ f. f u) (if_neg (ℕ_discrete m t) (λ g. other (sym g)) r (saved t))
          ∙ dead u
          ∙ ap (λ y. rest_of_life y u) (sym a.now)

      dies : Gives {A = ℕ} Gone (λ y. done 0 (pop_registers y)) (saved1 t u)
      unfolding lwt_current
      dies = rw now_dead (
          Gives-bind Gone (λ y. done tt (pop_registers y))
            (lwt_schedule (retire (lwt_current u) (pop_registers u))) (λ _. pure 0)
            (lwt_schedule-retire popped_System recycle_head m [] left))

      abbrev between : Machine
      between = record { runs = t; now = saved1 t u; saved = saved1 }

      first_switch : step code before ≡ some between
      first_switch =
          step_switched code m t (and_then (lwt_join t w) k) saved u r e a.now
            (ap (λ z. z.ip) (a.contexts t other) ∙ ip)

      -- Behind the second switch, the parent runs in `u2`.
      module _ (u2 : World) (r2 : Cmd ℕ) (e2 : saved1 t u ≡ switched u2 r2) (b : Gone u2) where
        abbrev saved2 : ℕ → World → Outcome ℕ
        saved2 = update ℕ_discrete saved1 t r2

        abbrev behind : Machine
        behind = record { runs = m; now = k x (pop_registers u2); saved = saved2 }

        resumed : saved2 m u2 ≡ k x (pop_registers u2)
        resumed =
            ap (λ f. f u2)
              (if_neg (ℕ_discrete t m) other r2 (saved1 m)
                ∙ if_pos (ℕ_discrete m m) refl r (saved m))
            ∙ goes_on u2

        parent_ip : (u2.thread m).context.ip ≡ ret_dispatch
        unfolding lwt_current
        parent_ip = ap (λ z. z.ip) (b.contexts m (λ g. other (sym (g ∙ a.now)))) ∙ a.saved_ip

        second_switch : step code between ≡ some behind
        unfolding lwt_current
        second_switch =
            step_switched code t m (saved1 t u) saved1 u2 r2 e2 b.now parent_ip
            ∙ ap (λ o. some (record { runs = m; now = o; saved = saved2 })) resumed

        over : Over is_head v last m t kt (pop_registers u2)
        unfolding lwt_current
        over = record {
          now = b.now;
          zombie = ap (λ y. (u2.thread y).state) (sym a.now) ∙ b.zombie;
          alone = ap (λ j. last (run_queue j)) (sym a.kthd) ∙ b.left;
          recycled =
              ap (λ j. last (recycle_queue j)) (sym a.kthd)
              ∙ b.recycled
              ∙ ap₂ (λ l y. l ++ thread_node y ∷ [])
                  (ap (λ j. mid (recycle_queue j)) a.kthd ∙ a.recycled) a.now;
          system = System-owners (pop_registers u2) b.system refl refl refl (λ y. inl refl);
        }

        reached : Ends
        unfolding lwt_current
        reached = (
          last,
          pop_registers u2,
          saved2,
          next before between behind first_switch
              (next between behind behind second_switch (here behind)),
          over,
        )

      ends : Ends
      unfolding lwt_current
      ends =
          let g = Gives-switched Gone (λ y. done 0 (pop_registers y)) (saved1 t u) dies in
          reached g.0 g.1 g.2 g.3

    -- The join of a child that is blocked with its last word returns that word, and the child retires.
    pub lwt_join-dead :
        (v' : Node → List Node) × (u : World) × (saved' : ℕ → World → Outcome ℕ) × Reach code
          (record { runs = m; now = and_then (lwt_join t w) k; saved = saved })
          (record { runs = m; now = k x u; saved = saved' })
        × Over is_head v v' m t kt u
    lwt_join-dead =
        let P = Collected is_head v mid c t rest w in
        let g =
          Gives-switched P (λ y. k x (pop_registers y)) (and_then (lwt_join t w) k)
            (Gives-bind P (λ y. done x (pop_registers y)) (lwt_join t w) k
              (lwt_join-collects is_head w v c t rest d)) in
        ends g.0 g.1 g.2 g.3 g.4
