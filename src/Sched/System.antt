-- ===== src/Sched/System.antt =====
-- The state of the running kernel thread between two calls, and that a change of the links keeps it.
use mathlib.Core.List.{erase}
use mathlib.Core.Logic.{if_pos, if_neg}
use light_weight_thread_libr.Prelude.{
  ℕ, ◌≡◌, refl, sym, ◌≢◌, ◌∙◌, subst, ◌⊎◌, inl, inr, Bool, true, false, List, [], ◌∷◌, ◌++◌, arith,
}
use light_weight_thread_libr.Links.Ring.{has}
use light_weight_thread_libr.Links.Queues.{IsQueues, has-erase}
use light_weight_thread_libr.Links.Refine.{before_last, move_before_last, move_before_last_at}
use light_weight_thread_libr.Sched.Handed.{Handed}
use light_weight_thread_libr.State.{
  World, Node, Node-discrete, thread_node, run_queue, lwt_current, current_info,
}

abbrev pub IsThread : Node → Type 0
IsThread (thread_node t) = t ≢ 0
IsThread _ = ⊥

abbrev pub AllThreads : List Node → Type 0
AllThreads [] = Unit
AllThreads (x ∷ xs) = IsThread x × AllThreads xs

abbrev pub has_node : Node → List Node → Bool
has_node = has Node-discrete

pub AllThreads-append : (xs ys : List Node) → AllThreads xs → AllThreads ys → AllThreads (xs ++ ys)
AllThreads-append [] ys h g = g
AllThreads-append (x ∷ xs) ys h g = (h.0, AllThreads-append xs ys h.1 g)

pub AllThreads-erase :
    (x : Node) (xs : List Node) → AllThreads xs → AllThreads (erase Node-discrete xs x)
AllThreads-erase x [] h = h
AllThreads-erase x (y ∷ xs) h = elim (Node-discrete y x) [
  | yes e ↦ rw (if_pos (Node-discrete y x) e) h.1
  | no ne ↦ rw (if_neg (Node-discrete y x) ne) (h.0, AllThreads-erase x xs h.1)
]

pub AllThreads-before_last :
    (x : Node) (xs : List Node) → IsThread x → AllThreads xs → AllThreads (before_last xs x)
AllThreads-before_last x [] g h = (g, tt)
AllThreads-before_last x (y ∷ []) g h = (g, h)
AllThreads-before_last x (y ∷ z ∷ l) g h = (h.0, AllThreads-before_last x (z ∷ l) g h.1)

pub has-before_last :
    (x y : Node) (xs : List Node) → has_node y (before_last xs x) ≡ has_node y (x ∷ xs)
has-before_last x y [] = refl
has-before_last x y (z ∷ []) = ground arith
has-before_last x y (z ∷ u ∷ l) = ground (arith, has-before_last x y (u ∷ l))

pub has-erase_ne :
    (x y : Node) (xs : List Node)
    → y ≢ x
    → has_node y xs ≡ true
    → has_node y (erase Node-discrete xs x) ≡ true
has-erase_ne x y [] ne h = h
has-erase_ne x y (z ∷ xs) ne h = ground (arith, has-erase_ne x y xs)

-- Kernel thread `current_kthd` runs one of the threads of its run queue; all of these are its own.
pub record System (is_head : Node → Bool) (w : World) (v : Node → List Node) : Type 0 where
  pub queues : IsQueues Node-discrete is_head w.links v
  pub run_head : is_head (run_queue w.current_kthd) ≡ true
  pub nodes : (t : ℕ) → is_head (thread_node t) ≡ false
  pub off : (current_info w).polling_flag ≡ 0
  pub runs : AllThreads (v (run_queue w.current_kthd))
  pub current_in : has_node (thread_node (lwt_current w)) (v (run_queue w.current_kthd)) ≡ true
  pub owned :
      (t : ℕ)
      → has_node (thread_node t) (v (run_queue w.current_kthd)) ≡ true
      → (w.thread t).owner_kthd ≡ w.current_kthd

-- The thread that a run queue begins with.
pub IsThread-has : (x : Node) (xs : List Node) → AllThreads xs → has_node x xs ≡ true → IsThread x
IsThread-has x [] h i = cc
IsThread-has x (y ∷ xs) h i = elim (Node-discrete x y) [
  | yes e ↦ subst IsThread (sym e) h.0
  | no ne ↦ IsThread-has x xs h.1 (ground arith)
]

pub record First (xs : List Node) : Type 0 where
  pub thread : ℕ
  pub rest : List Node
  pub whole : xs ≡ thread_node thread ∷ rest

pub First-thread : (x : Node) (xs : List Node) → AllThreads xs → has_node x xs ≡ true → First xs
First-thread x [] h i = cc
First-thread x (thread_node t ∷ ys) h i = record { thread = t; rest = ys; whole = refl }
First-thread x (y ∷ ys) h i = absurd h.0

-- Another thread of the run queue is the current one.
pub System-handed :
    {is_head : Node → Bool} {cur t : ℕ} {w u : World} (v : Node → List Node)
    → Handed cur t w u
    → IsQueues Node-discrete is_head u.links v
    → is_head (run_queue w.current_kthd) ≡ true
    → ((x : ℕ) → is_head (thread_node x) ≡ false)
    → (current_info w).polling_flag ≡ 0
    → AllThreads (v (run_queue w.current_kthd))
    → has_node (thread_node t) (v (run_queue w.current_kthd)) ≡ true
    → ((x : ℕ)
        → has_node (thread_node x) (v (run_queue w.current_kthd)) ≡ true
        → (w.thread x).owner_kthd ≡ w.current_kthd)
    → System is_head u v
System-handed {w} v h q hk nodes off runs here owned = record {
  queues = q;
  run_head = cc (h.kthd, hk);
  nodes = nodes;
  off = cc (h.kthd, h.polling w.current_kthd, off);
  runs = subst (λ j. AllThreads (v (run_queue j))) (sym h.kthd) runs;
  current_in = cc (h.kthd, h.now, here);
  owned = λ x i.
      h.owners x
      ∙ owned x (subst (λ j. has_node (thread_node x) (v (run_queue j)) ≡ true) h.kthd i)
      ∙ sym h.kthd;
}

-- A thread may be given to this kernel thread.
pub System-owners :
    {is_head : Node → Bool} {w : World} {v : Node → List Node} (u : World)
    → System is_head w v
    → u.links ≡ w.links
    → u.kthd ≡ w.kthd
    → u.current_kthd ≡ w.current_kthd
    → ((x : ℕ)
        → ((u.thread x).owner_kthd ≡ (w.thread x).owner_kthd)
          ⊎ ((u.thread x).owner_kthd ≡ w.current_kthd))
    → System is_head u v
unfolding lwt_current
System-owners {is_head} {w} {v} u s l k c own = record {
  queues = subst (λ m. IsQueues Node-discrete is_head m v) (sym l) s.queues;
  run_head = rw c s.run_head;
  nodes = s.nodes;
  off = rw (c, k) s.off;
  runs = rw c s.runs;
  current_in = rw (c, k) s.current_in;
  owned = λ t i. elim (own t) [ inl e ↦ e ∙ s.owned t (rw c at i) ∙ sym c | inr e ↦ e ∙ sym c ];
}

-- What the invariant asks of a world besides its links.
pub record Kept (w u : World) : Type 0 where
  pub kthd : u.current_kthd ≡ w.current_kthd
  pub current : lwt_current u ≡ lwt_current w
  pub polling : (x : ℕ) → (u.kthd x).polling_flag ≡ (w.kthd x).polling_flag
  pub owners : (x : ℕ) → (u.thread x).owner_kthd ≡ (w.thread x).owner_kthd

module _ {is_head : Node → Bool} {w : World} {v : Node → List Node} (s : System is_head w v)
    (u : World) (k : Kept w u) where
  -- A change of the queues after which the run queue holds the same threads or more.
  pub System-change :
      (v' : Node → List Node)
      → IsQueues Node-discrete is_head u.links v'
      → AllThreads (v' (run_queue w.current_kthd))
      → has_node (thread_node (lwt_current w)) (v' (run_queue w.current_kthd)) ≡ true
      → ((t : ℕ)
          → has_node (thread_node t) (v' (run_queue w.current_kthd)) ≡ true
          → (w.thread t).owner_kthd ≡ w.current_kthd)
      → System is_head u v'
  System-change v' q runs here owned = record {
    queues = q;
    run_head = cc (k.kthd, s.run_head);
    nodes = s.nodes;
    off = cc (k.kthd, k.polling w.current_kthd, s.off);
    runs = subst (λ j. AllThreads (v' (run_queue j))) (sym k.kthd) runs;
    current_in = cc (k.kthd, k.current, here);
    owned = λ t i.
        k.owners t
        ∙ owned t (subst (λ j. has_node (thread_node t) (v' (run_queue j)) ≡ true) k.kthd i)
        ∙ sym k.kthd;
  }

  -- A thread of this kernel thread goes before the last of the run queue.
  pub System-move_before_last :
      (t : ℕ)
      → t ≢ 0
      → (w.thread t).owner_kthd ≡ w.current_kthd
      → IsQueues Node-discrete is_head u.links
          (move_before_last Node-discrete v (run_queue w.current_kthd) (thread_node t))
      → System is_head u
          (move_before_last Node-discrete v (run_queue w.current_kthd) (thread_node t))
  System-move_before_last t pos own q =
      System-change v' q
        (subst AllThreads (sym at) (
          AllThreads-before_last (thread_node t) ys pos
            (AllThreads-erase (thread_node t) xs s.runs)))
        (held (thread_node (lwt_current w)) s.current_in) (λ x i. mine x i)
    where
      v' : Node → List Node
      v' = move_before_last Node-discrete v (run_queue w.current_kthd) (thread_node t)

      xs : List Node
      xs = v (run_queue w.current_kthd)

      ys : List Node
      ys = erase Node-discrete xs (thread_node t)

      at : v' (run_queue w.current_kthd) ≡ before_last ys (thread_node t)
      at = move_before_last_at Node-discrete v (run_queue w.current_kthd) (thread_node t)

      held : (y : Node) → has_node y xs ≡ true → has_node y (v' (run_queue w.current_kthd)) ≡ true
      held y i =
          rw (at, has-before_last (thread_node t) y ys)
            (ground (arith, has-erase_ne (thread_node t) y xs))

      mine :
          (x : ℕ)
          → has_node (thread_node x) (v' (run_queue w.current_kthd)) ≡ true
          → (w.thread x).owner_kthd ≡ w.current_kthd
      mine x i =
          let i' : has_node (thread_node x) (thread_node t ∷ ys) ≡ true =
            rw (at, has-before_last (thread_node t) (thread_node x) ys) at i in
          ground (arith, own, s.owned x, has-erase Node-discrete (thread_node t) (thread_node x) xs)
