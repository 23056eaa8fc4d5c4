-- ===== src/Machine/ForkJoin.antt =====
-- main3.c: the loop of `test_perf` that creates a thread and joins it, on the machine.
use light_weight_thread_libr.Prelude.{
  ℕ, zero, suc, ◌+◌, ◌≡◌, ap, refl, ◌∙◌, subst, ◌≢◌, Bool, false, List, [], ◌∷◌, ◌++◌, arith,
}
use light_weight_thread_libr.Links.Ring.{has-append}
use light_weight_thread_libr.Links.Queues.{IsOut}
use light_weight_thread_libr.State.{World, Node, Node-discrete, thread_node}
use light_weight_thread_libr.State.Cmd.{Cmd, Outcome, done, switched, fault, hung, and_then}
use light_weight_thread_libr.Sched.System.{AllThreads, First, First-thread}
use light_weight_thread_libr.Chan.Lifetime.{with_head, with_queue}
use light_weight_thread_libr.Thread.{lwt_create, lwt_join}
use light_weight_thread_libr.Thread.Forked.{Idle}
use light_weight_thread_libr.Machine.{Machine}
use light_weight_thread_libr.Machine.Reach.{Reach, Reach-trans, here}
use light_weight_thread_libr.Machine.Child.{
  Returned, Forks, lwt_join-lwt_create, lwt_join-lwt_create_new,
}
use light_weight_thread_libr.Machine.Supply.{Room, Room-serves, Room-Fewer}
use light_weight_thread_libr.Programs.Threads.{join, for_loop, fork_join, fn_null, fn_null_at}
use light_weight_thread_libr.Programs.Main.{code}

pub and_then-and_then :
    {A B C : Type 0} (o : Outcome A) (f : A → Cmd B) (g : B → Cmd C)
    → and_then (and_then o f) g ≡ and_then o (λ a w. and_then (f a w) g)
and_then-and_then (done a w) f g = refl
and_then-and_then (switched w r) f g = λ i. switched w (λ v. and_then-and_then (r v) f g i)
and_then-and_then fault f g = refl
and_then-and_then hung f g = refl

-- One round of the loop is a creation and a join.
regroup :
    (o : Outcome ℕ) (l : Cmd (Unit {0})) (k : Unit {0} → Cmd ℕ)
    → and_then (and_then (and_then o join) (λ _. l)) k
      ≡ and_then (and_then o lwt_join) (λ r y. and_then (l y) k)
regroup (done t u) l k =
    and_then-and_then (and_then (lwt_join t u) (λ _. done tt)) (λ _. l) k
    ∙ and_then-and_then (lwt_join t u) (λ _. done tt) (λ _ y. and_then (l y) k)
regroup (switched w r) l k = λ i. switched w (λ v. regroup (r v) l k i)
regroup fault l k = refl
regroup hung l k = refl

pub null_returns : (iter : ℕ) (u : World) → code iter fn_null_at 0 u ≡ done 0 u
unfolding code fn_null
null_returns iter u = refl

still-First :
    (t : ℕ) (rest : List Node)
    → AllThreads (rest ++ thread_node t ∷ [])
    → First (rest ++ thread_node t ∷ [])
still-First t rest h =
    First-thread (thread_node t) (rest ++ thread_node t ∷ []) h
      (ground (arith, has-append Node-discrete (thread_node t) rest (thread_node t ∷ [])))

-- The machine has gone on to `k`, in an idle kernel thread.
abbrev pub Continues : (ℕ → ℕ → Cmd ℕ) → ℕ → Machine → (Unit {0} → Cmd ℕ) → Type 0
Continues prog m a k =
    (is_head : Node → Bool) × (v : Node → List Node) × (idle : List Node) × (u : World) × (saved : ℕ
      → World
      → Outcome ℕ)
    × Reach prog a (record { runs = m; now = k tt u; saved = saved })
    × Idle is_head v m idle u

-- `prog` has `fn_null` at its address.
module _ (prog : ℕ → ℕ → Cmd ℕ) (null : (u : World) → prog fn_null_at 0 u ≡ done 0 u) (m : ℕ)
    (k : Unit {0} → Cmd ℕ) where
  abbrev Looping : ℕ → ℕ → World → (ℕ → World → Outcome ℕ) → Machine
  Looping n i w saved = record {
    runs = m;
    now = and_then (for_loop n i fork_join w) k;
    saved = saved;
  }

  -- What is to be shown of the loop with `n` turns left.
  abbrev Ends : ℕ → Type 0
  Ends n =
      (i : ℕ) (is_head : Node → Bool) (v : Node → List Node) (t : ℕ) (rest : List Node) (w : World)
      (saved : ℕ → World → Outcome ℕ)
      → Idle is_head v m (thread_node t ∷ rest) w
      → Room n is_head v w.supply
      → Continues prog m (Looping n i w saved) k

  abbrev after_turn : ℕ → ℕ → ℕ → Cmd ℕ
  after_turn n i a y = and_then (for_loop n (i + 1) fork_join y) k

  -- The loop after its first child has been joined.
  turn :
      (n i : ℕ) (is_head : Node → Bool) (v : Node → List Node) (t : ℕ) (rest : List Node)
      (more : List ℕ) (w : World) (saved : ℕ → World → Outcome ℕ)
      → Returned prog
          (after_turn n i)
          0
          m
          is_head
          v
          (rest ++ thread_node t ∷ [])
          more
          (Forks fn_null_at 0 w m (after_turn n i) saved)
      → Room n is_head v more
      → Ends n
      → Continues prog m (Looping (suc n) i w saved) k
  unfolding for_loop fork_join
  turn n i is_head v t rest more w saved r room ends =
      let f = still-First t rest (r.4).threads in
      let next =
        ends (i + 1) is_head r.0 f.thread f.rest r.1 r.2
          (subst (λ l. Idle is_head r.0 m l r.1) f.whole r.4)
          (rw r.5 (Room-Fewer n is_head r.0 v more r.6 room)) in
      let first : Reach prog (Looping (suc n) i w saved)
          (record { runs = m; now = after_turn n i 0 r.1; saved = r.2 }) =
        rw (regroup (lwt_create fn_null_at 0 false w) (for_loop n (i + 1) fork_join) k) r.3 in
      (next.0, next.1, next.2, next.3, next.4, Reach-trans prog first next.5, next.6)

  loop_Ends : (n : ℕ) → Ends n
  unfolding for_loop
  loop_Ends zero i is_head v t rest w saved d room =
      (is_head, v, thread_node t ∷ rest, w, saved, here _, d)
  loop_Ends (suc n) i is_head v t rest w saved d room =
      let s = Room-serves n is_head v w.supply room in
      turn n i (with_head is_head s.chan) (with_queue v s.chan) t rest s.more w saved
        (lwt_join-lwt_create prog fn_null_at 0 0 null is_head w v m t s.chan s.buffer s.pointer
          s.cells s.fresh s.out s.more (after_turn n i) saved rest d s.whole)
        s.left (loop_Ends n)

  -- The same from an empty recycle queue, with a thread and a stack more from the allocator.
  pub for_loop-fork_join_new :
      (n i : ℕ) (is_head : Node → Bool) (v : Node → List Node) (t stack : ℕ) (xs : List ℕ)
      (w : World) (saved : ℕ → World → Outcome ℕ)
      → Idle is_head v m [] w
      → t ≢ 0
      → IsOut Node-discrete is_head v (thread_node t)
      → w.supply ≡ t ∷ stack ∷ xs
      → Room n is_head v xs
      → Continues prog m
          (record { runs = m; now = and_then (for_loop n i fork_join w) k; saved = saved })
          k
  unfolding for_loop
  for_loop-fork_join_new zero i is_head v t stack xs w saved d pos loose some_left room =
      (is_head, v, [], w, saved, here _, d)
  for_loop-fork_join_new (suc n) i is_head v t stack xs w saved d pos loose some_left room =
      let s = Room-serves n is_head v xs room in
      turn n i (with_head is_head s.chan) (with_queue v s.chan) t [] s.more w saved
        (lwt_join-lwt_create_new prog fn_null_at 0 0 null is_head w v m t s.chan s.buffer s.pointer
          s.cells s.fresh s.out s.more (after_turn n i) saved stack d pos loose
          (some_left ∙ ap (λ l. t ∷ stack ∷ l) s.whole))
        s.left (loop_Ends n)

-- In an idle kernel thread whose recycle queue begins with a thread, given an allocator with two
-- addresses for each turn, of which the first has no sender queue yet, the loop that creates a
-- thread of `fn_null` and joins it comes to its end for every number of turns: the machine reaches
-- the code behind the loop, run by the same thread, in a kernel thread that is idle again.
pub for_loop-fork_join :
    (iter m : ℕ) (k : Unit {0} → Cmd ℕ) (n i : ℕ) (is_head : Node → Bool) (v : Node → List Node)
    (t : ℕ) (rest : List Node) (w : World) (saved : ℕ → World → Outcome ℕ)
    → Idle is_head v m (thread_node t ∷ rest) w
    → Room n is_head v w.supply
    → Continues
        (code iter)
        m
        (record { runs = m; now = and_then (for_loop n i fork_join w) k; saved = saved })
        k
for_loop-fork_join iter m k = loop_Ends (code iter) (null_returns iter) m k
