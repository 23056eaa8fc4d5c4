-- ===== src/Links/Init.antt =====
-- `list_ll_init`, and the loop of `__get_queue_size`.
use light_weight_thread_libr.Prelude.{
  ℕ, zero, suc, ◌+◌, ◌%◌, ◌^◌, ◌<◌, ◌≡◌, refl, ap, subst, ◌∙◌, ◌≢◌, Bool, true, false, some, List,
  [], ◌∷◌, arith, length,
}
use light_weight_thread_libr.Links.{Links, update, list_ll_init, queue_size_loop, get_queue_size}
use light_weight_thread_libr.Links.Ring.{has, Seg, Seg-frame, IsRing}
use light_weight_thread_libr.Links.Queues.{IsQueues, IsOut}

-- A head that is in no list may be initialised: its list is empty.
module _ {A : Type 0} (eq : Discrete A) (l : Links A) where
  init-IsRing : (h : A) → IsRing eq (list_ll_init eq l h) h []
  unfolding list_ll_init
  init-IsRing h = record { seg = (ground arith, ground arith); nodup = (refl, tt) }

  init_other :
      (v : A → List A) (h g : A)
      → h ≢ g
      → has eq h (v g) ≡ false
      → IsRing eq l g (v g)
      → IsRing eq (list_ll_init eq l h) g (v g)
  unfolding list_ll_init
  init_other v h g ne out r = record {
    seg =
        Seg-frame eq l (list_ll_init eq l h) g g (v g) (λ y i. ground arith) (λ y i. ground arith)
          (ground arith) r.seg;
    nodup = r.nodup;
  }

module _ {A : Type 0} (eq : Discrete A) (is_head : A → Bool) {l : Links A} {v : A → List A} where
  -- `list_ll_init` of a node that is no head and in no queue makes it the head of an empty queue,
  -- and no other queue changes.
  pub list_ll_init-IsQueues :
      (h : A)
      → IsQueues eq is_head l v
      → is_head h ≡ false
      → IsOut eq is_head v h
      → IsQueues eq (update eq is_head h true) (list_ll_init eq l h) (update eq v h [])
  list_ll_init-IsQueues h q nh out = record {
    ring = λ g hg. elim (eq h g) [
      | yes e ↦
          subst (λ k. IsRing eq m k (w k)) e (subst (IsRing eq m h) empty (init-IsRing eq l h))
      | no ne ↦
          subst (IsRing eq m g) (same g ne)
            (init_other eq l v h g ne (out g (ground arith)) (q.ring g (ground arith)))
    ];
    inside = λ g x hg i. ground (arith, q.inside g x, out g);
    apart = λ f g x hf hg i j. ground (arith, q.apart f g x);
  }
    where
      m : Links A
      m = list_ll_init eq l h

      w : A → List A
      w = update eq v h []

      empty : [] ≡ w h
      empty = ground arith

      same : (g : A) → h ≢ g → v g ≡ w g
      same g ne = ground arith

-- The loop of `__get_queue_size` counts the nodes of a queue, given one more round than it has.
module _ {A : Type 0} (eq : Discrete A) (l : Links A) (h : A) where
  queue_size_loop-length :
      (fuel : ℕ) (a : A) (xs : List A) (cnt : ℕ)
      → Seg l a xs h
      → has eq h xs ≡ false
      → length xs < fuel
      → cnt + length xs < 2 ^ 32
      → queue_size_loop eq fuel l h (l.n a) cnt ≡ some (cnt + length xs)
  unfolding queue_size_loop
  queue_size_loop-length zero a xs cnt s o lt small = absurd (omega arith)
  queue_size_loop-length (suc fuel) a [] cnt s o lt small = ground arith
  queue_size_loop-length (suc fuel) a (x ∷ xs) cnt s o lt small =
      ground (arith, queue_size_loop-length fuel x xs ((cnt + 1) % 2 ^ 32) s.2)

  -- Given more rounds than a queue has nodes, and fewer than 2 ^ 32 of these, `__get_queue_size`
  -- ends with the length of the queue.
  pub get_queue_size-length :
      (fuel : ℕ) (xs : List A)
      → IsRing eq l h xs
      → length xs < fuel
      → length xs < 2 ^ 32
      → get_queue_size eq fuel l h ≡ some (length xs)
  unfolding get_queue_size
  get_queue_size-length fuel xs r lt small =
      queue_size_loop-length fuel h xs 0 r.seg r.nodup.0 lt (omega arith) ∙ ap some (omega arith)
