-- ===== src/Links/Refine.antt =====
-- Each operation of lwt_list.h on the links is an operation on the queues that they stand for.
use light_weight_thread_libr.Prelude.{
  ◌≡◌, refl, sym, ap, ◌∙◌, ◌≢◌, ◌⊎◌, inl, inr, Bool, true, false, List, [], ◌∷◌, ◌++◌, arith,
  last_or, head_or,
}
use mathlib.Core.Logic.{ite, if_pos, if_neg}
use mathlib.Core.List.{erase, append-nil}
use light_weight_thread_libr.Links.{
  Links, update, list_ll_rem, list_ll_empty, list_head_add, list_head_append,
}
use light_weight_thread_libr.Links.Ring.{has, IsLoose, IsNodup, Seg-last, Seg-head}
use light_weight_thread_libr.Links.Ops.{list_ll_rem_self}
use light_weight_thread_libr.Links.Insert.{insert_links}
use light_weight_thread_libr.Links.Remove.{remove_links, remove_loose}
use light_weight_thread_libr.Links.Queues.{IsQueues, IsOut}

-- A list with one more element before its last one.
abbrev pub before_last : {A : Type 0} → List A → A → List A
before_last [] x = x ∷ []
before_last (y ∷ []) x = x ∷ y ∷ []
before_last (y ∷ z ∷ l) x = y ∷ before_last (z ∷ l) x

abbrev pub is_empty : {A : Type 0} → List A → Bool
is_empty [] = true
is_empty (x ∷ l) = false

module _ {A : Type 0} (eq : Discrete A) where
  -- What the operations do to a map from heads to queues.
  unfoldable pub enqueue : (A → List A) → A → A → A → List A
  enqueue v h x = update eq v h (v h ++ x ∷ [])

  unfoldable pub enqueue_before_last : (A → List A) → A → A → A → List A
  enqueue_before_last v h x = update eq v h (before_last (v h) x)

  unfoldable pub dequeue : (A → List A) → A → A → List A
  dequeue v x g = erase eq (v g) x

  -- A node goes to the end of a queue, or before its last node, from wherever it stood.
  unfoldable pub move_to_end : (A → List A) → A → A → A → List A
  unfolding enqueue dequeue
  move_to_end v h x = enqueue (dequeue v x) h x

  unfoldable pub move_before_last : (A → List A) → A → A → A → List A
  unfolding enqueue_before_last dequeue
  move_before_last v h x = enqueue_before_last (dequeue v x) h x

  pub erase_head : (x : A) (l : List A) → erase eq (x ∷ l) x ≡ l
  erase_head x l = ground arith

  pub move_to_end_at : (v : A → List A) (h x : A) → move_to_end v h x h ≡ erase eq (v h) x ++ x ∷ []
  unfolding move_to_end
  move_to_end_at v h x = rw (if_pos (eq h h) refl)

  pub move_to_end-head :
      (v : A → List A) (h x : A) (l : List A) → v h ≡ x ∷ l → move_to_end v h x h ≡ l ++ x ∷ []
  unfolding move_to_end
  move_to_end-head v h x l e = rw (if_pos (eq h h) refl, e, erase_head x l)

  pub move_to_end-ne : (v : A → List A) (h x g : A) → h ≢ g → move_to_end v h x g ≡ erase eq (v g) x
  unfolding move_to_end
  move_to_end-ne v h x g ne = rw (if_neg (eq h g) ne)

  pub move_before_last_at :
      (v : A → List A) (h x : A) → move_before_last v h x h ≡ before_last (erase eq (v h) x) x
  unfolding move_before_last
  move_before_last_at v h x = rw (if_pos (eq h h) refl)

  pub move_before_last-ne :
      (v : A → List A) (h x g : A) → h ≢ g → move_before_last v h x g ≡ erase eq (v g) x
  unfolding move_before_last
  move_before_last-ne v h x g ne = rw (if_neg (eq h g) ne)

record Ending {A : Type 0} (l : List A) (x : A) : Type 0 where
  front : List A
  back : List A
  whole : l ≡ front ++ back
  placed : before_last l x ≡ front ++ x ∷ back
  last : (h : A) → last_or h l ≡ head_or h back

ending : {A : Type 0} (l : List A) (x : A) → Ending l x
ending [] x = record { front = []; back = []; whole = refl; placed = refl; last = λ h. refl }
ending (y ∷ []) x = record {
  front = [];
  back = y ∷ [];
  whole = refl;
  placed = refl;
  last = λ h. refl;
}
ending (y ∷ z ∷ l) x =
    let e = ending (z ∷ l) x in
    record {
      front = y ∷ e.front;
      back = e.back;
      whole = ap (λ r. y ∷ r) e.whole;
      placed = ap (λ r. y ∷ r) e.placed;
      last = e.last;
    }

module _ {A : Type 0} (eq : Discrete A) (is_head : A → Bool) {l : Links A} {v : A → List A}
    (q : IsQueues eq is_head l v) where
  -- `list_head_add` puts a node that is no head and in no queue at the end of a queue, and no
  -- other queue changes.
  pub list_head_add-IsQueues :
      (h x : A)
      → is_head h ≡ true
      → is_head x ≡ false
      → IsOut eq is_head v x
      → IsQueues eq is_head (list_head_add eq l h x) (enqueue eq v h x)
  unfolding list_head_add enqueue
  list_head_add-IsQueues h x hh hx out =
      insert_links eq is_head q h x (v h) [] hh (sym (append-nil (v h))) hx out

  -- `list_head_append` puts a node that is no head and in no queue before the last node of a
  -- queue, and no other queue changes.
  pub list_head_append-IsQueues :
      (h x : A)
      → is_head h ≡ true
      → is_head x ≡ false
      → IsOut eq is_head v x
      → IsQueues eq is_head (list_head_append eq l h x) (enqueue_before_last eq v h x)
  unfolding list_head_append enqueue_before_last
  list_head_append-IsQueues h x hh hx out =
      let e = ending (v h) x in
      let tail : l.p h ≡ head_or h e.back = Seg-last l h h (v h) (q.ring h hh).seg ∙ e.last h in
      rw (tail, e.placed) (insert_links eq is_head q h x e.front e.back hh e.whole hx out)

  -- `list_ll_rem` takes a node out of the queue that it is in, or leaves one alone that is loose;
  -- no other queue changes, and the node is loose.
  pub list_ll_rem-IsQueues :
      (x : A)
      → ((h : A) × (is_head h ≡ true) × (has eq x (v h) ≡ true))
        ⊎ (IsOut eq is_head v x × IsLoose l x)
      → IsQueues eq is_head (list_ll_rem eq l x) (dequeue eq v x) × IsLoose (list_ll_rem eq l x) x
  unfolding dequeue
  list_ll_rem-IsQueues x (inl (h, hh, i)) =
      (remove_links eq is_head q h x hh i, list_ll_rem_self eq l x)
  list_ll_rem-IsQueues x (inr (out, loose)) =
      (remove_loose eq is_head q x out loose, list_ll_rem_self eq l x)

  -- The first node of a queue, or the head itself if there is none.
  pub n-head_or : (h : A) → is_head h ≡ true → l.n h ≡ head_or h (v h)
  n-head_or h hh = Seg-head l h h (v h) (q.ring h hh).seg

  pub list_ll_empty-eq : (h : A) → is_head h ≡ true → list_ll_empty eq l h ≡ is_empty (v h)
  unfolding list_ll_empty
  list_ll_empty-eq h hh =
      rw (n-head_or h hh) (ground (arith, empty_test (v h) h, (q.ring h hh).nodup))
    where
      empty_test :
          (xs : List A) (k : A)
          → has eq k xs ≡ false
          → ite (eq (head_or k xs) k) true false ≡ is_empty xs
      empty_test [] k o = ground arith
      empty_test (x ∷ xs) k o = ground arith

module _ {A : Type 0} (eq : Discrete A) where
  has-erase_self : (x : A) (l : List A) → IsNodup eq l → has eq x (erase eq l x) ≡ false
  has-erase_self x [] d = refl
  has-erase_self x (y ∷ l) d = ground (arith, has-erase_self x l d.1)

  -- A node that was taken out stands nowhere.
  pub IsOut-dequeue :
      (is_head : A → Bool) {l : Links A} {v : A → List A} (x : A)
      → IsQueues eq is_head l v
      → IsOut eq is_head (dequeue eq v x) x
  unfolding dequeue
  IsOut-dequeue is_head {v} x q h hh = has-erase_self x (v h) (q.ring h hh).nodup.1

-- Both moves on the links.
module _ {A : Type 0} (eq : Discrete A) (is_head : A → Bool) {l : Links A} {v : A → List A}
    (q : IsQueues eq is_head l v) (h x : A) (hh : is_head h ≡ true) (hx : is_head x ≡ false)
    (place : ((g : A) × (is_head g ≡ true) × (has eq x (v g) ≡ true))
      ⊎ (IsOut eq is_head v x × IsLoose l x)) where
  pub move_to_end-IsQueues :
      IsQueues eq is_head (list_head_add eq (list_ll_rem eq l x) h x) (move_to_end eq v h x)
  unfolding move_to_end
  move_to_end-IsQueues =
      list_head_add-IsQueues eq is_head (list_ll_rem-IsQueues eq is_head q x place).0 h x hh hx
        (IsOut-dequeue eq is_head x q)

  pub move_before_last-IsQueues :
      IsQueues eq is_head (list_head_append eq (list_ll_rem eq l x) h x) (move_before_last eq v h x)
  unfolding move_before_last
  move_before_last-IsQueues =
      list_head_append-IsQueues eq is_head (list_ll_rem-IsQueues eq is_head q x place).0 h x hh hx
        (IsOut-dequeue eq is_head x q)
