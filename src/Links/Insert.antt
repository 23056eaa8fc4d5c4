-- ===== src/Links/Insert.antt =====
-- `list_ll_add` on the links of the whole heap.
use light_weight_thread_libr.Prelude.{
  ◌≡◌, sym, ◌∙◌, subst, ◌≢◌, ◌⊎◌, Bool, true, false, List, ◌∷◌, ◌++◌, arith, last_or, head_or,
}
use light_weight_thread_libr.Links.{Links, update, list_ll_add}
use light_weight_thread_libr.Links.Ring.{
  has, Seg-last, Seg-split, has-append, has-parts, has-last_or, has-head_or, ne_of_has, IsRing,
}
use light_weight_thread_libr.Links.Ops.{n-list_ll_add, p-list_ll_add, IsRing-list_ll_add}
use light_weight_thread_libr.Links.Queues.{IsQueues, IsOut, other-IsRing}

module _ {A : Type 0} (eq : Discrete A) (is_head : A → Bool) {l : Links A} {v : A → List A}
    (q : IsQueues eq is_head l v) where
  open q use {ring, inside, apart}

  -- A loose node comes in before the first of `ys`.
  pub insert_links :
      (h new : A) (xs ys : List A)
      → is_head h ≡ true
      → v h ≡ xs ++ ys
      → is_head new ≡ false
      → IsOut eq is_head v new
      → IsQueues eq is_head (list_ll_add eq l (head_or h ys) new) (update eq v h (xs ++ new ∷ ys))
  insert_links h new xs ys hh e nh out = record { ring = ring'; inside = inside'; apart = apart' }
    where
      m : Links A
      m = list_ll_add eq l (head_or h ys) new

      w : A → List A
      w = update eq v h (xs ++ new ∷ ys)

      old : IsRing eq l h (xs ++ ys)
      old = rw e at (ring h hh)

      new_out : has eq new (h ∷ xs ++ ys) ≡ false
      new_out = ground (arith, rw e at (out h hh))

      at_head : (y : A) → has eq y (w h) ≡ true → (y ≡ new) ⊎ (has eq y (v h) ≡ true)
      at_head y i = ground (arith, e, has-append eq y xs (new ∷ ys), has-append eq y xs ys)

      mine : IsRing eq m h (xs ++ new ∷ ys)
      mine = IsRing-list_ll_add eq l h new xs ys old new_out

      before : l.p (head_or h ys) ≡ last_or h xs
      before = Seg-last l h (head_or h ys) xs (Seg-split l h h xs ys old.seg).0

      fresh : new ≢ l.p (head_or h ys)
      fresh f =
          ne_of_has eq (last_or h xs) new (h ∷ xs) (has-last_or eq h xs)
            (has-parts eq new (h ∷ xs) ys new_out).0 (sym (f ∙ before))

      others :
          (g y : A)
          → is_head g ≡ true
          → has eq y (h ∷ v h) ≡ false
          → has eq y (g ∷ v g) ≡ true
          → (m.n y ≡ l.n y) × (m.p y ≡ l.p y)
      others g y hg o i =
          let os = has-parts eq y (h ∷ xs) ys (rw e at o) in
          let ob : has eq y (h ∷ ys) ≡ false = ground arith in
          let ne_last = ne_of_has eq (last_or h xs) y (h ∷ xs) (has-last_or eq h xs) os.0 in
          let ne_first = ne_of_has eq (head_or h ys) y (h ∷ ys) (has-head_or eq h ys) ob in
          let ne_new : new ≢ y = ground (arith, out g hg) in
          (
            ground (arith, n-list_ll_add eq l (head_or h ys) new y fresh, before),
            ground (arith, p-list_ll_add eq l (head_or h ys) new y fresh, before),
          )

      w_head : xs ++ new ∷ ys ≡ w h
      w_head = ground arith

      w_other : (g : A) → h ≢ g → v g ≡ w g
      w_other g ne = ground arith

      ring' : (g : A) → is_head g ≡ true → IsRing eq m g (w g)
      ring' g hg = elim (eq h g) [
        | yes f ↦ subst (λ k. IsRing eq m k (w k)) f (subst (IsRing eq m h) w_head mine)
        | no ne ↦
            subst (IsRing eq m g) (w_other g ne)
              (other-IsRing eq is_head q m h g hh hg ne (λ y o i. others g y hg o i))
      ]

      inside' : (g x : A) → is_head g ≡ true → has eq x (w g) ≡ true → is_head x ≡ false
      inside' g x hg i = ground (arith, at_head x, inside h x, inside g x)

      apart' :
          (f g x : A)
          → is_head f ≡ true
          → is_head g ≡ true
          → has eq x (w f) ≡ true
          → has eq x (w g) ≡ true
          → f ≡ g
      apart' f g x hf hg i j =
          ground (arith, at_head x, apart f g x, apart h g x, apart f h x, out f, out g)
