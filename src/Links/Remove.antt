-- ===== src/Links/Remove.antt =====
-- `list_ll_rem` on the links of the whole heap.
use mathlib.Core.List.{erase}
use light_weight_thread_libr.Prelude.{
  ◌≡◌, sym, ◌∙◌, subst, ◌≢◌, Bool, true, false, List, ◌∷◌, ◌++◌, arith, last_or, head_or,
}
use light_weight_thread_libr.Links.{Links, list_ll_rem}
use light_weight_thread_libr.Links.Ring.{
  has, IsLoose, Seg, Seg-frame, Seg-last, Seg-head, Seg-split, has-append, has-parts, has-last_or,
  has-head_or, ne_of_has, IsRing, IsNodup-drop,
}
use light_weight_thread_libr.Links.Ops.{
  n-list_ll_rem, p-list_ll_rem, list_ll_rem-loose, IsRing-list_ll_rem,
}
use light_weight_thread_libr.Links.Queues.{
  IsQueues, IsOut, other-IsRing, cut, has-erase, erase_of_not_has,
}

module _ {A : Type 0} (eq : Discrete A) (is_head : A → Bool) {l : Links A} {v : A → List A}
    (q : IsQueues eq is_head l v) where
  open q use {ring, inside, apart}

  -- A node is taken out of the list that it stands in.
  pub remove_links :
      (h x : A)
      → is_head h ≡ true
      → has eq x (v h) ≡ true
      → IsQueues eq is_head (list_ll_rem eq l x) (λ g. erase eq (v g) x)
  remove_links h x hh ix = record {
    ring = ring';
    inside = λ g y hg i. inside g y hg (has-erase eq x y (v g) i);
    apart =
        λ f g y hf hg i j. apart f g y hf hg (has-erase eq x y (v f) i) (has-erase eq x y (v g) j);
  }
    where
      m : Links A
      m = list_ll_rem eq l x

      open (cut eq x (v h) ix) use {front as xs, back as ys, whole, erased}

      old : IsRing eq l h (xs ++ x ∷ ys)
      old = subst (IsRing eq l h) whole (ring h hh)

      mine : IsRing eq m h (xs ++ ys)
      mine = IsRing-list_ll_rem eq l h x xs ys old

      parts : Seg l h xs x × Seg l (last_or h xs) (x ∷ ys) h
      parts = Seg-split l h h xs (x ∷ ys) old.seg

      before : l.p x ≡ last_or h xs
      before = Seg-last l h x xs parts.0

      after : l.n x ≡ head_or h ys
      after = Seg-head l x h ys parts.1.2

      out : has eq x (h ∷ xs ++ ys) ≡ false
      out = (IsNodup-drop eq x (h ∷ xs) ys old.nodup).0

      moved : l.n x ≢ x
      moved e =
          ne_of_has eq (head_or h ys) x (h ∷ ys) (has-head_or eq h ys)
            (ground (arith, out, has-append eq x xs ys)) (sym after ∙ e)

      others :
          (g y : A)
          → is_head g ≡ true
          → has eq y (h ∷ v h) ≡ false
          → has eq y (g ∷ v g) ≡ true
          → (m.n y ≡ l.n y) × (m.p y ≡ l.p y)
      others g y hg o i =
          let o' : has eq y (h ∷ xs ++ x ∷ ys) ≡ false =
            subst (λ r. has eq y (h ∷ r) ≡ false) whole o in
          let os = has-parts eq y (h ∷ xs) (x ∷ ys) o' in
          let ob : has eq y (h ∷ ys) ≡ false = ground arith in
          let ne_last = ne_of_has eq (last_or h xs) y (h ∷ xs) (has-last_or eq h xs) os.0 in
          let ne_first = ne_of_has eq (head_or h ys) y (h ∷ ys) (has-head_or eq h ys) ob in
          let ne_x : x ≢ y = ground arith in
          (
            ground (arith, n-list_ll_rem eq l x y, before, after),
            ground (arith, p-list_ll_rem eq l x y moved, before, after),
          )

      gone : (g : A) → is_head g ≡ true → h ≢ g → v g ≡ erase eq (v g) x
      gone g hg ne = sym (erase_of_not_has eq x (v g) (ground (arith, apart h g x)))

      ring' : (g : A) → is_head g ≡ true → IsRing eq m g (erase eq (v g) x)
      ring' g hg = elim (eq h g) [
        | yes f ↦
            subst (λ k. IsRing eq m k (erase eq (v k) x)) f
              (subst (IsRing eq m h) (sym erased) mine)
        | no ne ↦
            subst (IsRing eq m g) (gone g hg ne)
              (other-IsRing eq is_head q m h g hh hg ne (λ y o i. others g y hg o i))
      ]

  -- Taking out a loose node changes nothing.
  pub remove_loose :
      (x : A)
      → IsOut eq is_head v x
      → IsLoose l x
      → IsQueues eq is_head (list_ll_rem eq l x) (λ g. erase eq (v g) x)
  remove_loose x out loose = record {
    ring = λ g hg. subst (IsRing eq m g) (sym (erase_of_not_has eq x (v g) (out g hg))) (kept g hg);
    inside = λ g y hg i. inside g y hg (has-erase eq x y (v g) i);
    apart =
        λ f g y hf hg i j. apart f g y hf hg (has-erase eq x y (v f) i) (has-erase eq x y (v g) j);
  }
    where
      m : Links A
      m = list_ll_rem eq l x

      same : (y : A) → (m.n y ≡ l.n y) × (m.p y ≡ l.p y)
      same y = list_ll_rem-loose eq l x y loose.0 loose.1

      kept : (g : A) → is_head g ≡ true → IsRing eq m g (v g)
      kept g hg = record {
        seg =
            Seg-frame eq l m g g (v g) (λ y i. (same y).0) (λ y i. (same y).1) (same g).1
              (ring g hg).seg;
        nodup = (ring g hg).nodup;
      }
