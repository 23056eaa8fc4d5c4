-- ===== src/Links/Ops.antt =====
-- What `list_ll_add` and `list_ll_rem` do to the list that a node stands in.
use light_weight_thread_libr.Prelude.{
  ◌≡◌, ◌≢◌, true, false, List, ◌∷◌, ◌++◌, arith, last_or, head_or, sym, ◌∙◌,
}
use light_weight_thread_libr.Links.{Links, update, list_ll_add, list_ll_rem}
use light_weight_thread_libr.Links.Ring.{
  has, IsNodup, Seg, Seg-append, Seg-split, Seg-last, Seg-head, Seg-end, Seg-start, has-last_or,
  has-head_or, IsRing, IsNodup-drop, IsNodup-put, IsNodup-left, IsNodup-right, IsNodup-apart,
  Seg-join, ne_of_has, has-parts,
}

module _ {A : Type 0} (eq : Discrete A) (l : Links A) where
  -- The pointers after an insertion.
  pub n-list_ll_add :
      (link new x : A)
      → new ≢ l.p link
      → (list_ll_add eq l link new).n x ≡ update eq (update eq l.n new link) (l.p link) new x
  unfolding list_ll_add
  n-list_ll_add link new x h = ground arith

  pub p-list_ll_add :
      (link new x : A)
      → new ≢ l.p link
      → (list_ll_add eq l link new).p x ≡ update eq (update eq l.p new (l.p link)) link new x
  unfolding list_ll_add
  p-list_ll_add link new x h = ground arith

  pub n-list_ll_rem :
      (x y : A) → (list_ll_rem eq l x).n y ≡ update eq (update eq l.n (l.p x) (l.n x)) x x y
  unfolding list_ll_rem
  n-list_ll_rem x y = ground arith

  pub p-list_ll_rem :
      (x y : A)
      → l.n x ≢ x
      → (list_ll_rem eq l x).p y ≡ update eq (update eq l.p (l.n x) (l.p x)) x x y
  unfolding list_ll_rem
  p-list_ll_rem x y h = ground arith

  -- A node that points at itself may be taken out again.
  pub list_ll_rem-loose :
      (x y : A)
      → l.n x ≡ x
      → l.p x ≡ x
      → ((list_ll_rem eq l x).n y ≡ l.n y) × ((list_ll_rem eq l x).p y ≡ l.p y)
  unfolding list_ll_rem
  list_ll_rem-loose x y hn hp = (ground arith, ground arith)

  pub list_ll_rem_self : (x : A) → ((list_ll_rem eq l x).n x ≡ x) × ((list_ll_rem eq l x).p x ≡ x)
  unfolding list_ll_rem
  list_ll_rem_self x = (ground arith, ground arith)

-- A list, its head, and the two nodes on either side of a place in it.
module _ {A : Type 0} (eq : Discrete A) (l : Links A) (h : A) where
  -- What an insertion or a removal between `xs` and `ys` has to respect.
  record Place (x : A) (xs ys : List A) : Type 0 where
    free_front : x ≢ last_or h xs
    free_back : x ≢ head_or h ys
    not_front : has eq x xs ≡ false
    not_back : has eq x (h ∷ ys) ≡ false
    front_nodup : IsNodup eq (h ∷ xs)
    back_nodup : IsNodup eq (h ∷ ys)
    apart : (y : A) → has eq y (h ∷ xs) ≡ true → has eq y ys ≡ false
    last_in : has eq (last_or h xs) (h ∷ xs) ≡ true
    head_in : has eq (head_or h ys) (h ∷ ys) ≡ true

  place :
      (x : A) (xs ys : List A)
      → has eq x (h ∷ xs ++ ys) ≡ false
      → IsNodup eq (h ∷ xs ++ ys)
      → Place x xs ys
  place x xs ys out d =
      let o = has-parts eq x (h ∷ xs) ys out in
      let back : has eq x (h ∷ ys) ≡ false = ground arith in
      record {
        free_front = λ e. ne_of_has eq (last_or h xs) x (h ∷ xs) (has-last_or eq h xs) o.0 (sym e);
        free_back = λ e. ne_of_has eq (head_or h ys) x (h ∷ ys) (has-head_or eq h ys) back (sym e);
        not_front = ground arith;
        not_back = back;
        front_nodup = IsNodup-left eq (h ∷ xs) ys d;
        back_nodup = ((has-parts eq h xs ys d.0).1, IsNodup-right eq xs ys d.1);
        apart = λ y i. IsNodup-apart eq y (h ∷ xs) ys d i;
        last_in = has-last_or eq h xs;
        head_in = has-head_or eq h ys;
      }

  -- A node comes in before the first of `ys`.
  pub IsRing-list_ll_add :
      (new : A) (xs ys : List A)
      → IsRing eq l h (xs ++ ys)
      → has eq new (h ∷ xs ++ ys) ≡ false
      → IsRing eq (list_ll_add eq l (head_or h ys) new) h (xs ++ new ∷ ys)
  IsRing-list_ll_add new xs ys r out = record {
    seg = Seg-append m h new h xs ys front back;
    nodup = IsNodup-put eq new (h ∷ xs) ys out r.nodup;
  }
    where
      m : Links A
      m = list_ll_add eq l (head_or h ys) new

      open (place new xs ys out r.nodup) use {
        free_front, free_back, not_front, not_back, front_nodup, back_nodup, apart, last_in,
        head_in,
      }

      parts : Seg l h xs (head_or h ys) × Seg l (last_or h xs) ys h
      parts = Seg-split l h h xs ys r.seg

      before : l.p (head_or h ys) ≡ last_or h xs
      before = Seg-last l h (head_or h ys) xs parts.0

      n_of : (y : A) → m.n y ≡ update eq (update eq l.n new (head_or h ys)) (last_or h xs) new y
      n_of y = rw before at (n-list_ll_add eq l (head_or h ys) new y (rw before free_front))

      p_of : (y : A) → m.p y ≡ update eq (update eq l.p new (last_or h xs)) (head_or h ys) new y
      p_of y = rw before at (p-list_ll_add eq l (head_or h ys) new y (rw before free_front))

      front : Seg m h xs new
      front =
          Seg-end eq l m h (head_or h ys) new xs front_nodup (ground (arith, n_of (last_or h xs)))
            (ground (arith, p_of new, free_back))
            (λ y ne i. ground (arith, n_of y, not_front, not_back))
            (λ y i. ground (arith, p_of y, apart y, head_in, not_front, front_nodup)) parts.0

      back : Seg m new ys h
      back =
          Seg-start eq l m new (last_or h xs) h ys back_nodup (ground (arith, n_of new, free_front))
            (ground (arith, p_of (head_or h ys)))
            (λ y i. ground (arith, n_of y, apart (last_or h xs), last_in, not_back))
            (λ y ne i. ground (arith, p_of y, not_back)) parts.1

  -- A node is taken out.
  pub IsRing-list_ll_rem :
      (x : A) (xs ys : List A)
      → IsRing eq l h (xs ++ x ∷ ys)
      → IsRing eq (list_ll_rem eq l x) h (xs ++ ys)
  IsRing-list_ll_rem x xs ys r = record { seg = Seg-join m h h xs ys front back; nodup = out.1 }
    where
      m : Links A
      m = list_ll_rem eq l x

      parts : Seg l h xs x × Seg l (last_or h xs) (x ∷ ys) h
      parts = Seg-split l h h xs (x ∷ ys) r.seg

      before : l.p x ≡ last_or h xs
      before = Seg-last l h x xs parts.0

      after : l.n x ≡ head_or h ys
      after = Seg-head l x h ys parts.1.2

      out : (has eq x (h ∷ xs ++ ys) ≡ false) × IsNodup eq (h ∷ xs ++ ys)
      out = IsNodup-drop eq x (h ∷ xs) ys r.nodup

      open (place x xs ys out.0 out.1) use {
        free_front, free_back, not_front, not_back, front_nodup, back_nodup, apart, last_in,
        head_in,
      }

      n_of : (y : A) → m.n y ≡ update eq (update eq l.n (last_or h xs) (head_or h ys)) x x y
      n_of y = rw (before, after) at (n-list_ll_rem eq l x y)

      p_of : (y : A) → m.p y ≡ update eq (update eq l.p (head_or h ys) (last_or h xs)) x x y
      p_of y = rw (before, after) at (p-list_ll_rem eq l x y (λ e. free_back (sym e ∙ after)))

      front : Seg m h xs (head_or h ys)
      front =
          Seg-end eq l m h x (head_or h ys) xs front_nodup
            (ground (arith, n_of (last_or h xs), free_front))
            (ground (arith, p_of (head_or h ys), free_back))
            (λ y ne i. ground (arith, n_of y, not_front, not_back))
            (λ y i. ground (arith, p_of y, apart y, head_in, not_front, front_nodup)) parts.0

      back : Seg m (last_or h xs) ys h
      back =
          Seg-start eq l m (last_or h xs) x h ys back_nodup
            (ground (arith, n_of (last_or h xs), free_front))
            (ground (arith, p_of (head_or h ys), free_back))
            (λ y i. ground (arith, n_of y, apart (last_or h xs), last_in, not_back))
            (λ y ne i. ground (arith, p_of y, not_back)) parts.1.2
