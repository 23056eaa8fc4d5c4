-- ===== src/Links/Queues.antt =====
-- The links of the whole heap against the queues that they stand for: a map from each head to the
-- nodes behind it. Each operation of lwt_list.h is an operation on that map.
use mathlib.Core.List.{erase}
use light_weight_thread_libr.Prelude.{
  Bool-cases, inl, inr, ◌≢◌, ◌≡◌, refl, sym, ap, ◌≢◌, Bool, true, false, List, [], ◌∷◌, ◌++◌, arith,
}
use light_weight_thread_libr.Links.{Links}
use light_weight_thread_libr.Links.Ring.{has, Seg-frame, IsRing}

module _ {A : Type 0} (eq : Discrete A) where
  -- A list that holds a node, cut in front of its first place there.
  pub record Cut (x : A) (l : List A) : Type 0 where
    pub front : List A
    pub back : List A
    pub whole : l ≡ front ++ x ∷ back
    pub erased : erase eq l x ≡ front ++ back

  pub cut : (x : A) (l : List A) → has eq x l ≡ true → Cut x l
  cut x [] h = cc
  cut x (y ∷ l) h = elim (eq x y) [
    | yes e ↦ record { front = []; back = l; whole = cc; erased = ground arith }
    | no ne ↦
        let c = cut x l (ground arith) in
        record {
          front = y ∷ c.front;
          back = c.back;
          whole = ap (λ r. y ∷ r) c.whole;
          erased = ground (arith, c.erased);
        }
  ]

  pub erase_of_not_has : (x : A) (l : List A) → has eq x l ≡ false → erase eq l x ≡ l
  erase_of_not_has x [] h = refl
  erase_of_not_has x (y ∷ l) h = ground (arith, erase_of_not_has x l)

  pub has-erase : (x y : A) (l : List A) → has eq y (erase eq l x) ≡ true → has eq y l ≡ true
  has-erase x y [] h = h
  has-erase x y (z ∷ l) h = ground (arith, has-erase x y l)

module _ {A : Type 0} (eq : Discrete A) (is_head : A → Bool) where
  -- Behind the head `h` stand the nodes `v h`. Heads stand in no list, and no node in two.
  pub record IsQueues (l : Links A) (v : A → List A) : Type 0 where
    pub ring : (h : A) → is_head h ≡ true → IsRing eq l h (v h)
    pub inside : (h x : A) → is_head h ≡ true → has eq x (v h) ≡ true → is_head x ≡ false
    pub apart :
        (h g x : A)
        → is_head h ≡ true
        → is_head g ≡ true
        → has eq x (v h) ≡ true
        → has eq x (v g) ≡ true
        → h ≡ g

  pub not_elsewhere :
      {l : Links A} {v : A → List A}
      → IsQueues l v
      → (h g x : A) → is_head h ≡ true
      → is_head g ≡ true
      → has eq x (v h) ≡ true
      → h ≢ g
      → has eq x (v g) ≡ false
  not_elsewhere {v} q h g x hh hg i ne = elim (Bool-cases (has eq x (v g))) [
    | inl j ↦ absurd (ne (q.apart h g x hh hg i j))
    | inr free ↦ free
  ]

  -- A node that stands in no list.
  abbrev pub IsOut : (A → List A) → A → Type 0
  IsOut v x = (h : A) → is_head h ≡ true → has eq x (v h) ≡ false

module _ {A : Type 0} (eq : Discrete A) (is_head : A → Bool) {l : Links A} {v : A → List A}
    (q : IsQueues eq is_head l v) where
  open q use {ring, inside, apart}

  -- Two lists share no node, their heads included.
  pub separate :
      (h g x : A)
      → is_head h ≡ true
      → is_head g ≡ true
      → h ≢ g
      → has eq x (h ∷ v h) ≡ true
      → has eq x (g ∷ v g) ≡ false
  separate h g x hh hg ne i = ground (arith, inside h x, inside g x, apart h g x)

  -- A list whose nodes keep their pointers is kept.
  pub other-IsRing :
      (m : Links A) (h g : A)
      → is_head h ≡ true
      → is_head g ≡ true
      → h ≢ g
      → ((y : A)
          → has eq y (h ∷ v h) ≡ false
          → has eq y (g ∷ v g) ≡ true
          → (m.n y ≡ l.n y) × (m.p y ≡ l.p y))
      → IsRing eq m g (v g)
  other-IsRing m h g hh hg ne same = record {
    seg =
        Seg-frame eq l m g g (v g) (λ y i. (kept y i).0) (λ y i. (kept y (ground arith)).1)
          (kept g (ground arith)).1 (ring g hg).seg;
    nodup = (ring g hg).nodup;
  }
    where
      kept : (y : A) → has eq y (g ∷ v g) ≡ true → (m.n y ≡ l.n y) × (m.p y ≡ l.p y)
      kept y i = same y (separate g h y hg hh (λ e. ne (sym e)) i) i
