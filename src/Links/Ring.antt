-- ===== src/Links/Ring.antt =====
-- What the links of one list stand for: the nodes in order, from its head round to its head.
use mathlib.Core.Logic.{ite}
use light_weight_thread_libr.Prelude.{
  ◌≡◌, refl, ◌≢◌, Bool, true, false, List, [], ◌∷◌, ◌++◌, ◌||◌, arith, last_or, head_or,
}
use light_weight_thread_libr.Links.{Links}

module _ {A : Type 0} (eq : Discrete A) where
  abbrev pub has : A → List A → Bool
  has a [] = false
  has a (x ∷ xs) = ite (eq a x) true (has a xs)

  abbrev pub IsNodup : List A → Type 0
  IsNodup [] = Unit
  IsNodup (x ∷ xs) = (has x xs ≡ false) × IsNodup xs

-- A node that points at itself: `list_ll_rem` leaves one behind.
abbrev pub IsLoose : {A : Type 0} → Links A → A → Type 0
IsLoose l x = (l.n x ≡ x) × (l.p x ≡ x)

-- From `a` the `n` pointers lead through `xs` to `b`, and the `p` pointers lead back.
abbrev pub Seg : {A : Type 0} → Links A → A → List A → A → Type 0
Seg l a [] b = (l.n a ≡ b) × (l.p b ≡ a)
Seg l a (x ∷ xs) b = (l.n a ≡ x) × (l.p x ≡ a) × Seg l x xs b

module _ {A : Type 0} (l : Links A) where
  pub Seg-append :
      (a x b : A) (xs ys : List A) → Seg l a xs x → Seg l x ys b → Seg l a (xs ++ x ∷ ys) b
  Seg-append a x b [] ys s t = (s.0, s.1, t)
  Seg-append a x b (y ∷ xs) ys s t = (s.0, s.1, Seg-append y x b xs ys s.2 t)

  Seg-nil_head : (a b : A) (ys : List A) → Seg l a ys b → Seg l a [] (head_or b ys)
  Seg-nil_head a b [] s = s
  Seg-nil_head a b (y ∷ ys) s = (s.0, s.1)

  pub Seg-split :
      (a b : A) (xs ys : List A)
      → Seg l a (xs ++ ys) b
      → Seg l a xs (head_or b ys) × Seg l (last_or a xs) ys b
  Seg-split a b [] ys s = (Seg-nil_head a b ys s, s)
  Seg-split a b (x ∷ xs) ys s = let r = Seg-split x b xs ys s.2 in ((s.0, s.1, r.0), r.1)

  pub Seg-join :
      (a b : A) (xs ys : List A)
      → Seg l a xs (head_or b ys)
      → Seg l (last_or a xs) ys b
      → Seg l a (xs ++ ys) b
  Seg-join a b [] ys s t = t
  Seg-join a b (x ∷ xs) ys s t = (s.0, s.1, Seg-join x b xs ys s.2 t)

  pub Seg-last : (a x : A) (xs : List A) → Seg l a xs x → l.p x ≡ last_or a xs
  Seg-last a x [] s = s.1
  Seg-last a x (y ∷ xs) s = Seg-last y x xs s.2

  pub Seg-head : (x b : A) (ys : List A) → Seg l x ys b → l.n x ≡ head_or b ys
  Seg-head x b [] s = s.0
  Seg-head x b (y ∷ ys) s = s.0

module _ {A : Type 0} (eq : Discrete A) where
  pub has_self : (a : A) (xs : List A) → has eq a (a ∷ xs) ≡ true
  has_self a xs = ground arith

  pub ne_of_has : (a b : A) (xs : List A) → has eq a xs ≡ true → has eq b xs ≡ false → a ≢ b
  ne_of_has a b xs i o e = cc

  pub has-append : (a : A) (xs ys : List A) → has eq a (xs ++ ys) ≡ (has eq a xs || has eq a ys)
  has-append a [] ys = refl
  has-append a (x ∷ xs) ys = ground (arith, has-append a xs ys)

  pub has-last_or : (a : A) (xs : List A) → has eq (last_or a xs) (a ∷ xs) ≡ true
  has-last_or a [] = has_self a []
  has-last_or a (x ∷ xs) = ground (arith, has-last_or x xs)

  pub IsNodup-apart :
      (a : A) (xs ys : List A) → IsNodup eq (xs ++ ys) → has eq a xs ≡ true → has eq a ys ≡ false
  IsNodup-apart a [] ys d i = cc
  IsNodup-apart a (x ∷ xs) ys d i = ground (arith, has-append x xs ys, IsNodup-apart a xs ys d.1)

  pub IsNodup-left : (xs ys : List A) → IsNodup eq (xs ++ ys) → IsNodup eq xs
  IsNodup-left [] ys d = tt
  IsNodup-left (x ∷ xs) ys d = (ground (arith, has-append x xs ys), IsNodup-left xs ys d.1)

  -- Neither part of a list has a node that the whole list has not.
  pub has-parts :
      (a : A) (xs ys : List A)
      → has eq a (xs ++ ys) ≡ false
      → (has eq a xs ≡ false) × (has eq a ys ≡ false)
  has-parts a xs ys o = ground (arith, has-append a xs ys)

  pub IsNodup-right : (xs ys : List A) → IsNodup eq (xs ++ ys) → IsNodup eq ys
  IsNodup-right [] ys d = d
  IsNodup-right (x ∷ xs) ys d = IsNodup-right xs ys d.1

  -- A node in the middle of a list may be taken out, or put there.
  pub IsNodup-drop :
      (x : A) (xs ys : List A)
      → IsNodup eq (xs ++ x ∷ ys)
      → (has eq x (xs ++ ys) ≡ false) × IsNodup eq (xs ++ ys)
  IsNodup-drop x [] ys d = d
  IsNodup-drop x (y ∷ xs) ys d =
      let r = IsNodup-drop x xs ys d.1 in
      (
        ground (arith, has-append y xs (x ∷ ys)),
        (ground (arith, has-append y xs (x ∷ ys), has-append y xs ys), r.1),
      )

  pub IsNodup-put :
      (x : A) (xs ys : List A)
      → has eq x (xs ++ ys) ≡ false
      → IsNodup eq (xs ++ ys)
      → IsNodup eq (xs ++ x ∷ ys)
  IsNodup-put x [] ys h d = (h, d)
  IsNodup-put x (y ∷ xs) ys h d = (
    ground (arith, has-append y xs (x ∷ ys), has-append y xs ys),
    IsNodup-put x xs ys (ground arith) d.1,
  )

  pub has-head_or : (b : A) (ys : List A) → has eq (head_or b ys) (b ∷ ys) ≡ true
  has-head_or b [] = has_self b []
  has-head_or b (y ∷ ys) = ground arith

  -- The neighbours of a node of a segment stand in it too, or at its ends.
  pub has-p :
      (l : Links A) (a b x : A) (xs : List A)
      → Seg l a xs b
      → has eq x xs ≡ true
      → has eq (l.p x) (a ∷ xs) ≡ true
  has-p l a b x [] s i = cc
  has-p l a b x (y ∷ xs) s i = ground (arith, has-p l y b x xs s.2)

  pub has-n :
      (l : Links A) (a b x : A) (xs : List A)
      → Seg l a xs b
      → has eq x xs ≡ true
      → has eq (l.n x) (b ∷ xs) ≡ true
  has-n l a b x [] s i = cc
  has-n l a b x (y ∷ xs) s i =
      ground (arith, has-n l y b x xs s.2, Seg-head l y b xs s.2, has-head_or b xs)

-- The end of a segment, and its start, may be joined to another node.
module _ {A : Type 0} (eq : Discrete A) (l m : Links A) where
  pub Seg-end :
      (a b c : A) (xs : List A)
      → IsNodup eq (a ∷ xs)
      → m.n (last_or a xs) ≡ c
      → m.p c ≡ last_or a xs
      → ((x : A) → x ≢ last_or a xs → has eq x (a ∷ xs) ≡ true → m.n x ≡ l.n x)
      → ((x : A) → has eq x xs ≡ true → m.p x ≡ l.p x)
      → Seg l a xs b
      → Seg m a xs c
  Seg-end a b c [] d en ep hn hp s = (en, ep)
  Seg-end a b c (x ∷ xs) d en ep hn hp s = (
    ground (arith, hn a, has-last_or eq x xs),
    ground (arith, hp x),
    Seg-end x b c xs d.1 en ep (λ y ne i. ground (arith, hn y)) (λ y i. ground (arith, hp y)) s.2,
  )

  pub Seg-frame :
      (a b : A) (xs : List A)
      → ((x : A) → has eq x (a ∷ xs) ≡ true → m.n x ≡ l.n x)
      → ((x : A) → has eq x xs ≡ true → m.p x ≡ l.p x)
      → m.p b ≡ l.p b
      → Seg l a xs b
      → Seg m a xs b
  Seg-frame a b [] hn hp hb s = ground (arith, hn a)
  Seg-frame a b (x ∷ xs) hn hp hb s = (
    ground (arith, hn a),
    ground (arith, hp x),
    Seg-frame x b xs (λ y i. ground (arith, hn y)) (λ y i. ground (arith, hp y)) hb s.2,
  )

  pub Seg-start :
      (a b c : A) (ys : List A)
      → IsNodup eq (c ∷ ys)
      → m.n a ≡ head_or c ys
      → m.p (head_or c ys) ≡ a
      → ((x : A) → has eq x ys ≡ true → m.n x ≡ l.n x)
      → ((x : A) → x ≢ head_or c ys → has eq x (c ∷ ys) ≡ true → m.p x ≡ l.p x)
      → Seg l b ys c
      → Seg m a ys c
  Seg-start a b c [] d en ep hn hp s = (en, ep)
  Seg-start a b c (y ∷ ys) d en ep hn hp s =
      (en, ep, Seg-frame y c ys hn (λ x i. ground (arith, hp x)) (ground (arith, hp c)) s.2)

-- The list at head `h` holds `xs`, in this order, each node once.
pub record IsRing {A : Type 0} (eq : Discrete A) (l : Links A) (h : A) (xs : List A) : Type 0 where
  pub seg : Seg l h xs h
  pub nodup : IsNodup eq (h ∷ xs)
