-- ===== src/State/Gives.antt =====
-- What a run that gives the processor away has done by then, and what it does on its return.
use light_weight_thread_libr.Prelude.{◌≡◌, refl}
use light_weight_thread_libr.State.{World}
use light_weight_thread_libr.State.Cmd.{Outcome, done, switched, fault, hung, Cmd, and_then}

module _ {A : Type 0} where
  -- `P` holds when the processor is given away, and the run goes on as `k` says.
  abbrev pub Gives : (World → Type 0) → Cmd A → Outcome A → Type 0
  Gives P k (done a w) = ⊥
  Gives P k (switched u r) = P u × ((v : World) → r v ≡ k v)
  Gives P k fault = ⊥
  Gives P k hung = ⊥

  -- `P` holds of the result.
  abbrev pub Returns : (A → World → Type 0) → Outcome A → Type 0
  Returns P (done a w) = P a w
  Returns P (switched u r) = ⊥
  Returns P fault = ⊥
  Returns P hung = ⊥

  pub Gives-mono :
      (P Q : World → Type 0) (k : Cmd A) (o : Outcome A)
      → ((u : World) → P u → Q u)
      → Gives P k o
      → Gives Q k o
  Gives-mono P Q k (done a w) f g = g
  Gives-mono P Q k (switched u r) f g = (f u g.0, g.1)
  Gives-mono P Q k fault f g = g
  Gives-mono P Q k hung f g = g

  pub Returns-mono :
      (P Q : A → World → Type 0) (o : Outcome A)
      → ((a : A) (u : World) → P a u → Q a u)
      → Returns P o
      → Returns Q o
  Returns-mono P Q (done a w) f g = f a w g
  Returns-mono P Q (switched u r) f g = g
  Returns-mono P Q fault f g = g
  Returns-mono P Q hung f g = g

module _ {A B : Type 0} where
  pub Gives-bind :
      (P : World → Type 0) (k : Cmd A) (o : Outcome A) (f : A → Cmd B)
      → Gives P k o
      → Gives P (λ v. and_then (k v) f) (and_then o f)
  Gives-bind P k (done a w) f g = absurd g
  Gives-bind P k (switched u r) f g = (g.0, λ v. rw (g.1 v))
  Gives-bind P k fault f g = absurd g
  Gives-bind P k hung f g = absurd g

-- The world at which the processor is given away, with the rest of the run.
pub Gives-switched :
    {A : Type 0} (P : World → Type 0) (k : Cmd A) (o : Outcome A)
    → Gives P k o
    → (u : World) × (r : Cmd A) × (o ≡ switched u r) × P u × ((v : World) → r v ≡ k v)
Gives-switched P k (done a w) g = absurd g
Gives-switched P k (switched u r) g = (u, r, refl, g.0, g.1)
Gives-switched P k fault g = absurd g
Gives-switched P k hung g = absurd g
