-- ===== src/State/Cmd.antt =====
-- Code that may give the processor away. A run of it up to its end, or up to the next
-- `__lwt_dispatch`, is an `Outcome`.
use light_weight_thread_libr.Prelude.{ℕ, [], ◌∷◌, ◌==◌, if◌then◌else◌}
use light_weight_thread_libr.State.{World}

-- `switched w r`: the processor was given away in `w`, and `r` goes on from the world in which it
-- comes back. `fault`: undefined behaviour, when a pointer is followed that points at no such
-- object, an array is accessed outside of its bounds, or a number is divided by zero. `hung`: a loop has used its rounds up.
pub data Outcome (A : Type 0) : Type 0 where
  done : A → World → Outcome A
  switched : World → (World → Outcome A) → Outcome A
  fault : Outcome A
  hung : Outcome A

abbrev pub Cmd : Type 0 → Type 0
Cmd A = World → Outcome A

abbrev pub pure : {A : Type 0} → A → Cmd A
pure = done

module _ {A B : Type 0} where
  abbrev pub and_then : Outcome A → (A → Cmd B) → Outcome B
  and_then (done a w) k = k a w
  and_then (switched w r) k = switched w (λ v. and_then (r v) k)
  and_then fault k = fault
  and_then hung k = hung

  infixl 5 ◌>>=◌ ◌>>◌
  abbrev pub ◌>>=◌ : Cmd A → (A → Cmd B) → Cmd B
  m >>= k = λ w. and_then (m w) k

  abbrev pub ◌>>◌ : Cmd A → Cmd B → Cmd B
  m >> k = m >>= λ _. k

-- A read of the world, and a change of it.
abbrev pub gets : {A : Type 0} → (World → A) → Cmd A
gets f w = done (f w) w

abbrev pub modify : (World → World) → Cmd (Unit {0})
modify f w = done tt (f w)

-- A pointer that is about to be followed.
unfoldable pub follow : ℕ → Cmd (Unit {0})
follow p w = if p == 0 then fault else done tt w

-- The next address that the allocator hands out, and an address that is given back to it.
unfoldable pub umalloc : Cmd ℕ
umalloc w = elim w.supply [ [] ↦ done 0 w | p ∷ ps ↦ done p (record w { supply = ps }) ]

abbrev pub ufree : ℕ → World → World
ufree p w = record w { freed = p ∷ w.freed }
