-- ===== src/Machine/Reach.antt =====
-- The switches of the threads as a relation: an execution is a chain of them.
use light_weight_thread_libr.Prelude.{ℕ, some, ◌≡◌}
use light_weight_thread_libr.State.Cmd.{Cmd}
use light_weight_thread_libr.Machine.{Machine, step}

-- `Reach code a b`: the machine `b` comes after `a`.
pub data Reach (code : ℕ → ℕ → Cmd ℕ) : Machine → Machine → Type 0 where
  here : (a : Machine) → Reach code a a
  next : (a b c : Machine) → step code a ≡ some b → Reach code b c → Reach code a c

module _ (code : ℕ → ℕ → Cmd ℕ) where
  pub Reach-trans : {a b c : Machine} → Reach code a b → Reach code b c → Reach code a c
  Reach-trans (here a) s = s
  Reach-trans (next a b c e r) s = next a b _ e (Reach-trans r s)
