-- ===== src/Machine/Supply.antt =====
-- Addresses for the channels of threads that are not created yet.
use light_weight_thread_libr.Prelude.{
  ℕ, zero, suc, ◌≡◌, ◌∙◌, refl, ◌≢◌, Bool, true, false, ℕ_discrete, List, [], ◌∷◌, arith,
}
use light_weight_thread_libr.Links.Ring.{has, has-append}
use light_weight_thread_libr.Links.Queues.{IsOut, has-erase}
use light_weight_thread_libr.Links.Refine.{dequeue, enqueue, enqueue_before_last}
use light_weight_thread_libr.State.{Node, Node-discrete, thread_node, sender_queue}
use light_weight_thread_libr.Sched.System.{has_node, has-before_last}
use light_weight_thread_libr.Chan.Lifetime.{with_head, with_queue}

-- The allocator has two addresses for each of `n` channels, which have no sender queue yet.
unfoldable pub Room : ℕ → (Node → Bool) → (Node → List Node) → List ℕ → Type 0
Room zero is_head v xs = Unit
Room (suc n) is_head v (c ∷ b ∷ more) =
    (c ≢ 0)
    × (b ≢ 0)
    × (is_head (sender_queue c) ≡ false)
    × IsOut Node-discrete is_head v (sender_queue c)
    × Room n (with_head is_head c) (with_queue v c) more
Room (suc n) is_head v _ = ⊥

-- No queue of `v'` holds a sender queue that the one of `v` does not hold.
abbrev pub Fewer : (Node → List Node) → (Node → List Node) → Type 0
Fewer v' v =
    (d : ℕ) (h : Node)
    → has_node (sender_queue d) (v' h) ≡ true
    → has_node (sender_queue d) (v h) ≡ true

module _ (v' v : Node → List Node) (f : Fewer v' v) where
  pub Fewer-dequeue : (x : Node) → Fewer (dequeue Node-discrete v' x) v
  unfolding dequeue
  Fewer-dequeue x d h i = f d h (has-erase Node-discrete x (sender_queue d) (v' h) i)

  pub Fewer-enqueue : (g : Node) (t : ℕ) → Fewer (enqueue Node-discrete v' g (thread_node t)) v
  unfolding enqueue
  Fewer-enqueue g t d h i =
      ground (arith, f d h, has-append Node-discrete (sender_queue d) (v' g) (thread_node t ∷ []))

  pub Fewer-enqueue_before_last :
      (g : Node) (t : ℕ) → Fewer (enqueue_before_last Node-discrete v' g (thread_node t)) v
  unfolding enqueue_before_last
  Fewer-enqueue_before_last g t d h i =
      ground (arith, f d h, has-before_last (thread_node t) (sender_queue d) (v' g))

  pub Fewer-with_queue : (c : ℕ) → Fewer (with_queue v' c) (with_queue v c)
  Fewer-with_queue c d h i = ground (arith, f d h)

  pub IsOut-Fewer :
      (is_head : Node → Bool) (c : ℕ)
      → IsOut Node-discrete is_head v (sender_queue c)
      → IsOut Node-discrete is_head v' (sender_queue c)
  IsOut-Fewer is_head c out h hh = ground (arith, f c h, out h hh)

pub Room-Fewer :
    (n : ℕ) (is_head : Node → Bool) (v' v : Node → List Node) (xs : List ℕ)
    → Fewer v' v
    → Room n is_head v xs
    → Room n is_head v' xs
unfolding Room
Room-Fewer zero is_head v' v xs f r = tt
Room-Fewer (suc n) is_head v' v (c ∷ b ∷ more) f r = (
  r.0,
  r.1,
  r.2,
  IsOut-Fewer v' v f is_head c r.3,
  Room-Fewer n (with_head is_head c) (with_queue v' c) (with_queue v c) more
      (Fewer-with_queue v' v f c) r.4,
)
Room-Fewer (suc n) is_head v' v [] f r = absurd r
Room-Fewer (suc n) is_head v' v (c ∷ []) f r = absurd r

-- The next two addresses.
pub record Served (n : ℕ) (is_head : Node → Bool) (v : Node → List Node) (xs : List ℕ)
    : Type 0 where
  pub chan : ℕ
  pub buffer : ℕ
  pub more : List ℕ
  pub whole : xs ≡ chan ∷ buffer ∷ more
  pub pointer : chan ≢ 0
  pub cells : buffer ≢ 0
  pub fresh : is_head (sender_queue chan) ≡ false
  pub out : IsOut Node-discrete is_head v (sender_queue chan)
  pub left : Room n (with_head is_head chan) (with_queue v chan) more

pub Room-serves :
    (n : ℕ) (is_head : Node → Bool) (v : Node → List Node) (xs : List ℕ)
    → Room (suc n) is_head v xs
    → Served n is_head v xs
unfolding Room
Room-serves n is_head v (c ∷ b ∷ more) r = record {
  chan = c;
  buffer = b;
  more = more;
  whole = refl;
  pointer = r.0;
  cells = r.1;
  fresh = r.2;
  out = r.3;
  left = r.4;
}
Room-serves n is_head v [] r = absurd r
Room-serves n is_head v (c ∷ []) r = absurd r

-- The same of a list: the addresses of channels are new.
unfoldable pub Addresses : ℕ → List ℕ → List ℕ → Type 0
Addresses zero used xs = Unit
Addresses (suc n) used (c ∷ b ∷ more) =
    (c ≢ 0) × (b ≢ 0) × (has ℕ_discrete c used ≡ false) × Addresses n (c ∷ used) more
Addresses (suc n) used _ = ⊥

pub Room-Addresses :
    (n : ℕ) (used xs : List ℕ) (is_head : Node → Bool) (v : Node → List Node)
    → ((d : ℕ) → is_head (sender_queue d) ≡ has ℕ_discrete d used)
    → ((d : ℕ) (h : Node) → has_node (sender_queue d) (v h) ≡ false)
    → Addresses n used xs
    → Room n is_head v xs
unfolding Room Addresses
Room-Addresses zero used xs is_head v heads free a = tt
Room-Addresses (suc n) used (c ∷ b ∷ more) is_head v heads free a = (
  a.0,
  a.1,
  heads c ∙ a.2,
  λ h hh. free c h,
  Room-Addresses n (c ∷ used) more (with_head is_head c) (with_queue v c)
      (λ d. ground (arith, heads d)) (λ d h. ground (arith, free d h)) a.3,
)
Room-Addresses (suc n) used [] is_head v heads free a = absurd a
Room-Addresses (suc n) used (c ∷ []) is_head v heads free a = absurd a
