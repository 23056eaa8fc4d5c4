-- ===== src/Thread/Prepared.antt =====
-- `__init_thread` of a thread that is in no queue.
use light_weight_thread_libr.Prelude.{
  ℕ, ◌≡◌, refl, ap, ◌∙◌, ◌≢◌, inl, inr, Bool, false, List, ◌∷◌, arith, ℕ_discrete,
}
use light_weight_thread_libr.Links.Queues.{IsOut}
use light_weight_thread_libr.State.{
  World, Node, Node-discrete, thread_node, run_queue, sender_queue,
}
use light_weight_thread_libr.Sched.System.{System, System-owners}
use light_weight_thread_libr.Chan.Lifetime.{with_head, with_queue, made, New, made-New, new_System}
use light_weight_thread_libr.Thread.{begin_thread, give_chan}

module _ (is_head : Node → Bool) (w : World) (v : Node → List Node) (t c b : ℕ) (more : List ℕ)
    (s : System is_head w v) (pos : t ≢ 0) (loose : IsOut Node-discrete is_head v (thread_node t))
    (some_left : w.supply ≡ c ∷ b ∷ more) (pos_c : c ≢ 0) (pos_b : b ≢ 0)
    (fresh : is_head (sender_queue c) ≡ false)
    (out : IsOut Node-discrete is_head v (sender_queue c)) where
  abbrev pub k : ℕ
  k = w.current_kthd

  abbrev pub rq : Node
  rq = run_queue k

  abbrev pub begun : World
  begun = begin_thread t w

  begun_System : System is_head begun v
  unfolding begin_thread
  begun_System = System-owners begun s refl refl refl (λ x. inl (ground arith))

  abbrev pub with_chan : World
  with_chan = made c b 0 more begun

  abbrev pub heads : Node → Bool
  heads = with_head is_head c

  abbrev pub queues : Node → List Node
  queues = with_queue v c

  pub n : New c b 0 more begun with_chan
  n = made-New c b 0 more begun

  pub supply_lem : begun.supply ≡ c ∷ b ∷ more
  unfolding begin_thread
  supply_lem = some_left

  begun_kthd : begun.current_kthd ≡ k
  unfolding begin_thread
  begun_kthd = refl

  chan_System : System heads with_chan queues
  chan_System =
      new_System is_head begun v c b 0 more begun_System supply_lem pos_c pos_b (omega arith) fresh
        out

  abbrev pub given : World
  given = give_chan t k c with_chan

  pub with_kthd : with_chan.current_kthd ≡ k
  with_kthd = n.kthd ∙ begun_kthd

  pub given_owner : (given.thread t).owner_kthd ≡ with_chan.current_kthd
  unfolding give_chan
  given_owner = ground (arith, with_kthd)

  pub given_System : System heads given queues
  unfolding give_chan
  given_System = System-owners given chan_System refl refl refl (λ x. elim (ℕ_discrete x t) [
    | yes f ↦ inr (ap (λ y. (given.thread y).owner_kthd) f ∙ given_owner)
    | no ne ↦ inl (ground arith)
  ])
