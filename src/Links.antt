-- ===== src/Links.antt =====
-- lwt_list.h: the circular doubly linked lists that every queue of the library is made of.
-- A node is a value of an arbitrary type with decidable equality; the two pointers of all nodes
-- of the heap stand in one `Links`, so that lists which share a node are seen to share it.
pub mod Ring
pub mod Ops
pub mod Queues
pub mod Insert
pub mod Remove
pub mod Refine
pub mod Init
use mathlib.Core.Logic.{ite}
use light_weight_thread_libr.Prelude.{
  ℕ, zero, suc, ◌≡◌, Bool, true, false, Option, none, some, ◌+◌, ◌%◌, ◌^◌,
}

-- `struct list { struct list *n, *p; }`, for every node.
pub record Links (A : Type 0) : Type 0 where
  pub n : A → A
  pub p : A → A

module _ {A : Type 0} (eq : Discrete A) where
  abbrev pub update {ℓ} : {B : Type ℓ} → (A → B) → A → B → A → B
  update f a b x = ite (eq a x) b (f x)

  -- The stores `a->n = b` and `a->p = b`.
  abbrev pub set_n : Links A → A → A → Links A
  set_n l a b = record l { n = update l.n a b }

  abbrev pub set_p : Links A → A → A → Links A
  set_p l a b = record l { p = update l.p a b }

  unfoldable pub list_ll_add : Links A → A → A → Links A
  list_ll_add l link new_link =
      let l = set_p l new_link (l.p link) in
      let l = set_n l new_link link in
      let l = set_n l (l.p new_link) new_link in set_p l (l.n new_link) new_link

  unfoldable pub list_ll_init : Links A → A → Links A
  list_ll_init l list = let l = set_n l list list in set_p l list list

  unfoldable pub list_ll_rem : Links A → A → Links A
  list_ll_rem l list =
      let l = set_p l (l.n list) (l.p list) in
      let l = set_n l (l.p list) (l.n list) in let l = set_n l list list in set_p l list (l.n list)

  unfoldable pub list_ll_empty : Links A → A → Bool
  list_ll_empty l list = ite (eq (l.n list) list) true false

  -- `list_head_add(lh, o)` and `list_head_append(lh, o)`.
  unfoldable pub list_head_add : Links A → A → A → Links A
  unfolding list_ll_add
  list_head_add l lh o = list_ll_add l lh o

  unfoldable pub list_head_append : Links A → A → A → Links A
  unfolding list_ll_add
  list_head_append l lh o = list_ll_add l (l.p lh) o

  -- `__get_queue_size`: the loop takes `fuel`; `none` means that it ran out.
  unfoldable pub queue_size_loop : ℕ → Links A → A → A → ℕ → Option ℕ
  queue_size_loop zero l head curr cnt = none
  queue_size_loop (suc fuel) l head curr cnt =
      let rest = queue_size_loop fuel l head (l.n curr) ((cnt + 1) % 2 ^ 32) in
      ite (eq curr head) (some cnt) rest

  unfoldable pub get_queue_size : ℕ → Links A → A → Option ℕ
  unfolding queue_size_loop
  get_queue_size fuel l input_list = queue_size_loop fuel l input_list (l.n input_list) 0
