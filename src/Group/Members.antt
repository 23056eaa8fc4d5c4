-- ===== src/Group/Members.antt =====
-- lwt_chl.c: `lwt_cgrp_add` and `lwt_cgrp_rem` on the list of a group.
use mathlib.Core.List.{erase}
use mathlib.Core.Logic.{if_pos, if_neg}
use light_weight_thread_libr.Prelude.{
  ℕ, ◌≡◌, ◌≢◌, ne→==, refl, ap, ◌∙◌, subst, inl, Bool, true, false, List, [], ◌∷◌, arith, ==-of_eq,
}
use light_weight_thread_libr.Links.{Links, list_head_append}
use light_weight_thread_libr.Links.Ring.{has, IsRing, IsLoose}
use light_weight_thread_libr.Links.Queues.{IsQueues, IsOut}
use light_weight_thread_libr.Links.Refine.{
  before_last, enqueue_before_last, dequeue, list_head_append-IsQueues, list_ll_rem-IsQueues,
}
use light_weight_thread_libr.State.{
  World, Node, Node-discrete, chan_node, chl_list, set_chan, list_rem,
}
use light_weight_thread_libr.State.Cmd.{done, and_then}
use light_weight_thread_libr.State.Gives.{Returns}
use light_weight_thread_libr.Sched.System.{has-before_last}
use light_weight_thread_libr.Group.{lwt_cgrp_add, lwt_cgrp_rem}

-- Only the queues of the heads matter.
pub IsQueues-same :
    (is_head : Node → Bool) (l : Links Node) (v v' : Node → List Node)
    → ((h : Node) → is_head h ≡ true → v h ≡ v' h)
    → IsQueues Node-discrete is_head l v
    → IsQueues Node-discrete is_head l v'
IsQueues-same is_head l v v' same q = record {
  ring = λ h hh. subst (IsRing Node-discrete l h) (same h hh) (q.ring h hh);
  inside = λ h x hh i. q.inside h x hh (rw (same h hh) i);
  apart = λ h g x hh hg i j. q.apart h g x hh hg (rw (same h hh) i) (rw (same g hg) j);
}

erase-before_last :
    (x : Node) (l : List Node)
    → has Node-discrete x l ≡ false
    → erase Node-discrete (before_last l x) x ≡ l
erase-before_last x [] o = ground arith
erase-before_last x (y ∷ []) o = ground arith
erase-before_last x (y ∷ z ∷ l) o = ground (arith, erase-before_last x (z ∷ l))

erase-out : (x : Node) (l : List Node) → has Node-discrete x l ≡ false → erase Node-discrete l x ≡ l
erase-out x [] o = refl
erase-out x (y ∷ l) o = ground (arith, erase-out x l)

rem_lem :
    (g c : ℕ) (u : World)
    → c ≢ 0
    → (u.chan c).ready ≡ 0
    → (u.chan c).cgroup ≡ g
    → lwt_cgrp_rem g c u
      ≡ done 0
          (let u' = list_rem u (chan_node c) in set_chan u' c (record (u'.chan c) { cgroup = 0 }))
unfolding lwt_cgrp_rem
rem_lem g c u pos idle e =
    rw (ne→== c 0 pos, ==-of_eq (u.chan c).ready 0 idle, ==-of_eq (u.chan c).cgroup g e)

module _ (is_head : Node → Bool) (w : World) (v : Node → List Node) (g c : ℕ)
    (q : IsQueues Node-discrete is_head w.links v) (hg : is_head (chl_list g) ≡ true)
    (hc : is_head (chan_node c) ≡ false) (out : IsOut Node-discrete is_head v (chan_node c))
    (free : (w.chan c).cgroup ≡ 0) (pos : c ≢ 0) where
  abbrev added : World
  added =
      let w' : World = record w {
        links = list_head_append Node-discrete w.links (chl_list g) (chan_node c);
      } in
      set_chan w' c (record (w'.chan c) { cgroup = g })

  add_lem : lwt_cgrp_add g c w ≡ done 0 added
  unfolding lwt_cgrp_add
  add_lem = rw (ne→== c 0 pos, ==-of_eq (w.chan c).cgroup 0 free)

  abbrev joined : Node → List Node
  joined = enqueue_before_last Node-discrete v (chl_list g) (chan_node c)

  in_joined : has Node-discrete (chan_node c) (joined (chl_list g)) ≡ true
  unfolding enqueue_before_last
  in_joined = ground (arith, has-before_last (chan_node c) (chan_node c) (v (chl_list g)))

  added_queues : IsQueues Node-discrete is_head added.links joined
  added_queues =
      list_head_append-IsQueues Node-discrete is_head q (chl_list g) (chan_node c) hg hc out

  -- `lwt_cgrp_add` of a channel that is in no group returns 0; it goes before the last channel of
  -- the group and knows its group.
  pub lwt_cgrp_add-IsQueues :
      Returns
        (λ r u. (r ≡ 0) × IsQueues Node-discrete is_head u.links joined × ((u.chan c).cgroup ≡ g))
        (lwt_cgrp_add g c w)
  lwt_cgrp_add-IsQueues = rw add_lem (refl, added_queues, ground arith)

  back : (h : Node) → is_head h ≡ true → dequeue Node-discrete joined (chan_node c) h ≡ v h
  unfolding dequeue enqueue_before_last
  back h hh = elim (Node-discrete (chl_list g) h) [
    | yes e ↦
        rw (if_pos (Node-discrete (chl_list g) h) e)
          (erase-before_last (chan_node c) (v (chl_list g)) (out (chl_list g) hg) ∙ ap v e)
    | no ne ↦
        rw (if_neg (Node-discrete (chl_list g) h) ne) (erase-out (chan_node c) (v h) (out h hh))
  ]

  -- Adding a channel, which is not `NULL`, is in no group, and is not ready, to a group and
  -- removing it again returns 0 and brings all queues back; the channel is loose and in no group.
  pub lwt_cgrp_rem-lwt_cgrp_add :
      (w.chan c).ready ≡ 0
      → Returns
          (λ r u.
            (r ≡ 0)
            × IsQueues Node-discrete is_head u.links v
            × IsLoose u.links (chan_node c)
            × ((u.chan c).cgroup ≡ 0))
          (and_then (lwt_cgrp_add g c w) (λ _. lwt_cgrp_rem g c))
  lwt_cgrp_rem-lwt_cgrp_add idle =
      let removed =
        list_ll_rem-IsQueues Node-discrete is_head added_queues (chan_node c)
          (inl (chl_list g, hg, in_joined)) in
      rw (add_lem, rem_lem g c added pos (ground arith) (ground arith))
        (
          refl,
          IsQueues-same is_head _ (dequeue Node-discrete joined (chan_node c)) v back removed.0,
          removed.1,
          ground arith,
        )
