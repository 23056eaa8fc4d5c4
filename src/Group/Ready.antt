-- ===== src/Group/Ready.antt =====
-- lwt_chl.c: the loops over the channels of a group, in `lwt_cgrp_wait` and `lwt_cgrp_free`.
use light_weight_thread_libr.Prelude.{
  ℕ, zero, suc, ◌<◌, ◌≡◌, refl, subst, ◌≢◌, inl, inr, Bool, true, false, none, some, List, [], ◌∷◌,
  ◌++◌, arith, ne→==, ==-of_eq, if◌then◌else◌, length, Bool-cases, head_or,
}
use light_weight_thread_libr.Links.Ring.{Seg}
use light_weight_thread_libr.Links.Queues.{IsQueues}
use light_weight_thread_libr.Links.Refine.{is_empty, list_ll_empty-eq, n-head_or}
use light_weight_thread_libr.State.{World, lwt_current, Node, Node-discrete, chan_node, chl_list}
use light_weight_thread_libr.State.Cmd.{done, ufree}
use light_weight_thread_libr.Chan.Send.{minus_one}
use light_weight_thread_libr.Group.{
  detach_loop, lwt_cgrp_free, find_ready, set_waiting, wait_end, wait_loop, lwt_cgrp_wait,
}

-- Channels of which none is ready.
abbrev pub NoneReady : World → List Node → Type 0
NoneReady w [] = Unit
NoneReady w (chan_node c ∷ xs) = ((w.chan c).ready ≢ 1) × NoneReady w xs
NoneReady w (x ∷ xs) = ⊥

-- The loop steps over channels that are not ready.
pub find_ready-skip :
    (fuel g : ℕ) (w : World) (c : ℕ) (a : Node) (front back : List Node)
    → NoneReady w front
    → Seg w.links a (front ++ chan_node c ∷ back) (chl_list g)
    → (w.chan c).ready ≡ 1
    → length front < fuel
    → find_ready fuel g w (w.links.n a) ≡ done (some c) w
unfolding find_ready
find_ready-skip zero g w c a front back idle s r lt = absurd (omega arith)
find_ready-skip (suc fuel) g w c a [] back idle s r lt = rw (s.0, ==-of_eq (w.chan c).ready 1 r)
find_ready-skip (suc fuel) g w c a (chan_node d ∷ front) back idle s r lt =
    rw (s.0, ne→== (w.chan d).ready 1 idle.0)
      (find_ready-skip fuel g w c (chan_node d) front back idle.1 s.2 r (omega arith))
find_ready-skip (suc fuel) g w c a (_ ∷ front) back idle s r lt = absurd idle

pub find_ready-none :
    (fuel g : ℕ) (w : World) (a : Node) (xs : List Node)
    → NoneReady w xs
    → Seg w.links a xs (chl_list g)
    → length xs < fuel
    → find_ready fuel g w (w.links.n a) ≡ done none w
unfolding find_ready
find_ready-none zero g w a xs idle s lt = absurd (omega arith)
find_ready-none (suc fuel) g w a [] idle s lt = rw (s.0, ==-of_eq g g refl)
find_ready-none (suc fuel) g w a (chan_node d ∷ xs) idle s lt =
    rw (s.0, ne→== (w.chan d).ready 1 idle.0)
      (find_ready-none fuel g w (chan_node d) xs idle.1 s.2 (omega arith))
find_ready-none (suc fuel) g w a (_ ∷ xs) idle s lt = absurd idle

not_empty : (c : ℕ) (front back : List Node) → is_empty (front ++ chan_node c ∷ back) ≡ false
not_empty c [] back = refl
not_empty c (x ∷ front) back = refl

empty_head : (h : Node) (xs : List Node) → is_empty xs ≡ true → head_or h xs ≡ h
empty_head h [] e = refl
empty_head h (x ∷ xs) e = cc

pub wait_loop-found :
    (fuel g c t : ℕ) (w : World)
    → find_ready w.rounds g w (w.links.n (chl_list g)) ≡ done (some c) w
    → 0 < fuel
    → wait_loop fuel g t w ≡ done c (set_waiting g 0 w)
unfolding wait_loop wait_end
wait_loop-found zero g c t w e lt = absurd (omega arith)
wait_loop-found (suc fuel) g c t w e lt = rw e

detach_loop-end :
    (fuel g : ℕ) (w : World) → 0 < fuel → detach_loop fuel g (chl_list g) w ≡ done tt w
unfolding detach_loop
detach_loop-end zero g w lt = absurd (omega arith)
detach_loop-end (suc fuel) g w lt = rw (==-of_eq g g refl)

module _ (is_head : Node → Bool) (w : World) (v : Node → List Node) (g : ℕ)
    (q : IsQueues Node-discrete is_head w.links v) (hg : is_head (chl_list g) ≡ true) where
  -- `lwt_cgrp_wait` on a group with a ready channel returns the first of these at once, and marks
  -- the group as not waited for; more rounds than channels in front of it are enough.
  pub lwt_cgrp_wait-ready :
      (c : ℕ) (front back : List Node)
      → v (chl_list g) ≡ front ++ chan_node c ∷ back
      → NoneReady w front
      → (w.chan c).ready ≡ 1
      → length front < w.rounds
      → lwt_cgrp_wait g w ≡ done c (set_waiting g 0 w)
  unfolding lwt_cgrp_wait
  lwt_cgrp_wait-ready c front back e idle r lt =
      let s : Seg w.links (chl_list g) (front ++ chan_node c ∷ back) (chl_list g) =
        subst (λ l. Seg w.links (chl_list g) l (chl_list g)) e (q.ring (chl_list g) hg).seg in
      rw (list_ll_empty-eq Node-discrete is_head q (chl_list g) hg, e, not_empty c front back)
        (wait_loop-found w.rounds g c (lwt_current w) w
          (find_ready-skip w.rounds g w c (chl_list g) front back idle s r lt) (omega arith))

  -- Given one round, `lwt_cgrp_free` frees a group without channels and returns 0; a group that
  -- has one, ready or not, it leaves alone and returns -1.
  pub lwt_cgrp_free_lem :
      0 < w.rounds
      → lwt_cgrp_free g w
        ≡ (if is_empty (v (chl_list g)) then done 0 (ufree g w) else done minus_one w)
  unfolding lwt_cgrp_free
  lwt_cgrp_free_lem some_rounds =
      rw (list_ll_empty-eq Node-discrete is_head q (chl_list g) hg)
        (elim (Bool-cases (is_empty (v (chl_list g)))) [
          | inl t ↦ rw (
            t,
            n-head_or Node-discrete is_head q (chl_list g) hg,
            empty_head (chl_list g) (v (chl_list g)) t,
            detach_loop-end w.rounds g w some_rounds,
          )
          | inr f ↦ rw f
        ])
