-- ===== src/Group.antt =====
-- lwt_chl.c: channel groups.
pub mod Ready
pub mod Members
pub mod Sleep
pub mod Wakes
pub mod Lost
use light_weight_thread_libr.Prelude.{ℕ, zero, suc, not, Option, none, some, ◌==◌, if◌then◌else◌}
use light_weight_thread_libr.Links.{list_ll_empty}
use light_weight_thread_libr.State.{
  World, Node, Node-discrete, thread_node, chan_node, chl_list, blocked_receiving, set_chan,
  set_cgrp, list_rem, head_append, head_init, lwt_current,
}
use light_weight_thread_libr.State.Cmd.{
  Cmd, Outcome, done, fault, hung, pure, ◌>>=◌, ◌>>◌, modify, umalloc, ufree,
}
use light_weight_thread_libr.Sched.{lwt_yield}
use light_weight_thread_libr.Chan.Block.{count, set_blocked}
use light_weight_thread_libr.Chan.Send.{minus_one}

unfoldable pub fill_cgrp : ℕ → World → World
fill_cgrp cgrp w =
    let w' = head_init w (chl_list cgrp) in
    set_cgrp w' cgrp (record { owner = lwt_current w'; blocked = 0 })

unfoldable pub lwt_cgrp : Cmd ℕ
lwt_cgrp = do cgrp ← umalloc; if cgrp == 0 then pure 0 else do modify (fill_cgrp cgrp); pure cgrp

unfoldable pub lwt_cgrp_add : ℕ → ℕ → Cmd ℕ
lwt_cgrp_add cgrp chan w =
    if chan == 0
    then fault
    else if not ((w.chan chan).cgroup == 0)
    then done minus_one w
    else let w' = head_append w (chl_list cgrp) (chan_node chan) in
      done 0 (set_chan w' chan (record (w'.chan chan) { cgroup = cgrp }))

unfoldable pub lwt_cgrp_rem : ℕ → ℕ → Cmd ℕ
lwt_cgrp_rem cgrp chan w =
    if chan == 0
    then fault
    else if not ((w.chan chan).ready == 0)
    then done 1 w
    else if not ((w.chan chan).cgroup == cgrp)
    then done minus_one w
    else let w' = list_rem w (chan_node chan) in
      done 0 (set_chan w' chan (record (w'.chan chan) { cgroup = 0 }))

-- The second loop of `lwt_cgrp_free`.
unfoldable pub detach_loop : ℕ → ℕ → Node → Cmd (Unit {0})
detach_loop zero cgrp node w = hung
detach_loop (suc rounds) cgrp (chan_node chan) w =
    let w' = set_chan w chan (record (w.chan chan) { cgroup = 0 }) in
    detach_loop rounds cgrp (w'.links.n (chan_node chan)) w'
detach_loop (suc rounds) cgrp (chl_list g) w = if g == cgrp then done tt w else fault
detach_loop (suc rounds) cgrp _ w = fault

-- The first loop returns in its first round: only the test of `ready` stands under the `if`.
unfoldable pub lwt_cgrp_free : ℕ → Cmd ℕ
lwt_cgrp_free cgrp w =
    if not (list_ll_empty Node-discrete w.links (chl_list cgrp))
    then done minus_one w
    else (do
      (λ v. detach_loop v.rounds cgrp (v.links.n (chl_list cgrp)) v)
      modify (ufree cgrp)
      pure 0)
        w

-- The loop over the channels of a group: the first that is ready.
unfoldable pub find_ready : ℕ → ℕ → World → Node → Outcome (Option ℕ)
find_ready zero cgrp w node = hung
find_ready (suc rounds) cgrp w (chan_node chan) =
    let rest = find_ready rounds cgrp w (w.links.n (chan_node chan)) in
    if (w.chan chan).ready == 1 then done (some chan) w else rest
find_ready (suc rounds) cgrp w (chl_list g) = if g == cgrp then done none w else fault
find_ready (suc rounds) cgrp w _ = fault

unfoldable pub set_waiting : ℕ → ℕ → World → World
set_waiting cgrp blocked w = set_cgrp w cgrp (record (w.cgrp cgrp) { blocked = blocked })

-- The owner goes to sleep.
unfoldable pub wait_aside : ℕ → ℕ → World → World
wait_aside cgrp thread w =
    let w' = list_rem (set_waiting cgrp 1 w) (thread_node thread) in
    set_waiting cgrp 1 (set_blocked thread blocked_receiving (count blocked_receiving w'))

unfoldable pub wait_end : ℕ → ℕ → Option ℕ → Cmd ℕ → Cmd ℕ
wait_end cgrp thread (some chan) again w = done chan (set_waiting cgrp 0 w)
wait_end cgrp thread none again w = (do modify (wait_aside cgrp thread); _ ← lwt_yield 0; again) w

unfoldable pub wait_loop : ℕ → ℕ → ℕ → Cmd ℕ
wait_loop zero cgrp thread w = hung
wait_loop (suc rounds) cgrp thread w =
    let again = wait_loop rounds cgrp thread in
    (do
      found ← λ v. find_ready v.rounds cgrp v (v.links.n (chl_list cgrp))
      wait_end cgrp thread found again)
      w

unfoldable pub lwt_cgrp_wait : ℕ → Cmd ℕ
lwt_cgrp_wait cgrp w =
    let current_thread = lwt_current w in
    if list_ll_empty Node-discrete w.links (chl_list cgrp)
    then done 0 w
    else wait_loop w.rounds cgrp current_thread w
