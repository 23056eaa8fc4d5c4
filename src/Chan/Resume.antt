-- ===== src/Chan/Resume.antt =====
-- `__resume_thread` and `__block_thread` on the queues, and what they leave alone.
use light_weight_thread_libr.Prelude.{
  ℕ, ◌^◌, ◌<◌, ◌≡◌, refl, ◌≢◌, ◌⊎◌, Bool, true, false, List, arith,
}
use light_weight_thread_libr.Links.{Links, list_ll_rem, list_head_append}
use light_weight_thread_libr.Links.Ring.{has, IsLoose}
use light_weight_thread_libr.Links.Queues.{IsQueues, IsOut}
use light_weight_thread_libr.Links.Refine.{
  dequeue, list_ll_rem-IsQueues, move_to_end, move_before_last, move_to_end-IsQueues,
  move_before_last-IsQueues,
}
use light_weight_thread_libr.State.{
  World, Node, Node-discrete, thread_node, run_queue, sender_queue, lwt_runnable, lwt_blocked,
  BlockStatus, blocked_sending, blocked_receiving, dec, inc, lwt_current, owner_run_queue,
}
use light_weight_thread_libr.Sched.Handed.{Kin}
use light_weight_thread_libr.Sched.{uncount, set_runnable}
use light_weight_thread_libr.Chan.Block.{count, set_blocked, put_aside, resume_thread}

-- Where a node stands: in the list of some head, or nowhere with its pointers at itself.
abbrev pub Placed : (Node → Bool) → Links Node → (Node → List Node) → Node → Type 0
Placed is_head l v x =
    ((h : Node) × (is_head h ≡ true) × (has Node-discrete x (v h) ≡ true))
    ⊎ (IsOut Node-discrete is_head v x × IsLoose l x)

-- The run queue that a resumed thread joins.
abbrev pub home : World → Node
home w = run_queue (w.thread (lwt_current w)).owner_kthd

pub links-resume_thread :
    (t : ℕ) (w : World)
    → (resume_thread t w).links
      ≡ list_head_append Node-discrete
          (list_ll_rem Node-discrete w.links (thread_node t))
          (home w)
          (thread_node t)
unfolding resume_thread uncount set_runnable owner_run_queue lwt_current
links-resume_thread t w = ground arith

-- A resumed thread goes before the last thread of the home queue.
pub resume_thread-IsQueues :
    (is_head : Node → Bool) (t : ℕ) (w : World) (v : Node → List Node)
    → IsQueues Node-discrete is_head w.links v
    → is_head (home w) ≡ true
    → is_head (thread_node t) ≡ false
    → Placed is_head w.links v (thread_node t)
    → IsQueues Node-discrete is_head
        (resume_thread t w).links
        (move_before_last Node-discrete v (home w) (thread_node t))
resume_thread-IsQueues is_head t w v q hh hx place =
    rw (links-resume_thread t w)
      (move_before_last-IsQueues Node-discrete is_head q (home w) (thread_node t) hh hx place)

-- It can run, its kernel thread counts one blocked thread less, and no message, channel or group
-- changes.
pub record Resumed (t : ℕ) (w u : World) : Type 0 where
  pub state : (u.thread t).state ≡ lwt_runnable
  pub states : (x : ℕ) → x ≢ t → (u.thread x).state ≡ (w.thread x).state
  pub messages : (x : ℕ) → (u.thread x).message_data ≡ (w.thread x).message_data
  pub owners : (x : ℕ) → (u.thread x).owner_kthd ≡ (w.thread x).owner_kthd
  pub chan : u.chan ≡ w.chan
  pub cgrp : u.cgrp ≡ w.cgrp
  pub kthd : u.current_kthd ≡ w.current_kthd
  pub current : lwt_current u ≡ lwt_current w
  pub polling : (x : ℕ) → (u.kthd x).polling_flag ≡ (w.kthd x).polling_flag
  pub blocked : (u.kthd w.current_kthd).block_counter ≡ dec (w.kthd w.current_kthd).block_counter

pub resume_thread-Resumed : (t : ℕ) (w : World) → Resumed t w (resume_thread t w)
unfolding resume_thread uncount set_runnable lwt_current
resume_thread-Resumed t w = record {
  state = ground arith;
  states = λ x ne. ground arith;
  messages = λ x. ground arith;
  owners = λ x. ground arith;
  chan = refl;
  cgrp = refl;
  kthd = refl;
  current = ground arith;
  polling = λ x. ground arith;
  blocked = ground arith;
}

-- What a thread that blocks for sending leaves behind.
pub put_aside-sending :
    (is_head : Node → Bool) (t c : ℕ) (w : World) (v : Node → List Node)
    → IsQueues Node-discrete is_head w.links v
    → is_head (sender_queue c) ≡ true
    → is_head (thread_node t) ≡ false
    → Placed is_head w.links v (thread_node t)
    → IsQueues Node-discrete is_head
        (put_aside t blocked_sending c w).links
        (move_to_end Node-discrete v (sender_queue c) (thread_node t))
unfolding put_aside count set_blocked
put_aside-sending is_head t c w v q hh hx place =
    move_to_end-IsQueues Node-discrete is_head q (sender_queue c) (thread_node t) hh hx place

pub record PutAside (t : ℕ) (b : BlockStatus) (w u : World) : Type 0 where
  pub state : (u.thread t).state ≡ lwt_blocked
  pub block_for : (u.thread t).block_for ≡ b
  pub messages : (x : ℕ) → (u.thread x).message_data ≡ (w.thread x).message_data
  pub owners : (x : ℕ) → (u.thread x).owner_kthd ≡ (w.thread x).owner_kthd
  pub rcving : (x : ℕ) → (u.thread x).now_rcving ≡ (w.thread x).now_rcving
  pub contexts : (x : ℕ) → (u.thread x).context ≡ (w.thread x).context
  pub kin : Kin w u
  pub chan : u.chan ≡ w.chan
  pub cgrp : u.cgrp ≡ w.cgrp
  pub kthd : u.current_kthd ≡ w.current_kthd
  pub current : lwt_current u ≡ lwt_current w
  pub polling : (x : ℕ) → (u.kthd x).polling_flag ≡ (w.kthd x).polling_flag
  pub blocked : (u.kthd w.current_kthd).block_counter ≡ inc (w.kthd w.current_kthd).block_counter

pub put_aside-PutAside :
    (t : ℕ) (b : BlockStatus) (c : ℕ) (w : World) → PutAside t b w (put_aside t b c w)
unfolding put_aside count set_blocked lwt_current
put_aside-PutAside t b c w = record {
  state = ground arith;
  block_for = ground arith;
  messages = λ x. ground arith;
  owners = λ x. ground arith;
  rcving = λ x. ground arith;
  contexts = λ x. ground arith;
  kin = λ x. (ground arith, ground arith, ground arith);
  chan = ground arith;
  cgrp = ground arith;
  kthd = ground arith;
  current = ground arith;
  polling = λ x. ground arith;
  blocked = ground arith;
}

pub put_aside-receiving :
    (is_head : Node → Bool) (t c : ℕ) (w : World) (v : Node → List Node)
    → IsQueues Node-discrete is_head w.links v
    → Placed is_head w.links v (thread_node t)
    → IsQueues Node-discrete is_head
        (put_aside t blocked_receiving c w).links
        (dequeue Node-discrete v (thread_node t))
      × IsLoose (put_aside t blocked_receiving c w).links (thread_node t)
unfolding put_aside count set_blocked
put_aside-receiving is_head t c w v q place =
    list_ll_rem-IsQueues Node-discrete is_head q (thread_node t) place

-- Blocking a thread and resuming it at once leaves the three counters, of 32 bits, of the kernel
-- thread as they were.
counters-resume-put_aside :
    (t : ℕ) (b : BlockStatus) (c : ℕ) (w : World)
    → (w.kthd w.current_kthd).block_counter < 2 ^ 32
    → (w.kthd w.current_kthd).nrcving < 2 ^ 32
    → (w.kthd w.current_kthd).nsnding < 2 ^ 32
    → let u = resume_thread t (put_aside t b c w) in
      ((u.kthd w.current_kthd).block_counter ≡ (w.kthd w.current_kthd).block_counter)
      × ((u.kthd w.current_kthd).nrcving ≡ (w.kthd w.current_kthd).nrcving)
      × ((u.kthd w.current_kthd).nsnding ≡ (w.kthd w.current_kthd).nsnding)
unfolding put_aside count set_blocked resume_thread uncount set_runnable
counters-resume-put_aside t blocked_receiving c w hb hr hs =
    (ground arith, ground arith, ground arith)
counters-resume-put_aside t blocked_sending c w hb hr hs =
    (ground arith, ground arith, ground arith)
