-- ===== src/Tests.antt =====
-- A small system to apply the theorems to: kernel thread 0 runs thread 1, and the queues are filled
-- by the macros of lwt_list.h.
use light_weight_thread_libr.Prelude.{
  ℕ, ◌+◌, ◌≡◌, refl, ◌≢◌, Bool, true, false, List, [], ◌∷◌, arith, ◌==◌, if◌then◌else◌,
}
use light_weight_thread_libr.Links.{Links, update, list_head_add}
use light_weight_thread_libr.Links.Ring.{has, IsRing}
use light_weight_thread_libr.Links.Queues.{IsQueues, IsOut}
use light_weight_thread_libr.Links.Refine.{enqueue, list_head_add-IsQueues}
use light_weight_thread_libr.State.{
  World, Lwt, LwtChannel, LwtCgrp, KthdInfo, Node, Node-discrete, thread_node, chan_node, wrap_node,
  run_queue, sender_queue, chl_list, lwt_running, lwt_blocked, blocked_receiving, local_chan,
  ret_dispatch, lwt_current,
}
use light_weight_thread_libr.Sched.System.{System, AllThreads, has_node}
use light_weight_thread_libr.Chan.Contents.{IsChan}
use light_weight_thread_libr.Chan.Sending.{Open}
use light_weight_thread_libr.Chan.Receiving.{Readable}
pub mod Channels
pub mod Turns
pub mod Queues
pub mod Groups
pub mod Heaps
pub mod Programs
pub mod Deaths
pub mod Kthds

abbrev pub is_head : Node → Bool
is_head (thread_node t) = false
is_head (chan_node c) = false
is_head (wrap_node x) = false
is_head _ = true

abbrev pub no_links : Links Node
no_links = record { n = λ x. x; p = λ x. x }

abbrev pub no_queues : Node → List Node
no_queues h = []

pub no_links-IsQueues : (heads : Node → Bool) → IsQueues Node-discrete heads no_links no_queues
no_links-IsQueues heads = record {
  ring = λ h hh. record { seg = (refl, refl); nodup = (refl, tt) };
  inside = λ h x hh i. cc;
  apart = λ h g x hh hg i j. cc;
}

abbrev pub rq : Node
rq = run_queue 0

abbrev pub add : Links Node → Node → Node → Links Node
add = list_head_add Node-discrete

abbrev pub push : (Node → List Node) → Node → Node → Node → List Node
push = enqueue Node-discrete

-- Threads 1 and 2 in the run queue; thread 3 as well, or blocked on channel 7.
abbrev pub two_links : Links Node
two_links = add (add no_links rq (thread_node 1)) rq (thread_node 2)

abbrev pub two : Node → List Node
two = push (push no_queues rq (thread_node 1)) rq (thread_node 2)

abbrev pub with_links : Node → Links Node
with_links h = add two_links h (thread_node 3)

abbrev pub with_third : Node → Node → List Node
with_third h = push two h (thread_node 3)

pub two-IsQueues : IsQueues Node-discrete is_head two_links two
unfolding enqueue
two-IsQueues =
    list_head_add-IsQueues Node-discrete is_head
      (list_head_add-IsQueues Node-discrete is_head (no_links-IsQueues is_head) rq (thread_node 1)
        refl refl (λ h hh. refl))
      rq (thread_node 2) refl refl (λ h hh. ground arith)

pub two-IsOut : (t : ℕ) → t ≢ 1 → t ≢ 2 → IsOut Node-discrete is_head two (thread_node t)
unfolding enqueue
two-IsOut t a b h hh = ground arith

pub third-IsQueues :
    (h : Node) → is_head h ≡ true → IsQueues Node-discrete is_head (with_links h) (with_third h)
third-IsQueues h hh =
    list_head_add-IsQueues Node-discrete is_head two-IsQueues h (thread_node 3) hh refl
      (two-IsOut 3 (omega arith) (omega arith))

-- Thread 9 waits for a message of channel 7; all other threads can run.
abbrev pub thread : ℕ → Lwt
thread t = record {
  lwt_id = t;
  state = if t == 9 then lwt_blocked else lwt_running;
  block_for = blocked_receiving;
  parent = 1;
  message_data = t + 60;
  init_sp = 4096;
  context = record { ip = ret_dispatch; sp = 4000 };
  chl = 0;
  now_rcving = 7;
  nojoin = 0;
  owner_kthd = 0;
}

-- A channel of `size` cells with `tail` messages, each of them 4.
abbrev pub chan : ℕ → ℕ → ℕ → ℕ → LwtChannel
chan size tail receiver ready = record {
  chan_id = 0;
  type = local_chan;
  sq_occupied = 0;
  snd_cnt = 1;
  receiver = receiver;
  buffer = record { tail = tail; head = 0; count = 0; data_buffer = 30; cells = λ i. 4 };
  size = size;
  rb_occupied = 0;
  cgroup = 0;
  ready = ready;
  mark = 0;
}

abbrev pub world : Links Node → LwtChannel → World
world l c = record {
  links = l;
  thread = thread;
  chan = λ x. c;
  cgrp = λ g. record { owner = 1; blocked = 0 };
  wrap = λ x. 0;
  kthd = λ k. record {
    block_counter = 1;
    zombie_counter = 0;
    nrcving = 1;
    nsnding = 0;
    polling_flag = 0;
    current_thread = 1;
    main_thread = 1;
    wq_occupied = 0;
  };
  current_kthd = 0;
  lwt_counter = 10;
  chan_counter = 8;
  memory = λ a. 0;
  esp = 4000;
  supply = 20 ∷ 30 ∷ [];
  freed = [];
  rounds = 10;
}

pub world-System :
    (heads : Node → Bool) (l : Links Node) (v : Node → List Node) (c : LwtChannel)
    → IsQueues Node-discrete heads l v
    → heads rq ≡ true
    → ((t : ℕ) → heads (thread_node t) ≡ false)
    → AllThreads (v rq)
    → has_node (thread_node 1) (v rq) ≡ true
    → System heads (world l c) v
unfolding lwt_current
world-System heads l v c q hr ht runs here = record {
  queues = q;
  run_head = hr;
  nodes = ht;
  off = refl;
  runs = runs;
  current_in = here;
  owned = λ t i. refl;
}

abbrev pub two_world : LwtChannel → World
two_world = world two_links

abbrev pub third_world : Node → LwtChannel → World
third_world h = world (with_links h)

pub two-System : (c : LwtChannel) → System is_head (two_world c) two
unfolding enqueue Node-discrete
two-System c =
    world-System is_head two_links two c two-IsQueues refl (λ t. refl)
      ((λ e. omega arith), ((λ e. omega arith), tt)) refl

-- Thread 3 in the run queue, and blocked on channel 7.
pub three-System : (c : LwtChannel) → System is_head (third_world rq c) (with_third rq)
unfolding enqueue Node-discrete
three-System c =
    world-System is_head (with_links rq) (with_third rq) c (third-IsQueues rq refl) refl (λ t. refl)
      ((λ e. omega arith), ((λ e. omega arith), ((λ e. omega arith), tt))) refl

abbrev pub senders : Node
senders = sender_queue 7

pub sender-System : (c : LwtChannel) → System is_head (third_world senders c) (with_third senders)
unfolding enqueue Node-discrete
sender-System c =
    world-System is_head (with_links senders) (with_third senders) c (third-IsQueues senders refl)
      refl (λ t. refl) ((λ e. omega arith), ((λ e. omega arith), tt)) refl
