-- ===== src/State.antt =====
-- lwt.h: the structs of the library, and the memory that holds them.
-- An `int` or a pointer is its bit pattern, below 2 ^ 32; `NULL` is 0. A struct is found by its
-- address in the map for its type, and `ufree` leaves its contents, as it does in memory.
pub mod Cmd
pub mod Gives
use mathlib.Core.Logic.{ite}
use light_weight_thread_libr.Prelude.{
  ℕ, ◌+◌, ◌-◌, ◌%◌, ◌^◌, Bool, true, false, List, ℕ_discrete, ltb, if◌then◌else◌,
}
use light_weight_thread_libr.Links.{
  Links, update, list_ll_init, list_ll_rem, list_head_add, list_head_append,
}

-- The `struct list` of each object: those that are linked in (a thread, a channel, a wrapped
-- thread) and the heads of the queues of a kernel thread, of a channel and of a channel group.
pub data Node : Type 0 where
  thread_node : (thread : ℕ) → Node
  chan_node : (chan : ℕ) → Node
  wrap_node : (wrap : ℕ) → Node
  run_queue : (kthd : ℕ) → Node
  recycle_queue : (kthd : ℕ) → Node
  wakeup_queue : (kthd : ℕ) → Node
  sender_queue : (chan : ℕ) → Node
  chl_list : (cgrp : ℕ) → Node

unfoldable pub Node-discrete : Discrete Node
unfolding ℕ_discrete
Node-discrete = hlevel ℕ_discrete

pub data LwtInfo : Type 0 where
  nthd_runnable nthd_blocked nthd_zombies nthd_recycle nsnding nrcving njoining : LwtInfo

pub data LwtStatus : Type 0 where
  lwt_runnable lwt_blocked lwt_zombies lwt_running : LwtStatus

pub data BlockStatus : Type 0 where
  blocked_receiving blocked_sending : BlockStatus

pub data ChanType : Type 0 where
  local_chan global_chan : ChanType

-- The code that a context resumes: `__lwt_trampoline`, or the label behind the jump of
-- `__lwt_dispatch`.
pub data Ip : Type 0 where
  trampoline ret_dispatch : Ip

pub record LwtContext : Type 0 where
  pub ip : Ip
  pub sp : ℕ

-- The array that `data_buffer` points at is `cells`.
pub record BufferRing : Type 0 where
  pub tail : ℕ
  pub head : ℕ
  pub count : ℕ
  pub data_buffer : ℕ
  pub cells : ℕ → ℕ

-- `sender_queue` and `list_node` are nodes of `Links`.
pub record LwtChannel : Type 0 where
  pub chan_id : ℕ
  pub type : ChanType
  pub sq_occupied : ℕ
  pub snd_cnt : ℕ
  pub receiver : ℕ
  pub buffer : BufferRing
  pub size : ℕ
  pub rb_occupied : ℕ
  pub cgroup : ℕ
  pub ready : ℕ
  pub mark : ℕ

pub record Lwt : Type 0 where
  pub lwt_id : ℕ
  pub state : LwtStatus
  pub block_for : BlockStatus
  pub parent : ℕ
  pub message_data : ℕ
  pub init_sp : ℕ
  pub context : LwtContext
  pub chl : ℕ
  pub now_rcving : ℕ
  pub nojoin : ℕ
  pub owner_kthd : ℕ

pub record LwtCgrp : Type 0 where
  pub owner : ℕ
  pub blocked : ℕ

pub record KthdInfo : Type 0 where
  pub block_counter : ℕ
  pub zombie_counter : ℕ
  pub nrcving : ℕ
  pub nsnding : ℕ
  pub polling_flag : ℕ
  pub current_thread : ℕ
  pub main_thread : ℕ
  pub wq_occupied : ℕ

-- Everything that the library reads and writes. `memory` holds the words of the stacks, `esp` is
-- the stack pointer. `supply` is what the coming calls of `umalloc` return (0 when it has run
-- out), `freed` what `ufree` was given, the latest first, and `rounds` how often the loops over
-- the wakeup queue and those that wait may go round.
pub record World : Type 0 where
  pub links : Links Node
  pub thread : ℕ → Lwt
  pub chan : ℕ → LwtChannel
  pub cgrp : ℕ → LwtCgrp
  pub wrap : ℕ → ℕ
  pub kthd : ℕ → KthdInfo
  pub current_kthd : ℕ
  pub lwt_counter : ℕ
  pub chan_counter : ℕ
  pub memory : ℕ → ℕ
  pub esp : ℕ
  pub supply : List ℕ
  pub freed : List ℕ
  pub rounds : ℕ

-- `x + 1`, `x - 1` and `x - y` on an `int`.
abbrev pub inc : ℕ → ℕ
inc x = (x + 1) % 2 ^ 32

abbrev pub dec : ℕ → ℕ
dec x = (x + (2 ^ 32 - 1)) % 2 ^ 32

abbrev pub sub : ℕ → ℕ → ℕ
sub x y = (x + 2 ^ 32 - y) % 2 ^ 32

abbrev pub is_receiving : BlockStatus → Bool
is_receiving blocked_receiving = true
is_receiving blocked_sending = false

abbrev pub is_sending : BlockStatus → Bool
is_sending blocked_receiving = false
is_sending blocked_sending = true

abbrev pub is_blocked : LwtStatus → Bool
is_blocked lwt_blocked = true
is_blocked _ = false

-- `state == LWT_RUNNABLE || state == LWT_RUNNING`.
abbrev pub can_run : LwtStatus → Bool
can_run lwt_runnable = true
can_run lwt_running = true
can_run _ = false

-- Stores.
abbrev pub set_thread : World → ℕ → Lwt → World
set_thread w t r = record w { thread = update ℕ_discrete w.thread t r }

abbrev pub set_chan : World → ℕ → LwtChannel → World
set_chan w c r = record w { chan = update ℕ_discrete w.chan c r }

abbrev pub set_cgrp : World → ℕ → LwtCgrp → World
set_cgrp w g r = record w { cgrp = update ℕ_discrete w.cgrp g r }

abbrev pub set_kthd : World → ℕ → KthdInfo → World
set_kthd w k r = record w { kthd = update ℕ_discrete w.kthd k r }

-- The list macros on nodes of the heap.
abbrev pub list_rem : World → Node → World
list_rem w x = record w { links = list_ll_rem Node-discrete w.links x }

abbrev pub head_add : World → Node → Node → World
head_add w h x = record w { links = list_head_add Node-discrete w.links h x }

abbrev pub head_append : World → Node → Node → World
head_append w h x = record w { links = list_head_append Node-discrete w.links h x }

abbrev pub head_init : World → Node → World
head_init w h = record w { links = list_ll_init Node-discrete w.links h }

-- `kthds[current_kthd]`, and the accessors of lwt.c.
-- `current_kthd = t->thdid`, when sl goes on with the kernel thread of index `k`.
abbrev pub enter_kthd : ℕ → World → World
enter_kthd k w = record w { current_kthd = k }

abbrev pub current_info : World → KthdInfo
current_info w = w.kthd w.current_kthd

unfoldable pub lwt_current : World → ℕ
lwt_current w = (current_info w).current_thread

unfoldable pub current_run_queue : World → Node
current_run_queue w = run_queue w.current_kthd

unfoldable pub owner_run_queue : World → Node
unfolding lwt_current
owner_run_queue w = run_queue (w.thread (lwt_current w)).owner_kthd

unfoldable pub current_recycle_queue : World → Node
current_recycle_queue w = recycle_queue w.current_kthd

unfoldable pub lwt_id : World → ℕ → ℕ
lwt_id w input_thread = (w.thread input_thread).lwt_id
