-- ===== src/Lib.antt =====
-- A light-weight thread library in C for the Composite operating system: cooperative threads on a
-- kernel thread, the channels by which they communicate, and groups of channels.
--
-- The parts, and the files that model them:
--   Links      lwt_list.h: the circular lists, over one heap of nodes. Links/Queues says what the
--              links stand for, a map from heads to queues; Links/Ops, Links/Insert and Links/Remove
--              show what the pointers do, Links/Refine and Links/Init that each operation is an
--              operation on that map.
--   State      lwt.h: the structs, as records, and `World`, everything that the library reads and
--              writes. State/Cmd has the outcome of a run: code that gives the processor away
--              returns the world at that moment and the rest of the run, a function of the world
--              in which it comes back. State/Gives reads such outcomes.
--   Sched      lwt.c: `__lwt_dispatch`, `__lwt_schedule`, `lwt_yield`. Sched/System has the
--              invariant of a kernel thread, Sched/Turns who runs next, Sched/Rounds round robin.
--   Chan       lwt_chl.c: channels. Chan/Buffer, Chan/Life, Chan/Block, Chan/Send and Chan/Receive
--              model the code, one definition for each stage of `lwt_snd` and `lwt_rcv`.
--              Chan/Contents has the specification: a channel stands for the messages in its buffer
--              and, behind them, those of the senders that are blocked on it. Chan/Fifo, Chan/Full,
--              Chan/Receiving, Chan/Refilling, Chan/Meeting, Chan/Waiting and Chan/Handing follow
--              each branch of sending and receiving.
--   Thread     lwt.c: `__init_thread`, `lwt_create`, `lwt_die`, `__lwt_trampoline`, `lwt_join`,
--              `__initiate`, `init_kthd`.
--   Group      lwt_chl.c: `lwt_cgrp`, `lwt_cgrp_add`, `lwt_cgrp_rem`, `lwt_cgrp_free`,
--              `lwt_cgrp_wait`. Group/Ready, Group/Sleep and Group/Wakes follow a wait, with a
--              ready channel, without one, and when a message comes; Group/Lost the message that a
--              waiting owner does not see.
--   Info       lwt_chl.c: `lwt_info`, `lwt_snd_thd`, `lwt_rcv_thd`.
--   Kthd       lwt_chl.c: `lwt_kthd_create` and `lwt_kthd_trampline`; what sl does is a parameter,
--              but for its setting of `current_kthd`, which is `enter_kthd` of State. Nothing but
--              `lwt_kthd_create` calls `__initiate`, so that a program of the library starts there.
--   Heap       umalloc.c: the allocator, on a memory of its own.
--   Machine    lwt.c: the threads of a kernel thread together. A step is a switch: the rest of the
--              run of the old thread is saved, and the new one goes on where its `ip` says, behind
--              its own dispatch or in `__lwt_trampoline`. Machine/Reach has executions as chains of
--              steps, Machine/Round and Machine/Child the life of a child that is joined first,
--              Machine/Collect and Machine/Early of one that dies first, Machine/ForkJoin a test of
--              main3.c for every number of its turns, and Machine/Boot this test in a kernel thread
--              from its creation on.
--   Programs   main3.c: the tests of the library as a program of the machine. Programs/Unit has what
--              unit_schedlib.c changes in them, and its tests of kernel threads.
--   Prelude    shared names, tests on numbers and lemmas on lists.
--   Tests      a small system, and each theorem applied to it.
--
-- A function keeps its name, without leading underscores. An `int` or a pointer is its bit pattern
-- below 2 ^ 32, with the wrap-around written out; `NULL` is 0. A struct is found by its address in
-- the map for its type. `fault` is the outcome of undefined behaviour: of following `NULL` where the
-- library may hold it (a result of `umalloc`, a receiver, a message, the channel or thread of a
-- call), of following what is no such object, of an access in front of a channel's buffer, and of a
-- division by zero. The group of a call is taken to be one, and so is the channel of `set_chan_type`
-- and of the two functions of its mark.
--
-- The words of the results: the invariant is `System`, by which the links stand for the queues of
-- all heads, no kernel thread polls, and the current thread is in the run queue of its kernel
-- thread, which holds threads of that kernel thread only. `IsChan` is a channel in use, with
-- counters below 2 ^ 31; `Open` is such a local channel with a receiver and no group that waits for
-- it, `Readable` such a local channel under the invariant. `Idle` is a kernel thread under the
-- invariant that has one thread in its run queue.
--
-- Loops: those over a queue, and the two that wait, run for `rounds` turns, a field of the world,
-- and the outcome is `hung` when these are used up. More rounds than a queue has nodes are enough,
-- as the theorems on the loops ask. A lock that is taken is never released by anybody else, so the
-- retry of `cas_lock` then hangs.
--
-- The searches of the allocator run on fuel, of which they take one for each block; the page
-- allocator of the kernel is the list `pages` of what its calls return. The results of
-- `umalloc` in the files other than Heap are the addresses of the list `supply`, since they depend
-- on nothing else of the allocator.
--
-- Not modelled: sl.c and sl.h, which are a copy of Composite's own scheduler library, and the
-- kernel's page allocator; the functions that print, and the output and the measurements of the
-- tests, but for the division of a measured time by `ITER`; of unit_schedlib.c, the tests that only
-- call Composite, and its set-up. Several kernel threads at the same time are not modelled: the
-- machine runs the threads of one.
pub mod Prelude
pub mod Links
pub mod State
pub mod Sched
pub mod Chan
pub mod Thread
pub mod Group
pub mod Info
pub mod Heap
pub mod Kthd
pub mod Machine
pub mod Programs
pub mod Tests
