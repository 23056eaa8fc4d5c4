-- ===== src/Programs/Threads.antt =====
-- main3.c: the tests of threads, `test_perf` and `test_crt_join_sched`, and the functions that
-- their threads run.
use light_weight_thread_libr.Prelude.{
  ℕ, zero, suc, ◌+◌, ◌*◌, ◌%◌, Bool, false, not, ◌&&◌, ◌==◌, if◌then◌else◌, ℕ_discrete,
}
use light_weight_thread_libr.Links.{update}
use light_weight_thread_libr.State.{World, nthd_runnable, nthd_zombies, nthd_blocked}
use light_weight_thread_libr.State.Cmd.{Cmd, done, fault, pure, ◌>>=◌, ◌>>◌, gets, modify}
use light_weight_thread_libr.Sched.{lwt_yield}
use light_weight_thread_libr.Thread.{lwt_create, lwt_die, lwt_join}
use light_weight_thread_libr.Info.{lwt_info}

-- A failed `assert` is a fault.
unfoldable pub assert : Bool → Cmd (Unit {0})
assert b w = if b then done tt w else fault

-- `for (i = 0; i < n; i++) body`, from the value of `i` that is given.
unfoldable pub for_loop : ℕ → ℕ → (ℕ → Cmd (Unit {0})) → Cmd (Unit {0})
for_loop zero i body w = done tt w
for_loop (suc n) i body w = (do body i; for_loop n (i + 1) body) w

-- The addresses of the functions, and of the variables `sched` and `curr`.
abbrev pub fn_null_at : ℕ
fn_null_at = 1001

abbrev pub fn_bounce_at : ℕ
fn_bounce_at = 1002

abbrev pub fn_identity_at : ℕ
fn_identity_at = 1003

abbrev pub fn_nested_joins_at : ℕ
fn_nested_joins_at = 1004

abbrev pub fn_sequence_at : ℕ
fn_sequence_at = 1005

abbrev pub fn_join_at : ℕ
fn_join_at = 1006

abbrev pub sched_at : ℕ → ℕ
sched_at i = 2000 + 4 * i

abbrev pub curr_at : ℕ
curr_at = 2008

abbrev pub store : ℕ → ℕ → World → World
store p x w = record w { memory = update ℕ_discrete w.memory p x }

abbrev pub yield_null : Cmd (Unit {0})
yield_null = do _ ← lwt_yield 0; pure tt

-- The division of a measured time by `n`, which is then printed.
unfoldable pub average : ℕ → Cmd (Unit {0})
average n w = if n == 0 then fault else done tt w

unfoldable pub is_reset : Cmd (Unit {0})
is_reset = do
  runnable ← lwt_info nthd_runnable
  zombies ← lwt_info nthd_zombies
  blocked ← lwt_info nthd_blocked
  assert ((runnable == 1) && (zombies == 0) && (blocked == 0))

unfoldable pub fn_null : ℕ → Cmd ℕ
fn_null d = pure 0

unfoldable pub fn_identity : ℕ → Cmd ℕ
fn_identity d = pure d

unfoldable pub fn_nested_joins : ℕ → Cmd ℕ
fn_nested_joins d = (do
  (if not (d == 0)
      then (do
        yield_null
        yield_null
        runnable ← lwt_info nthd_runnable
        assert (runnable == 1)
        lwt_die 0)
      else pure tt)
  chld ← lwt_create fn_nested_joins_at 1 false
  _ ← lwt_join chld
  pure d)

-- `sched` and `curr` are words of the memory.
unfoldable pub sequence_turn : ℕ → ℕ → Cmd (Unit {0})
sequence_turn val i = do
  other ← gets (λ w. w.memory curr_at)
  modify (λ w. store curr_at ((w.memory curr_at + 1) % 2) w)
  modify (λ w. store (sched_at (w.memory curr_at)) val w)
  last ← gets (λ w. w.memory (sched_at other))
  assert (not (last == val))
  yield_null

unfoldable pub fn_join : ℕ → Cmd ℕ
fn_join d = do r ← lwt_join d; assert (not (r == 226103)); pure d

-- `create` and `join` of one thread.
abbrev pub create : ℕ → ℕ → Cmd ℕ
create fn argument = lwt_create fn argument false

abbrev pub join : ℕ → Cmd (Unit {0})
join t = do _ ← lwt_join t; pure tt

-- One turn of the loop of `test_perf`.
unfoldable pub fork_join : ℕ → Cmd (Unit {0})
fork_join i = do chld1 ← create fn_null_at 0; join chld1

module _ (iter : ℕ) where
  unfoldable pub fn_bounce : ℕ → Cmd ℕ
  fn_bounce d = do
    yield_null
    yield_null
    for_loop iter 0 (λ i. yield_null)
    yield_null
    yield_null
    (if d == 0 then average (iter * 2) else pure tt)
    pure 0

  unfoldable pub fn_sequence : ℕ → Cmd ℕ
  fn_sequence d = do for_loop iter 0 (sequence_turn d); pure 0

  -- What `test_perf` does behind its first `IS_RESET`.
  unfoldable pub perf_yields : Cmd (Unit {0})
  perf_yields = do
    chld1 ← create fn_bounce_at 1
    chld2 ← create fn_bounce_at 0
    join chld1
    join chld2
    is_reset

  unfoldable pub test_perf : Cmd (Unit {0})
  test_perf = do for_loop iter 0 fork_join; average iter; is_reset; perf_yields

unfoldable pub test_scheduling : Cmd (Unit {0})
test_scheduling = do
  yield_null
  chld1 ← create fn_sequence_at 1
  chld2 ← create fn_sequence_at 2
  join chld2
  join chld1
  is_reset

unfoldable pub test_join : Cmd (Unit {0})
test_join = do
  chld1 ← create fn_null_at 0
  join chld1
  is_reset
  chld2 ← create fn_null_at 0
  yield_null
  join chld2
  is_reset
  chld3 ← create fn_nested_joins_at 0
  join chld3
  is_reset

unfoldable pub test_join_parents : Cmd (Unit {0})
test_join_parents = do
  chld1 ← create fn_identity_at 226103
  chld2 ← create fn_join_at chld1
  yield_null
  yield_null
  join chld2
  join chld1
  is_reset

unfoldable pub test_data : Cmd (Unit {0})
test_data = do
  chld1 ← create fn_identity_at 226103
  r ← lwt_join chld1
  assert (r == 226103)
  is_reset

unfoldable pub test_directed : Cmd (Unit {0})
test_directed = do
  chld1 ← create fn_null_at 0
  _ ← lwt_yield chld1
  zombies ← lwt_info nthd_zombies
  assert (zombies == 1)
  join chld1
  is_reset

unfoldable pub test_crt_join_sched : Cmd (Unit {0})
test_crt_join_sched = do test_scheduling; test_join; test_join_parents; test_data; test_directed
