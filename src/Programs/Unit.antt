-- ===== src/Programs/Unit.antt =====
-- unit_schedlib.c: the tests on Composite. Those that main3.c has too are taken from there, but for
-- three functions that here return no value.
use light_weight_thread_libr.Prelude.{ℕ, zero, suc, ◌/◌, false, not, ltb, ◌==◌, if◌then◌else◌}
use light_weight_thread_libr.State.{World, global_chan, nthd_runnable}
use light_weight_thread_libr.State.Cmd.{Cmd, hung, pure, ◌>>=◌, ◌>>◌, gets, modify}
use light_weight_thread_libr.Chan.Life.{lwt_chan, set_chan_type}
use light_weight_thread_libr.Chan.Send.{lwt_snd}
use light_weight_thread_libr.Chan.Receive.{lwt_rcv}
use light_weight_thread_libr.Thread.{lwt_create, lwt_die, lwt_join}
use light_weight_thread_libr.Info.{lwt_info}
use light_weight_thread_libr.Kthd.{lwt_kthd_create}
use light_weight_thread_libr.Programs.Threads.{
  assert, for_loop, store, yield_null, fn_nested_joins_at, fn_join_at, test_perf,
  test_crt_join_sched,
}
use light_weight_thread_libr.Programs.Channels.{
  fn_grpwait_at, fn_grpwait_turn, test_perf_channels, test_perf_async_steam, test_multisend,
  test_grpwait,
}
use light_weight_thread_libr.Programs.Main.{code}

-- The addresses of the functions, and of the variables `t0`, `t1`, `c0` and `c1`.
abbrev lwt1_test_at : ℕ
lwt1_test_at = 1021

abbrev lwt2_test_at : ℕ
lwt2_test_at = 1022

abbrev test_low_at : ℕ
test_low_at = 1023

abbrev test_high_at : ℕ
test_high_at = 1024

abbrev pub test_file_at : ℕ
test_file_at = 1025

abbrev t0_at : ℕ
t0_at = 2020

abbrev t1_at : ℕ
t1_at = 2024

abbrev c0_at : ℕ
c0_at = 2044

abbrev c1_at : ℕ
c1_at = 2048

abbrev pub unit_iter : ℕ
unit_iter = 1000

abbrev unit_buffered : ℕ
unit_buffered = if ltb (unit_iter / 10) 100 then unit_iter / 10 else 100

-- What `test_file` does behind `test_perf`.
unfoldable pub file_tests : Cmd ℕ
file_tests = do
  test_perf_channels unit_iter 0
  test_perf_async_steam unit_iter unit_buffered
  test_crt_join_sched
  test_multisend unit_iter 0
  test_multisend unit_iter unit_buffered
  test_grpwait unit_iter 0 15
  test_grpwait unit_iter 15 15
  pure 0

unfoldable pub test_file : Cmd ℕ
test_file = do test_perf unit_iter; file_tests

-- `unspecified` is what a caller finds as the value of a function that returns none.
module _ (unspecified : ℕ) where
  unfoldable pub unit_fn_nested_joins : ℕ → Cmd ℕ
  unit_fn_nested_joins d = do
    (if not (d == 0)
        then (do
          yield_null
          yield_null
          runnable ← lwt_info nthd_runnable
          assert (runnable == 1)
          lwt_die 0)
        else pure tt)
    chld ← lwt_create fn_nested_joins_at 1 false
    _ ← lwt_join chld
    pure unspecified

  unfoldable pub unit_fn_join : ℕ → Cmd ℕ
  unit_fn_join d = do r ← lwt_join d; assert (not (r == 226103)); pure unspecified

  unfoldable pub unit_fn_grpwait : ℕ → Cmd ℕ
  unit_fn_grpwait c = do for_loop unit_iter 0 (fn_grpwait_turn c); pure unspecified

  unfoldable pub lwt1_test : ℕ → Cmd ℕ
  lwt1_test d = do
    c0 ← lwt_chan 100
    modify (store c0_at c0)
    modify (set_chan_type c0 global_chan)
    _ ← lwt_rcv c0
    pure unspecified

  unfoldable pub lwt2_test : ℕ → Cmd ℕ
  lwt2_test d = do
    c1 ← lwt_chan 100
    modify (store c1_at c1)
    modify (set_chan_type c1 global_chan)
    c0 ← gets (λ w. w.memory c0_at)
    _ ← lwt_snd c0 8
    pure unspecified

  -- `while (1)`, for `rounds` turns; `sl_yield` is what the kernel thread `t` does in
  -- `sl_thd_yield`, and `SPIN` does nothing.
  unfoldable pub high_loop : (ℕ → World → World) → ℕ → ℕ → Cmd ℕ
  high_loop sl_yield zero t w = hung
  high_loop sl_yield (suc rounds) t w =
      let again = high_loop sl_yield rounds t in
      (do assert (not (t == 0)); modify (sl_yield t); yield_null; again) w

  unfoldable pub test_high : (ℕ → World → World) → ℕ → Cmd ℕ
  test_high sl_yield t = do
    t0 ← lwt_create lwt1_test_at 0 false
    modify (store t0_at t0)
    λ w. high_loop sl_yield w.rounds t w

  unfoldable pub low_loop : ℕ → Cmd ℕ
  low_loop zero w = hung
  low_loop (suc rounds) w = let again = low_loop rounds in (do yield_null; again) w

  unfoldable pub test_low : ℕ → Cmd ℕ
  test_low d = do
    t1 ← lwt_create lwt2_test_at 0 false
    modify (store t1_at t1)
    λ w. low_loop w.rounds w

  unfoldable pub unit_code : (ℕ → World → World) → ℕ → ℕ → Cmd ℕ
  unit_code sl_yield fn d =
      if fn == fn_nested_joins_at
      then unit_fn_nested_joins d
      else if fn == fn_join_at
      then unit_fn_join d
      else if fn == fn_grpwait_at
      then unit_fn_grpwait d
      else if fn == lwt1_test_at
      then lwt1_test d
      else if fn == lwt2_test_at
      then lwt2_test d
      else if fn == test_low_at
      then test_low d
      else if fn == test_high_at
      then test_high sl_yield d
      else if fn == test_file_at
      then test_file
      else code unit_iter fn d

-- `sl_loop` is `sl_sched_loop`, which runs the kernel threads.
module _ (sl_thd_alloc : ℕ → World → ℕ) (thdid : ℕ → ℕ) (sl_loop : World → World) where
  unfoldable pub test_hw3 : Cmd (Unit {0})
  test_hw3 = do _ ← lwt_kthd_create sl_thd_alloc thdid test_file_at 0; modify sl_loop

  unfoldable pub test_kthd : Cmd (Unit {0})
  test_kthd = do
    low ← lwt_kthd_create sl_thd_alloc thdid test_low_at 0
    assert (not (low == 0))
    _ ← lwt_kthd_create sl_thd_alloc thdid test_high_at low
    modify sl_loop
