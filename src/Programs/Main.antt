-- ===== src/Programs/Main.antt =====
-- main3.c: `main`, and the functions of the program by their addresses.
use light_weight_thread_libr.Prelude.{ℕ, ◌/◌, ltb, ◌==◌, if◌then◌else◌}
use light_weight_thread_libr.State.Cmd.{Cmd, fault, pure, ◌>>◌}
use light_weight_thread_libr.Programs.Threads.{
  fn_null_at, fn_bounce_at, fn_identity_at, fn_nested_joins_at, fn_sequence_at, fn_join_at, fn_null,
  fn_bounce, fn_identity, fn_nested_joins, fn_sequence, fn_join, test_perf, test_crt_join_sched,
}
use light_weight_thread_libr.Programs.Channels.{
  fn_chan_at, fn_snder_1_at, fn_snder_2_at, fn_async_steam_at, fn_grpwait_at, fn_chan, fn_snder_1,
  fn_snder_2, fn_async_steam, fn_grpwait, test_perf_channels, test_perf_async_steam, test_multisend,
  test_grpwait,
}

-- `iter` is `ITER`.
module _ (iter : ℕ) where
  unfoldable pub code : ℕ → ℕ → Cmd ℕ
  code fn d =
      if fn == fn_null_at
      then fn_null d
      else if fn == fn_bounce_at
      then fn_bounce iter d
      else if fn == fn_identity_at
      then fn_identity d
      else if fn == fn_nested_joins_at
      then fn_nested_joins d
      else if fn == fn_sequence_at
      then fn_sequence iter d
      else if fn == fn_join_at
      then fn_join d
      else if fn == fn_chan_at
      then fn_chan iter d
      else if fn == fn_snder_1_at
      then fn_snder_1 iter d
      else if fn == fn_snder_2_at
      then fn_snder_2 iter d
      else if fn == fn_async_steam_at
      then fn_async_steam iter d
      else if fn == fn_grpwait_at
      then fn_grpwait iter d
      else λ w. fault

  abbrev buffered : ℕ
  buffered = if ltb (iter / 10) 100 then iter / 10 else 100

  unfoldable pub main : Cmd ℕ
  main = do
    test_perf iter
    test_perf_channels iter 0
    test_perf_async_steam iter buffered
    test_crt_join_sched
    test_multisend iter 0
    test_multisend iter buffered
    test_grpwait iter 0 3
    test_grpwait iter 3 3
    pure 0
