-- ===== src/Programs/Channels.antt =====
-- main3.c: the tests of channels and of channel groups, and the functions that their threads run.
use light_weight_thread_libr.Prelude.{
  ℕ, zero, suc, ◌+◌, ◌*◌, ◌%◌, ◌^◌, Bool, true, false, not, ◌||◌, List, [], ◌∷◌, ◌++◌, ◌==◌, ltb,
  if◌then◌else◌,
}
use light_weight_thread_libr.State.{
  LwtStatus, lwt_running, nthd_runnable, inc, dec, lwt_current, lwt_id,
}
use light_weight_thread_libr.State.Cmd.{Cmd, done, pure, ◌>>=◌, ◌>>◌, gets, modify}
use light_weight_thread_libr.Chan.Life.{
  lwt_chan, lwt_chan_deref, lwt_chan_mark_set, lwt_chan_mark_get,
}
use light_weight_thread_libr.Chan.Send.{minus_one, lwt_snd, lwt_snd_chan}
use light_weight_thread_libr.Chan.Receive.{lwt_rcv, lwt_rcv_chan}
use light_weight_thread_libr.Thread.{lwt_create_chan}
use light_weight_thread_libr.Group.{
  lwt_cgrp, lwt_cgrp_add, lwt_cgrp_rem, lwt_cgrp_free, lwt_cgrp_wait,
}
use light_weight_thread_libr.Info.{lwt_info}
use light_weight_thread_libr.Programs.Threads.{assert, average, for_loop, store, yield_null, join}

abbrev pub fn_chan_at : ℕ
fn_chan_at = 1011

abbrev pub fn_snder_1_at : ℕ
fn_snder_1_at = 1012

abbrev pub fn_snder_2_at : ℕ
fn_snder_2_at = 1013

abbrev pub fn_async_steam_at : ℕ
fn_async_steam_at = 1014

abbrev pub fn_grpwait_at : ℕ
fn_grpwait_at = 1015

abbrev pub sndrcv_cnt_at : ℕ
sndrcv_cnt_at = 2012

abbrev pub async_sz_at : ℕ
async_sz_at = 2016

abbrev is_running : LwtStatus → Bool
is_running lwt_running = true
is_running _ = false

abbrev pub send : ℕ → ℕ → Cmd (Unit {0})
send c m = do _ ← lwt_snd c m; pure tt

-- `assert(x == (int)lwt_rcv(c))`, and `assert(c->snd_cnt)`.
abbrev pub expect : ℕ → ℕ → Cmd (Unit {0})
expect x c = do r ← lwt_rcv c; assert (x == r)

abbrev pub has_senders : ℕ → Cmd (Unit {0})
has_senders c = do n ← gets (λ w. (w.chan c).snd_cnt); assert (not (n == 0))

unfoldable pub fn_chan_turn : ℕ → ℕ → ℕ → Cmd (Unit {0})
fn_chan_turn to from i = do send to 1; expect 2 from

unfoldable pub perf_channels_turn : ℕ → ℕ → ℕ → Cmd (Unit {0})
perf_channels_turn from to i = do expect 1 from; send to 2

unfoldable pub snder_turn : ℕ → ℕ → ℕ → Cmd (Unit {0})
snder_turn c v i = do send c v; modify (λ w. store sndrcv_cnt_at (inc (w.memory sndrcv_cnt_at)) w)

-- `x < y` on `int`s.
abbrev less : ℕ → ℕ → Bool
less x y = ltb ((x + 2 ^ 31) % 2 ^ 32) ((y + 2 ^ 31) % 2 ^ 32)

-- The loop of `test_multisend`: what was received, the latest last, and `maxcnt`.
unfoldable pub multisend_loop : ℕ → ℕ → List ℕ → ℕ → Cmd (List ℕ × ℕ)
multisend_loop zero c ret maxcnt w = done (ret, maxcnt) w
multisend_loop (suc n) c ret maxcnt w =
    (do
      r ← lwt_rcv c
      cnt ← gets (λ w. w.memory sndrcv_cnt_at)
      modify (λ w. store sndrcv_cnt_at (dec cnt) w)
      multisend_loop n c (ret ++ r ∷ []) (if less maxcnt cnt then cnt else maxcnt))
      w

unfoldable pub sum_of : List ℕ → Cmd ℕ
sum_of [] w = done 0 w
sum_of (r ∷ ret) w =
    (do assert ((r == 1) || (r == 2)); sum ← sum_of ret; pure ((r + sum) % 2 ^ 32)) w

unfoldable pub async_turn : ℕ → ℕ → Cmd (Unit {0})
async_turn to i = send to (i + 1)

unfoldable pub fn_grpwait_turn : ℕ → ℕ → Cmd (Unit {0})
fn_grpwait_turn c i = do
  (if i % 7 == 0 then for_loop (i % 8) 0 (λ j. yield_null) else pure tt)
  id ← gets (λ w. lwt_id w (lwt_current w))
  send c id

module _ (iter : ℕ) where
  unfoldable pub fn_chan : ℕ → Cmd ℕ
  fn_chan to = do
    from ← lwt_chan 0
    _ ← lwt_snd_chan to from
    has_senders from
    for_loop iter 0 (fn_chan_turn to from)
    lwt_chan_deref from
    pure 0

  unfoldable pub test_perf_channels : ℕ → Cmd (Unit {0})
  test_perf_channels chsz = do
    from ← lwt_chan chsz
    assert (not (from == 0))
    t ← lwt_create_chan fn_chan_at from
    to ← lwt_rcv_chan from
    has_senders to
    for_loop iter 0 (perf_channels_turn from to)
    lwt_chan_deref to
    average (iter * 2)
    join t

  unfoldable pub fn_snder : ℕ → ℕ → Cmd ℕ
  fn_snder c v = do for_loop iter 0 (snder_turn c v); pure 0

  unfoldable pub fn_snder_1 : ℕ → Cmd ℕ
  fn_snder_1 c = fn_snder c 1

  unfoldable pub fn_snder_2 : ℕ → Cmd ℕ
  fn_snder_2 c = fn_snder c 2

  unfoldable pub test_multisend : ℕ → Cmd (Unit {0})
  test_multisend chsz = do
    c ← lwt_chan chsz
    assert (not (c == 0))
    t1 ← lwt_create_chan fn_snder_2_at c
    t2 ← lwt_create_chan fn_snder_1_at c
    (ret, maxcnt) ← multisend_loop (iter * 2) c [] 0
    join t1
    join t2
    sum ← sum_of ret
    assert (sum == (iter * 1 + iter * 2) % 2 ^ 32)
    assert (not (less maxcnt chsz))

  unfoldable pub fn_async_steam : ℕ → Cmd ℕ
  fn_async_steam to = do for_loop iter 0 (async_turn to); lwt_chan_deref to; pure 0

  unfoldable pub test_perf_async_steam : ℕ → Cmd (Unit {0})
  test_perf_async_steam chsz = do
    modify (store async_sz_at chsz)
    state ← gets (λ w. (w.thread (lwt_current w)).state)
    assert (is_running state)
    from ← lwt_chan chsz
    assert (not (from == 0))
    t ← lwt_create_chan fn_async_steam_at from
    runnable ← lwt_info nthd_runnable
    assert (runnable == 2)
    for_loop iter 0 (λ i. expect (i + 1) from)
    average (iter * 2)
    join t

  unfoldable pub fn_grpwait : ℕ → Cmd ℕ
  fn_grpwait c = do for_loop iter 0 (fn_grpwait_turn c); pure 0

-- The arrays `cs` and `ts` of `test_grpwait`, as lists of pairs.
unfoldable pub make_members : ℕ → ℕ → ℕ → Cmd (List (ℕ × ℕ))
make_members zero g chsz w = done [] w
make_members (suc n) g chsz w =
    (do
      c ← lwt_chan chsz
      assert (not (c == 0))
      t ← lwt_create_chan fn_grpwait_at c
      id ← gets (λ w. lwt_id w t)
      modify (lwt_chan_mark_set c id)
      _ ← lwt_cgrp_add g c
      rest ← make_members n g chsz
      pure ((c, t) ∷ rest))
      w

unfoldable pub grpwait_turn : ℕ → ℕ → Cmd (Unit {0})
grpwait_turn g i = do
  c ← lwt_cgrp_wait g
  assert (not (c == 0))
  yield_null
  r ← lwt_rcv c
  mark ← gets (lwt_chan_mark_get c)
  assert (r == mark)

unfoldable pub end_members : ℕ → List (ℕ × ℕ) → Cmd (Unit {0})
end_members g [] w = done tt w
end_members g ((c, t) ∷ rest) w =
    (do _ ← lwt_cgrp_rem g c; join t; lwt_chan_deref c; end_members g rest) w

module _ (iter : ℕ) where
  unfoldable pub test_grpwait : ℕ → ℕ → Cmd (Unit {0})
  test_grpwait chsz grpsz = do
    g ← lwt_cgrp
    assert (not (g == 0))
    members ← make_members grpsz g chsz
    yield_null
    r ← lwt_cgrp_free g
    assert (r == minus_one)
    for_loop (iter * grpsz) 0 (grpwait_turn g)
    end_members g members
    s ← lwt_cgrp_free g
    assert (s == 0)
