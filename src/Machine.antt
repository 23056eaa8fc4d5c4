-- ===== src/Machine.antt =====
-- lwt.c: the threads of a kernel thread together. `__lwt_dispatch` jumps to the saved `ip` of the
-- next thread: behind its own dispatch, or to `__lwt_trampoline`.
pub mod Reach
pub mod Round
pub mod Supply
pub mod Child
pub mod ForkJoin
pub mod Begin
pub mod Boot
pub mod Collect
pub mod Early
use light_weight_thread_libr.Prelude.{ℕ, zero, suc, ◌+◌, ◌%◌, ◌^◌, Option, none, some, ℕ_discrete}
use light_weight_thread_libr.Links.{update}
use light_weight_thread_libr.State.{World, Ip, trampoline, ret_dispatch, lwt_current}
use light_weight_thread_libr.State.Cmd.{Cmd, Outcome, done, switched, fault, hung}
use light_weight_thread_libr.Thread.{lwt_trampoline}

-- `runs` is the thread whose code has come as far as `now`, and `saved` is what the others do when
-- they are switched to.
pub record Machine : Type 0 where
  pub runs : ℕ
  pub now : Outcome ℕ
  pub saved : ℕ → World → Outcome ℕ

-- `code` has the functions of the program by their addresses.
module _ (code : ℕ → ℕ → Cmd ℕ) where
  -- `__lwt_trampoline` with its two parameters above the stack pointer.
  unfoldable pub start : World → Outcome ℕ
  start w =
      let fn = w.memory ((w.esp + 4) % 2 ^ 32) in
      let argument = w.memory ((w.esp + 8) % 2 ^ 32) in lwt_trampoline (code fn) argument w

  unfoldable pub jump : Ip → (World → Outcome ℕ) → World → Outcome ℕ
  jump trampoline label w = start w
  jump ret_dispatch label w = label w

  unfoldable pub enter : (ℕ → World → Outcome ℕ) → World → Outcome ℕ
  enter saved w = let next = lwt_current w in jump (w.thread next).context.ip (saved next) w

  -- A switch; `none` when there is none to take.
  unfoldable pub step : Machine → Option Machine
  step m = elim m.now [
    | done a w ↦ none
    | switched w r ↦
        let saved = update ℕ_discrete m.saved m.runs r in
        some (record { runs = lwt_current w; now = enter saved w; saved = saved })
    | fault ↦ none
    | hung ↦ none
  ]
