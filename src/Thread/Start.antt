-- ===== src/Thread/Start.antt =====
-- The stack of a thread: what a new one finds there, and what a switch saves.
use light_weight_thread_libr.Prelude.{ℕ, ◌+◌, ◌%◌, ◌^◌, ◌<◌, ◌≡◌, ◌≢◌, Bool, arith}
use light_weight_thread_libr.State.{World, trampoline, ret_dispatch, set_thread}
use light_weight_thread_libr.State.Cmd.{Outcome, done, switched, fault, hung}
use light_weight_thread_libr.State.Gives.{Returns}
use light_weight_thread_libr.Sched.{lwt_dispatch}
use light_weight_thread_libr.Thread.{prepare}

-- A new thread starts in `__lwt_trampoline`, which finds the function above the word at the stack
-- pointer and its argument above that, if the top of its stack is an address of 32 bits.
prepare-trampoline :
    (t fn arg : ℕ) (nojoin : Bool) (w : World)
    → (w.thread t).init_sp < 2 ^ 32
    → let u = prepare t fn arg nojoin w in
      let x = (u.thread t).context in
      (x.ip ≡ trampoline)
      × (u.memory ((x.sp + 4) % 2 ^ 32) ≡ fn)
      × (u.memory ((x.sp + 8) % 2 ^ 32) ≡ arg)
unfolding prepare
prepare-trampoline t fn arg nojoin w small = (ground arith, ground arith, ground arith)

-- Any world `v` in which thread `t` has still the context that it has in `u`.
abbrev pub keep_context : ℕ → World → World → World
keep_context t u v = set_thread v t (record (v.thread t) { context = (u.thread t).context })

-- The world at a switch, and the rest of the run.
abbrev pub Switches : {A : Type 0} → (World → (World → Outcome A) → Type 0) → Outcome A → Type 0
Switches P (done a w) = ⊥
Switches P (switched u r) = P u r
Switches P fault = ⊥
Switches P hung = ⊥

-- A dispatch from one thread to another sets the stack pointer to the one saved for the other, and
-- saves for the old thread where it goes on; a later dispatch from any other thread back to the
-- old one, in any world that has kept its context, sets the stack pointer that was saved, and the
-- old thread goes on from there with the stack pointer, of 32 bits, that it had before the first
-- dispatch.
pub lwt_dispatch-esp :
    (curr next other : ℕ) (w : World)
    → next ≢ curr
    → other ≢ curr
    → w.esp < 2 ^ 32
    → Switches
        (λ u r.
          (u.esp ≡ (w.thread next).context.sp)
          × ((u.thread curr).context.ip ≡ ret_dispatch)
          × ((v : World)
              → Switches
                  (λ y _.
                    (y.esp ≡ (u.thread curr).context.sp) × Returns (λ _ z. z.esp ≡ w.esp) (r y))
                  (lwt_dispatch other curr (keep_context curr u v))))
        (lwt_dispatch curr next w)
unfolding lwt_dispatch
lwt_dispatch-esp curr next other w ne apart small =
    (ground arith, ground arith, λ v. (ground arith, ground arith))
