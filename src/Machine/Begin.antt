-- ===== src/Machine/Begin.antt =====
-- lwt_chl.c: `lwt_kthd_trampline` of a function that begins with `test_perf`.
use light_weight_thread_libr.Prelude.{ℕ, ◌+◌, ◌%◌, ◌^◌, ◌≡◌, refl, ap, ◌∙◌, ◌≢◌, Bool, List, ne→==}
use light_weight_thread_libr.State.{World, Node, lwt_current}
use light_weight_thread_libr.State.Cmd.{
  Cmd, Outcome, done, fault, and_then, pure, modify, ufree, ◌>>◌,
}
use light_weight_thread_libr.Thread.Forked.{Idle}
use light_weight_thread_libr.Kthd.{kthd_loop, lwt_kthd_trampline}
use light_weight_thread_libr.Info.Counts.{lwt_info-runnable}
use light_weight_thread_libr.Info.{lwt_info}
use light_weight_thread_libr.Machine.{Machine}
use light_weight_thread_libr.Machine.ForkJoin.{and_then-and_then}
use light_weight_thread_libr.Programs.Threads.{
  assert, average, is_reset, for_loop, fork_join, perf_yields, test_perf,
}

-- The assertion of `IS_RESET` holds in an idle kernel thread.
pub is_reset-Idle :
    {is_head : Node → Bool} {v : Node → List Node} {m : ℕ} {idle : List Node} {w : World}
    → Idle is_head v m idle w
    → is_reset w ≡ done tt w
unfolding is_reset lwt_info assert
is_reset-Idle {is_head} {v} {m} {w} i =
    rw
      (
        lwt_info-runnable is_head w v (i.system).queues (i.system).run_head (rw i.alone i.enough)
            i.small,
        i.alone,
        i.no_zombies,
        i.none_blocked,
      )
      refl

module _ (sl_yield : World → World) (fp : ℕ) where
  -- The machine of a kernel thread that sl runs for the first time, in its only thread.
  abbrev pub begin_kthd : (ℕ → ℕ → Cmd ℕ) → World → Machine
  begin_kthd prog u = record {
    runs = lwt_current u;
    now = and_then (lwt_kthd_trampline sl_yield prog fp u) (λ _. pure 0);
    saved = λ t v. fault;
  }

  -- The end of the trampoline.
  abbrev pub last_loop : Cmd (Unit {0})
  last_loop = do modify (ufree fp); λ y. kthd_loop sl_yield y.rounds y

  -- What a function that begins with `test_perf` does behind the first `IS_RESET`, and `after`.
  abbrev pub behind : ℕ → Cmd ℕ → Cmd ℕ
  behind iter after y =
      and_then (and_then (and_then (perf_yields iter y) (λ _. after)) (λ _. last_loop))
        (λ _. pure 0)

  module _ (iter : ℕ) (after : Cmd ℕ) where
    abbrev checks : Unit {0} → Cmd (Unit {0})
    checks _ = do average iter; is_reset; perf_yields iter

    abbrev pub from_checks : Unit {0} → Cmd ℕ
    from_checks a y =
        and_then (and_then (and_then (checks a y) (λ _. after)) (λ _. last_loop)) (λ _. pure 0)

    regroup :
        (o : Outcome (Unit {0}))
        → and_then
            (and_then (and_then (and_then o checks) (λ _. after)) (λ _. last_loop))
            (λ _. pure 0)
          ≡ and_then o from_checks
    regroup o =
        ap (λ q. and_then (and_then q (λ _. last_loop)) (λ _. pure 0))
          (and_then-and_then o checks (λ _. after))
        ∙ ap (λ q. and_then q (λ _. pure 0))
            (and_then-and_then o (λ a y. and_then (checks a y) (λ _. after)) (λ _. last_loop))
        ∙ and_then-and_then o
            (λ a y. and_then (and_then (checks a y) (λ _. after)) (λ _. last_loop)) (λ _. pure 0)

    pub passes :
        {is_head : Node → Bool} {v : Node → List Node} {m : ℕ} {idle : List Node} {y : World}
        → iter ≢ 0
        → Idle is_head v m idle y
        → from_checks tt y ≡ behind iter after y
    unfolding average
    passes some i = rw (ne→== iter 0 some, is_reset-Idle i) refl

    module _ (prog : ℕ → ℕ → Cmd ℕ) (fn argument : ℕ)
        (runs : (y : World) → prog fn argument y ≡ and_then (test_perf iter y) (λ _. after)) where
      pub trampline :
          (u : World)
          → u.memory fp ≡ fn
          → u.memory ((fp + 4) % 2 ^ 32) ≡ argument
          → and_then (lwt_kthd_trampline sl_yield prog fp u) (λ _. pure 0)
            ≡ and_then (for_loop iter 0 fork_join u) from_checks
      unfolding lwt_kthd_trampline test_perf
      trampline u f d = rw (f, d, runs u) (regroup (for_loop iter 0 fork_join u))
