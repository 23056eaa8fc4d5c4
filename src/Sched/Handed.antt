-- ===== src/Sched/Handed.antt =====
-- What `__lwt_schedule` has done when it gives the processor to another thread.
use light_weight_thread_libr.Prelude.{
  ℕ, ◌+◌, ◌%◌, ◌^◌, ◌≡◌, refl, ◌≢◌, ◌∙◌, ◌==◌, arith, if◌then◌else◌,
}
use light_weight_thread_libr.Links.{Links}
use light_weight_thread_libr.State.{
  World, Node, thread_node, lwt_running, ret_dispatch, sub, set_thread, set_kthd, current_info,
  lwt_current, current_run_queue,
}
use light_weight_thread_libr.State.Cmd.{done, switched}
use light_weight_thread_libr.State.Gives.{Gives}
use light_weight_thread_libr.Sched.{lwt_dispatch, poll, run_first, lwt_schedule}

-- The return of a dispatch.
abbrev pub pop_registers : World → World
pop_registers v = record v { esp = (v.esp + 32) % 2 ^ 32 }

-- Who made a thread, who may join it, and by which channel, are the same in both worlds.
abbrev pub Kin : World → World → Type 0
Kin w u =
    (x : ℕ)
    → ((u.thread x).parent ≡ (w.thread x).parent)
      × ((u.thread x).nojoin ≡ (w.thread x).nojoin)
      × ((u.thread x).chl ≡ (w.thread x).chl)

pub Kin-trans : (w u y : World) → Kin w u → Kin u y → Kin w y
Kin-trans w u y a b x = ((b x).0 ∙ (a x).0, (b x).1 ∙ (a x).1, (b x).2 ∙ (a x).2)

-- `u` is `w` with `t` running in place of `cur`; the links may differ.
pub record Handed (cur t : ℕ) (w u : World) : Type 0 where
  pub kthd : u.current_kthd ≡ w.current_kthd
  pub now : lwt_current u ≡ t
  pub running : (u.thread t).state ≡ lwt_running
  pub saved_ip : (u.thread cur).context.ip ≡ ret_dispatch
  pub saved_sp : (u.thread cur).context.sp ≡ sub w.esp 32
  pub esp : u.esp ≡ (if cur == t then sub w.esp 32 else (w.thread t).context.sp)
  pub chan : u.chan ≡ w.chan
  pub cgrp : u.cgrp ≡ w.cgrp
  pub memory : u.memory ≡ w.memory
  pub others : (x : ℕ) → x ≢ cur → x ≢ t → u.thread x ≡ w.thread x
  pub messages : (x : ℕ) → (u.thread x).message_data ≡ (w.thread x).message_data
  pub states : (x : ℕ) → x ≢ t → (u.thread x).state ≡ (w.thread x).state
  pub owners : (x : ℕ) → (u.thread x).owner_kthd ≡ (w.thread x).owner_kthd
  pub reasons : (x : ℕ) → (u.thread x).block_for ≡ (w.thread x).block_for
  pub contexts : (x : ℕ) → x ≢ cur → (u.thread x).context ≡ (w.thread x).context
  pub kin : Kin w u
  pub rcving : (x : ℕ) → (u.thread x).now_rcving ≡ (w.thread x).now_rcving
  pub polling : (x : ℕ) → (u.kthd x).polling_flag ≡ (w.kthd x).polling_flag
  pub blocked : (x : ℕ) → (u.kthd x).block_counter ≡ (w.kthd x).block_counter
  pub receiving : (x : ℕ) → (u.kthd x).nrcving ≡ (w.kthd x).nrcving
  pub sending : (x : ℕ) → (u.kthd x).nsnding ≡ (w.kthd x).nsnding

-- The world in which `t` goes on.
unfoldable pub hand_to : ℕ → ℕ → World → World
hand_to cur t w =
    let w0 = set_thread w t (record (w.thread t) { state = lwt_running }) in
    let w1 = set_kthd w0 w0.current_kthd (record (current_info w0) { current_thread = t }) in
    let w2 =
      set_thread w1 cur
        (record (w1.thread cur) { context = record { ip = ret_dispatch; sp = sub w.esp 32 } }) in
    record w2 { esp = (w2.thread t).context.sp }

run_first-hand_to :
    (cur t : ℕ) (w : World)
    → run_first cur (thread_node t) w ≡ switched (hand_to cur t w) (λ v. done tt (pop_registers v))
unfolding run_first lwt_dispatch hand_to
run_first-hand_to cur t w = refl

pub hand_to-links : (cur t : ℕ) (w : World) → (hand_to cur t w).links ≡ w.links
unfolding hand_to
hand_to-links cur t w = refl

pub hand_to-Handed : (cur t : ℕ) (w : World) → Handed cur t w (hand_to cur t w)
unfolding hand_to lwt_current
hand_to-Handed cur t w = record {
  kthd = refl;
  now = ground arith;
  running = ground arith;
  saved_ip = ground arith;
  saved_sp = ground arith;
  esp = ground arith;
  chan = refl;
  cgrp = refl;
  memory = refl;
  others = λ x ne nt. ground arith;
  messages = λ x. ground arith;
  states = λ x nt. ground arith;
  owners = λ x. ground arith;
  reasons = λ x. ground arith;
  contexts = λ x ne. ground arith;
  kin = λ x. (ground arith, ground arith, ground arith);
  rcving = λ x. ground arith;
  polling = λ x. ground arith;
  blocked = λ x. ground arith;
  receiving = λ x. ground arith;
  sending = λ x. ground arith;
}

run_first-Handed :
    (cur t : ℕ) (w : World)
    → Gives
        (λ u. Handed cur t w u × (u.links ≡ w.links))
        (λ v. done tt (pop_registers v))
        (run_first cur (thread_node t) w)
run_first-Handed cur t w =
    rw (run_first-hand_to cur t w) ((hand_to-Handed cur t w, hand_to-links cur t w), λ v. refl)

pub Handed-relink :
    {cur t : ℕ} (l : Links Node) (w u : World)
    → Handed cur t (record w { links = l }) u
    → Handed cur t w u
Handed-relink l w u h = record {
  kthd = h.kthd;
  now = h.now;
  running = h.running;
  saved_ip = h.saved_ip;
  saved_sp = h.saved_sp;
  esp = h.esp;
  chan = h.chan;
  cgrp = h.cgrp;
  memory = h.memory;
  others = h.others;
  messages = h.messages;
  states = h.states;
  owners = h.owners;
  reasons = h.reasons;
  contexts = h.contexts;
  kin = h.kin;
  rcving = h.rcving;
  polling = h.polling;
  blocked = h.blocked;
  receiving = h.receiving;
  sending = h.sending;
}

poll-off : (w : World) → (current_info w).polling_flag ≡ 0 → poll w ≡ done tt w
unfolding poll
poll-off w off = rw off

schedule_first :
    (t : ℕ) (w : World)
    → (current_info w).polling_flag ≡ 0
    → w.links.n (current_run_queue w) ≡ thread_node t
    → lwt_schedule w ≡ run_first (lwt_current w) (thread_node t) w
unfolding lwt_schedule
schedule_first t w off first = rw (poll-off w off, first)

-- The first thread of the run queue is run.
pub lwt_schedule-Handed :
    (t : ℕ) (w : World)
    → (current_info w).polling_flag ≡ 0
    → w.links.n (current_run_queue w) ≡ thread_node t
    → Gives
        (λ u. Handed (lwt_current w) t w u × (u.links ≡ w.links))
        (λ v. done tt (pop_registers v))
        (lwt_schedule w)
lwt_schedule-Handed t w off first =
    rw (schedule_first t w off first) (run_first-Handed (lwt_current w) t w)

pub lwt_schedule-hand_to :
    (t : ℕ) (w : World)
    → (current_info w).polling_flag ≡ 0
    → w.links.n (current_run_queue w) ≡ thread_node t
    → lwt_schedule w ≡ switched (hand_to (lwt_current w) t w) (λ v. done tt (pop_registers v))
lwt_schedule-hand_to t w off first =
    schedule_first t w off first ∙ run_first-hand_to (lwt_current w) t w
