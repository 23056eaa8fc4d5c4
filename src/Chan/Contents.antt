-- ===== src/Chan/Contents.antt =====
-- What a channel stands for: the messages in its buffer, the oldest first, and behind them those
-- of the senders that are blocked on it.
use mathlib.Core.List.{map, map-append}
use mathlib.Core.Logic.{if_pos, if_neg}
use mathlib.Core.Path.{ap₂}
use native.Mathlib.Decide.{dec_lt}
use native.Mathlib.Nat.{mod-add-mod, mod-eq_of_lt, mod-eq-sub-mod, mod-lt}
use light_weight_thread_libr.Prelude.{
  ℕ, zero, suc, ◌+◌, ◌-◌, ◌%◌, ◌^◌, ◌≤◌, ◌<◌, ◌≡◌, refl, sym, ap, ◌∙◌, ◌≢◌, ◌⊎◌, inr, false, List,
  [], ◌∷◌, ◌++◌, arith, ℕ_discrete, some,
}
use light_weight_thread_libr.Links.{update}
use light_weight_thread_libr.Links.Ring.{has}
use light_weight_thread_libr.State.{
  World, LwtChannel, Node, Node-discrete, thread_node, sender_queue, inc,
}
use light_weight_thread_libr.Chan.Buffer.{slot, used}

-- The `n` messages from index `h` on, in a ring of `size` cells.
abbrev pub window : (ℕ → ℕ) → ℕ → ℕ → ℕ → List ℕ
window cells size h zero = []
window cells size h (suc n) = cells (h % size) ∷ window cells size (h + 1) n

abbrev pub message_of : World → Node → ℕ
message_of w (thread_node t) = (w.thread t).message_data
message_of w _ = 0

unfoldable pub in_buffer : LwtChannel → List ℕ
in_buffer r = window r.buffer.cells r.size r.buffer.head (r.buffer.tail - r.buffer.head)

unfoldable pub messages : World → List Node → List ℕ
messages w = map (message_of w)

abbrev pub contents : World → (Node → List Node) → ℕ → List ℕ
contents w v c = in_buffer (w.chan c) ++ messages w (v (sender_queue c))

-- A channel in use, with the blocked senders `xs`: fewer than 2 ^ 31 messages have passed through
-- its buffer, no more are in it than it holds, and a sender is blocked only while it is full.
pub record IsChan (r : LwtChannel) (xs : List Node) : Type 0 where
  pub pointer : r.buffer.data_buffer ≢ 0
  pub order : r.buffer.head ≤ r.buffer.tail
  pub fits : r.buffer.tail ≤ r.buffer.head + r.size
  pub few : r.buffer.tail < 2 ^ 31
  pub small : r.size < 2 ^ 31
  pub busy : (r.buffer.tail ≡ r.buffer.head + r.size) ⊎ (xs ≡ [])

-- Fewer than `s` steps round a ring do not come back to the start.
pub mod-ne : (a d s : ℕ) → 0 < d → d < s → a % s ≢ (a + d) % s
mod-ne a d s pos small e = elim (dec_lt (a % s + d) s) [
  | yes lt ↦ omega (arith, mod-add-mod a s d, mod-eq_of_lt lt)
  | no ge ↦ omega (
    arith,
    mod-add-mod a s d,
    mod-lt a {m = s} (omega arith),
    mod-eq-sub-mod {n = a % s + d} {m = s} (omega arith),
    mod-eq_of_lt {n = a % s + d - s} {m = s} (omega (arith, mod-lt a {m = s} (omega arith))),
  )
]

-- A write just past a window extends it.
pub window-update :
    (cells : ℕ → ℕ) (size h n i m : ℕ)
    → n < size
    → i ≡ (h + n) % size
    → window (update ℕ_discrete cells i m) size h (suc n) ≡ window cells size h n ++ m ∷ []
window-update cells size h zero i m lt e =
    let e' : i ≡ h % size = e ∙ ap (λ x. x % size) (omega arith) in
    rw (if_pos (ℕ_discrete i (h % size)) e')
window-update cells size h (suc n) i m lt e =
    let ne : i ≢ h % size = λ f. mod-ne h (suc n) size (omega arith) lt (sym f ∙ e) in
    let e' : i ≡ (h + 1 + n) % size = e ∙ ap (λ x. x % size) (omega arith) in
    ap₂ ◌∷◌ (if_neg (ℕ_discrete i (h % size)) ne m (cells (h % size)))
      (window-update cells size (h + 1) n i m (omega arith) e')

-- The index of a counter of a channel in use.
pub slot_lem : (k size : ℕ) → k < 2 ^ 31 → size < 2 ^ 31 → 0 < size → slot k size ≡ some (k % size)
unfolding slot
slot_lem k size hk hs pos = ground arith

-- The channel record after `put_cell` and after `take_cell`.
unfoldable pub pushed : ℕ → LwtChannel → LwtChannel
pushed m r = record r {
  buffer = record (r.buffer) {
    cells = update ℕ_discrete r.buffer.cells (r.buffer.tail % r.size) m;
    tail = inc r.buffer.tail;
  };
}

unfoldable pub popped : LwtChannel → LwtChannel
popped r = record r { buffer = record (r.buffer) { head = inc r.buffer.head } }

module _ {r : LwtChannel} {xs : List Node} (ic : IsChan r xs) where
  pub used_lem : used r ≡ r.buffer.tail - r.buffer.head
  unfolding used
  used_lem = omega arith

  -- A buffer with room gets a message more.
  pub in_buffer-pushed :
      (m : ℕ)
      → r.buffer.tail < r.buffer.head + r.size
      → in_buffer (pushed m r) ≡ in_buffer r ++ m ∷ []
  unfolding in_buffer pushed
  in_buffer-pushed m room =
      let n : ℕ = r.buffer.tail - r.buffer.head in
      let more : inc r.buffer.tail - r.buffer.head ≡ suc n = omega arith in
      rw more (
        window-update r.buffer.cells r.size r.buffer.head n (r.buffer.tail % r.size) m (omega arith)
          (ap (λ x. x % r.size) (omega arith)))

  -- The buffer of a channel that is not empty loses its oldest message.
  pub in_buffer-popped :
      r.buffer.head < r.buffer.tail
      → in_buffer r ≡ r.buffer.cells (r.buffer.head % r.size) ∷ in_buffer (popped r)
  unfolding in_buffer popped
  in_buffer-popped some_left =
      let n : ℕ = r.buffer.tail - inc r.buffer.head in
      let less : r.buffer.tail - r.buffer.head ≡ suc n = omega arith in
      let next : r.buffer.head + 1 ≡ inc r.buffer.head = omega arith in
      ap (window r.buffer.cells r.size r.buffer.head) less
      ∙ ap (λ h. r.buffer.cells (r.buffer.head % r.size) ∷ window r.buffer.cells r.size h n) next

  pub in_buffer-nil : r.buffer.head ≡ r.buffer.tail → in_buffer r ≡ []
  unfolding in_buffer
  in_buffer-nil e =
      let none_left : r.buffer.tail - r.buffer.head ≡ 0 = omega arith in
      ap (window r.buffer.cells r.size r.buffer.head) none_left

  -- With room, nobody is blocked.
  pub idle_senders : r.buffer.tail < r.buffer.head + r.size → xs ≡ []
  idle_senders room = ground (arith, ic.busy)

  pub pushed-IsChan :
      (m : ℕ) (ys : List Node)
      → r.buffer.tail < r.buffer.head + r.size
      → r.buffer.tail + 1 < 2 ^ 31
      → (r.buffer.tail + 1 ≡ r.buffer.head + r.size) ⊎ (ys ≡ [])
      → IsChan (pushed m r) ys
  unfolding pushed
  pushed-IsChan m ys room few busy = record {
    pointer = ic.pointer;
    order = omega arith;
    fits = omega arith;
    few = omega arith;
    small = ic.small;
    busy = ground arith;
  }

  pub popped-IsChan :
      (ys : List Node) → r.buffer.head < r.buffer.tail → ys ≡ [] → IsChan (popped r) ys
  unfolding popped
  popped-IsChan ys some_left e = record {
    pointer = ic.pointer;
    order = omega arith;
    fits = omega arith;
    few = ic.few;
    small = ic.small;
    busy = inr e;
  }

pub messages-append :
    (w : World) (xs ys : List Node) → messages w (xs ++ ys) ≡ messages w xs ++ messages w ys
unfolding messages
messages-append w xs ys = map-append (message_of w) xs ys

-- The messages of threads whose message is the same in both worlds.
pub messages_same :
    (u w : World) (t : ℕ) (xs : List Node)
    → has Node-discrete (thread_node t) xs ≡ false
    → ((x : ℕ) → x ≢ t → (u.thread x).message_data ≡ (w.thread x).message_data)
    → messages u xs ≡ messages w xs
unfolding messages
messages_same u w t [] o same = refl
messages_same u w t (thread_node x ∷ xs) o same =
    ap₂ ◌∷◌ (same x (λ e. ground arith)) (messages_same u w t xs (ground arith) same)
messages_same u w t (x ∷ xs) o same = ap₂ ◌∷◌ refl (messages_same u w t xs (ground arith) same)

pub messages_all :
    (u w : World) (xs : List Node)
    → ((x : ℕ) → (u.thread x).message_data ≡ (w.thread x).message_data)
    → messages u xs ≡ messages w xs
unfolding messages
messages_all u w [] same = refl
messages_all u w (thread_node x ∷ xs) same = ap₂ ◌∷◌ (same x) (messages_all u w xs same)
messages_all u w (x ∷ xs) same = ap₂ ◌∷◌ refl (messages_all u w xs same)
