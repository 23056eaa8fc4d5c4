-- ===== src/Chan/Sending.antt =====
-- `lwt_snd` on a local channel adds its message behind those that the channel stands for.
use mathlib.Core.List.{append-nil}
use mathlib.Core.Logic.{if_pos}
use light_weight_thread_libr.Prelude.{
  ℕ, ◌+◌, ◌<◌, ◌≡◌, refl, ◌∙◌, ◌≢◌, ◌⊎◌, inl, inr, false, List, [], ◌∷◌, ◌++◌, arith, ℕ_discrete,
  ne→==, ==-of_eq,
}
use light_weight_thread_libr.State.{
  World, LwtChannel, Node, sender_queue, set_chan, set_thread, local_chan, blocked_sending,
  lwt_current,
}
use light_weight_thread_libr.State.Cmd.{done, pure, and_then, follow}
use light_weight_thread_libr.Chan.Buffer.{used, put_cell}
use light_weight_thread_libr.Chan.Block.{block_thread}
use light_weight_thread_libr.Chan.Send.{is_awaited, announce, store_or_block, snd_local, lwt_snd}
use light_weight_thread_libr.Chan.Contents.{
  in_buffer, messages, contents, IsChan, slot_lem, used_lem, pushed, in_buffer-pushed, idle_senders,
}

unfoldable pub hold_message : ℕ → ℕ → World → World
hold_message t m w = set_thread w t (record (w.thread t) { message_data = m })

-- `put_cell` and the store behind it, on the record of the channel.
pub put_cell-pushed :
    (w : World) (c m : ℕ) (xs : List Node)
    → IsChan (w.chan c) xs
    → 0 < (w.chan c).size
    → put_cell c m w ≡ done tt (set_chan w c (pushed m (w.chan c)))
unfolding put_cell pushed
put_cell-pushed w c m xs ic pos = rw (
  ne→== (w.chan c).buffer.data_buffer 0 ic.pointer,
  slot_lem (w.chan c).buffer.tail (w.chan c).size ic.few ic.small pos,
)

pub chan-set_chan : (w : World) (c : ℕ) (r : LwtChannel) → (set_chan w c r).chan c ≡ r
chan-set_chan w c r = if_pos (ℕ_discrete c c) refl r (w.chan c)

module _ (w : World) (v : Node → List Node) (c m : ℕ)
    (ic : IsChan (w.chan c) (v (sender_queue c))) where
  -- With room in the buffer the message goes there.
  pub store-room :
      (w.chan c).buffer.tail < (w.chan c).buffer.head + (w.chan c).size
      → store_or_block c m w ≡ done 0 (set_chan w c (pushed m (w.chan c)))
  unfolding store_or_block
  store-room room = rw (
    ne→== (used (w.chan c)) (w.chan c).size (λ e. absurd (omega (arith, used_lem ic))),
    put_cell-pushed w c m (v (sender_queue c)) ic (omega arith),
  )

  -- A full buffer: the sender keeps its message and is set aside.
  pub store-full :
      (w.chan c).buffer.tail ≡ (w.chan c).buffer.head + (w.chan c).size
      → store_or_block c m w
        ≡ and_then
            (block_thread (lwt_current w) blocked_sending c (hold_message (lwt_current w) m w))
            (λ _. pure 0)
  unfolding store_or_block hold_message
  store-full full = rw (==-of_eq (used (w.chan c)) (w.chan c).size (used_lem ic ∙ omega arith))

  pub contents-pushed :
      (u : World)
      → u.chan c ≡ pushed m (w.chan c)
      → (w.chan c).buffer.tail < (w.chan c).buffer.head + (w.chan c).size
      → contents u v c ≡ contents w v c ++ m ∷ []
  unfolding messages
  contents-pushed u e room =
      rw (e, idle_senders ic room, in_buffer-pushed ic m room) (simp append-nil)

-- The channel while a sender announces its message, and who is resumed: nobody, if no group waits.
unfoldable pub readied : LwtChannel → LwtChannel
readied r = record r { ready = 1 }

pub in_buffer-readied : (r : LwtChannel) → in_buffer (readied r) ≡ in_buffer r
unfolding in_buffer readied
in_buffer-readied r = refl

pub IsChan-readied : (r : LwtChannel) (xs : List Node) → IsChan r xs → IsChan (readied r) xs
unfolding readied
IsChan-readied r xs ic = record {
  pointer = ic.pointer;
  order = ic.order;
  fits = ic.fits;
  few = ic.few;
  small = ic.small;
  busy = ic.busy;
}

abbrev pub Quiet : World → ℕ → Type 0
Quiet w c = ((w.chan c).cgroup ≡ 0) ⊎ ((w.cgrp (w.chan c).cgroup).blocked ≡ 0)

pub announce-Quiet :
    (w : World) (c : ℕ) → Quiet w c → announce c w ≡ set_chan w c (readied (w.chan c))
unfolding announce readied
announce-Quiet w c (inl e) = rw (==-of_eq (w.chan c).cgroup 0 e)
announce-Quiet w c (inr e) = elim (ℕ_discrete (w.chan c).cgroup 0) [
  | yes z ↦ rw (==-of_eq (w.chan c).cgroup 0 z)
  | no nz ↦ rw (ne→== (w.chan c).cgroup 0 nz, e)
]

-- A local channel that can be sent to: it has a receiver, and no group waits.
pub record Open (w : World) (v : Node → List Node) (c : ℕ) : Type 0 where
  pub pointer : c ≢ 0
  pub type : (w.chan c).type ≡ local_chan
  pub receiver : (w.chan c).receiver ≢ 0
  pub chan : IsChan (w.chan c) (v (sender_queue c))
  pub quiet : Quiet w c

pub lwt_snd-local :
    (w : World) (c m : ℕ) → c ≢ 0 → (w.chan c).type ≡ local_chan → lwt_snd c m w ≡ snd_local c m w
unfolding lwt_snd follow
lwt_snd-local w c m pos loc = rw (ne→== c 0 pos, loc)

pub snd_local-stores :
    (w : World) (v : Node → List Node) (c m : ℕ)
    → Open w v c
    → is_awaited c w ≡ false
    → lwt_snd c m w ≡ store_or_block c m (set_chan w c (readied (w.chan c)))
unfolding snd_local
snd_local-stores w v c m o free =
    lwt_snd-local w c m o.pointer o.type
    ∙ rw (ne→== (w.chan c).receiver 0 o.receiver, free, announce-Quiet w c o.quiet)
