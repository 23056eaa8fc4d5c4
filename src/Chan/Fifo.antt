-- ===== src/Chan/Fifo.antt =====
-- `lwt_snd` on a local channel: the message joins the end of what the channel stands for, or goes
-- straight to a receiver that waits.
use light_weight_thread_libr.Prelude.{
  ℕ, ◌+◌, ◌^◌, ◌<◌, ◌≡◌, refl, sym, ap, ◌∙◌, subst, inr, false, List, [], ◌∷◌, ◌++◌,
}
use light_weight_thread_libr.State.{World, Node, LwtChannel, sender_queue, set_chan}
use light_weight_thread_libr.State.Cmd.{done}
use light_weight_thread_libr.State.Gives.{Returns}
use light_weight_thread_libr.Chan.Send.{is_awaited, lwt_snd}
use light_weight_thread_libr.Chan.Contents.{
  in_buffer, messages, contents, IsChan, pushed, idle_senders, pushed-IsChan,
}
use light_weight_thread_libr.Chan.Sending.{
  chan-set_chan, store-room, contents-pushed, readied, in_buffer-readied, IsChan-readied, Open,
  snd_local-stores,
}

module _ (w : World) (v : Node → List Node) (c m : ℕ) (o : Open w v c) where
  abbrev pub ready_world : World
  ready_world = set_chan w c (readied (w.chan c))

  pub ready_chan : ready_world.chan c ≡ readied (w.chan c)
  ready_chan = chan-set_chan w c (readied (w.chan c))

  pub ready-IsChan : IsChan (ready_world.chan c) (v (sender_queue c))
  ready-IsChan =
      subst (λ r. IsChan r (v (sender_queue c))) (sym ready_chan)
        (IsChan-readied (w.chan c) (v (sender_queue c)) o.chan)

  ready_buffer : in_buffer (ready_world.chan c) ≡ in_buffer (w.chan c)
  ready_buffer = ap in_buffer ready_chan ∙ in_buffer-readied (w.chan c)

  ready_contents : contents ready_world v c ≡ contents w v c
  unfolding messages
  ready_contents = ap (λ b. b ++ messages w (v (sender_queue c))) ready_buffer

  pub along : (P : LwtChannel → Type 0) → P (readied (w.chan c)) → P (ready_world.chan c)
  along P = subst P (sym ready_chan)

  abbrev pub sent_world : World
  sent_world = set_chan ready_world c (pushed m (ready_world.chan c))

  sent_now : sent_world.chan c ≡ pushed m (ready_world.chan c)
  sent_now = chan-set_chan ready_world c (pushed m (ready_world.chan c))

  pub sent_chan : sent_world.chan c ≡ pushed m (readied (w.chan c))
  sent_chan = sent_now ∙ ap (pushed m) ready_chan

  module _ (free : is_awaited c w ≡ false)
      (room : (w.chan c).buffer.tail < (w.chan c).buffer.head + (w.chan c).size)
      (few : (w.chan c).buffer.tail + 1 < 2 ^ 31) where
    room' :
        (ready_world.chan c).buffer.tail
        < (ready_world.chan c).buffer.head + (ready_world.chan c).size
    unfolding readied
    room' = along (λ r. r.buffer.tail < r.buffer.head + r.size) room

    few' : (ready_world.chan c).buffer.tail + 1 < 2 ^ 31
    unfolding readied
    few' = along (λ r. r.buffer.tail + 1 < 2 ^ 31) few

    pub lwt_snd-sent_world : lwt_snd c m w ≡ done 0 sent_world
    lwt_snd-sent_world =
        snd_local-stores w v c m o free ∙ store-room ready_world v c m ready-IsChan room'

    pub sent_contents : contents sent_world v c ≡ contents w v c ++ m ∷ []
    sent_contents =
        contents-pushed ready_world v c m ready-IsChan sent_world sent_now room'
        ∙ ap (λ l. l ++ m ∷ []) ready_contents

    pub sent-IsChan : IsChan (sent_world.chan c) (v (sender_queue c))
    sent-IsChan =
        subst (λ r. IsChan r (v (sender_queue c))) (sym sent_now)
          (pushed-IsChan ready-IsChan m (v (sender_queue c)) room' few'
            (inr (idle_senders ready-IsChan room')))

    -- On an open channel whose buffer has room, whose tail stays below 2 ^ 31 and whose receiver
    -- does not wait, `lwt_snd` returns 0 at once; the channel then stands for one message more,
    -- behind all others, and no queue has changed.
    pub lwt_snd-room :
        Returns
          (λ r u.
            (r ≡ 0)
            × (contents u v c ≡ contents w v c ++ m ∷ [])
            × (u.links ≡ w.links)
            × IsChan (u.chan c) (v (sender_queue c)))
          (lwt_snd c m w)
    lwt_snd-room = rw lwt_snd-sent_world (refl, sent_contents, refl, sent-IsChan)
