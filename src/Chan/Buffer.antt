-- ===== src/Chan/Buffer.antt =====
-- The ring buffer of a channel: `data_buffer[tail++ % size] = data` and `data_buffer[head++ % size]`.
pub mod Bounds
use light_weight_thread_libr.Prelude.{
  ℕ, ◌-◌, ◌%◌, ◌^◌, Option, none, some, ◌==◌, ltb, if◌then◌else◌, ℕ_discrete,
}
use light_weight_thread_libr.Links.{update}
use light_weight_thread_libr.State.{World, LwtChannel, BufferRing, inc, sub, set_chan}
use light_weight_thread_libr.State.Cmd.{Cmd, done, fault}

abbrev pub magnitude : ℕ → ℕ
magnitude x = if ltb x (2 ^ 31) then x else 2 ^ 32 - x

-- The index `counter % size` of `int`s: none for a division by zero, and for the negative remainder
-- of a negative counter, by which the code would access what stands in front of the buffer.
unfoldable pub slot : ℕ → ℕ → Option ℕ
slot counter size =
    let r = magnitude counter % magnitude size in
    if size == 0
    then none
    else if ltb counter (2 ^ 31)
    then some r
    else if r == 0
    then some 0
    else none

-- `buffer.tail - buffer.head`.
unfoldable pub used : LwtChannel → ℕ
used c = sub c.buffer.tail c.buffer.head

abbrev pub set_buffer : World → ℕ → BufferRing → World
set_buffer w chan b = set_chan w chan (record (w.chan chan) { buffer = b })

unfoldable pub put_cell : ℕ → ℕ → Cmd (Unit {0})
put_cell chan message w =
    let c = w.chan chan in
    let b = c.buffer in
    if b.data_buffer == 0 then fault else elim (slot b.tail c.size) [
      | none ↦ fault
      | some i ↦ done tt (
          set_buffer w chan
            (record b { cells = update ℕ_discrete b.cells i message; tail = inc b.tail }))
    ]

unfoldable pub take_cell : ℕ → Cmd ℕ
take_cell chan w =
    let c = w.chan chan in
    let b = c.buffer in
    if b.data_buffer == 0 then fault else elim (slot b.head c.size) [
      | none ↦ fault
      | some i ↦ done (b.cells i) (set_buffer w chan (record b { head = inc b.head }))
    ]
