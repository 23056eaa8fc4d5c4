-- ===== src/Chan/Buffer/Bounds.antt =====
-- The cells that a channel's buffer touches.
use native.Mathlib.Nat.{mod-lt}
use light_weight_thread_libr.Prelude.{ℕ, ◌%◌, ◌^◌, ◌<◌, ◌≡◌, refl, ◌≢◌, arith, ne→==}
use light_weight_thread_libr.State.{World, inc}
use light_weight_thread_libr.State.Gives.{Returns}
use light_weight_thread_libr.Chan.Buffer.{put_cell, take_cell}
use light_weight_thread_libr.Chan.Contents.{slot_lem}

module _ (c m : ℕ) (w : World) where
  abbrev size : ℕ
  size = (w.chan c).size

  -- One cell inside of the buffer is `m`, and `tail` is one more.
  pub record Written (u : World) : Type 0 where
    pub index : ℕ
    pub inside : index < size
    pub message : (u.chan c).buffer.cells index ≡ m
    pub others : (x : ℕ) → x ≢ index → (u.chan c).buffer.cells x ≡ (w.chan c).buffer.cells x
    pub tail : (u.chan c).buffer.tail ≡ inc (w.chan c).buffer.tail
    pub head : (u.chan c).buffer.head ≡ (w.chan c).buffer.head
    pub channels : (d : ℕ) → d ≢ c → u.chan d ≡ w.chan d

  -- `x` is in one cell inside of the buffer, and `head` is one more.
  pub record Read (x : ℕ) (u : World) : Type 0 where
    pub index : ℕ
    pub inside : index < size
    pub message : x ≡ (w.chan c).buffer.cells index
    pub cells : (u.chan c).buffer.cells ≡ (w.chan c).buffer.cells
    pub head : (u.chan c).buffer.head ≡ inc (w.chan c).buffer.head
    pub tail : (u.chan c).buffer.tail ≡ (w.chan c).buffer.tail
    pub channels : (d : ℕ) → d ≢ c → u.chan d ≡ w.chan d

  module _ (pointer : (w.chan c).buffer.data_buffer ≢ 0) (pos : 0 < size)
      (small : size < 2 ^ 31) where
    written : (w.chan c).buffer.tail < 2 ^ 31 → Returns (λ _ u. Written u) (put_cell c m w)
    unfolding put_cell
    written few =
        rw
          (
            ne→== (w.chan c).buffer.data_buffer 0 pointer,
            slot_lem (w.chan c).buffer.tail size few small pos,
          )
          (record {
            index = (w.chan c).buffer.tail % size;
            inside = mod-lt (w.chan c).buffer.tail {m = size} pos;
            message = ground arith;
            others = λ x ne. ground arith;
            tail = ground arith;
            head = ground arith;
            channels = λ d ne. ground arith;
          })

    read : (w.chan c).buffer.head < 2 ^ 31 → Returns Read (take_cell c w)
    unfolding take_cell
    read few =
        rw
          (
            ne→== (w.chan c).buffer.data_buffer 0 pointer,
            slot_lem (w.chan c).buffer.head size few small pos,
          )
          (record {
            index = (w.chan c).buffer.head % size;
            inside = mod-lt (w.chan c).buffer.head {m = size} pos;
            message = refl;
            cells = ground arith;
            head = ground arith;
            tail = ground arith;
            channels = λ d ne. ground arith;
          })

    -- For a channel with a buffer, a positive size below 2 ^ 31, and `tail` and `head` below 2 ^
    -- 31, storing a message succeeds and changes exactly one cell, at an index below the size, to
    -- the message, and increments `tail`; taking one succeeds, returns a cell at an index below
    -- the size, changes no cell and increments `head`; the other counter and the other channels
    -- stay as they are.
    pub put_cell-take_cell_bounds :
        (w.chan c).buffer.tail < 2 ^ 31
        → (w.chan c).buffer.head < 2 ^ 31
        → Returns (λ _ u. Written u) (put_cell c m w) × Returns Read (take_cell c w)
    put_cell-take_cell_bounds few_tail few_head = (written few_tail, read few_head)
