-- ===== src/Heap/RoundTrip.antt =====
-- `umalloc` followed by `ufree` on a heap with one free block.
use light_weight_thread_libr.Prelude.{
  ℕ, ◌+◌, ◌*◌, ◌/◌, ◌%◌, ◌^◌, ◌≤◌, ◌<◌, ◌≡◌, refl, sym, ◌∙◌, inl, inr, arith, ne→==,
}
use light_weight_thread_libr.Heap.{Arena, ufree, first_use, umalloc}
use light_weight_thread_libr.Heap.Blocks.{Yields, OneBlock, alloc_lem}
use light_weight_thread_libr.Heap.Return.{taken_back}

module _ (base b s : ℕ) (h : Arena) (o : OneBlock base b s h) where
  used_before : first_use base h ≡ h
  unfolding first_use
  used_before = rw (ne→== h.freep 0 (λ f. nonzero f)) refl
    where
      nonzero : h.freep ≡ 0 → ⊥
      nonzero f = elim o.start [
        | inl e ↦ o.pointer (sym e ∙ f)
        | inr e ↦ absurd (omega (arith, o.low, e, f))
      ]

  -- On a heap whose free list is the static header and one block behind it, `umalloc` of a number
  -- of bytes for which the block is large enough returns memory of that many bytes inside the
  -- block, behind a header, and `ufree` of it brings back the heap with the one block; a fuel of 2
  -- is enough for either loop.
  pub ufree-umalloc :
      (fuel nbytes : ℕ)
      → 1 < fuel
      → nbytes + 7 < 2 ^ 32
      → (nbytes + 7) / 8 + 1 ≤ s
      → Yields
          (λ r.
            (b + 8 ≤ r.0)
            × (r.0 + nbytes ≤ b + 8 * s)
            × Yields (OneBlock base b s) (ufree fuel r.0 r.1))
          (umalloc base fuel nbytes h)
  unfolding umalloc
  ufree-umalloc fuel nbytes lt small enough =
      let n : ℕ = (nbytes + 7) % 2 ^ 32 / 8 + 1 in
      let fits : n ≤ s = omega arith in
      rw (used_before, alloc_lem base b s n h o (omega arith) fits fuel lt)
        (taken_back base b s n h o (omega arith) fits fuel nbytes lt (omega arith))
