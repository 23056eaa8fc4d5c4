-- ===== src/Heap/Return.antt =====
-- The return of what was handed out of a heap with one free block.
use mathlib.Core.Path.{ap₂}
use light_weight_thread_libr.Prelude.{
  ℕ, ◌+◌, ◌-◌, ◌*◌, ◌%◌, ◌^◌, ◌≤◌, ◌<◌, ◌≡◌, refl, sym, ap, ◌∙◌, subst, ◌≢◌, inl, inr, arith,
  ℕ_discrete, ==-of_eq, ne→==,
}
use light_weight_thread_libr.Heap.{
  Arena, units_on, header_of, set_ptr, set_size, find_place, join_next, join_before, ufree,
  take_block,
}
use light_weight_thread_libr.Heap.Blocks.{
  Yields, OneBlock, join_next-apart, join_before-joins, join_before-apart, ufree-link, ptr_apart,
  whole_place, part_place,
}

module _ (base b s n : ℕ) (h : Arena) (o : OneBlock base b s h) (some_units : 0 < n)
    (enough : n ≤ s) where
  -- What is left when the end of the block, at `q`, is handed out, and when that comes back.
  part_taken : Arena
  part_taken = record (set_size (set_size h b (s - n)) (units_on b (s - n)) n) { freep = base }

  module _ (less : n < s) where
    abbrev q : ℕ
    q = units_on b (s - n)

    q_lem : q ≡ b + 8 * (s - n)
    q_lem = omega (arith, o.high)

    take_part : take_block n base b h ≡ (units_on q 1, part_taken)
    unfolding take_block part_taken
    take_part = rw (o.size, ne→== s n (λ f. absurd (omega arith))) refl

    q_header : header_of (units_on q 1) ≡ q
    q_header = omega (arith, o.high)

    q_base : q ≢ base
    q_base f = absurd (omega (arith, q_lem, o.low, f))

    q_b : q ≢ b
    q_b f = absurd (omega (arith, q_lem, f))

    size_q : part_taken.size q ≡ n
    unfolding part_taken
    size_q = ground arith

    size_b : part_taken.size b ≡ s - n
    unfolding part_taken
    size_b = ground (arith, q_b)

    size_base : part_taken.size base ≡ 0
    unfolding part_taken
    size_base = ground (arith, q_base, (ptr_apart base b s n h o some_units enough), o.empty)

    ptrs : part_taken.ptr ≡ h.ptr
    unfolding part_taken
    ptrs = refl

    end_apart : units_on q (part_taken.size q) ≢ part_taken.ptr b
    end_apart f =
        let e : units_on q n ≡ base =
          ap (units_on q) (sym size_q) ∙ f ∙ ap (λ g. g b) ptrs ∙ o.back in
        absurd (omega (arith, e, q_lem, o.low, o.high))

    joined : join_next q b part_taken ≡ set_ptr part_taken q base
    joined =
        join_next-apart q b part_taken end_apart
        ∙ ap (set_ptr part_taken q) (ap (λ g. g b) ptrs ∙ o.back)

    abbrev whole_again : Arena
    whole_again = set_ptr (set_size (set_ptr part_taken q base) b (((s - n) + n) % 2 ^ 32)) b base

    rejoined : join_before q b (set_ptr part_taken q base) ≡ whole_again
    rejoined =
        join_before-joins q b (set_ptr part_taken q base) (ap (units_on b) size_b)
        ∙ ap₂ (λ x y. set_ptr (set_size (set_ptr part_taken q base) b (x % 2 ^ 32)) b y)
            (ap₂ ◌+◌ size_b size_q) (ground arith)

    whole-OneBlock : OneBlock base b s (record whole_again { freep = b })
    whole-OneBlock = record {
      there = ground (
        arith,
        q_base,
        (ptr_apart base b s n h o some_units enough),
        ap (λ g. g base) ptrs,
        o.there,
      );
      back = ground arith;
      empty = ground (arith, (ptr_apart base b s n h o some_units enough), size_base);
      size = ground (arith, o.high);
      start = inr refl;
      pointer = o.pointer;
      low = o.low;
      high = o.high;
    }

    part_back :
        (fuel : ℕ) → 1 < fuel → Yields (OneBlock base b s) (ufree fuel (units_on q 1) part_taken)
    unfolding part_taken
    part_back fuel lt =
        let f =
          ap (λ x. find_place fuel h.ptr x base) q_header
          ∙ (part_place base b s n h o some_units enough) fuel q h.ptr o.there o.back
              (omega (arith, q_lem)) lt in
        let g =
          ap (λ x. join_before x b (join_next x b part_taken)) q_header
          ∙ ap (join_before q b) joined
          ∙ rejoined in
        subst (Yields (OneBlock base b s))
          (sym (ufree-link fuel (units_on q 1) b part_taken whole_again f g)) whole-OneBlock

  -- The whole block, when it is handed out and comes back.
  whole_taken : Arena
  whole_taken = record (set_ptr h base base) { freep = base }

  module _ (all : n ≡ s) where
    take_whole : take_block n base b h ≡ (units_on b 1, whole_taken)
    unfolding take_block whole_taken
    take_whole = rw (==-of_eq (h.size b) n (o.size ∙ sym all), o.back) refl

    b_header : header_of (units_on b 1) ≡ b
    b_header = omega (arith, o.high)

    whole_there : whole_taken.ptr base ≡ base
    unfolding whole_taken
    whole_there = ground arith

    whole_sizes : whole_taken.size ≡ h.size
    unfolding whole_taken
    whole_sizes = refl

    whole_apart : units_on b (whole_taken.size b) ≢ whole_taken.ptr base
    whole_apart f =
        let e : units_on b s ≡ base =
          ap (units_on b) (sym (ap (λ g. g b) whole_sizes ∙ o.size)) ∙ f ∙ whole_there in
        absurd (omega (arith, e, o.low, o.high))

    base_apart : units_on base ((set_ptr whole_taken b base).size base) ≢ b
    base_apart f =
        let e : units_on base 0 ≡ b =
          ap (units_on base) (sym (ap (λ g. g base) whole_sizes ∙ o.empty)) ∙ f in
        absurd (omega (arith, e, o.low, o.high))

    whole_joined :
        join_before b base (join_next b base whole_taken)
        ≡ set_ptr (set_ptr whole_taken b base) base b
    whole_joined =
        ap (join_before b base)
          (join_next-apart b base whole_taken whole_apart ∙ ap (set_ptr whole_taken b) whole_there)
        ∙ join_before-apart b base (set_ptr whole_taken b base) base_apart

    back-OneBlock :
        OneBlock base b s (record (set_ptr (set_ptr whole_taken b base) base b) { freep = base })
    back-OneBlock = record {
      there = ground arith;
      back = ground (arith, (ptr_apart base b s n h o some_units enough));
      empty = ap (λ g. g base) whole_sizes ∙ o.empty;
      size = ap (λ g. g b) whole_sizes ∙ o.size;
      start = inl refl;
      pointer = o.pointer;
      low = o.low;
      high = o.high;
    }

    whole_back :
        (fuel : ℕ) → 1 < fuel → Yields (OneBlock base b s) (ufree fuel (units_on b 1) whole_taken)
    unfolding whole_taken
    whole_back fuel lt =
        let f =
          ap (λ x. find_place fuel whole_taken.ptr x base) b_header
          ∙ (whole_place base b s n h o some_units enough) fuel whole_taken.ptr whole_there
              (omega arith) in
        let g =
          ap (λ x. join_before x base (join_next x base whole_taken)) b_header ∙ whole_joined in
        subst (Yields (OneBlock base b s))
          (sym (
            ufree-link fuel (units_on b 1) base whole_taken
              (set_ptr (set_ptr whole_taken b base) base b) f g))
          back-OneBlock

  -- Both.
  pub taken_back :
      (fuel nbytes : ℕ)
      → 1 < fuel
      → nbytes ≤ 8 * (n - 1)
      → let r = take_block n base b h in
        (b + 8 ≤ r.0) × (r.0 + nbytes ≤ b + 8 * s) × Yields (OneBlock base b s) (ufree fuel r.0 r.1)
  taken_back fuel nbytes lt small = elim (ℕ_discrete n s) [
    | yes e ↦ rw (take_whole e) (omega (arith, o.high), omega (arith, o.high), whole_back e fuel lt)
    | no ne ↦
        let less : n < s = omega arith in
        rw (take_part less) (
          omega (arith, o.high, q_lem less),
          omega (arith, o.high, q_lem less),
          part_back less fuel lt,
        )
  ]
