-- ===== src/Heap/Blocks.antt =====
-- A heap with one free block: what is handed out of it, and its return.
use mathlib.Core.Path.{ap₂}
use light_weight_thread_libr.Prelude.{
  ℕ, zero, suc, ◌+◌, ◌*◌, ◌%◌, ◌^◌, ◌≤◌, ◌<◌, ◌≡◌, refl, ap, ◌∙◌, ◌≢◌, ◌⊎◌, inl, inr, true, false,
  Option, none, some, arith, ltb, ==-of_eq, ne→==,
}
use light_weight_thread_libr.Heap.{
  Arena, units_on, header_of, set_ptr, set_size, fits_behind, find_place, join_next, join_before,
  ufree, take_block, alloc_loop,
}

abbrev pub Yields : {A : Type 0} → (A → Type 0) → Option A → Type 0
Yields P none = ⊥
Yields P (some a) = P a

-- The ring of the static header and the block `b` of `s` units, behind it in memory.
pub record OneBlock (base b s : ℕ) (h : Arena) : Type 0 where
  pub there : h.ptr base ≡ b
  pub back : h.ptr b ≡ base
  pub empty : h.size base ≡ 0
  pub size : h.size b ≡ s
  pub start : (h.freep ≡ base) ⊎ (h.freep ≡ b)
  pub pointer : base ≢ 0
  pub low : base + 8 ≤ b
  pub high : b + 8 * s < 2 ^ 32

pub join_next-apart :
    (bp p : ℕ) (u : Arena)
    → units_on bp (u.size bp) ≢ u.ptr p
    → join_next bp p u ≡ set_ptr u bp (u.ptr p)
unfolding join_next
join_next-apart bp p u ne = rw (ne→== (units_on bp (u.size bp)) (u.ptr p) ne) refl

pub join_before-joins :
    (bp p : ℕ) (u : Arena)
    → units_on p (u.size p) ≡ bp
    → join_before bp p u ≡ set_ptr (set_size u p ((u.size p + u.size bp) % 2 ^ 32)) p (u.ptr bp)
unfolding join_before
join_before-joins bp p u e = rw (==-of_eq (units_on p (u.size p)) bp e) refl

pub join_before-apart :
    (bp p : ℕ) (u : Arena) → units_on p (u.size p) ≢ bp → join_before bp p u ≡ set_ptr u p bp
unfolding join_before
join_before-apart bp p u ne = rw (ne→== (units_on p (u.size p)) bp ne) refl

pub ufree-link :
    (fuel a p : ℕ) (u u' : Arena)
    → find_place fuel u.ptr (header_of a) u.freep ≡ some p
    → join_before (header_of a) p (join_next (header_of a) p u) ≡ u'
    → ufree fuel a u ≡ some (record u' { freep = p })
unfolding ufree
ufree-link fuel a p u u' f g =
    let with_freep : Arena → Arena = λ x. record x { freep = p } in
    rw (ufree, f) (ap (λ x. some (with_freep x)) g)

module _ (base b s n : ℕ) (h : Arena) (o : OneBlock base b s h) (some_units : 0 < n)
    (enough : n ≤ s) where
  not_less : ltb (h.size b) n ≡ false
  not_less = rw o.size (ground arith)

  lt_units : ltb 0 n ≡ true
  lt_units = ground arith

  take_from_base : (fuel : ℕ) → 0 < fuel → alloc_loop fuel n base b h ≡ some (take_block n base b h)
  unfolding alloc_loop
  take_from_base zero lt = absurd (omega arith)
  take_from_base (suc fuel) lt = rw not_less refl

  pub ptr_apart : base ≢ b
  ptr_apart f = absurd (omega (arith, o.low, f))

  past_base :
      (fuel : ℕ)
      → h.freep ≡ b
      → alloc_loop (suc fuel) n b base h ≡ alloc_loop fuel n base (h.ptr base) h
  unfolding alloc_loop
  past_base fuel e = rw (o.empty, lt_units, ne→== base h.freep (λ f. ptr_apart (f ∙ e))) refl

  pub alloc_lem :
      (fuel : ℕ)
      → 1 < fuel
      → alloc_loop fuel n h.freep (h.ptr h.freep) h ≡ some (take_block n base b h)
  alloc_lem zero lt = absurd (omega arith)
  alloc_lem (suc fuel) lt = elim o.start [
    | inl e ↦
        ap₂ (λ x y. alloc_loop (suc fuel) n x y h) e (ap h.ptr e ∙ o.there)
        ∙ take_from_base (suc fuel) (omega arith)
    | inr e ↦
        ap₂ (λ x y. alloc_loop (suc fuel) n x y h) e (ap h.ptr e ∙ o.back)
        ∙ past_base fuel e
        ∙ ap (λ y. alloc_loop fuel n base y h) o.there
        ∙ take_from_base fuel (omega arith)
  ]

  -- The whole block is handed out.
  whole_fits : (ptr : ℕ → ℕ) → ptr base ≡ base → fits_behind ptr b base ≡ true
  unfolding fits_behind
  whole_fits ptr e = rw e (ground (arith, o.low))

  pub whole_place :
      (fuel : ℕ) (ptr : ℕ → ℕ) → ptr base ≡ base → 0 < fuel → find_place fuel ptr b base ≡ some base
  unfolding find_place
  whole_place zero ptr e lt = absurd (omega arith)
  whole_place (suc fuel) ptr e lt = rw (ne→== base 0 o.pointer, whole_fits ptr e)

  -- Its end is handed out.
  part_skips : (q : ℕ) (ptr : ℕ → ℕ) → ptr base ≡ b → b < q → fits_behind ptr q base ≡ false
  unfolding fits_behind
  part_skips q ptr e lq = rw e (ground (arith, o.low))

  part_fits : (q : ℕ) (ptr : ℕ → ℕ) → ptr b ≡ base → b < q → fits_behind ptr q b ≡ true
  unfolding fits_behind
  part_fits q ptr e lq = rw e (ground (arith, o.low))

  pub part_place :
      (fuel q : ℕ) (ptr : ℕ → ℕ)
      → ptr base ≡ b
      → ptr b ≡ base
      → b < q
      → 1 < fuel
      → find_place fuel ptr q base ≡ some b
  unfolding find_place
  part_place zero q ptr e e' lq lt = absurd (omega arith)
  part_place (suc zero) q ptr e e' lq lt = absurd (omega arith)
  part_place (suc (suc fuel)) q ptr e e' lq lt = rw (
    ne→== base 0 o.pointer,
    part_skips q ptr e lq,
    e,
    ne→== b 0 (λ f. absurd (omega (arith, o.low))),
    part_fits q ptr e' lq,
  )
