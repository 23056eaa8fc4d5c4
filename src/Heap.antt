-- ===== src/Heap.antt =====
-- umalloc.c: the allocator, a ring of free blocks with the next one to look at in `freep`.
-- An address is a bit pattern below 2 ^ 32 and a header takes 8 bytes. `base` is the address of the
-- static header; `none` is the outcome of a search that has used its fuel up, or of following
-- `NULL`.
pub mod Blocks
pub mod Return
pub mod RoundTrip
use light_weight_thread_libr.Prelude.{
  ℕ, zero, suc, ◌+◌, ◌-◌, ◌*◌, ◌/◌, ◌%◌, ◌^◌, Bool, not, ◌&&◌, ◌||◌, Option, none, some, List, [],
  ◌∷◌, ◌==◌, ltb, if◌then◌else◌, ℕ_discrete,
}
use light_weight_thread_libr.Links.{update}

-- The headers by their addresses. `pages` is what the coming calls of `cos_page_bump_alloc` return.
pub record Arena : Type 0 where
  pub ptr : ℕ → ℕ
  pub size : ℕ → ℕ
  pub freep : ℕ
  pub pages : List ℕ

-- `p + units` and `p - 1` on headers.
abbrev pub units_on : ℕ → ℕ → ℕ
units_on p units = (p + 8 * units) % 2 ^ 32

abbrev pub header_of : ℕ → ℕ
header_of ap = (ap + (2 ^ 32 - 8)) % 2 ^ 32

abbrev pub set_ptr : Arena → ℕ → ℕ → Arena
set_ptr h p q = record h { ptr = update ℕ_discrete h.ptr p q }

abbrev pub set_size : Arena → ℕ → ℕ → Arena
set_size h p n = record h { size = update ℕ_discrete h.size p n }

-- The loop of `ufree`: the block after which `bp` belongs.
unfoldable pub fits_behind : (ℕ → ℕ) → ℕ → ℕ → Bool
fits_behind ptr bp p =
    (ltb p bp && ltb bp (ptr p)) || (not (ltb p (ptr p)) && (ltb p bp || ltb bp (ptr p)))

unfoldable pub find_place : ℕ → (ℕ → ℕ) → ℕ → ℕ → Option ℕ
find_place zero ptr bp p = none
find_place (suc fuel) ptr bp p =
    let rest = find_place fuel ptr bp (ptr p) in
    if p == 0 then none else if fits_behind ptr bp p then some p else rest

-- `bp` is joined with the block behind it, and with the block `p` before it.
unfoldable pub join_next : ℕ → ℕ → Arena → Arena
join_next bp p h =
    let q = h.ptr p in
    if units_on bp (h.size bp) == q
    then set_ptr (set_size h bp ((h.size bp + h.size q) % 2 ^ 32)) bp (h.ptr q)
    else set_ptr h bp q

unfoldable pub join_before : ℕ → ℕ → Arena → Arena
join_before bp p h =
    if units_on p (h.size p) == bp
    then set_ptr (set_size h p ((h.size p + h.size bp) % 2 ^ 32)) p (h.ptr bp)
    else set_ptr h p bp

unfoldable pub ufree : ℕ → ℕ → Arena → Option Arena
ufree fuel ap h =
    let bp = header_of ap in
    elim (find_place fuel h.ptr bp h.freep) [
      | none ↦ none
      | some p ↦ some (record (join_before bp p (join_next bp p h)) { freep = p })
    ]

-- `cos_page_bump_alloc`; -1 when no page is left.
unfoldable pub page_alloc : Arena → ℕ × Arena
page_alloc h = elim h.pages [ [] ↦ (2 ^ 32 - 1, h) | p ∷ ps ↦ (p, record h { pages = ps }) ]

unfoldable pub drop_pages : ℕ → Arena → Arena
drop_pages zero h = h
drop_pages (suc k) h = drop_pages k (page_alloc h).1

unfoldable pub morecore : ℕ → ℕ → Arena → Option (ℕ × Arena)
morecore fuel nu h =
    let r = page_alloc h in
    let p = r.0 in
    let h' = drop_pages ((nu * 8) % 2 ^ 32 / 4096) r.1 in
    if p == 2 ^ 32 - 1
    then some (0, h')
    else if p == 0
    then none
    else elim (ufree fuel (units_on p 1) (set_size h' p nu)) [
      | none ↦ none
      | some h'' ↦ some (h''.freep, h'')
    ]

-- The block `p`, which is large enough, is handed out, or its end is.
unfoldable pub take_block : ℕ → ℕ → ℕ → Arena → ℕ × Arena
take_block nunits prevp p h =
    if h.size p == nunits
    then (units_on p 1, record (set_ptr h prevp (h.ptr p)) { freep = prevp })
    else let left = h.size p - nunits in
      let q = units_on p left in
      (units_on q 1, record (set_size (set_size h p left) q nunits) { freep = prevp })

unfoldable pub alloc_loop : ℕ → ℕ → ℕ → ℕ → Arena → Option (ℕ × Arena)
alloc_loop zero nunits prevp p h = none
alloc_loop (suc fuel) nunits prevp p h =
    let rest = alloc_loop fuel nunits p (h.ptr p) h in
    if not (ltb (h.size p) nunits)
    then some (take_block nunits prevp p h)
    else if not (p == h.freep)
    then rest
    else elim (morecore fuel nunits h) [
      | none ↦ none
      | some (q, h') ↦ elim q [
        | zero ↦ some (0, h')
        | suc a ↦ alloc_loop fuel nunits (suc a) (h'.ptr (suc a)) h'
      ]
    ]

module _ (base : ℕ) where
  unfoldable pub first_use : Arena → Arena
  first_use h =
      if h.freep == 0 then record (set_size (set_ptr h base base) base 0) { freep = base } else h

  unfoldable pub umalloc : ℕ → ℕ → Arena → Option (ℕ × Arena)
  umalloc fuel nbytes h =
      let nunits = (nbytes + 7) % 2 ^ 32 / 8 + 1 in
      let h' = first_use h in alloc_loop fuel nunits h'.freep (h'.ptr h'.freep) h'
