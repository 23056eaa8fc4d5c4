-- ===== src/Tests/Heaps.antt =====
-- The allocator on a heap of 10 units at address 4096.
use light_weight_thread_libr.Prelude.{◌+◌, ◌≤◌, refl, inl, [], arith, ◌==◌, if◌then◌else◌}
use light_weight_thread_libr.Heap.{Arena, ufree, umalloc}
use light_weight_thread_libr.Heap.Blocks.{Yields, OneBlock}
use light_weight_thread_libr.Heap.RoundTrip.{ufree-umalloc}

abbrev fresh : Arena
fresh = record {
  ptr = λ p. if p == 1024 then 4096 else 1024;
  size = λ p. if p == 4096 then 10 else 0;
  freep = 1024;
  pages = [];
}

fresh-OneBlock : OneBlock 1024 4096 10 fresh
fresh-OneBlock = record {
  there = refl;
  back = refl;
  empty = refl;
  size = refl;
  start = inl refl;
  pointer = λ e. omega arith;
  low = omega arith;
  high = omega arith;
}

ufree-umalloc_example :
    Yields
      (λ r. (4104 ≤ r.0) × (r.0 + 20 ≤ 4176) × Yields (OneBlock 1024 4096 10) (ufree 2 r.0 r.1))
      (umalloc 1024 2 20 fresh)
ufree-umalloc_example =
    ufree-umalloc 1024 4096 10 fresh fresh-OneBlock 2 20 (omega arith) (omega arith) (omega arith)
