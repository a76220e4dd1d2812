-- ===== src/Tests/Pointers.antt =====
-- One object and a pointer to it.
use online_judger.Common.{refl, true, false, [], ◌∷◌, none, some}
use online_judger.Common.Int.{pos}
use online_judger.RefPtr.{Heap, new_object, put, assign, Store, creates, Reachable, empty, step}
use online_judger.RefPtr.Counts.{IsCounted, Reachable-IsCounted}

abbrev no_objects : Heap
no_objects a = record { counter = pos 0; managed = true; alive = false }

abbrev one_object : Store
one_object = record {
  heap = assign none (some 5) (put 5 new_object no_objects);
  vars = some 5 ∷ none ∷ [];
}

created : Reachable one_object
created = step (empty no_objects (λ a. refl)) (creates no_objects (none ∷ []) 5 refl)

Reachable-IsCounted_example : IsCounted one_object
Reachable-IsCounted_example = Reachable-IsCounted one_object created
