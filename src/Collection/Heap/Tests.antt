-- ===== src/Collection/Heap/Tests.antt =====
-- Runs and witnesses of heaps and heapsort.
use xpute.Common.{ℕ, zero, suc, ◌+◌, ◌<◌, ◌≡◌, refl, true, Option, none, some, List, [], ◌∷◌, arith}
use xpute.Collection.Heap.{Element, Array, ahead, push, pop, replace_root, top, heapsort, ◌>>=◌}
use xpute.Collection.Heap.Order.{Leads, IsHeapFrom, Holds, total}
use xpute.Collection.Heap.Sort.{IsSorted, heapsort_correct}
use xpute.Collection.Heap.Queue.{queue_correct}

abbrev of_keys : List ℕ → Array ℕ
of_keys [] i = record { key = 0; val = 0 }
of_keys (k ∷ ks) zero = record { key = k; val = k + 100 }
of_keys (k ∷ ks) (suc i) = of_keys ks i

abbrev keys : ℕ → Array ℕ → List ℕ
keys zero a = []
keys (suc n) a = (a 0).key ∷ keys n (λ i. a (suc i))

abbrev shuffled : Array ℕ
shuffled = of_keys (5 ∷ 3 ∷ 8 ∷ 1 ∷ 9 ∷ 3 ∷ [])

abbrev small : Array ℕ
small = of_keys (1 ∷ 4 ∷ 2 ∷ [])

small-IsHeapFrom : IsHeapFrom true 0 small 3
unfolding ahead
small-IsHeapFrom (suc zero) p q r = refl
small-IsHeapFrom (suc (suc zero)) p q r = refl
small-IsHeapFrom zero p q r = absurd (omega arith)
small-IsHeapFrom (suc (suc (suc c))) p q r = absurd (omega arith)

shuffled_sorted : (heapsort shuffled 6 >>= λ b. some (keys 6 b)) ≡ some (1 ∷ 3 ∷ 3 ∷ 5 ∷ 8 ∷ 9 ∷ [])
unfolding heapsort
shuffled_sorted = refl

abbrev popped : Option (Option (Element ℕ) × (Array ℕ × ℕ)) → List ℕ
popped none = []
popped (some (none, (a, n))) = keys n a
popped (some (some e, (a, n))) = e.key ∷ keys n a

small_popped : popped (pop true small 3) ≡ 1 ∷ 2 ∷ 4 ∷ []
unfolding pop
small_popped = refl

empty_popped : pop true small 0 ≡ some (none, (small, 0))
unfolding pop
empty_popped = refl

heapsort_correct_example :
    (b : Array ℕ) × (heapsort shuffled 6 ≡ some b) × IsSorted 6 b × Holds 6 shuffled b
heapsort_correct_example = heapsort_correct 6 shuffled

queue_correct_example :
    ((b : Array ℕ) × (push true (record { key = 0; val = 7 }) small 3 ≡ some (b, 4))
      × IsHeapFrom true 0 b 4
      × ((g : Element ℕ → ℕ) → total g b 4 ≡ total g small 3 + g (record { key = 0; val = 7 })))
    × ((b : Array ℕ) × (pop true small 3 ≡ some (some (small 0), (b, 2)))
        × IsHeapFrom true 0 b 2
        × ((g : Element ℕ → ℕ) → total g b 2 + g (small 0) ≡ total g small 3))
    × ((b : Array ℕ) × (replace_root true (record { key = 0; val = 7 }) small 3 ≡ some b)
        × IsHeapFrom true 0 b 3
        × ((g : Element ℕ → ℕ)
            → total g b 3 + g (small 0) ≡ total g small 3 + g (record { key = 0; val = 7 })))
    × (top small 3 ≡ some (small 0))
    × ((i : ℕ) → i < 3 → Leads true (small 0).key (small i).key)
queue_correct_example = queue_correct true 2 small (record { key = 0; val = 7 }) small-IsHeapFrom
