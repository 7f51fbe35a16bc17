-- ===== src/AStar/Queue.antt =====
-- `heapq` as an interface: what is relied on is which entries a heap holds. The list that is kept
-- sorted, and pops its first entry, meets it.
use navigation.Prelude.{
  suc, ◌≡◌, refl, ◌↔◌, ◌⊎◌, Bool, Option, none, some, List, [], ◌∷◌, ◌∈◌, length, if◌then◌else◌,
  arith,
}

-- `push` is `heapq.heappush` and `pop` is `heapq.heappop`, `none` on an empty heap.
pub record PriorityQueue (E : Type 0) : Type 1 where
  pub Heap : Type 0
  pub empty : Heap
  pub push : E → Heap → Heap
  pub pop : Heap → Option (E × Heap)
  pub entries : Heap → List E

pub record IsQueue {E : Type 0} (q : PriorityQueue E) : Type 0 where
  pub entries-empty : q.entries q.empty ≡ []
  pub mem-push :
      (e x : E) (h : q.Heap) → (x ∈ q.entries (q.push e h)) ↔ ((x ≡ e) ⊎ (x ∈ q.entries h))
  pub length-push :
      (e : E) (h : q.Heap) → length (q.entries (q.push e h)) ≡ suc (length (q.entries h))
  pub pop_none : (h : q.Heap) → q.pop h ≡ none → q.entries h ≡ []
  pub mem-pop :
      (h : q.Heap) (e : E) (rest : q.Heap)
      → q.pop h ≡ some (e, rest)
      → (x : E) → (x ∈ q.entries h) ↔ ((x ≡ e) ⊎ (x ∈ q.entries rest))
  pub length-pop :
      (h : q.Heap) (e : E) (rest : q.Heap)
      → q.pop h ≡ some (e, rest)
      → length (q.entries h) ≡ suc (length (q.entries rest))

module _ {E : Type 0} (before : E → E → Bool) where
  unfoldable pub insert_sorted : E → List E → List E
  insert_sorted e [] = e ∷ []
  insert_sorted e (x ∷ xs) = if before e x then e ∷ x ∷ xs else x ∷ insert_sorted e xs

  abbrev pub first : List E → Option (E × List E)
  first [] = none
  first (x ∷ xs) = some (x, xs)

  abbrev pub sorted_queue : PriorityQueue E
  sorted_queue = record {
    Heap = List E;
    empty = [];
    push = insert_sorted;
    pop = first;
    entries = λ h. h;
  }

  mem-insert_sorted : (e x : E) (xs : List E) → (x ∈ insert_sorted e xs) ↔ ((x ≡ e) ⊎ (x ∈ xs))
  unfolding insert_sorted
  mem-insert_sorted e x [] = (λ h. h, λ h. h)
  mem-insert_sorted e x (y ∷ ys) = ground (arith, mem-insert_sorted e x ys)

  length-insert_sorted : (e : E) (xs : List E) → length (insert_sorted e xs) ≡ suc (length xs)
  unfolding insert_sorted
  length-insert_sorted e [] = refl
  length-insert_sorted e (y ∷ ys) = ground (arith, length-insert_sorted e ys)

  pop_none_lem : (h : List E) → first h ≡ none → h ≡ []
  pop_none_lem [] e = refl
  pop_none_lem (x ∷ xs) e = ground arith

  mem-first :
      (h : List E) (e : E) (rest : List E)
      → first h ≡ some (e, rest)
      → (x : E) → (x ∈ h) ↔ ((x ≡ e) ⊎ (x ∈ rest))
  mem-first [] e rest p x = ground arith
  mem-first (y ∷ ys) e rest p x = ground arith

  length-first :
      (h : List E) (e : E) (rest : List E) → first h ≡ some (e, rest) → length h ≡ suc (length rest)
  length-first [] e rest p = ground arith
  length-first (y ∷ ys) e rest p = ground arith

  pub sorted_queue-IsQueue : IsQueue sorted_queue
  sorted_queue-IsQueue = record {
    entries-empty = refl;
    mem-push = mem-insert_sorted;
    length-push = length-insert_sorted;
    pop_none = pop_none_lem;
    mem-pop = mem-first;
    length-pop = length-first;
  }
