-- ===== src/Etl/Merge/Laws.antt =====
-- The result of `mergeSortFiles` of etl/collector.go.
use erigon_lib.Base.{
  ℕ, zero, suc, ◌≤◌, ◌≡◌, refl, sym, ap, ◌∙◌, arith, Bool, true, false, Option, none, some, List,
  [], ◌∷◌, ◌++◌, length, All, All-append, length-append, get_elem?, Result, Bool-cases,
  Option-cases, ◌⊎◌, inl, inr,
}
use erigon_lib.Etl.Sorting.{
  Entry, by_key, by_key-IsWeakOrder, stable_sort, inserts, IsSorted, AtLeast, Above, AtLeast-mono,
  stable_sort_first, insert-inserts,
}
use erigon_lib.Etl.Provider.{ReadError}
use erigon_lib.Etl.Provider.Laws.{Yields}
use erigon_lib.Etl.Merge.{
  HeapElem, elem, heap_less, push, panicked, set, first_elements, main_loop, merge_sort_files,
  load_all,
}
use erigon_lib.Etl.Merge.Heap.{heap_less-IsWeakOrder}
use erigon_lib.Etl.Merge.Streams.{
  Streams, concat, heads, tops, concat-append, no_heads, Least, least, heap_of, heap_of_first,
  push-heap_of, later-Apart,
}

less_through : (e x y : Entry) → by_key e x ≡ true → by_key y x ≡ false → by_key e y ≡ true
less_through e x y h k = elim (Bool-cases (by_key e y)) [
  | inl t ↦ t
  | inr n ↦ let wrong = by_key-IsWeakOrder.not_less_trans x y e k n in cc
]

through : (e x : Entry) (l : List Entry) → by_key e x ≡ true → AtLeast by_key x l → Above by_key e l
through e x [] h a = tt
through e x (y ∷ l) h a = (less_through e x y h a.0, through e x l h a.1)

concat-Above :
    (e : Entry) (ess : Streams)
    → All (IsSorted by_key) ess
    → Above by_key e (heads ess)
    → Above by_key e (concat ess)
concat-Above e [] s h = tt
concat-Above e ([] ∷ ess) s h = concat-Above e ess s.1 h
concat-Above e ((x ∷ xs) ∷ ess) s h = (
  h.0,
  All-append (λ (y : Entry). by_key e y ≡ true) xs (concat ess) (through e x xs h.0 s.0.0)
      (concat-Above e ess s.1 h.1),
)

concat-AtLeast :
    (e : Entry) (ess : Streams)
    → All (IsSorted by_key) ess
    → AtLeast by_key e (heads ess)
    → AtLeast by_key e (concat ess)
concat-AtLeast e [] s h = tt
concat-AtLeast e ([] ∷ ess) s h = concat-AtLeast e ess s.1 h
concat-AtLeast e ((x ∷ xs) ∷ ess) s h = (
  h.0,
  All-append (λ (y : Entry). by_key y e ≡ false) xs (concat ess)
      (AtLeast-mono by_key by_key-IsWeakOrder e x xs h.0 s.0.0) (concat-AtLeast e ess s.1 h.1),
)

-- Of sorted lists.
abbrev Sorted : Streams → Type 0
Sorted ess = All (IsSorted by_key) ess

parts_of :
    (bs : Streams) (es : List Entry) (cs : Streams)
    → Sorted (bs ++ (es ∷ cs))
    → Sorted bs × IsSorted by_key es × Sorted cs
parts_of [] es cs h = (tt, h.0, h.1)
parts_of (b ∷ bs) es cs h = let (x, y, z) = parts_of bs es cs h.1 in ((h.0, x), y, z)

-- The first entry of all.
first_of_all :
    (bs : Streams) (e : Entry) (es : List Entry) (cs : Streams)
    → Sorted (bs ++ ((e ∷ es) ∷ cs))
    → Above by_key e (heads bs)
    → AtLeast by_key e (heads cs)
    → stable_sort by_key (concat (bs ++ ((e ∷ es) ∷ cs)))
      ≡ e ∷ stable_sort by_key (concat (bs ++ (es ∷ cs)))
first_of_all bs e es cs s h k =
    let (x, y, z) = parts_of bs (e ∷ es) cs s in
    rw (concat-append bs ((e ∷ es) ∷ cs), concat-append bs (es ∷ cs))
      (stable_sort_first by_key by_key-IsWeakOrder e (concat bs) (es ++ concat cs)
        (concat-Above e bs x h)
        (All-append (λ (t : Entry). by_key t e ≡ false) es (concat cs) y.0
          (concat-AtLeast e cs z k)))

rest-Sorted :
    (bs : Streams) (e : Entry) (es : List Entry) (cs : Streams)
    → Sorted (bs ++ ((e ∷ es) ∷ cs))
    → Sorted (bs ++ (es ∷ cs))
rest-Sorted bs e es cs s =
    let (x, y, z) = parts_of bs (e ∷ es) cs s in
    All-append (IsSorted by_key) bs (es ∷ cs) x (y.1, z)

rest_shorter :
    (bs : Streams) (e : Entry) (es : List Entry) (cs : Streams)
    → length (concat (bs ++ ((e ∷ es) ∷ cs))) ≡ suc (length (concat (bs ++ (es ∷ cs))))
rest_shorter bs e es cs = omega (
  arith,
  ap length (concat-append bs ((e ∷ es) ∷ cs)),
  ap length (concat-append bs (es ∷ cs)),
  length-append (concat bs) (e ∷ (es ++ concat cs)),
  length-append (concat bs) (es ++ concat cs),
)

module _ {P : Type 0} (more : P → List ℕ → List ℕ → Result ReadError (Entry × P)) where
  -- The first entry of a list is in the heap, and its provider gives the others.
  abbrev Feeds : P → List Entry → Type 0
  Feeds p [] = Unit
  Feeds p (e ∷ es) = Yields more p es

  abbrev Aligned : List P → Streams → Type 0
  Aligned [] [] = Unit
  Aligned [] (es ∷ ess) = ⊥
  Aligned (p ∷ ps) [] = ⊥
  Aligned (p ∷ ps) (es ∷ ess) = Feeds p es × Aligned ps ess

  -- Every provider has an entry, and gives its entries in order.
  abbrev pub Sources : List P → Streams → Type 0
  Sources [] [] = Unit
  Sources [] (es ∷ ess) = ⊥
  Sources (p ∷ ps) [] = ⊥
  Sources (p ∷ ps) ([] ∷ ess) = ⊥
  Sources (p ∷ ps) ((e ∷ es) ∷ ess) =
      Yields more p (e ∷ es) × IsSorted by_key (e ∷ es) × Sources ps ess

module _ {P S L : Type 0} (more : P → List ℕ → List ℕ → Result ReadError (Entry × P))
    (load : S → Entry → S × Option L) (quit : ℕ → Bool) where
  Aligned-at :
      (ps : List P) (bs : Streams) (e : Entry) (es : List Entry) (cs : Streams)
      → Aligned more ps (bs ++ ((e ∷ es) ∷ cs))
      → (p : P) × (get_elem? ps (length bs) ≡ some p)
        × Yields more p es
        × Aligned more ps (bs ++ ([] ∷ cs))
        × ((q : P) (fs : List Entry)
            → Feeds more q fs
            → Aligned more (set ps (length bs) q) (bs ++ (fs ∷ cs)))
  Aligned-at [] [] e es cs h = absurd h
  Aligned-at [] (b ∷ bs) e es cs h = absurd h
  Aligned-at (p ∷ ps) [] e es cs h = (p, refl, h.0, (tt, h.1), λ q fs f. (f, h.1))
  Aligned-at (p ∷ ps) (b ∷ bs) e es cs h =
      let (q, at, y, ended, changed) = Aligned-at ps bs e es cs h.1 in
      (q, at, y, (h.0, ended), λ r fs f. (h.0, changed r fs f))

  abbrev Merges : ℕ → Type 0
  Merges fuel =
      (n : ℕ) (ps : List P) (ess : Streams) (s : S)
      → Aligned more ps ess
      → Sorted ess
      → length (concat ess) ≤ fuel
      → main_loop more load quit fuel n ps (heap_of ess) s
        ≡ load_all load quit n s (stable_sort by_key (concat ess))

  one_round :
      (fuel : ℕ)
      → Merges fuel
      → (n : ℕ) (ps : List P) (bs : Streams) (e : Entry) (es : List Entry) (cs : Streams) (s : S)
      → Aligned more ps (bs ++ ((e ∷ es) ∷ cs))
      → Sorted (bs ++ ((e ∷ es) ∷ cs))
      → length (concat (bs ++ (es ∷ cs))) ≤ fuel
      → main_loop more load quit (suc fuel) n ps (elem e (length bs) ∷ heap_of (bs ++ ([] ∷ cs))) s
        ≡ load_all load quit n s (e ∷ stable_sort by_key (concat (bs ++ (es ∷ cs))))
  unfolding main_loop load_all
  one_round fuel merges n ps bs e [] cs s al so le =
      let (p, at, y, ended, changed) = Aligned-at ps bs e [] cs al in
      elim (Bool-cases (quit n)) [
        | inl q ↦ rw (main_loop, load_all, q)
        | inr q ↦ elim (Option-cases (load s e).1) [
          | inr (l, failed) ↦ rw (main_loop, load_all, q, at, failed)
          | inl fine ↦
              rw (main_loop, load_all, q, at, fine, y [] [])
                (merges (suc n) ps (bs ++ ([] ∷ cs)) (load s e).0 ended (rest-Sorted bs e [] cs so)
                  le)
        ]
      ]
  one_round fuel merges n ps bs e (f ∷ fs) cs s al so le =
      let (p, at, y, ended, changed) = Aligned-at ps bs e (f ∷ fs) cs al in
      let (p', gives, rest) = y in
      elim (Bool-cases (quit n)) [
        | inl q ↦ rw (main_loop, load_all, q)
        | inr q ↦ elim (Option-cases (load s e).1) [
          | inr (l, failed) ↦ rw (main_loop, load_all, q, at, failed)
          | inl fine ↦
              rw (main_loop, load_all, q, at, fine, gives [] [])
                (ap
                    (λ h.
                      main_loop more load quit fuel (suc n) (set ps (length bs) p') h (load s e).0)
                    (push-heap_of bs f fs cs)
                  ∙ merges (suc n) (set ps (length bs) p') (bs ++ ((f ∷ fs) ∷ cs)) (load s e).0
                      (changed p' (f ∷ fs) rest) (rest-Sorted bs e (f ∷ fs) cs so) le)
        ]
      ]

  merged :
      (fuel n : ℕ) (ps : List P) (ess : Streams) (s : S)
      → Aligned more ps ess
      → Sorted ess
      → length (concat ess) ≤ fuel
      → (heads ess ≡ []) ⊎ Least ess
      → main_loop more load quit fuel n ps (heap_of ess) s
        ≡ load_all load quit n s (stable_sort by_key (concat ess))
  unfolding main_loop load_all stable_sort inserts
  merged fuel n ps ess s al so le (inl none_) = let (t, c) = no_heads 0 ess none_ in rw (t, c)
  merged zero n ps ess s al so le (inr l) = absurd (
      omega (
        arith,
        ap (λ t. length (concat t)) l.splits,
        rest_shorter l.before l.first l.others l.behind,
      ))
  merged (suc fuel) n ps ess s al so le (inr l) =
      let size = rest_shorter l.before l.first l.others l.behind in
      let merges : Merges fuel =
        λ n' ps' ess' s' al' so' le'. merged fuel n' ps' ess' s' al' so' le' (least ess') in
      let so' : Sorted (l.before ++ ((l.first ∷ l.others) ∷ l.behind)) = rw l.splits at so in
      let al' : Aligned more ps (l.before ++ ((l.first ∷ l.others) ∷ l.behind)) =
        rw l.splits at al in
      ap (λ t. main_loop more load quit (suc fuel) n ps (heap_of t) s) l.splits
      ∙ ap (λ h. main_loop more load quit (suc fuel) n ps h s)
          (heap_of_first l.before l.first l.others l.behind l.above l.at_least)
      ∙ one_round fuel merges n ps l.before l.first l.others l.behind s al' so'
          (omega (arith, size, ap (λ t. length (concat t)) l.splits))
      ∙ sym (
          ap (λ t. load_all load quit n s (stable_sort by_key (concat t))) l.splits
          ∙ ap (λ t. load_all load quit n s t)
              (first_of_all l.before l.first l.others l.behind so' l.above l.at_least))

  swap :
      (i : ℕ) (e : Entry) (ess : Streams) (h : List HeapElem)
      → inserts heap_less (tops (suc i) ess) (push (elem e i) h)
        ≡ push (elem e i) (inserts heap_less (tops (suc i) ess) h)
  swap i e ess h = sym (
      insert-inserts heap_less heap_less-IsWeakOrder (elem e i) (tops (suc i) ess) h
        (later-Apart (elem e i) (suc i) ess (omega arith)))

  first_elements_lem :
      (i : ℕ) (ps : List P) (ess : Streams) (h : List HeapElem)
      → Sources more ps ess
      → (qs : List P) × (first_elements more load quit i ps h
          ≡ some (qs, inserts heap_less (tops i ess) h))
        × Aligned more qs ess
        × Sorted ess
  unfolding first_elements inserts
  first_elements_lem i [] [] h so = ([], refl, tt, tt)
  first_elements_lem i [] (es ∷ ess) h so = absurd so
  first_elements_lem i (p ∷ ps) [] h so = absurd so
  first_elements_lem i (p ∷ ps) ([] ∷ ess) h so = absurd so
  first_elements_lem i (p ∷ ps) ((e ∷ es) ∷ ess) h (y, sorted, so) =
      let (p', gives, rest) = y in
      let (qs, done, al, all_sorted) = first_elements_lem (suc i) ps ess (push (elem e i) h) so in
      (
        p' ∷ qs,
        rw (first_elements, gives [] [], done) (ap (λ t. some (p' ∷ qs, t)) (swap i e ess h)),
        (rest, al),
        (sorted, all_sorted),
      )

  -- The merge of providers, each with an entry and its entries in order, loads the entries one after
  -- another in the order that stably sorting the providers' lists, one behind another, gives. The
  -- same error of the load function, or the same stop, ends both. A round for each entry is enough fuel.
  pub merge_sort_files-load_all :
      (fuel : ℕ) (ps : List P) (ess : Streams) (s : S)
      → Sources more ps ess
      → length (concat ess) ≤ fuel
      → merge_sort_files more load quit fuel ps s
        ≡ load_all load quit 0 s (stable_sort by_key (concat ess))
  unfolding merge_sort_files stable_sort
  merge_sort_files-load_all fuel ps ess s so le =
      let (qs, done, al, sorted) = first_elements_lem 0 ps ess [] so in
      rw (merge_sort_files, done) (merged fuel 0 qs ess s al sorted le (least ess))

  first_elements_empty :
      (i : ℕ) (ps : List P) (ess : Streams) (p : P) (qs : List P) (h : List HeapElem)
      → Sources more ps ess
      → Yields more p []
      → first_elements more load quit i (ps ++ (p ∷ qs)) h ≡ none
  unfolding first_elements
  first_elements_empty i [] [] p qs h so y = rw (y [] [])
  first_elements_empty i [] (es ∷ ess) p qs h so y = absurd so
  first_elements_empty i (r ∷ ps) [] p qs h so y = absurd so
  first_elements_empty i (r ∷ ps) ([] ∷ ess) p qs h so y = absurd so
  first_elements_empty i (r ∷ ps) ((e ∷ es) ∷ ess) p qs h (g, sorted, so) y =
      let (r', gives, rest) = g in
      rw (gives [] [], first_elements_empty (suc i) ps ess p qs (push (elem e i) h) so y)

  -- A provider without an entry makes the merge panic, if those before it have entries and give them in
  -- order.
  pub merge_sort_files-empty :
      (fuel : ℕ) (ps : List P) (ess : Streams) (p : P) (qs : List P) (s : S)
      → Sources more ps ess
      → Yields more p []
      → merge_sort_files more load quit fuel (ps ++ (p ∷ qs)) s ≡ panicked
  unfolding merge_sort_files
  merge_sort_files-empty fuel ps ess p qs s so y =
      rw (merge_sort_files, first_elements_empty 0 ps ess p qs [] so y)
