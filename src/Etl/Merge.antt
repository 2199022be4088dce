-- ===== src/Etl/Merge.antt =====
-- etl/heap.go and `mergeSortFiles` of etl/collector.go.
pub mod Heap
pub mod Streams
pub mod Laws
use erigon_lib.Base.{
  ℕ, zero, suc, Bool, true, false, Option, none, some, List, [], ◌∷◌, ltb, get_elem?, Result, ok,
  err, fault, if◌then◌else◌,
}
use erigon_lib.Iter.Order.{bytes_lt, bytes_eq}
use erigon_lib.Iter.Union.{◌>>=◌}
use erigon_lib.Etl.Sorting.{Entry, insert}
use erigon_lib.Etl.Provider.{ReadError, eof, unexpected_eof, too_long}

pub record HeapElem : Type 0 where
  pub key : List ℕ
  pub value : List ℕ
  pub time_idx : ℕ

abbrev pub elem : Entry → ℕ → HeapElem
elem e i = record { key = e.0; value = e.1; time_idx = i }

-- `Heap.Less`: by the keys, and elements with one key by their providers.
abbrev pub heap_less : HeapElem → HeapElem → Bool
heap_less a b = if bytes_eq a.key b.key then ltb a.time_idx b.time_idx else bytes_lt a.key b.key

-- No two elements are equal, since each provider has at most one. So a heap gives them in one order,
-- and the model holds them in it: `heap.Push` puts an element in its place, `heap.Pop` takes the first.
abbrev pub push : HeapElem → List HeapElem → List HeapElem
push x h = insert heap_less x h

-- All ends of the call, with the state of the load function.
pub data Outcome (S L : Type 0) : Type 0 where
  loaded : S → Outcome S L
  load_failed : S → L → Outcome S L
  read_failed : S → ReadError → Outcome S L
  stopped : S → Outcome S L
  panicked : Outcome S L
  out_of_fuel : Outcome S L

abbrev pub set : {P : Type 0} → List P → ℕ → P → List P
set [] i q = []
set (p ∷ ps) zero q = q ∷ ps
set (p ∷ ps) (suc i) q = p ∷ set ps i q

-- `more` is `Next` of the providers, `load` the function that is called for each entry, and `quit` what
-- `common.Stopped` gives in each round.
module _ {P S L : Type 0} (more : P → List ℕ → List ℕ → Result ReadError (Entry × P))
    (load : S → Entry → S × Option L) (quit : ℕ → Bool) where
  -- The first pass. `none` is its panic.
  unfoldable pub first_elements : ℕ → List P → List HeapElem → Option (List P × List HeapElem)
  first_elements i [] h = some ([], h)
  first_elements i (p ∷ ps) h = elim (more p [] []) [
    | ok r ↦ do (rest, h') ← first_elements (suc i) ps (push (elem r.0 i) h); some (r.1 ∷ rest, h')
    | err x ↦ none
    | fault ↦ none
  ]

  -- The main loop.
  unfoldable pub main_loop : ℕ → ℕ → List P → List HeapElem → S → Outcome S L
  main_loop fuel n ps [] s = loaded s
  main_loop zero n ps (x ∷ h) s = out_of_fuel
  main_loop (suc fuel) n ps (x ∷ h) s = elim (quit n) [
    | true ↦ stopped s
    | false ↦ elim (get_elem? ps x.time_idx) [
      | none ↦ panicked
      | some p ↦
          let r = load s (x.key, x.value) in
          elim r.1 [
            | some l ↦ load_failed r.0 l
            | none ↦ elim (more p [] []) [
              | ok q ↦
                  main_loop fuel (suc n) (set ps x.time_idx q.1) (push (elem q.0 x.time_idx) h) r.0
              | err eof ↦ main_loop fuel (suc n) ps h r.0
              | err unexpected_eof ↦ read_failed r.0 unexpected_eof
              | err too_long ↦ read_failed r.0 too_long
              | fault ↦ panicked
            ]
          ]
    ]
  ]

  unfoldable pub merge_sort_files : ℕ → List P → S → Outcome S L
  unfolding first_elements main_loop
  merge_sort_files fuel ps s = elim (first_elements 0 ps []) [
    | none ↦ panicked
    | some r ↦ main_loop fuel 0 r.0 r.1 s
  ]

module _ {S L : Type 0} (load : S → Entry → S × Option L) (quit : ℕ → Bool) where
  -- The load of the entries one after another.
  unfoldable pub load_all : ℕ → S → List Entry → Outcome S L
  load_all n s [] = loaded s
  load_all n s (e ∷ es) = elim (quit n) [
    | true ↦ stopped s
    | false ↦
        let r = load s e in elim r.1 [ some l ↦ load_failed r.0 l | none ↦ load_all (suc n) r.0 es ]
  ]
