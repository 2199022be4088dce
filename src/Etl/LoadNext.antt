-- ===== src/Etl/LoadNext.antt =====
-- etl/collector.go: `loadNextFunc` of `Load`, the writes of the loaded entries. Their errors end the load.
pub mod Laws
pub mod Oldest
use erigon_lib.Base.{
  ℕ, zero, suc, ◌+◌, Bool, true, false, Option, none, some, List, [], ◌∷◌, length, ◌==◌, ◌&&◌,
  if◌then◌else◌,
}
use erigon_lib.Iter.Order.{bytes_lt, bytes_eq}
use erigon_lib.Etl.Sorting.{Entry}

-- What is known before the load: whether the load function is the identity, the last key of the table,
-- whether the buffer keeps the oldest value of a key, and whether the table has duplicates.
pub record Target : Type 0 where
  pub have_sorting_guaranties : Bool
  pub last_key : Option (List ℕ)
  pub oldest_appeared : Bool
  pub is_dup_sort : Bool

-- `prev_k` is nil before the first key.
pub record LoadState : Type 0 where
  pub i : ℕ
  pub can_use_append : Bool
  pub prev_k : Option (List ℕ)

pub data CursorCall : Type 0 where
  delete : List ℕ → CursorCall
  append : List ℕ → List ℕ → CursorCall
  append_dup : List ℕ → List ℕ → CursorCall
  put : List ℕ → List ℕ → CursorCall

abbrev pub start : LoadState
start = record { i = 0; can_use_append = false; prev_k = none }

-- `bytes.Equal`, which takes nil for the empty key.
abbrev pub equals_prev : Option (List ℕ) → List ℕ → Bool
equals_prev none k = bytes_eq [] k
equals_prev (some prev) k = bytes_eq prev k

abbrev pub is_end_of_bucket : Option (List ℕ) → List ℕ → Bool
is_end_of_bucket none k = true
is_end_of_bucket (some last) k = bytes_lt last k

unfoldable pub can_append : Target → LoadState → List ℕ → Bool
can_append t st k =
    if st.i == 0
    then t.have_sorting_guaranties && is_end_of_bucket t.last_key k
    else st.can_use_append

-- The call for a key and value that is not skipped.
unfoldable pub write_call : Target → Bool → List ℕ → List ℕ → Option CursorCall
write_call t can k [] = if can then none else some (delete k)
write_call t can k (x ∷ v) =
    if can
    then if t.is_dup_sort then some (append_dup k (x ∷ v)) else some (append k (x ∷ v))
    else some (put k (x ∷ v))

unfoldable pub load_next : Target → LoadState → List ℕ → List ℕ → LoadState × Option CursorCall
unfolding can_append write_call
load_next t st k v =
    let can = can_append t st k in
    let counted = record st { i = st.i + 1; can_use_append = can } in
    let seen = if t.oldest_appeared then record counted { prev_k = some k } else counted in
    if t.oldest_appeared && equals_prev st.prev_k k
    then (counted, none)
    else (seen, write_call t can k v)

abbrev pub add_call : Option CursorCall → List CursorCall → List CursorCall
add_call none cs = cs
add_call (some c) cs = c ∷ cs

-- The calls for entries that are loaded as they are.
unfoldable pub load_nexts : Target → LoadState → List Entry → List CursorCall
unfolding load_next
load_nexts t st [] = []
load_nexts t st (e ∷ es) = let r = load_next t st e.0 e.1 in add_call r.1 (load_nexts t r.0 es)
