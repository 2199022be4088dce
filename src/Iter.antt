-- ===== src/Iter.antt =====
-- kv/iter: composable iterators, from kv/iter/iter_interface.go and kv/iter/helpers.go. A call of
-- `Next` or of an advance loop is `none` where it panics or where a loop's fuel runs out.
pub mod Order
pub mod Array
pub mod Union
pub mod Advance
pub mod UnionSpec
pub mod UnionKv
pub mod Intersect
pub mod Filter
pub mod Paginate
mod Examples
use erigon_lib.Base.{
  ℕ, zero, suc, ◌+◌, ◌≤◌, ◌<◌, ◌≡◌, refl, arith, Bool, true, false, Option, none, some, List, [],
  ◌∷◌, ◌++◌, Result, ok, err, fault, if◌then◌else◌,
}

-- `Unary[V]`, and `Dual[K, V]` where `V` is a pair. The methods give the iterator as they leave it.
-- A value that comes beside an error is dropped.
pub record Unary (E S V : Type 0) : Type 0 where
  pub has_next : S → Bool × S
  pub next : S → Option (Result E V × S)

-- The cases of a call of `Next`: it gives a value, or an error, or panics.
abbrev pub on_next :
    {E S V B : Type 0}
    → Option (Result E V × S)
    → (V → S → Option B)
    → (E → S → Option B)
    → Option B
on_next none f g = none
on_next (some (ok v, s)) f g = f v s
on_next (some (err e, s)) f g = g e s
on_next (some (fault, s)) f g = none

-- What a loop `for it.HasNext() { v, err := it.Next(); ... }` sees of an iterator: the values in
-- order, and then the end or an error.
pub data Out (E V : Type 0) : Type 0 where
  end : Out E V
  stop : E → Out E V
  item : V → Out E V → Out E V

module _ {E S V : Type 0} where
  -- The iterator `s` behaves in that loop as the sequence says.
  pub data Streams (it : Unary E S V) : S → Out E V → Type 0 where
    ends : {s s' : S} → it.has_next s ≡ (false, s') → Streams it s end
    stops :
        {s s1 s2 : S} {e : E}
        → it.has_next s ≡ (true, s1)
        → it.next s1 ≡ some (err e, s2)
        → Streams it s (stop e)
    gives :
        {s s1 s2 : S} {v : V} {o : Out E V}
        → it.has_next s ≡ (true, s1)
        → it.next s1 ≡ some (ok v, s2)
        → Streams it s2 o
        → Streams it s (item v o)

  -- `ToArr` and `ToDualArray`, a round of the loop for each unit of fuel. The values collected come
  -- with the error too.
  unfoldable pub to_arr_loop : ℕ → Unary E S V → S → List V → Option (List V × Option E)
  to_arr_loop zero it s res = none
  to_arr_loop (suc fuel) it s res =
      let (more, s1) = it.has_next s in
      let rest =
        on_next (it.next s1) (λ v s2. to_arr_loop fuel it s2 (res ++ (v ∷ [])))
          (λ e s2. some (res, some e)) in
      if more then rest else some (res, none)

  unfoldable pub to_arr : ℕ → Unary E S V → S → Option (List V × Option E)
  unfolding to_arr_loop
  to_arr fuel it s = to_arr_loop fuel it s []

-- The values of a sequence, its error and its length.
module _ {E V : Type 0} where
  abbrev pub values : Out E V → List V
  values end = []
  values (stop e) = []
  values (item v o) = v ∷ values o

  abbrev pub error_of : Out E V → Option E
  error_of end = none
  error_of (stop e) = some e
  error_of (item v o) = error_of o

  abbrev pub size : Out E V → ℕ
  size end = 0
  size (stop e) = 0
  size (item v o) = suc (size o)

  -- The sequence that gives a list and ends, or goes on as another.
  abbrev pub then_out : List V → Out E V → Out E V
  then_out [] o = o
  then_out (v ∷ vs) o = item v (then_out vs o)
