-- ===== src/Iter/Union.antt =====
-- kv/iter/iter.go: `UnionIter`, the merge of two iterators with no value twice.
use erigon_lib.Base.{
  ◌≡◌, refl, Bool, true, false, ◌||◌, Option, none, some, Result, ok, err, if◌then◌else◌,
}
use erigon_lib.Iter.{Unary, on_next}
use erigon_lib.Iter.Order.{Ordered}

pub record UnionIter (E X Y K : Type 0) : Type 0 where
  pub x : X
  pub y : Y
  pub x_has : Bool
  pub y_has : Bool
  pub x_next_k : K
  pub y_next_k : K
  pub error : Option E

-- `if m.err != nil { return }`.
abbrev pub unless_error : {E A : Type 0} → Option E → A → A → A
unless_error none failed going = going
unless_error (some e) failed going = failed

infixl 5 ◌>>=◌
abbrev pub ◌>>=◌ {ℓ κ} : {A : Type ℓ} {B : Type κ} → Option A → (A → Option B) → Option B
none >>= f = none
some a >>= f = f a

pub >>=-eq-some {ℓ κ} :
    {A : Type ℓ} {B : Type κ} (call : Option A) (next : A → Option B) {r : B}
    → (call >>= next) ≡ some r
    → (v : A) × (call ≡ some v) × (next v ≡ some r)
>>=-eq-some none next h = cc
>>=-eq-some (some v) next h = (v, refl, h)

module _ {E X Y K : Type 0} (ord : Ordered K) (ix : Unary E X K) (iy : Unary E Y K) where
  -- A value that comes with an error is not read again, so the old one stands for it.
  unfoldable pub advance_x : UnionIter E X Y K → Option (UnionIter E X Y K)
  advance_x m = unless_error m.error (some m) (
      let (h, x1) = ix.has_next m.x in
      if h
      then on_next (ix.next x1) (λ k x2. some (record m { x = x2; x_has = true; x_next_k = k }))
          (λ e x2. some (record m { x = x2; x_has = true; error = some e }))
      else some (record m { x = x1; x_has = false }))

  unfoldable pub advance_y : UnionIter E X Y K → Option (UnionIter E X Y K)
  advance_y m = unless_error m.error (some m) (
      let (h, y1) = iy.has_next m.y in
      if h
      then on_next (iy.next y1) (λ k y2. some (record m { y = y2; y_has = true; y_next_k = k }))
          (λ e y2. some (record m { y = y2; y_has = true; error = some e }))
      else some (record m { y = y1; y_has = false }))

  -- `&UnionIter[T]{x: x, y: y}`
  abbrev pub start : X → Y → UnionIter E X Y K
  start x y = record {
    x = x;
    y = y;
    x_has = false;
    y_has = false;
    x_next_k = ord.zero_value;
    y_next_k = ord.zero_value;
    error = none;
  }

  -- `Union` of two iterators neither of which is nil.
  unfoldable pub union : X → Y → Option (UnionIter E X Y K)
  union x y = advance_x (start x y) >>= advance_y

  abbrev is_error : Option E → Bool
  is_error none = false
  is_error (some e) = true

  unfoldable pub union_has_next : UnionIter E X Y K → Bool × UnionIter E X Y K
  union_has_next m = (is_error m.error || (m.x_has || m.y_has), m)

  -- The read of `m.err` beside a value gives nil: it was tested before.
  unfoldable pub union_next : UnionIter E X Y K → Option (Result E K × UnionIter E X Y K)
  union_next m = elim m.error [
    | some e ↦ some (err e, m)
    | none ↦
        if m.x_has
        then (if m.y_has
            then (if ord.lt m.x_next_k m.y_next_k
                then (advance_x m >>= λ m'. some (ok m.x_next_k, m'))
                else if ord.eq m.x_next_k m.y_next_k
                then (advance_x m >>= λ m1. advance_y m1 >>= λ m'. some (ok m.x_next_k, m'))
                else (advance_y m >>= λ m'. some (ok m.y_next_k, m')))
            else (advance_x m >>= λ m'. some (ok m.x_next_k, m')))
        else (advance_y m >>= λ m'. some (ok m.y_next_k, m'))
  ]

  unfoldable pub union_iter : Unary E (UnionIter E X Y K) K
  unfolding union_has_next union_next
  union_iter = record { has_next = union_has_next; next = union_next }
