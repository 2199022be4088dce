-- ===== src/TxPool/Promote/Picks.antt =====
-- What the queues of txpool/pool.go promise, and where its sub-pools' transactions belong.
use erigon_lib.Base.{
  ℕ, suc, ◌+◌, ◌≤◌, ◌<◌, ◌≡◌, refl, Bool, false, Option, none, some, List, [], ◌∷◌, length, All,
  ◌⊎◌, inl, inr,
}
use erigon_lib.TxPool.Sender.{
  MetaTx, SubPoolType, pending_sub_pool, base_fee_sub_pool, queued_sub_pool,
}
use erigon_lib.TxPool.Promote.{popped, marker_number, base_fee_pool_bits, queued_pool_bits}
use erigon_lib.TxPool.Promote.Markers.{Plain, Qualifies}
use erigon_lib.TxPool.Promote.Placed.{Held, at_pool, weigh}

-- What container/heap promises of a heap in this order: a transaction that none of the others comes
-- before, and the others: they have the weights of all but this one.
pub record Picks (less : MetaTx → MetaTx → Bool)
    (pick : List MetaTx → Option (MetaTx × List MetaTx)) : Type 1 where
  pub none_left : (l : List MetaTx) → pick l ≡ none → l ≡ []
  pub one_less :
      (l : List MetaTx) (r : MetaTx × List MetaTx) → pick l ≡ some r → length l ≡ suc (length r.1)
  pub same :
      (l : List MetaTx) (r : MetaTx × List MetaTx)
      → pick l ≡ some r
      → (f : MetaTx → ℕ) → weigh f l ≡ f (popped r.0) + weigh f r.1
  pub members :
      (P : MetaTx → Type 0) (l : List MetaTx) (r : MetaTx × List MetaTx)
      → pick l ≡ some r
      → All P l
      → P r.0 × All P r.1
  pub others :
      (P : MetaTx → Type 0) (l : List MetaTx) (r : MetaTx × List MetaTx)
      → pick l ≡ some r
      → P r.0
      → All P r.1
      → All P l
  pub first :
      (t : SubPoolType) (l : List MetaTx) (r : MetaTx × List MetaTx)
      → pick l ≡ some r
      → All (Held t) l
      → All (λ (x : MetaTx). less x r.0 ≡ false) r.1

-- What is read of a transaction besides its sub-pool stays when it moves.
pub marker_number-at_pool :
    (t : SubPoolType) (mt : MetaTx) → marker_number (at_pool t mt) ≡ marker_number mt
unfolding marker_number
marker_number-at_pool t mt = refl

pub All-both :
    (P Q : MetaTx → Type 0) (l : List MetaTx)
    → All P l
    → All Q l
    → All (λ (x : MetaTx). P x × Q x) l
All-both P Q [] p q = tt
All-both P Q (x ∷ l) p q = ((p.0, q.0), All-both P Q l p.1 q.1)

pub All-imp :
    (P Q : MetaTx → Type 0) (l : List MetaTx) → ((x : MetaTx) → P x → Q x) → All P l → All Q l
All-imp P Q [] f h = tt
All-imp P Q (x ∷ l) f h = (f x h.0, All-imp P Q l f h.1)

-- The properties of the transactions of each sub-pool in the end.
abbrev pub Pending : ℕ → MetaTx → Type 0
Pending base mt = Held pending_sub_pool mt × Qualifies base mt

abbrev pub BaseFee : ℕ → MetaTx → Type 0
BaseFee base mt =
    Held base_fee_sub_pool mt × (base_fee_pool_bits ≤ marker_number mt) × (mt.min_fee_cap < base)

abbrev pub Queued : MetaTx → Type 0
Queued mt =
    Held queued_sub_pool mt
    × (queued_pool_bits ≤ marker_number mt)
    × (marker_number mt < base_fee_pool_bits)

-- A sub-pool whose first transaction has a property that the order carries over has it for all.
pub drained_all :
    (less : MetaTx → MetaTx → Bool) (pick : List MetaTx → Option (MetaTx × List MetaTx))
    → Picks less pick
    → (t : SubPoolType) (R : MetaTx → Type 0) (l : List MetaTx) → All (Held t) l
    → ((x w : MetaTx) → Plain x → Plain w → less x w ≡ false → R w → R x)
    → (pick l ≡ none) ⊎ ((r : MetaTx × List MetaTx) × (pick l ≡ some r) × R r.0)
    → All (λ (x : MetaTx). Held t x × R x) l
drained_all less pick picks t R l held carry (inl empty) = nothing l (picks.none_left l empty)
  where
    nothing : (l : List MetaTx) → l ≡ [] → All (λ (x : MetaTx). Held t x × R x) l
    nothing [] h = tt
    nothing (x ∷ l) h = cc
drained_all less pick picks t R l held carry (inr (r, at, is)) =
    let (w_held, rest_held) = picks.members (Held t) l r at held in
    let order = picks.first t l r at held in
    picks.others (λ (x : MetaTx). Held t x × R x) l r at (w_held, is)
      (All-imp (λ (x : MetaTx). Held t x × (less x r.0 ≡ false)) (λ (x : MetaTx). Held t x × R x)
        r.1 (λ x h. (h.0, carry x r.0 h.0.2 w_held.2 h.1 is))
        (All-both (Held t) (λ (x : MetaTx). less x r.0 ≡ false) r.1 rest_held order))

abbrev pub Pend : MetaTx → Type 0
Pend = Held pending_sub_pool

abbrev pub Base : MetaTx → Type 0
Base = Held base_fee_sub_pool

abbrev pub Queue : MetaTx → Type 0
Queue = Held queued_sub_pool
