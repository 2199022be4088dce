-- ===== src/TxPool/Promote.antt =====
-- `promote` of txpool/pool.go with the sub-pools `PendingPool` and `SubPool` that it moves transactions
-- between.
pub mod Drain
pub mod Markers
pub mod Placed
pub mod Picks
pub mod Loops
pub mod Limits
pub mod Laws
pub mod Select
use erigon_lib.Base.{
  ℕ, zero, suc, ◌+◌, Bool, true, false, ◌&&◌, ◌||◌, Option, none, some, List, [], ◌∷◌, ◌++◌, length,
  leb, ltb, if◌then◌else◌,
}
use erigon_lib.Iter.Union.{◌>>=◌}
use erigon_lib.TxPool.Gas.{
  DiscardReason, fee_too_low, pending_pool_overflow, base_fee_pool_overflow, queued_pool_overflow,
}
use erigon_lib.TxPool.Sender.{
  MetaTx, SubPoolType, no_sub_pool, pending_sub_pool, base_fee_sub_pool, queued_sub_pool,
}
use erigon_lib.TxPool.Queue.{bit_value}

-- A sub-pool of either kind: the transactions of its two heaps, or of its slice and its heap. `added` are
-- those that it announces.
pub record SubPool : Type 0 where
  pub txs : List MetaTx
  pub limit : ℕ
  pub sub_pool_type : SubPoolType
  pub adding : Bool
  pub added : List MetaTx

unfoldable pub new_sub_pool : SubPoolType → ℕ → SubPool
new_sub_pool t limit = record {
  txs = [];
  limit = limit;
  sub_pool_type = t;
  adding = false;
  added = [];
}

-- `discarded` are the calls of `discard`, the last one first.
pub record Pools : Type 0 where
  pub pending : SubPool
  pub base_fee : SubPool
  pub queued : SubPool
  pub discarded : List (MetaTx × DiscardReason)

abbrev pub base_fee_pool_bits : ℕ
base_fee_pool_bits = 60

abbrev pub queued_pool_bits : ℕ
queued_pool_bits = 32

-- The number of a marker.
unfoldable pub marker_number : MetaTx → ℕ
marker_number mt =
    bit_value mt.sub_pool.enough_fee_cap_protocol 32
    + bit_value mt.sub_pool.no_nonce_gaps 16
    + bit_value mt.sub_pool.enough_balance 8
    + bit_value mt.sub_pool.not_too_much_gas 4
    + bit_value mt.sub_pool.enough_fee_cap_block 2
    + bit_value mt.sub_pool.is_local 1

-- `Add`
unfoldable pub add : SubPool → MetaTx → SubPool
add p mt =
    let mt' = record mt { current_sub_pool = p.sub_pool_type } in
    record p { txs = mt' ∷ p.txs; added = if p.adding then p.added ++ (mt' ∷ []) else p.added }

unfoldable pub reset_added : SubPool → SubPool
reset_added p = record p { added = []; adding = true }

unfoldable pub append_added_to : SubPool → List MetaTx → List MetaTx × SubPool
append_added_to p a = (a ++ p.added, record p { adding = false })

-- A transaction without a place, as `Pop` leaves it.
abbrev pub popped : MetaTx → MetaTx
popped mt = record mt { current_sub_pool = no_sub_pool }

unfoldable pub discard : MetaTx → DiscardReason → Pools → Pools
discard mt reason s = record s { discarded = (mt, reason) ∷ s.discarded }

-- A loop that takes the first transaction of a queue while a test holds, and moves it. `none`: the fuel
-- is used up.
unfoldable pub drain :
    (Pools → Option (MetaTx × List MetaTx))
    → (Pools → MetaTx → Bool)
    → (MetaTx → Pools → Pools)
    → (List MetaTx → Pools → Pools)
    → ℕ
    → Pools
    → Option Pools
drain pop test move keep zero s = none
drain pop test move keep (suc fuel) s = elim (pop s) [
  | none ↦ some s
  | some r ↦ elim (test s r.0) [
    | true ↦ drain pop test move keep fuel (move (popped r.0) (keep r.1 s))
    | false ↦ some s
  ]
]

abbrev pub keep_pending : List MetaTx → Pools → Pools
keep_pending l s = record s { pending = record s.pending { txs = l } }

abbrev pub keep_base_fee : List MetaTx → Pools → Pools
keep_base_fee l s = record s { base_fee = record s.base_fee { txs = l } }

abbrev pub keep_queued : List MetaTx → Pools → Pools
keep_queued l s = record s { queued = record s.queued { txs = l } }

abbrev pub to_pending : MetaTx → Pools → Pools
to_pending mt s = record s { pending = add s.pending mt }

abbrev pub to_base_fee : MetaTx → Pools → Pools
to_base_fee mt s = record s { base_fee = add s.base_fee mt }

abbrev pub to_queued : MetaTx → Pools → Pools
to_queued mt s = record s { queued = add s.queued mt }

-- The conditions of the loops, and where a transaction goes.
abbrev pub unfit_pending : ℕ → Pools → MetaTx → Bool
unfit_pending base s mt = ltb (marker_number mt) base_fee_pool_bits || ltb mt.min_fee_cap base

abbrev pub demoted : MetaTx → Pools → Pools
demoted mt s =
    if leb base_fee_pool_bits (marker_number mt)
    then to_base_fee mt s
    else if leb queued_pool_bits (marker_number mt)
    then to_queued mt s
    else discard mt fee_too_low s

abbrev pub fit_pending : ℕ → Pools → MetaTx → Bool
fit_pending base s mt = leb base_fee_pool_bits (marker_number mt) && leb base mt.min_fee_cap

abbrev pub unfit_base_fee : Pools → MetaTx → Bool
unfit_base_fee s mt = ltb (marker_number mt) base_fee_pool_bits

abbrev pub demoted_further : MetaTx → Pools → Pools
demoted_further mt s =
    if leb queued_pool_bits (marker_number mt) then to_queued mt s else discard mt fee_too_low s

abbrev pub fit_base_fee : Pools → MetaTx → Bool
fit_base_fee s mt = leb base_fee_pool_bits (marker_number mt)

abbrev pub promoted : ℕ → MetaTx → Pools → Pools
promoted base mt s = if leb base mt.min_fee_cap then to_pending mt s else to_base_fee mt s

abbrev pub unfit_queued : Pools → MetaTx → Bool
unfit_queued s mt = ltb (marker_number mt) queued_pool_bits

abbrev pub over : (Pools → SubPool) → Pools → MetaTx → Bool
over pool s mt = ltb (pool s).limit (length (pool s).txs)

-- `worst` and `best` are what the heaps of container/heap give of their transactions, with the others.
module _ (worst best : List MetaTx → Option (MetaTx × List MetaTx))
    (pending_base_fee fuel : ℕ) where
  unfoldable pub demote_pending : Pools → Option Pools
  unfolding drain
  demote_pending s =
      drain (λ s. worst s.pending.txs) (unfit_pending pending_base_fee) demoted keep_pending fuel s

  unfoldable pub promote_base_fee : Pools → Option Pools
  unfolding drain
  promote_base_fee s =
      drain (λ s. best s.base_fee.txs) (fit_pending pending_base_fee) to_pending keep_base_fee fuel
        s

  unfoldable pub demote_base_fee : Pools → Option Pools
  unfolding drain
  demote_base_fee s =
      drain (λ s. worst s.base_fee.txs) unfit_base_fee demoted_further keep_base_fee fuel s

  unfoldable pub promote_queued : Pools → Option Pools
  unfolding drain
  promote_queued s =
      drain (λ s. best s.queued.txs) fit_base_fee (promoted pending_base_fee) keep_queued fuel s

  unfoldable pub discard_queued : Pools → Option Pools
  unfolding drain
  discard_queued s =
      drain (λ s. worst s.queued.txs) unfit_queued (λ mt. discard mt fee_too_low) keep_queued fuel s

  unfoldable pub limit_pending : Pools → Option Pools
  unfolding drain
  limit_pending s =
      drain (λ s. worst s.pending.txs) (over (λ s. s.pending))
        (λ mt. discard mt pending_pool_overflow) keep_pending fuel s

  unfoldable pub limit_base_fee : Pools → Option Pools
  unfolding drain
  limit_base_fee s =
      drain (λ s. worst s.base_fee.txs) (over (λ s. s.base_fee))
        (λ mt. discard mt base_fee_pool_overflow) keep_base_fee fuel s

  unfoldable pub limit_queued : Pools → Option Pools
  unfolding drain
  limit_queued s =
      drain (λ s. worst s.queued.txs) (over (λ s. s.queued)) (λ mt. discard mt queued_pool_overflow)
        keep_queued fuel s

  unfoldable pub promote : Pools → Option Pools
  unfolding demote_pending promote_base_fee demote_base_fee promote_queued discard_queued
      limit_pending limit_base_fee limit_queued
  promote s = do
    s1 ← demote_pending s
    s2 ← promote_base_fee s1
    s3 ← demote_base_fee s2
    s4 ← promote_queued s3
    s5 ← discard_queued s4
    s6 ← limit_pending s5
    s7 ← limit_base_fee s6
    limit_queued s7
