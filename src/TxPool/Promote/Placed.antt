-- ===== src/TxPool/Promote/Placed.antt =====
-- What `promote` of txpool/pool.go keeps while it moves transactions between the sub-pools.
use erigon_lib.Base.{ℕ, suc, ◌+◌, ◌<◌, ◌≡◌, arith, List, [], ◌∷◌, length, All}
use erigon_lib.TxPool.Gas.{DiscardReason}
use erigon_lib.TxPool.Sender.{
  MetaTx, SubPoolType, pending_sub_pool, base_fee_sub_pool, queued_sub_pool,
}
use erigon_lib.TxPool.Ranks.{IsMeta}
use erigon_lib.TxPool.Promote.{
  Pools, popped, add, discard, keep_pending, keep_base_fee, keep_queued, to_pending, to_base_fee,
  to_queued,
}
use erigon_lib.TxPool.Promote.Markers.{Plain}

-- A transaction of a sub-pool, with fields within_limit their widths.
abbrev pub Held : SubPoolType → MetaTx → Type 0
Held t mt = (mt.current_sub_pool ≡ t) × IsMeta mt × Plain mt

abbrev pub at_pool : SubPoolType → MetaTx → MetaTx
at_pool t mt = record mt { current_sub_pool = t }

-- All transactions, those that were discarded too.
abbrev pub total : Pools → ℕ
total s = length s.pending.txs + length s.base_fee.txs + length s.queued.txs + length s.discarded

abbrev pub Limits : Type 0
Limits = ℕ × ℕ × ℕ

-- The weights of transactions together. A weight reads all of a transaction but its place.
abbrev pub weigh : (MetaTx → ℕ) → List MetaTx → ℕ
weigh f [] = 0
weigh f (mt ∷ l) = f (popped mt) + weigh f l

abbrev pub weigh_discarded : (MetaTx → ℕ) → List (MetaTx × DiscardReason) → ℕ
weigh_discarded f [] = 0
weigh_discarded f (d ∷ l) = f (popped d.0) + weigh_discarded f l

-- The weight of all transactions, those that were discarded too: where it is the same for each weight, the
-- same transactions are there, each as often.
abbrev pub weighed : (MetaTx → ℕ) → Pools → ℕ
weighed f s =
    weigh f s.pending.txs
    + weigh f s.base_fee.txs
    + weigh f s.queued.txs
    + weigh_discarded f s.discarded

-- The sub-pools have their types and limits, their transactions have properties, and all transactions of
-- old are there, each as often as before, but `moving`, which are between two sub-pools.
module _ (old : List MetaTx) (limits : Limits) (P B Q : MetaTx → Type 0) where
  pub record Placed (moving : List MetaTx) (s : Pools) : Type 0 where
    pub in_pending : All P s.pending.txs
    pub in_base_fee : All B s.base_fee.txs
    pub in_queued : All Q s.queued.txs
    pub pending_type : s.pending.sub_pool_type ≡ pending_sub_pool
    pub base_fee_type : s.base_fee.sub_pool_type ≡ base_fee_sub_pool
    pub queued_type : s.queued.sub_pool_type ≡ queued_sub_pool
    pub pending_limit : s.pending.limit ≡ limits.0
    pub base_fee_limit : s.base_fee.limit ≡ limits.1
    pub queued_limit : s.queued.limit ≡ limits.2
    pub count : total s + length moving ≡ length old
    pub kept : (f : MetaTx → ℕ) → weighed f s + weigh f moving ≡ weigh f old

module _ {old : List MetaTx} {limits : Limits} {P B Q : MetaTx → Type 0} where
  pub keep_pending-Placed :
      (s : Pools) (r : MetaTx × List MetaTx)
      → Placed old limits P B Q [] s
      → All P r.1
      → length s.pending.txs ≡ suc (length r.1)
      → ((f : MetaTx → ℕ) → weigh f s.pending.txs ≡ f (popped r.0) + weigh f r.1)
      → Placed old limits P B Q (popped r.0 ∷ []) (keep_pending r.1 s)
  keep_pending-Placed s r h a l same = record {
    in_pending = a;
    in_base_fee = h.in_base_fee;
    in_queued = h.in_queued;
    pending_type = h.pending_type;
    base_fee_type = h.base_fee_type;
    queued_type = h.queued_type;
    pending_limit = h.pending_limit;
    base_fee_limit = h.base_fee_limit;
    queued_limit = h.queued_limit;
    count = omega (arith, h.count, l);
    kept = λ f. omega (arith, h.kept f, same f);
  }

  pub keep_base_fee-Placed :
      (s : Pools) (r : MetaTx × List MetaTx)
      → Placed old limits P B Q [] s
      → All B r.1
      → length s.base_fee.txs ≡ suc (length r.1)
      → ((f : MetaTx → ℕ) → weigh f s.base_fee.txs ≡ f (popped r.0) + weigh f r.1)
      → Placed old limits P B Q (popped r.0 ∷ []) (keep_base_fee r.1 s)
  keep_base_fee-Placed s r h a l same = record {
    in_pending = h.in_pending;
    in_base_fee = a;
    in_queued = h.in_queued;
    pending_type = h.pending_type;
    base_fee_type = h.base_fee_type;
    queued_type = h.queued_type;
    pending_limit = h.pending_limit;
    base_fee_limit = h.base_fee_limit;
    queued_limit = h.queued_limit;
    count = omega (arith, h.count, l);
    kept = λ f. omega (arith, h.kept f, same f);
  }

  pub keep_queued-Placed :
      (s : Pools) (r : MetaTx × List MetaTx)
      → Placed old limits P B Q [] s
      → All Q r.1
      → length s.queued.txs ≡ suc (length r.1)
      → ((f : MetaTx → ℕ) → weigh f s.queued.txs ≡ f (popped r.0) + weigh f r.1)
      → Placed old limits P B Q (popped r.0 ∷ []) (keep_queued r.1 s)
  keep_queued-Placed s r h a l same = record {
    in_pending = h.in_pending;
    in_base_fee = h.in_base_fee;
    in_queued = a;
    pending_type = h.pending_type;
    base_fee_type = h.base_fee_type;
    queued_type = h.queued_type;
    pending_limit = h.pending_limit;
    base_fee_limit = h.base_fee_limit;
    queued_limit = h.queued_limit;
    count = omega (arith, h.count, l);
    kept = λ f. omega (arith, h.kept f, same f);
  }

  pub to_pending-Placed :
      (s : Pools) (mt : MetaTx)
      → Placed old limits P B Q (mt ∷ []) s
      → P (at_pool pending_sub_pool mt)
      → Placed old limits P B Q [] (to_pending mt s)
  unfolding add
  to_pending-Placed s mt h p = record {
    in_pending = (rw h.pending_type p, h.in_pending);
    in_base_fee = h.in_base_fee;
    in_queued = h.in_queued;
    pending_type = h.pending_type;
    base_fee_type = h.base_fee_type;
    queued_type = h.queued_type;
    pending_limit = h.pending_limit;
    base_fee_limit = h.base_fee_limit;
    queued_limit = h.queued_limit;
    count = omega (arith, h.count);
    kept = λ f. omega (arith, h.kept f);
  }

  pub to_base_fee-Placed :
      (s : Pools) (mt : MetaTx)
      → Placed old limits P B Q (mt ∷ []) s
      → B (at_pool base_fee_sub_pool mt)
      → Placed old limits P B Q [] (to_base_fee mt s)
  unfolding add
  to_base_fee-Placed s mt h p = record {
    in_pending = h.in_pending;
    in_base_fee = (rw h.base_fee_type p, h.in_base_fee);
    in_queued = h.in_queued;
    pending_type = h.pending_type;
    base_fee_type = h.base_fee_type;
    queued_type = h.queued_type;
    pending_limit = h.pending_limit;
    base_fee_limit = h.base_fee_limit;
    queued_limit = h.queued_limit;
    count = omega (arith, h.count);
    kept = λ f. omega (arith, h.kept f);
  }

  pub to_queued-Placed :
      (s : Pools) (mt : MetaTx)
      → Placed old limits P B Q (mt ∷ []) s
      → Q (at_pool queued_sub_pool mt)
      → Placed old limits P B Q [] (to_queued mt s)
  unfolding add
  to_queued-Placed s mt h p = record {
    in_pending = h.in_pending;
    in_base_fee = h.in_base_fee;
    in_queued = (rw h.queued_type p, h.in_queued);
    pending_type = h.pending_type;
    base_fee_type = h.base_fee_type;
    queued_type = h.queued_type;
    pending_limit = h.pending_limit;
    base_fee_limit = h.base_fee_limit;
    queued_limit = h.queued_limit;
    count = omega (arith, h.count);
    kept = λ f. omega (arith, h.kept f);
  }

  pub discard-Placed :
      (s : Pools) (mt : MetaTx) (reason : DiscardReason)
      → Placed old limits P B Q (mt ∷ []) s
      → Placed old limits P B Q [] (discard mt reason s)
  unfolding discard
  discard-Placed s mt reason h = record {
    in_pending = h.in_pending;
    in_base_fee = h.in_base_fee;
    in_queued = h.in_queued;
    pending_type = h.pending_type;
    base_fee_type = h.base_fee_type;
    queued_type = h.queued_type;
    pending_limit = h.pending_limit;
    base_fee_limit = h.base_fee_limit;
    queued_limit = h.queued_limit;
    count = omega (arith, h.count);
    kept = λ f. omega (arith, h.kept f);
  }

  -- No sub-pool has more than all.
  pub pending_size :
      (fuel : ℕ) (s : Pools)
      → length old < fuel
      → Placed old limits P B Q [] s
      → length s.pending.txs < fuel
  pending_size fuel s le h = omega (arith, le, h.count)

  pub base_fee_size :
      (fuel : ℕ) (s : Pools)
      → length old < fuel
      → Placed old limits P B Q [] s
      → length s.base_fee.txs < fuel
  base_fee_size fuel s le h = omega (arith, le, h.count)

  pub queued_size :
      (fuel : ℕ) (s : Pools)
      → length old < fuel
      → Placed old limits P B Q [] s
      → length s.queued.txs < fuel
  queued_size fuel s le h = omega (arith, le, h.count)

  -- The properties of one sub-pool change.
  pub with_pending :
      {P' : MetaTx → Type 0} (s : Pools)
      → Placed old limits P B Q [] s
      → All P' s.pending.txs
      → Placed old limits P' B Q [] s
  with_pending s h a = record {
    in_pending = a;
    in_base_fee = h.in_base_fee;
    in_queued = h.in_queued;
    pending_type = h.pending_type;
    base_fee_type = h.base_fee_type;
    queued_type = h.queued_type;
    pending_limit = h.pending_limit;
    base_fee_limit = h.base_fee_limit;
    queued_limit = h.queued_limit;
    count = h.count;
    kept = h.kept;
  }

  pub with_base_fee :
      {B' : MetaTx → Type 0} (s : Pools)
      → Placed old limits P B Q [] s
      → All B' s.base_fee.txs
      → Placed old limits P B' Q [] s
  with_base_fee s h a = record {
    in_pending = h.in_pending;
    in_base_fee = a;
    in_queued = h.in_queued;
    pending_type = h.pending_type;
    base_fee_type = h.base_fee_type;
    queued_type = h.queued_type;
    pending_limit = h.pending_limit;
    base_fee_limit = h.base_fee_limit;
    queued_limit = h.queued_limit;
    count = h.count;
    kept = h.kept;
  }

  pub with_queued :
      {Q' : MetaTx → Type 0} (s : Pools)
      → Placed old limits P B Q [] s
      → All Q' s.queued.txs
      → Placed old limits P B Q' [] s
  with_queued s h a = record {
    in_pending = h.in_pending;
    in_base_fee = h.in_base_fee;
    in_queued = a;
    pending_type = h.pending_type;
    base_fee_type = h.base_fee_type;
    queued_type = h.queued_type;
    pending_limit = h.pending_limit;
    base_fee_limit = h.base_fee_limit;
    queued_limit = h.queued_limit;
    count = h.count;
    kept = h.kept;
  }
