-- ===== src/TxPool/Promote/Limits.antt =====
-- The three loops of `promote` of txpool/pool.go that discard what is above the limits.
use erigon_lib.Base.{
  ℕ, ◌≤◌, ◌<◌, ◌≡◌, ap, arith, false, Option, none, some, List, [], length, ltb, ◌⊎◌, inl, inr,
}
use erigon_lib.TxPool.Gas.{pending_pool_overflow, base_fee_pool_overflow, queued_pool_overflow}
use erigon_lib.TxPool.Sender.{MetaTx}
use erigon_lib.TxPool.Queue.{better, worse}
use erigon_lib.TxPool.Promote.{
  Pools, popped, keep_pending, keep_base_fee, keep_queued, discard, over, limit_pending,
  limit_base_fee, limit_queued,
}
use erigon_lib.TxPool.Promote.Drain.{Round, drain-Drained}
use erigon_lib.TxPool.Promote.Placed.{
  Limits, Placed, keep_pending-Placed, keep_base_fee-Placed, keep_queued-Placed, discard-Placed,
}
use erigon_lib.TxPool.Promote.Picks.{Picks, Pending, BaseFee, Queued}

module _ (worst best : List MetaTx → Option (MetaTx × List MetaTx)) (base : ℕ)
    (picks_worst : Picks (λ x y. worse x y base) worst)
    (picks_best : Picks (λ x y. better x y base) best) (old : List MetaTx) (limits : Limits) where
  abbrev In : (MetaTx → Type 0) → (MetaTx → Type 0) → (MetaTx → Type 0) → Pools → Type 0
  In P B Q s = Placed old limits P B Q [] s

  -- Each transaction is where it belongs.
  abbrev pub Sorted : Pools → Type 0
  Sorted s = In (Pending base) (BaseFee base) Queued s

  over_test : (n m : ℕ) → ltb n m ≡ false → m ≤ n
  over_test n m h = ground arith

  within_limit :
      (pick : List MetaTx → Option (MetaTx × List MetaTx))
      → Picks (λ x y. worse x y base) pick
      → (l : List MetaTx) (limit : ℕ)
      → (pick l ≡ none)
        ⊎ ((r : MetaTx × List MetaTx) × (pick l ≡ some r) × (ltb limit (length l) ≡ false))
      → length l ≤ limit
  within_limit pick picks l limit (inl e) = omega (arith, ap length (picks.none_left l e))
  within_limit pick picks l limit (inr (r, at, no_more)) = over_test limit (length l) no_more

  pub limit_pending-Sorted :
      (fuel : ℕ) (s : Pools)
      → length s.pending.txs < fuel
      → Sorted s
      → (s' : Pools) × (limit_pending worst best base fuel s ≡ some s')
        × Sorted s'
        × (length s'.pending.txs ≤ limits.0)
  unfolding limit_pending discard
  limit_pending-Sorted fuel s le h =
      let (s', result, inv, ended) =
        drain-Drained (λ s. worst s.pending.txs) (over (λ s. s.pending))
          (λ mt. discard mt pending_pool_overflow) keep_pending Sorted (λ s. length s.pending.txs)
          round fuel s le h in
      (
        s',
        result,
        inv,
        omega (
          arith,
          within_limit worst picks_worst s'.pending.txs s'.pending.limit ended,
          inv.pending_limit,
        ),
      )
    where
      round :
          Round
            (λ s. worst s.pending.txs)
            (over (λ s. s.pending))
            (λ mt. discard mt pending_pool_overflow)
            keep_pending
            Sorted
            (λ s. length s.pending.txs)
      round s r inv at more =
          let (w, rest) = picks_worst.members (Pending base) s.pending.txs r at inv.in_pending in
          let size = picks_worst.one_less s.pending.txs r at in
          (
            discard-Placed (keep_pending r.1 s) (popped r.0) pending_pool_overflow
                (keep_pending-Placed s r inv rest size (picks_worst.same s.pending.txs r at)),
            omega (arith, size),
          )

  pub limit_base_fee-Sorted :
      (fuel : ℕ) (s : Pools)
      → length s.base_fee.txs < fuel
      → Sorted s
      → length s.pending.txs ≤ limits.0
      → (s' : Pools) × (limit_base_fee worst best base fuel s ≡ some s')
        × (Sorted s' × (length s'.pending.txs ≤ limits.0))
        × (length s'.base_fee.txs ≤ limits.1)
  unfolding limit_base_fee discard
  limit_base_fee-Sorted fuel s le h p =
      let (s', result, inv, ended) =
        drain-Drained (λ s. worst s.base_fee.txs) (over (λ s. s.base_fee))
          (λ mt. discard mt base_fee_pool_overflow) keep_base_fee
          (λ s. Sorted s × (length s.pending.txs ≤ limits.0)) (λ s. length s.base_fee.txs) round
          fuel s le (h, p) in
      (
        s',
        result,
        inv,
        omega (
          arith,
          within_limit worst picks_worst s'.base_fee.txs s'.base_fee.limit ended,
          inv.0.base_fee_limit,
        ),
      )
    where
      round :
          Round
            (λ s. worst s.base_fee.txs)
            (over (λ s. s.base_fee))
            (λ mt. discard mt base_fee_pool_overflow)
            keep_base_fee
            (λ s. Sorted s × (length s.pending.txs ≤ limits.0))
            (λ s. length s.base_fee.txs)
      round s r (inv, q) at more =
          let (w, rest) = picks_worst.members (BaseFee base) s.base_fee.txs r at inv.in_base_fee in
          let size = picks_worst.one_less s.base_fee.txs r at in
          (
            (
              discard-Placed (keep_base_fee r.1 s) (popped r.0) base_fee_pool_overflow
                  (keep_base_fee-Placed s r inv rest size (picks_worst.same s.base_fee.txs r at)),
              q,
            ),
            omega (arith, size),
          )

  abbrev pub Fits : Pools → Type 0
  Fits s = Sorted s × (length s.pending.txs ≤ limits.0) × (length s.base_fee.txs ≤ limits.1)

  pub limit_queued-Sorted :
      (fuel : ℕ) (s : Pools)
      → length s.queued.txs < fuel
      → Fits s
      → (s' : Pools) × (limit_queued worst best base fuel s ≡ some s')
        × Fits s'
        × (length s'.queued.txs ≤ limits.2)
  unfolding limit_queued discard
  limit_queued-Sorted fuel s le h =
      let (s', result, inv, ended) =
        drain-Drained (λ s. worst s.queued.txs) (over (λ s. s.queued))
          (λ mt. discard mt queued_pool_overflow) keep_queued Fits (λ s. length s.queued.txs) round
          fuel s le h in
      (
        s',
        result,
        inv,
        omega (
          arith,
          within_limit worst picks_worst s'.queued.txs s'.queued.limit ended,
          inv.0.queued_limit,
        ),
      )
    where
      round :
          Round
            (λ s. worst s.queued.txs)
            (over (λ s. s.queued))
            (λ mt. discard mt queued_pool_overflow)
            keep_queued
            Fits
            (λ s. length s.queued.txs)
      round s r (inv, q, b) at more =
          let (w, rest) = picks_worst.members Queued s.queued.txs r at inv.in_queued in
          let size = picks_worst.one_less s.queued.txs r at in
          (
            (
              discard-Placed (keep_queued r.1 s) (popped r.0) queued_pool_overflow
                  (keep_queued-Placed s r inv rest size (picks_worst.same s.queued.txs r at)),
              q,
              b,
            ),
            omega (arith, size),
          )
