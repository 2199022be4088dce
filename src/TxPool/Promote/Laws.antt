-- ===== src/TxPool/Promote/Laws.antt =====
-- Where `promote` of txpool/pool.go leaves the transactions.
use erigon_lib.Base.{ℕ, ◌≤◌, ◌<◌, ◌≡◌, ap, ◌∙◌, Option, some, List, [], length, arith}
use erigon_lib.Iter.Union.{◌>>=◌}
use erigon_lib.TxPool.Sender.{MetaTx}
use erigon_lib.TxPool.Queue.{better, worse}
use erigon_lib.TxPool.Promote.{
  Pools, promote, demote_pending, promote_base_fee, demote_base_fee, promote_queued, discard_queued,
  limit_pending, limit_base_fee, limit_queued,
}
use erigon_lib.TxPool.Promote.Placed.{
  Limits, Placed, weighed, pending_size, base_fee_size, queued_size,
}
use erigon_lib.TxPool.Promote.Picks.{Picks, Pending, BaseFee, Queued, Pend, Base, Queue}
use erigon_lib.TxPool.Promote.Loops.{
  demote_pending-In, promote_base_fee-In, demote_base_fee-In, promote_queued-In, discard_queued-In,
}
use erigon_lib.TxPool.Promote.Limits.{
  limit_pending-Sorted, limit_base_fee-Sorted, limit_queued-Sorted,
}

-- A step that succeeds, and what comes after it.
then_some :
    {s : Pools} {r : Option Pools} (m : Option Pools) (f : Pools → Option Pools)
    → m ≡ some s
    → f s ≡ r
    → (m >>= f) ≡ r
then_some m f h k = ap (λ t. t >>= f) h ∙ k

-- The loops one after another.
composed :
    (worst best : List MetaTx → Option (MetaTx × List MetaTx)) (base fuel : ℕ)
    (s s1 s2 s3 s4 s5 s6 s7 s8 : Pools)
    → demote_pending worst best base fuel s ≡ some s1
    → promote_base_fee worst best base fuel s1 ≡ some s2
    → demote_base_fee worst best base fuel s2 ≡ some s3
    → promote_queued worst best base fuel s3 ≡ some s4
    → discard_queued worst best base fuel s4 ≡ some s5
    → limit_pending worst best base fuel s5 ≡ some s6
    → limit_base_fee worst best base fuel s6 ≡ some s7
    → limit_queued worst best base fuel s7 ≡ some s8
    → promote worst best base fuel s ≡ some s8
unfolding promote
composed worst best base fuel s s1 s2 s3 s4 s5 s6 s7 s8 r1 r2 r3 r4 r5 r6 r7 r8 = then_some _ _ r1 (
    then_some _ _ r2 (
      then_some _ _ r3
        (then_some _ _ r4 (then_some _ _ r5 (then_some _ _ r6 (then_some _ _ r7 r8))))))

module _ (worst best : List MetaTx → Option (MetaTx × List MetaTx)) (base : ℕ)
    (picks_worst : Picks (λ x y. worse x y base) worst)
    (picks_best : Picks (λ x y. better x y base) best) (old : List MetaTx) (limits : Limits) where
  -- Of transactions with fields within their widths and without the bit `EnoughFeeCapBlock` of
  -- their own, each marked with the sub-pool that it is in, `promote` leaves each one where it
  -- belongs, and ends: the pending ones meet the pending base fee and have all bits of the
  -- base-fee sub-pool, those of the base-fee sub-pool have the bits and do not meet the fee, the
  -- queued ones have the bit of the protocol's fee but not all. No sub-pool is above its limit.
  -- The transactions in the sub-pools and the discarded ones are those from before, each as often
  -- and changed in its place at most: every weight of transactions that does not read the place
  -- has the same sum. The queues give their transactions by `worse` and `better`, which look at
  -- the same base fee; a round for each transaction is enough fuel.
  pub promote-Placed :
      (fuel : ℕ) (s : Pools)
      → length old < fuel
      → Placed old limits Pend Base Queue [] s
      → (s' : Pools) × (promote worst best base fuel s ≡ some s')
        × Placed old limits (Pending base) (BaseFee base) Queued [] s'
        × (length s'.pending.txs ≤ limits.0)
        × (length s'.base_fee.txs ≤ limits.1)
        × (length s'.queued.txs ≤ limits.2)
        × ((f : MetaTx → ℕ) → weighed f s' ≡ weighed f s)
  promote-Placed fuel s le h =
      let (s1, r1, h1) =
        demote_pending-In worst best base picks_worst picks_best old limits fuel s
          (pending_size fuel s le h) h in
      let (s2, r2, h2) =
        promote_base_fee-In worst best base picks_worst picks_best old limits fuel s1
          (base_fee_size fuel s1 le h1) h1 in
      let (s3, r3, h3) =
        demote_base_fee-In worst best base picks_worst picks_best old limits fuel s2
          (base_fee_size fuel s2 le h2) h2 in
      let (s4, r4, h4) =
        promote_queued-In worst best base picks_worst picks_best old limits fuel s3
          (queued_size fuel s3 le h3) h3 in
      let (s5, r5, h5) =
        discard_queued-In worst best base picks_worst picks_best old limits fuel s4
          (queued_size fuel s4 le h4) h4 in
      let (s6, r6, h6, p6) =
        limit_pending-Sorted worst best base picks_worst picks_best old limits fuel s5
          (pending_size fuel s5 le h5) h5 in
      let (s7, r7, h7, b7) =
        limit_base_fee-Sorted worst best base picks_worst picks_best old limits fuel s6
          (base_fee_size fuel s6 le h6) h6 p6 in
      let (s8, r8, h8, q8) =
        limit_queued-Sorted worst best base picks_worst picks_best old limits fuel s7
          (queued_size fuel s7 le h7.0) (h7.0, h7.1, b7) in
      (
        s8,
        composed worst best base fuel s s1 s2 s3 s4 s5 s6 s7 s8 r1 r2 r3 r4 r5 r6 r7 r8,
        h8.0,
        h8.1,
        h8.2,
        q8,
        λ f. omega (arith, h8.0.kept f, h.kept f),
      )
