-- ===== src/TxPool/Promote/Loops.antt =====
-- The five loops of `promote` of txpool/pool.go that move transactions by their markers.
use erigon_lib.Base.{
  ℕ, ◌*◌, ◌≤◌, ◌<◌, ◌≡◌, refl, arith, true, false, Option, some, List, [], length, leb, ltb,
  Bool-cases, ◌⊎◌, inl, inr,
}
use erigon_lib.TxPool.Gas.{fee_too_low}
use erigon_lib.TxPool.Sender.{
  MetaTx, SubPoolType, pending_sub_pool, base_fee_sub_pool, queued_sub_pool,
}
use erigon_lib.TxPool.Queue.{better, worse}
use erigon_lib.TxPool.Promote.{
  Pools, marker_number, popped, keep_pending, keep_base_fee, keep_queued, to_pending, discard,
  base_fee_pool_bits, queued_pool_bits, unfit_pending, demoted, fit_pending, unfit_base_fee,
  demoted_further, fit_base_fee, promoted, unfit_queued, demote_pending, promote_base_fee,
  demote_base_fee, promote_queued, discard_queued,
}
use erigon_lib.TxPool.Promote.Drain.{Round, drain-Drained}
use erigon_lib.TxPool.Promote.Markers.{
  Qualifies, worst_Qualifies, best_Qualifies, worst_bound, best_bound,
}
use erigon_lib.TxPool.Promote.Placed.{
  at_pool, Limits, Placed, keep_pending-Placed, keep_base_fee-Placed, keep_queued-Placed,
  to_pending-Placed, to_base_fee-Placed, to_queued-Placed, discard-Placed, with_pending,
  with_base_fee, with_queued,
}
use erigon_lib.TxPool.Promote.Picks.{
  Picks, marker_number-at_pool, All-both, All-imp, drained_all, Pending, BaseFee, Queued, Pend,
  Base, Queue,
}

module _ (worst best : List MetaTx → Option (MetaTx × List MetaTx)) (base : ℕ)
    (picks_worst : Picks (λ x y. worse x y base) worst)
    (picks_best : Picks (λ x y. better x y base) best) (old : List MetaTx) (limits : Limits) where
  abbrev pub In : (MetaTx → Type 0) → (MetaTx → Type 0) → (MetaTx → Type 0) → Pools → Type 0
  In P B Q s = Placed old limits P B Q [] s

  unfit_pending-Qualifies :
      (s : Pools) (mt : MetaTx) → unfit_pending base s mt ≡ false → Qualifies base mt
  unfit_pending-Qualifies s mt h = ground arith

  fit_test : (s : Pools) (mt : MetaTx) → Qualifies base mt → fit_pending base s mt ≡ false → ⊥
  fit_test s mt q h = ground arith

  fit_true : (s : Pools) (mt : MetaTx) → fit_pending base s mt ≡ true → Qualifies base mt
  fit_true s mt h = ground arith

  at_pool-Qualifies :
      (t : SubPoolType) (mt : MetaTx) → Qualifies base mt → Qualifies base (at_pool t mt)
  at_pool-Qualifies t mt h = rw (marker_number-at_pool t mt) h

  pub demote_pending-In :
      (fuel : ℕ) (s : Pools)
      → length s.pending.txs < fuel
      → In Pend Base Queue s
      → (s' : Pools) × (demote_pending worst best base fuel s ≡ some s')
        × In (Pending base) Base Queue s'
  unfolding demote_pending discard
  demote_pending-In fuel s le h =
      let (s', result, inv, ended) =
        drain-Drained (λ s. worst s.pending.txs) (unfit_pending base) demoted keep_pending
          (In Pend Base Queue) (λ s. length s.pending.txs) round fuel s le h in
      (
        s',
        result,
        with_pending s' inv (
            drained_all (λ x y. worse x y base) worst picks_worst pending_sub_pool (Qualifies base)
              s'.pending.txs inv.in_pending (worst_Qualifies base)
              (elim ended [
                | inl e ↦ inl e
                | inr (r, at, no_more) ↦ inr (r, at, unfit_pending-Qualifies s' r.0 no_more)
              ])),
      )
    where
      round :
          Round
            (λ s. worst s.pending.txs)
            (unfit_pending base)
            demoted
            keep_pending
            (In Pend Base Queue)
            (λ s. length s.pending.txs)
      round s r inv at more =
          let (w, rest) = picks_worst.members Pend s.pending.txs r at inv.in_pending in
          let size = picks_worst.one_less s.pending.txs r at in
          let k = keep_pending-Placed s r inv rest size (picks_worst.same s.pending.txs r at) in
          elim (Bool-cases (leb base_fee_pool_bits (marker_number (popped r.0)))) [
            | inl a ↦ rw a (
              to_base_fee-Placed (keep_pending r.1 s) (popped r.0) k (refl, w.1, w.2),
              omega (arith, size),
            )
            | inr a ↦ elim (Bool-cases (leb queued_pool_bits (marker_number (popped r.0)))) [
              | inl b ↦
                  rw (a, b)
                    (
                      to_queued-Placed (keep_pending r.1 s) (popped r.0) k (refl, w.1, w.2),
                      omega (arith, size),
                    )
              | inr b ↦
                  rw (a, b)
                    (
                      discard-Placed (keep_pending r.1 s) (popped r.0) fee_too_low k,
                      omega (arith, size),
                    )
            ]
          ]

  -- A transaction of the base-fee sub-pool that does not qualify for the pending one.
  abbrev pub Waits : MetaTx → Type 0
  Waits mt = Base mt × (Qualifies base mt → ⊥)

  pub promote_base_fee-In :
      (fuel : ℕ) (s : Pools)
      → length s.base_fee.txs < fuel
      → In (Pending base) Base Queue s
      → (s' : Pools) × (promote_base_fee worst best base fuel s ≡ some s')
        × In (Pending base) Waits Queue s'
  unfolding promote_base_fee
  promote_base_fee-In fuel s le h =
      let (s', result, inv, ended) =
        drain-Drained (λ s. best s.base_fee.txs) (fit_pending base) to_pending keep_base_fee
          (In (Pending base) Base Queue) (λ s. length s.base_fee.txs) round fuel s le h in
      (
        s',
        result,
        with_base_fee s' inv (
            drained_all (λ x y. better x y base) best picks_best base_fee_sub_pool
              (λ mt. Qualifies base mt → ⊥) s'.base_fee.txs inv.in_base_fee
              (λ x w px pw order no_ q. no_ (best_Qualifies base x w px pw order q))
              (elim ended [
                | inl e ↦ inl e
                | inr (r, at, no_more) ↦ inr (r, at, λ q. fit_test s' r.0 q no_more)
              ])),
      )
    where
      round :
          Round
            (λ s. best s.base_fee.txs)
            (fit_pending base)
            to_pending
            keep_base_fee
            (In (Pending base) Base Queue)
            (λ s. length s.base_fee.txs)
      round s r inv at more =
          let (w, rest) = picks_best.members Base s.base_fee.txs r at inv.in_base_fee in
          let size = picks_best.one_less s.base_fee.txs r at in
          (
            to_pending-Placed (keep_base_fee r.1 s) (popped r.0)
                (keep_base_fee-Placed s r inv rest size (picks_best.same s.base_fee.txs r at))
                ((refl, w.1, w.2), at_pool-Qualifies pending_sub_pool r.0 (fit_true s r.0 more)),
            omega (arith, size),
          )

  base_fee_test :
      (s : Pools) (mt : MetaTx) → unfit_base_fee s mt ≡ false → 4 * 15 ≤ marker_number mt
  base_fee_test s mt h = ground arith

  Waits-BaseFee : (mt : MetaTx) → Waits mt × (4 * 15 ≤ marker_number mt) → BaseFee base mt
  Waits-BaseFee mt (h, m) = (h.0, m, below (Bool-cases (ltb mt.min_fee_cap base)))
    where
      below :
          (ltb mt.min_fee_cap base ≡ true) ⊎ (ltb mt.min_fee_cap base ≡ false)
          → mt.min_fee_cap < base
      below (inl k) = ground arith
      below (inr k) = absurd (h.1 (m, ground arith))

  pub demote_base_fee-In :
      (fuel : ℕ) (s : Pools)
      → length s.base_fee.txs < fuel
      → In (Pending base) Waits Queue s
      → (s' : Pools) × (demote_base_fee worst best base fuel s ≡ some s')
        × In (Pending base) (BaseFee base) Queue s'
  unfolding demote_base_fee discard
  demote_base_fee-In fuel s le h =
      let (s', result, inv, ended) =
        drain-Drained (λ s. worst s.base_fee.txs) unfit_base_fee demoted_further keep_base_fee
          (In (Pending base) Waits Queue) (λ s. length s.base_fee.txs) round fuel s le h in
      let held = All-imp Waits Base s'.base_fee.txs (λ x w. w.0) inv.in_base_fee in
      let bound =
        drained_all (λ x y. worse x y base) worst picks_worst base_fee_sub_pool
          (λ mt. 4 * 15 ≤ marker_number mt) s'.base_fee.txs held (worst_bound base 15)
          (elim ended [
            | inl e ↦ inl e
            | inr (r, at, no_more) ↦ inr (r, at, base_fee_test s' r.0 no_more)
          ]) in
      (
        s',
        result,
        with_base_fee s' inv (
            All-imp (λ (x : MetaTx). Waits x × (Base x × (4 * 15 ≤ marker_number x))) (BaseFee base)
              s'.base_fee.txs (λ x b. Waits-BaseFee x (b.0, b.1.1))
              (All-both Waits (λ (x : MetaTx). Base x × (4 * 15 ≤ marker_number x)) s'.base_fee.txs
                inv.in_base_fee bound)),
      )
    where
      round :
          Round
            (λ s. worst s.base_fee.txs)
            unfit_base_fee
            demoted_further
            keep_base_fee
            (In (Pending base) Waits Queue)
            (λ s. length s.base_fee.txs)
      round s r inv at more =
          let (w, rest) = picks_worst.members Waits s.base_fee.txs r at inv.in_base_fee in
          let size = picks_worst.one_less s.base_fee.txs r at in
          let k = keep_base_fee-Placed s r inv rest size (picks_worst.same s.base_fee.txs r at) in
          elim (Bool-cases (leb queued_pool_bits (marker_number (popped r.0)))) [
            | inl b ↦ rw (b) (
              to_queued-Placed (keep_base_fee r.1 s) (popped r.0) k (refl, w.0.1, w.0.2),
              omega (arith, size),
            )
            | inr b ↦ rw (b) (
              discard-Placed (keep_base_fee r.1 s) (popped r.0) fee_too_low k,
              omega (arith, size),
            )
          ]

  -- A queued transaction that does not qualify for the base-fee sub-pool.
  abbrev pub Low : MetaTx → Type 0
  Low mt = Queue mt × (4 * 15 ≤ marker_number mt → ⊥)

  bits_of_fit : (s : Pools) (mt : MetaTx) → fit_base_fee s mt ≡ true → 60 ≤ marker_number mt
  bits_of_fit s mt h = ground arith

  fit_base_fee_test :
      (s : Pools) (mt : MetaTx) → 4 * 15 ≤ marker_number mt → fit_base_fee s mt ≡ false → ⊥
  fit_base_fee_test s mt q h = ground arith

  pub promote_queued-In :
      (fuel : ℕ) (s : Pools)
      → length s.queued.txs < fuel
      → In (Pending base) (BaseFee base) Queue s
      → (s' : Pools) × (promote_queued worst best base fuel s ≡ some s')
        × In (Pending base) (BaseFee base) Low s'
  unfolding promote_queued
  promote_queued-In fuel s le h =
      let (s', result, inv, ended) =
        drain-Drained (λ s. best s.queued.txs) fit_base_fee (promoted base) keep_queued
          (In (Pending base) (BaseFee base) Queue) (λ s. length s.queued.txs) round fuel s le h in
      (
        s',
        result,
        with_queued s' inv (
            drained_all (λ x y. better x y base) best picks_best queued_sub_pool
              (λ mt. 4 * 15 ≤ marker_number mt → ⊥) s'.queued.txs inv.in_queued
              (λ x w px pw order no_ q. no_ (best_bound base 15 x w px pw order q))
              (elim ended [
                | inl e ↦ inl e
                | inr (r, at, no_more) ↦ inr (r, at, λ q. fit_base_fee_test s' r.0 q no_more)
              ])),
      )
    where
      round :
          Round
            (λ s. best s.queued.txs)
            fit_base_fee
            (promoted base)
            keep_queued
            (In (Pending base) (BaseFee base) Queue)
            (λ s. length s.queued.txs)
      round s r inv at more =
          let (w, rest) = picks_best.members Queue s.queued.txs r at inv.in_queued in
          let size = picks_best.one_less s.queued.txs r at in
          let k = keep_queued-Placed s r inv rest size (picks_best.same s.queued.txs r at) in
          let high = bits_of_fit s r.0 more in
          elim (Bool-cases (leb base r.0.min_fee_cap)) [
            | inl b ↦ rw (b) (
              to_pending-Placed (keep_queued r.1 s) (popped r.0) k
                  ((refl, w.1, w.2), at_pool-Qualifies pending_sub_pool r.0 (high, ground arith)),
              omega (arith, size),
            )
            | inr b ↦ rw (b) (
              to_base_fee-Placed (keep_queued r.1 s) (popped r.0) k (
                (refl, w.1, w.2),
                rw (marker_number-at_pool base_fee_sub_pool r.0) high,
                ground arith,
              ),
              omega (arith, size),
            )
          ]

  queued_test : (s : Pools) (mt : MetaTx) → unfit_queued s mt ≡ false → 4 * 8 ≤ marker_number mt
  queued_test s mt h = ground arith

  Low-Queued : (mt : MetaTx) → Low mt × (4 * 8 ≤ marker_number mt) → Queued mt
  Low-Queued mt (h, m) = (h.0, m, below (Bool-cases (ltb (marker_number mt) 60)))
    where
      below :
          (ltb (marker_number mt) 60 ≡ true) ⊎ (ltb (marker_number mt) 60 ≡ false)
          → marker_number mt < 60
      below (inl k) = ground arith
      below (inr k) = absurd (h.1 (ground arith))

  pub discard_queued-In :
      (fuel : ℕ) (s : Pools)
      → length s.queued.txs < fuel
      → In (Pending base) (BaseFee base) Low s
      → (s' : Pools) × (discard_queued worst best base fuel s ≡ some s')
        × In (Pending base) (BaseFee base) Queued s'
  unfolding discard_queued discard
  discard_queued-In fuel s le h =
      let (s', result, inv, ended) =
        drain-Drained (λ s. worst s.queued.txs) unfit_queued (λ mt. discard mt fee_too_low)
          keep_queued (In (Pending base) (BaseFee base) Low) (λ s. length s.queued.txs) round fuel s
          le h in
      let held = All-imp Low Queue s'.queued.txs (λ x w. w.0) inv.in_queued in
      let bound =
        drained_all (λ x y. worse x y base) worst picks_worst queued_sub_pool
          (λ mt. 4 * 8 ≤ marker_number mt) s'.queued.txs held (worst_bound base 8)
          (elim ended [
            | inl e ↦ inl e
            | inr (r, at, no_more) ↦ inr (r, at, queued_test s' r.0 no_more)
          ]) in
      (
        s',
        result,
        with_queued s' inv (
            All-imp (λ (x : MetaTx). Low x × (Queue x × (4 * 8 ≤ marker_number x))) Queued
              s'.queued.txs (λ x b. Low-Queued x (b.0, b.1.1))
              (All-both Low (λ (x : MetaTx). Queue x × (4 * 8 ≤ marker_number x)) s'.queued.txs
                inv.in_queued bound)),
      )
    where
      round :
          Round
            (λ s. worst s.queued.txs)
            unfit_queued
            (λ mt. discard mt fee_too_low)
            keep_queued
            (In (Pending base) (BaseFee base) Low)
            (λ s. length s.queued.txs)
      round s r inv at more =
          let (w, rest) = picks_worst.members Low s.queued.txs r at inv.in_queued in
          let size = picks_worst.one_less s.queued.txs r at in
          (
            discard-Placed (keep_queued r.1 s) (popped r.0) fee_too_low
                (keep_queued-Placed s r inv rest size (picks_worst.same s.queued.txs r at)),
            omega (arith, size),
          )
