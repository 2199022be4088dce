-- ===== src/TxPool/Promote/Drain.antt =====
-- The loops of `promote` of txpool/pool.go: what holds after a loop, and that it ends.
use erigon_lib.Base.{
  ℕ, zero, suc, ◌<◌, ◌≡◌, arith, Bool, true, false, Option, none, some, List, Bool-cases,
  Option-cases, ◌⊎◌, inl, inr,
}
use erigon_lib.TxPool.Sender.{MetaTx}
use erigon_lib.TxPool.Promote.{Pools, popped, drain}

module _ (pop : Pools → Option (MetaTx × List MetaTx)) (test : Pools → MetaTx → Bool)
    (move : MetaTx → Pools → Pools) (keep : List MetaTx → Pools → Pools) where
  -- The queue is empty, or the test fails for its first transaction.
  abbrev pub Drained : Pools → Type 0
  Drained s =
      (pop s ≡ none) ⊎ ((r : MetaTx × List MetaTx) × (pop s ≡ some r) × (test s r.0 ≡ false))

  -- A round keeps the invariant and makes the measure smaller.
  abbrev pub Round : (Pools → Type 0) → (Pools → ℕ) → Type 0
  Round Inv measure =
      (s : Pools) (r : MetaTx × List MetaTx)
      → Inv s
      → pop s ≡ some r
      → test s r.0 ≡ true
      → Inv (move (popped r.0) (keep r.1 s))
        × (measure (move (popped r.0) (keep r.1 s)) < measure s)

  pub drain-Drained :
      (Inv : Pools → Type 0) (measure : Pools → ℕ)
      → Round Inv measure
      → (fuel : ℕ) (s : Pools) → measure s < fuel
      → Inv s
      → (s' : Pools) × (drain pop test move keep fuel s ≡ some s') × Inv s' × Drained s'
  unfolding drain
  drain-Drained Inv measure round zero s le h = absurd (omega arith)
  drain-Drained Inv measure round (suc fuel) s le h = elim (Option-cases (pop s)) [
    | inl empty ↦ (s, rw (drain, empty), h, inl empty)
    | inr (r, first) ↦ elim (Bool-cases (test s r.0)) [
      | inr last ↦ (s, rw (drain, first, last), h, inr (r, first, last))
      | inl more ↦
          let (kept, smaller) = round s r h first more in
          let (s', result, inv, drained) =
            drain-Drained Inv measure round fuel (move (popped r.0) (keep r.1 s))
              (omega (arith, le, smaller)) kept in
          (s', rw (drain, first, more) result, inv, drained)
    ]
  ]
