-- ===== src/TxPool/Promote/Markers.antt =====
-- The markers that `promote` of txpool/pool.go compares, and the order of the queues.
use erigon_lib.Base.{
  ℕ, ◌+◌, ◌*◌, ◌≤◌, ◌<◌, ◌≡◌, refl, arith, Bool, true, false, leb, Bool-cases, ◌⊎◌, inl, inr,
}
use erigon_lib.TxPool.Sender.{MetaTx}
use erigon_lib.TxPool.Queue.{bit_value, marker_at, better, worse}
use erigon_lib.TxPool.Promote.{marker_number}

-- No transaction has the bit `EnoughFeeCapBlock` of its own.
abbrev pub Plain : MetaTx → Type 0
Plain mt = mt.sub_pool.enough_fee_cap_block ≡ false

pub not_worse :
    (base : ℕ) (x w : MetaTx) → worse x w base ≡ false → marker_at base w ≤ marker_at base x
unfolding worse
not_worse base x w h = ground arith

pub not_better :
    (base : ℕ) (x b : MetaTx) → better x b base ≡ false → marker_at base x ≤ marker_at base b
unfolding better
not_better base x b h = ground arith

abbrev fee_bit : ℕ → MetaTx → ℕ
fee_bit base mt = bit_value (leb base mt.min_fee_cap) 2

-- The marker in the queues is the marker with the bit of the fee cap.
marker_at-marker_number :
    (base : ℕ) (mt : MetaTx) → Plain mt → marker_at base mt ≡ marker_number mt + fee_bit base mt
unfolding marker_at marker_number
marker_at-marker_number base mt h = elim (Bool-cases (leb base mt.min_fee_cap)) [
  | inl k ↦ rw (marker_at, marker_number, h, k) (omega arith)
  | inr k ↦ rw (marker_at, marker_number, h, k) (omega arith)
]

four : (b : Bool) (n : ℕ) → bit_value b (4 * n) ≡ 4 * bit_value b n
four true n = refl
four false n = omega arith

at_most : (b : Bool) (n : ℕ) → bit_value b n ≤ n
at_most true n = omega arith
at_most false n = omega arith

-- A marker without the bit of the fee cap: four high bits and the lowest one.
marker_form :
    (mt : MetaTx)
    → Plain mt
    → (q : ℕ) × (r : ℕ) × (marker_number mt ≡ 4 * q + r) × (q ≤ 15) × (r ≤ 1)
unfolding marker_number
marker_form mt h =
    let m = mt.sub_pool in
    (
      bit_value m.enough_fee_cap_protocol 8
          + bit_value m.no_nonce_gaps 4
          + bit_value m.enough_balance 2
          + bit_value m.not_too_much_gas 1,
      bit_value m.is_local 1,
      rw (marker_number, h)
          (omega (
            arith,
            four m.enough_fee_cap_protocol 8,
            four m.no_nonce_gaps 4,
            four m.enough_balance 2,
            four m.not_too_much_gas 1,
          )),
      omega (
        arith,
        at_most m.enough_fee_cap_protocol 8,
        at_most m.no_nonce_gaps 4,
        at_most m.enough_balance 2,
        at_most m.not_too_much_gas 1,
      ),
      at_most m.is_local 1,
    )

fee_bit_cases :
    (base : ℕ) (mt : MetaTx)
    → ((base ≤ mt.min_fee_cap) × (fee_bit base mt ≡ 2))
      ⊎ ((mt.min_fee_cap < base) × (fee_bit base mt ≡ 0))
fee_bit_cases base mt = elim (Bool-cases (leb base mt.min_fee_cap)) [
  | inl h ↦ inl (ground arith, rw h)
  | inr h ↦ inr (ground arith, rw h)
]

-- For the pending sub-pool.
abbrev pub Qualifies : ℕ → MetaTx → Type 0
Qualifies base mt = (60 ≤ marker_number mt) × (base ≤ mt.min_fee_cap)

marker_at-Qualifies :
    (base : ℕ) (mt : MetaTx) → Plain mt → 62 ≤ marker_at base mt → Qualifies base mt
marker_at-Qualifies base mt p h =
    let at = marker_at-marker_number base mt p in
    let (q, r, form, hq, hr) = marker_form mt p in
    elim (fee_bit_cases base mt) [
      | inl (fee, bit) ↦ (omega (arith, at, form, hq, hr, bit, h), fee)
      | inr (fee, bit) ↦ absurd (omega (arith, at, form, hq, hr, bit, h))
    ]

Qualifies-marker_at :
    (base : ℕ) (mt : MetaTx) → Plain mt → Qualifies base mt → 62 ≤ marker_at base mt
Qualifies-marker_at base mt p (m, fee) =
    let at = marker_at-marker_number base mt p in
    elim (fee_bit_cases base mt) [
      | inl (f, bit) ↦ omega (arith, at, bit, m)
      | inr (f, bit) ↦ absurd (omega (arith, fee, f))
    ]

-- A bound of the marker, which both multiples of four are, is a bound in the queue.
bound_at :
    (base n : ℕ) (mt : MetaTx) → Plain mt → 4 * n ≤ marker_number mt → 4 * n ≤ marker_at base mt
bound_at base n mt p h = omega (arith, marker_at-marker_number base mt p, h)

at_bound :
    (base n : ℕ) (mt : MetaTx) → Plain mt → 4 * n ≤ marker_at base mt → 4 * n ≤ marker_number mt
at_bound base n mt p h =
    let at = marker_at-marker_number base mt p in
    let (q, r, form, hq, hr) = marker_form mt p in
    elim (fee_bit_cases base mt) [
      | inl (fee, bit) ↦ omega (arith, at, form, hq, hr, bit, h)
      | inr (fee, bit) ↦ omega (arith, at, form, hq, hr, bit, h)
    ]

-- If the worst one qualifies, so do all.
pub worst_Qualifies :
    (base : ℕ) (x w : MetaTx)
    → Plain x
    → Plain w
    → worse x w base ≡ false
    → Qualifies base w
    → Qualifies base x
worst_Qualifies base x w px pw h q =
    marker_at-Qualifies base x px
      (omega (arith, not_worse base x w h, Qualifies-marker_at base w pw q))

-- If the best one does not, none does.
pub best_Qualifies :
    (base : ℕ) (x b : MetaTx)
    → Plain x
    → Plain b
    → better x b base ≡ false
    → Qualifies base x
    → Qualifies base b
best_Qualifies base x b px pb h q =
    marker_at-Qualifies base b pb
      (omega (arith, not_better base x b h, Qualifies-marker_at base x px q))

pub worst_bound :
    (base n : ℕ) (x w : MetaTx)
    → Plain x
    → Plain w
    → worse x w base ≡ false
    → 4 * n ≤ marker_number w
    → 4 * n ≤ marker_number x
worst_bound base n x w px pw h b =
    at_bound base n x px (omega (arith, not_worse base x w h, bound_at base n w pw b))

pub best_bound :
    (base n : ℕ) (x b : MetaTx)
    → Plain x
    → Plain b
    → better x b base ≡ false
    → 4 * n ≤ marker_number x
    → 4 * n ≤ marker_number b
best_bound base n x b px pb h c =
    at_bound base n b pb (omega (arith, not_better base x b h, bound_at base n x px c))
