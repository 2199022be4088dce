-- ===== src/TxPool/Queue.antt =====
-- The orders of the sub-pools' queues: `metaTx.better` and `metaTx.worse` of txpool/pool.go.
use erigon_lib.Base.{ℕ, ◌+◌, ◌-◌, Bool, true, false, ◌||◌, ltb, leb, ◌==◌, if◌then◌else◌}
use erigon_lib.TxPool.Sender.{
  MetaTx, SubPoolType, no_sub_pool, pending_sub_pool, base_fee_sub_pool, queued_sub_pool,
}

abbrev pub bit_value : Bool → ℕ → ℕ
bit_value true n = n
bit_value false n = 0

-- A marker as the number it is, with `EnoughFeeCapBlock` set where the fee cap meets the pending
-- base fee.
unfoldable pub marker_at : ℕ → MetaTx → ℕ
marker_at base mt =
    bit_value mt.sub_pool.enough_fee_cap_protocol 32
    + bit_value mt.sub_pool.no_nonce_gaps 16
    + bit_value mt.sub_pool.enough_balance 8
    + bit_value mt.sub_pool.not_too_much_gas 4
    + bit_value (leb base mt.min_fee_cap || mt.sub_pool.enough_fee_cap_block) 2
    + bit_value mt.sub_pool.is_local 1

-- `effectiveTip`
unfoldable pub effective_tip : ℕ → MetaTx → ℕ
effective_tip base mt =
    if leb base mt.min_fee_cap
    then (if leb (mt.min_fee_cap - base) mt.min_tip then mt.min_fee_cap - base else mt.min_tip)
    else 0

-- `if a != b { return a > b }`, and the same with `<`, before what comes next.
abbrev pub greater_first : ℕ → ℕ → Bool → Bool
greater_first a b rest = if a == b then rest else ltb b a

abbrev pub less_first : ℕ → ℕ → Bool → Bool
less_first a b rest = if a == b then rest else ltb a b

-- The switch of `better`.
unfoldable pub better_in : SubPoolType → ℕ → MetaTx → MetaTx → Bool
better_in pool base mt than = elim pool [
  | pending_sub_pool ↦ greater_first (effective_tip base mt) (effective_tip base than) (
      less_first mt.nonce_distance than.nonce_distance (
        less_first mt.cumulative_balance_distance than.cumulative_balance_distance
          (ltb mt.timestamp than.timestamp)))
  | base_fee_sub_pool ↦
      greater_first mt.min_fee_cap than.min_fee_cap (ltb mt.timestamp than.timestamp)
  | queued_sub_pool ↦ less_first mt.nonce_distance than.nonce_distance (
      less_first mt.cumulative_balance_distance than.cumulative_balance_distance
        (ltb mt.timestamp than.timestamp))
  | no_sub_pool ↦ ltb mt.timestamp than.timestamp
]

unfoldable pub better : MetaTx → MetaTx → ℕ → Bool
better mt than base =
    greater_first (marker_at base mt) (marker_at base than)
      (better_in mt.current_sub_pool base mt than)

-- The switch of `worse`.
unfoldable pub worse_in : SubPoolType → MetaTx → MetaTx → Bool
worse_in pool mt than = elim pool [
  | pending_sub_pool ↦ less_first mt.min_fee_cap than.min_fee_cap (
      greater_first mt.nonce_distance than.nonce_distance (
        greater_first mt.cumulative_balance_distance than.cumulative_balance_distance
          (ltb than.timestamp mt.timestamp)))
  | base_fee_sub_pool ↦ greater_first mt.nonce_distance than.nonce_distance (
      greater_first mt.cumulative_balance_distance than.cumulative_balance_distance
        (ltb than.timestamp mt.timestamp))
  | queued_sub_pool ↦ greater_first mt.nonce_distance than.nonce_distance (
      greater_first mt.cumulative_balance_distance than.cumulative_balance_distance
        (ltb than.timestamp mt.timestamp))
  | no_sub_pool ↦ ltb than.timestamp mt.timestamp
]

unfoldable pub worse : MetaTx → MetaTx → ℕ → Bool
worse mt than base =
    less_first (marker_at base mt) (marker_at base than) (worse_in mt.current_sub_pool mt than)
