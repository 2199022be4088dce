-- ===== src/Chain/Examples.antt =====
-- Runs of the fork rules of chain/chain_config.go on two small configurations.
use erigon_lib.Base.{ℕ, ◌^◌, ◌<◌, ◌≡◌, refl, arith, false, Option, none, some, List, [], ◌∷◌, All}
use erigon_lib.Chain.Config.{
  Config, ConfigCompatError, is_forked, num_equal, incompatible, guards, check_compatible_at,
  check_compatible,
}
use erigon_lib.Chain.Forks.{
  order_pair, next_last, order_loop, is_sokol, check_config_fork_order, fork_points,
}
use erigon_lib.Chain.Compat.{IsConfig, Settled, check_compatible-Settled}
use erigon_lib.Chain.Agree.{compared, check_compatible_at-same}
use erigon_lib.Chain.ForkOrder.{InOrder, check_config_fork_order-InOrder}
use erigon_lib.Etl.Sorting.{insert, inserts, stable_sort}
use erigon_lib.Chain.Bor.{
  Schedule, digits_from, parse_uint, sort_map_keys, value_of, calc_config, sprint_size,
}
use erigon_lib.Chain.Bor.Laws.{IsInForce, sprint_size-IsInForce, calc_config-at_key}

-- A chain whose forks up to Petersburg are at block 5, and Berlin and London as given.
abbrev chain : Option ℕ → Option ℕ → Config
chain berlin london = record {
  chain_id = some 1;
  dao_fork_support = false;
  homestead_block = some 5;
  dao_fork_block = none;
  tangerine_whistle_block = some 5;
  spurious_dragon_block = some 5;
  byzantium_block = some 5;
  constantinople_block = some 5;
  petersburg_block = some 5;
  istanbul_block = some 5;
  muir_glacier_block = none;
  berlin_block = berlin;
  london_block = london;
  arrow_glacier_block = none;
  gray_glacier_block = none;
  merge_netsplit_block = none;
  ramanujan_block = none;
  niels_block = none;
  mirror_sync_block = none;
  bruno_block = none;
  euler_block = none;
  gibbs_block = none;
  nano_block = none;
  moran_block = none;
  posdao_block = none;
  shanghai_time = some 100;
  cancun_time = none;
  sharding_fork_time = none;
  eip1559_fee_collector = none;
  eip1559_fee_collector_transition = none;
  has_aura = false;
  has_parlia = false;
}

abbrev stored : Config
stored = chain (some 10) (some 20)

abbrev renewed : Config
renewed = chain (some 10) (some 30)

chain-IsConfig : (london : ℕ) → london < 2 ^ 64 → IsConfig (chain (some 10) (some london))
chain-IsConfig london h = (
  omega arith,
  (
    tt,
    (
      omega arith,
      (
        omega arith,
        (
          omega arith,
          (
            omega arith,
            (
              omega arith,
              (
                omega arith,
                (
                  tt,
                  (
                    omega arith,
                    (h, (tt, (tt, (tt, (tt, (tt, (tt, (tt, (tt, (tt, (tt, (tt, tt)))))))))))),
                  ),
                ),
              ),
            ),
          ),
        ),
      ),
    ),
  ),
)

check_compatible_at-same_example :
    All (λ p. is_forked p.0 12 ≡ is_forked p.1 12) (compared stored renewed)
unfolding check_compatible_at guards incompatible is_forked num_equal
check_compatible_at-same_example = check_compatible_at-same stored renewed 15 12 refl (omega arith)

check_compatible-Settled_example :
    (r : Option ConfigCompatError) × (check_compatible stored renewed 30 25 ≡ some r)
    × Settled stored renewed 25 r
check_compatible-Settled_example =
    check_compatible-Settled stored renewed 30 25 (chain-IsConfig 20 (omega arith))
      (chain-IsConfig 30 (omega arith)) (omega arith)

check_config_fork_order-InOrder_example : InOrder (fork_points stored)
unfolding check_config_fork_order order_loop order_pair next_last is_sokol fork_points
check_config_fork_order-InOrder_example = check_config_fork_order-InOrder stored refl refl

-- A period of 4 from block 0, of 8 from block 64 and of 2 from block 96.
abbrev periods : Schedule
periods = ((54 ∷ 52 ∷ []), 8) ∷ ((48 ∷ []), 4) ∷ ((57 ∷ 54 ∷ []), 2) ∷ []

sprint_size-IsInForce_example :
    (k : List ℕ) × (sprint_size periods 70 ≡ some (value_of k periods))
    × IsInForce 70 (sort_map_keys periods) k
unfolding sort_map_keys stable_sort inserts insert parse_uint digits_from
sprint_size-IsInForce_example =
    sprint_size-IsInForce periods 70 (omega arith, (omega arith, tt)) (omega arith)

calc_config-at_key_example : calc_config periods 64 ≡ some 2
unfolding sort_map_keys stable_sort inserts insert parse_uint digits_from
calc_config-at_key_example =
    calc_config-at_key periods 1 (54 ∷ 52 ∷ []) (omega arith, (omega arith, tt)) refl
