-- ===== src/Chain/Rules.antt =====
-- chain/chain_config.go: `Rules`, the forks by time and the tests for the block of a fork itself.
use erigon_lib.Base.{ℕ, Bool, true, false, ◌&&◌, Option, none, some}
use erigon_lib.Chain.Config.{Config, is_forked, num_equal}
use erigon_lib.Chain.Forks.{
  is_homestead, is_tangerine_whistle, is_spurious_dragon, is_byzantium, is_constantinople,
  is_petersburg, is_istanbul, is_berlin, is_london, is_nano, is_moran,
}

module _ (c : Config) (num : Option ℕ) where
  unfoldable pub is_on_ramanujan : Bool
  is_on_ramanujan = num_equal c.ramanujan_block num

  unfoldable pub is_on_niels : Bool
  is_on_niels = num_equal c.niels_block num

  unfoldable pub is_on_mirror_sync : Bool
  is_on_mirror_sync = num_equal c.mirror_sync_block num

  unfoldable pub is_on_bruno : Bool
  is_on_bruno = num_equal c.bruno_block num

  unfoldable pub is_on_euler : Bool
  is_on_euler = num_equal c.euler_block num

  unfoldable pub is_on_gibbs : Bool
  is_on_gibbs = num_equal c.gibbs_block num

  unfoldable pub is_on_moran : Bool
  is_on_moran = num_equal c.moran_block num

  unfoldable pub is_on_nano : Bool
  is_on_nano = num_equal c.nano_block num

module _ (c : Config) (time : ℕ) where
  unfoldable pub is_shanghai : Bool
  is_shanghai = is_forked c.shanghai_time time

  unfoldable pub is_sharding : Bool
  is_sharding = is_forked c.sharding_fork_time time

  unfoldable pub is_cancun : Bool
  is_cancun = is_forked c.cancun_time time

abbrev pub is_present : {A : Type 0} → Option A → Bool
is_present none = false
is_present (some a) = true

unfoldable pub is_eip1559_fee_collector : Config → ℕ → Bool
is_eip1559_fee_collector c num =
    is_present c.eip1559_fee_collector && is_forked c.eip1559_fee_collector_transition num

-- `Rules`. A field that the function does not set is false.
pub record Rules : Type 0 where
  pub chain_id : ℕ
  pub homestead : Bool
  pub tangerine_whistle : Bool
  pub spurious_dragon : Bool
  pub byzantium : Bool
  pub constantinople : Bool
  pub petersburg : Bool
  pub istanbul : Bool
  pub berlin : Bool
  pub london : Bool
  pub shanghai : Bool
  pub cancun : Bool
  pub sharding : Bool
  pub nano : Bool
  pub moran : Bool
  pub gibbs : Bool
  pub eip1559_fee_collector : Bool
  pub parlia : Bool
  pub aura : Bool

abbrev chain_id_or_zero : Option ℕ → ℕ
chain_id_or_zero none = 0
chain_id_or_zero (some id) = id

unfoldable pub rules : Config → ℕ → ℕ → Rules
unfolding is_homestead is_tangerine_whistle is_spurious_dragon is_byzantium is_constantinople
    is_petersburg is_istanbul is_berlin is_london is_shanghai is_cancun is_nano is_moran
    is_eip1559_fee_collector
rules c num time = record {
  chain_id = chain_id_or_zero c.chain_id;
  homestead = is_homestead c num;
  tangerine_whistle = is_tangerine_whistle c num;
  spurious_dragon = is_spurious_dragon c num;
  byzantium = is_byzantium c num;
  constantinople = is_constantinople c num;
  petersburg = is_petersburg c num;
  istanbul = is_istanbul c num;
  berlin = is_berlin c num;
  london = is_london c num;
  shanghai = is_shanghai c time;
  cancun = is_cancun c time;
  sharding = false;
  nano = is_nano c num;
  moran = is_moran c num;
  gibbs = false;
  eip1559_fee_collector = is_eip1559_fee_collector c num;
  parlia = c.has_parlia;
  aura = c.has_aura;
}
