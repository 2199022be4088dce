-- ===== src/Chain/Forks.antt =====
-- chain/chain_config.go: `CheckConfigForkOrder` and the tests for forks.
use erigon_lib.Base.{
  ℕ, ◌%◌, ◌^◌, Bool, true, false, ◌&&◌, ◌||◌, not, Option, none, some, List, [], ◌∷◌, ltb, ◌==◌,
  if◌then◌else◌,
}
use erigon_lib.Chain.Config.{
  Config, Fork, is_forked, homestead_fork, dao_fork, tangerine_whistle_fork, spurious_dragon_fork,
  byzantium_fork, constantinople_fork, petersburg_fork, istanbul_fork, muir_glacier_fork,
  euler_fork, gibbs_fork, berlin_fork, london_fork, arrow_glacier_fork, gray_glacier_fork,
  merge_netsplit_fork,
}

pub record ForkPoint : Type 0 where
  pub name : Fork
  pub block : Option ℕ
  pub can_skip : Bool

abbrev pub point : Fork → Option ℕ → Bool → ForkPoint
point name block can_skip = record { name = name; block = block; can_skip = can_skip }

unfoldable pub fork_points : Config → List ForkPoint
fork_points c =
    point homestead_fork c.homestead_block false
    ∷ point dao_fork c.dao_fork_block true
    ∷ point tangerine_whistle_fork c.tangerine_whistle_block false
    ∷ point spurious_dragon_fork c.spurious_dragon_block false
    ∷ point byzantium_fork c.byzantium_block false
    ∷ point constantinople_fork c.constantinople_block false
    ∷ point petersburg_fork c.petersburg_block false
    ∷ point istanbul_fork c.istanbul_block false
    ∷ point muir_glacier_fork c.muir_glacier_block true
    ∷ point euler_fork c.euler_block true
    ∷ point gibbs_fork c.gibbs_block true
    ∷ point berlin_fork c.berlin_block false
    ∷ point london_fork c.london_block false
    ∷ point arrow_glacier_fork c.arrow_glacier_block true
    ∷ point gray_glacier_fork c.gray_glacier_block true
    ∷ point merge_netsplit_fork c.merge_netsplit_block true
    ∷ []

-- The two errors of `CheckConfigForkOrder`: a fork that is enabled behind one that is not, and forks
-- out of order.
pub data OrderError : Type 0 where
  not_enabled : ForkPoint → ForkPoint → OrderError
  out_of_order : ForkPoint → ForkPoint → OrderError

-- `lastFork` is `none` before the first fork.
unfoldable pub order_pair : Option ForkPoint → ForkPoint → Option OrderError
order_pair none fork = none
order_pair (some last) fork = elim last.block [
  | none ↦ elim fork.block [ none ↦ none | some b ↦ some (not_enabled last fork) ]
  | some a ↦ elim fork.block [
    | none ↦ none
    | some b ↦ if ltb b a then some (out_of_order last fork) else none
  ]
]

abbrev pub is_set : Option ℕ → Bool
is_set none = false
is_set (some b) = true

unfoldable pub next_last : Option ForkPoint → ForkPoint → Option ForkPoint
next_last last fork = if not fork.can_skip || is_set fork.block then some fork else last

unfoldable pub order_loop : Option ForkPoint → List ForkPoint → Option OrderError
order_loop last [] = none
order_loop last (fork ∷ forks) = elim (order_pair last fork) [
  | some e ↦ some e
  | none ↦ order_loop (next_last last fork) forks
]

-- `c.ChainID != nil && c.ChainID.Uint64() == 77`
unfoldable pub is_sokol : Option ℕ → Bool
is_sokol none = false
is_sokol (some id) = (id % 2 ^ 64) == 77

unfoldable pub check_config_fork_order : Config → Option OrderError
check_config_fork_order c = if is_sokol c.chain_id then none else order_loop none (fork_points c)

-- `IsHomestead` and the like.
module _ (c : Config) (num : ℕ) where
  unfoldable pub is_homestead : Bool
  is_homestead = is_forked c.homestead_block num

  unfoldable pub is_dao_fork : Bool
  is_dao_fork = is_forked c.dao_fork_block num

  unfoldable pub is_tangerine_whistle : Bool
  is_tangerine_whistle = is_forked c.tangerine_whistle_block num

  unfoldable pub is_spurious_dragon : Bool
  is_spurious_dragon = is_forked c.spurious_dragon_block num

  unfoldable pub is_byzantium : Bool
  is_byzantium = is_forked c.byzantium_block num

  unfoldable pub is_constantinople : Bool
  is_constantinople = is_forked c.constantinople_block num

  unfoldable pub is_petersburg : Bool
  is_petersburg =
      is_forked c.petersburg_block num
      || (not (is_set c.petersburg_block) && is_forked c.constantinople_block num)

  unfoldable pub is_istanbul : Bool
  is_istanbul = is_forked c.istanbul_block num

  unfoldable pub is_muir_glacier : Bool
  is_muir_glacier = is_forked c.muir_glacier_block num

  unfoldable pub is_berlin : Bool
  is_berlin = is_forked c.berlin_block num

  unfoldable pub is_london : Bool
  is_london = is_forked c.london_block num

  unfoldable pub is_arrow_glacier : Bool
  is_arrow_glacier = is_forked c.arrow_glacier_block num

  unfoldable pub is_gray_glacier : Bool
  is_gray_glacier = is_forked c.gray_glacier_block num

  unfoldable pub is_ramanujan : Bool
  is_ramanujan = is_forked c.ramanujan_block num

  unfoldable pub is_niels : Bool
  is_niels = is_forked c.niels_block num

  unfoldable pub is_mirror_sync : Bool
  is_mirror_sync = is_forked c.mirror_sync_block num

  unfoldable pub is_bruno : Bool
  is_bruno = is_forked c.bruno_block num

  unfoldable pub is_euler : Bool
  is_euler = is_forked c.euler_block num

  unfoldable pub is_gibbs : Bool
  is_gibbs = is_forked c.gibbs_block num

  unfoldable pub is_nano : Bool
  is_nano = is_forked c.nano_block num

  unfoldable pub is_moran : Bool
  is_moran = is_forked c.moran_block num
