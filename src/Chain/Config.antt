-- ===== src/Chain/Config.antt =====
-- chain/chain_config.go: the forks of a chain. A `*big.Int` is an optional number that is not negative.
use erigon_lib.Base.{
  ℕ, zero, suc, ◌+◌, ◌-◌, ◌%◌, ◌^◌, Bool, true, false, ◌&&◌, ◌||◌, not, Option, none, some, List,
  [], ◌∷◌, ltb, leb, ◌==◌, if◌then◌else◌,
}

-- `Config`, the fields that the fork rules read; of the engines `Aura` and `Parlia`, whether they are set.
pub record Config : Type 0 where
  pub chain_id : Option ℕ
  pub dao_fork_support : Bool
  pub homestead_block : Option ℕ
  pub dao_fork_block : Option ℕ
  pub tangerine_whistle_block : Option ℕ
  pub spurious_dragon_block : Option ℕ
  pub byzantium_block : Option ℕ
  pub constantinople_block : Option ℕ
  pub petersburg_block : Option ℕ
  pub istanbul_block : Option ℕ
  pub muir_glacier_block : Option ℕ
  pub berlin_block : Option ℕ
  pub london_block : Option ℕ
  pub arrow_glacier_block : Option ℕ
  pub gray_glacier_block : Option ℕ
  pub merge_netsplit_block : Option ℕ
  pub ramanujan_block : Option ℕ
  pub niels_block : Option ℕ
  pub mirror_sync_block : Option ℕ
  pub bruno_block : Option ℕ
  pub euler_block : Option ℕ
  pub gibbs_block : Option ℕ
  pub nano_block : Option ℕ
  pub moran_block : Option ℕ
  pub posdao_block : Option ℕ
  pub shanghai_time : Option ℕ
  pub cancun_time : Option ℕ
  pub sharding_fork_time : Option ℕ
  pub eip1559_fee_collector : Option (List ℕ)
  pub eip1559_fee_collector_transition : Option ℕ
  pub has_aura : Bool
  pub has_parlia : Bool

-- What an error is about, the `what` of `newCompatError` and the names of `forkPoints`.
pub data Fork : Type 0 where
  homestead_fork : Fork
  dao_fork : Fork
  tangerine_whistle_fork : Fork
  spurious_dragon_fork : Fork
  byzantium_fork : Fork
  constantinople_fork : Fork
  petersburg_fork : Fork
  istanbul_fork : Fork
  muir_glacier_fork : Fork
  berlin_fork : Fork
  london_fork : Fork
  arrow_glacier_fork : Fork
  gray_glacier_fork : Fork
  merge_netsplit_fork : Fork
  ramanujan_fork : Fork
  niels_fork : Fork
  mirror_sync_fork : Fork
  bruno_fork : Fork
  euler_fork : Fork
  gibbs_fork : Fork
  nano_fork : Fork
  moran_fork : Fork
  dao_support_flag : Fork
  eip155_chain_id : Fork

unfoldable pub is_forked : Option ℕ → ℕ → Bool
is_forked none head = false
is_forked (some s) head = leb (s % 2 ^ 64) head

unfoldable pub num_equal : Option ℕ → Option ℕ → Bool
num_equal none none = true
num_equal none (some y) = false
num_equal (some x) none = false
num_equal (some x) (some y) = x == y

pub record ConfigCompatError : Type 0 where
  pub what : Fork
  pub stored_config : Option ℕ
  pub new_config : Option ℕ
  pub rewind_to : ℕ

-- `rew`
unfoldable pub rewind_block : Option ℕ → Option ℕ → Option ℕ
rewind_block none new = new
rewind_block (some stored) none = some stored
rewind_block (some stored) (some new) = if ltb stored new then some stored else some new

unfoldable pub rewind_before : Option ℕ → ℕ
rewind_before none = 0
rewind_before (some rew) = if ltb 0 rew then (rew % 2 ^ 64 + (2 ^ 64 - 1)) % 2 ^ 64 else 0

unfoldable pub new_compat_error : Fork → Option ℕ → Option ℕ → ConfigCompatError
unfolding rewind_block rewind_before
new_compat_error what stored new = record {
  what = what;
  stored_config = stored;
  new_config = new;
  rewind_to = rewind_before (rewind_block stored new);
}

-- The first guard of a sequence that holds, with what it returns.
abbrev pub Guard : Type 0
Guard = Bool × ConfigCompatError

abbrev pub first_error : List Guard → Option ConfigCompatError
first_error [] = none
first_error ((holds, e) ∷ guards) = let rest = first_error guards in if holds then some e else rest

-- `if incompatible(stored, new, head) { return newCompatError(what, stored, new) }`
unfoldable pub incompatible : Option ℕ → Option ℕ → ℕ → Bool
unfolding is_forked num_equal
incompatible s1 s2 head = (is_forked s1 head || is_forked s2 head) && not (num_equal s1 s2)

abbrev pub guard : Fork → Option ℕ → Option ℕ → ℕ → Guard
guard what stored new head = (incompatible stored new head, new_compat_error what stored new)

abbrev pub same_flag : Bool → Bool → Bool
same_flag true b = b
same_flag false b = not b

module _ (c new : Config) where
  -- The guards of `checkCompatible` in their order.
  unfoldable pub guards : ℕ → List Guard
  guards head =
      guard homestead_fork c.homestead_block new.homestead_block head
      ∷ guard dao_fork c.dao_fork_block new.dao_fork_block head
      ∷ (
        is_forked c.dao_fork_block head && not (same_flag c.dao_fork_support new.dao_fork_support),
        new_compat_error dao_support_flag c.dao_fork_block new.dao_fork_block,
      )
      ∷ guard tangerine_whistle_fork c.tangerine_whistle_block new.tangerine_whistle_block head
      ∷ guard spurious_dragon_fork c.spurious_dragon_block new.spurious_dragon_block head
      ∷ (
        is_forked c.spurious_dragon_block head && not (num_equal c.chain_id new.chain_id),
        new_compat_error eip155_chain_id c.spurious_dragon_block new.spurious_dragon_block,
      )
      ∷ guard byzantium_fork c.byzantium_block new.byzantium_block head
      ∷ guard constantinople_fork c.constantinople_block new.constantinople_block head
      ∷ (
        incompatible c.petersburg_block new.petersburg_block head
            && incompatible c.constantinople_block new.petersburg_block head,
        new_compat_error petersburg_fork c.petersburg_block new.petersburg_block,
      )
      ∷ guard istanbul_fork c.istanbul_block new.istanbul_block head
      ∷ guard muir_glacier_fork c.muir_glacier_block new.muir_glacier_block head
      ∷ guard berlin_fork c.berlin_block new.berlin_block head
      ∷ guard london_fork c.london_block new.london_block head
      ∷ guard arrow_glacier_fork c.arrow_glacier_block new.arrow_glacier_block head
      ∷ guard gray_glacier_fork c.gray_glacier_block new.gray_glacier_block head
      ∷ guard merge_netsplit_fork c.merge_netsplit_block new.merge_netsplit_block head
      ∷ guard ramanujan_fork c.ramanujan_block new.ramanujan_block head
      ∷ guard niels_fork c.niels_block new.niels_block head
      ∷ guard mirror_sync_fork c.mirror_sync_block new.mirror_sync_block head
      ∷ guard bruno_fork c.bruno_block new.bruno_block head
      ∷ guard euler_fork c.euler_block new.euler_block head
      ∷ guard gibbs_fork c.gibbs_block new.gibbs_block head
      ∷ guard nano_fork c.nano_block new.nano_block head
      ∷ guard moran_fork c.moran_block new.moran_block head
      ∷ []

  unfoldable pub check_compatible_at : ℕ → Option ConfigCompatError
  check_compatible_at head = first_error (guards head)

  -- `lasterr != nil && err.RewindTo == lasterr.RewindTo`
  abbrev pub same_rewind : Option ConfigCompatError → ConfigCompatError → Bool
  same_rewind none e = false
  same_rewind (some last) e = e.rewind_to == last.rewind_to

  -- The loop of `CheckCompatible`, a round for each unit of fuel.
  unfoldable pub compat_loop : ℕ → Option ConfigCompatError → ℕ → Option (Option ConfigCompatError)
  compat_loop zero last head = none
  compat_loop (suc fuel) last head = elim (check_compatible_at head) [
    | none ↦ some last
    | some e ↦ elim (same_rewind last e) [
      | true ↦ some last
      | false ↦ compat_loop fuel (some e) e.rewind_to
    ]
  ]

  unfoldable pub check_compatible : ℕ → ℕ → Option (Option ConfigCompatError)
  check_compatible fuel height = compat_loop fuel none height
