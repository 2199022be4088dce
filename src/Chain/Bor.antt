-- ===== src/Chain/Bor.antt =====
-- chain/chain_config.go: the schedules of `BorConfig`, maps from the text of a block's number to a value.
pub mod Laws
use erigon_lib.Base.{
  ℕ, ◌+◌, ◌-◌, ◌*◌, ◌^◌, Bool, true, false, ◌&&◌, Option, none, some, List, [], ◌∷◌, map, leb, ltb,
  if◌then◌else◌,
}
use erigon_lib.Iter.Order.{bytes_lt, bytes_eq}
use erigon_lib.Etl.Sorting.{stable_sort}
use erigon_lib.Chain.Config.{is_forked}

-- The pairs of a map, in any order.
abbrev pub Schedule : Type 0
Schedule = List (List ℕ × ℕ)

pub record BorConfig : Type 0 where
  pub period : Schedule
  pub producer_delay : Schedule
  pub sprint : Schedule
  pub backup_multiplier : Schedule
  pub jaipur_block : Option ℕ
  pub delhi_block : Option ℕ

-- `strconv.ParseUint(s, 10, 64)` without its error: 0 where a character is no digit, the greatest number
-- where the text is of a greater one.
unfoldable pub digits_from : ℕ → List ℕ → ℕ
digits_from n [] = n
digits_from n (c ∷ cs) =
    let rest = digits_from (10 * n + (c - 48)) cs in
    if leb 48 c && leb c 57
    then (if leb (2 ^ 64) (10 * n + (c - 48)) then 2 ^ 64 - 1 else rest)
    else 0

unfoldable pub parse_uint : List ℕ → ℕ
unfolding digits_from
parse_uint text = digits_from 0 text

unfoldable pub sort_map_keys : Schedule → List (List ℕ)
sort_map_keys m = stable_sort bytes_lt (map (λ (e : List ℕ × ℕ). e.0) m)

-- A key that is missing has 0.
abbrev pub value_of : List ℕ → Schedule → ℕ
value_of k [] = 0
value_of k (e ∷ m) = let rest = value_of k m in if bytes_eq e.0 k then e.1 else rest

-- The loop of both functions. `none` is the panic of an empty map.
unfoldable pub scheduled : (ℕ → ℕ → Bool) → Schedule → List (List ℕ) → Option ℕ
scheduled within field [] = none
scheduled within field (k ∷ []) = some (value_of k field)
scheduled within field (k ∷ k' ∷ ks) =
    let rest = scheduled within field (k' ∷ ks) in
    if within (parse_uint k) (parse_uint k') then some (value_of k field) else rest

unfoldable pub calc_config : Schedule → ℕ → Option ℕ
unfolding scheduled sort_map_keys
calc_config field number =
    scheduled (λ val next. ltb val number && ltb number next) field (sort_map_keys field)

unfoldable pub sprint_size : Schedule → ℕ → Option ℕ
unfolding scheduled sort_map_keys
sprint_size field number =
    scheduled (λ val next. leb val number && ltb number next) field (sort_map_keys field)

module _ (c : BorConfig) (number : ℕ) where
  unfoldable pub calculate_producer_delay : Option ℕ
  unfolding sprint_size
  calculate_producer_delay = sprint_size c.producer_delay number

  unfoldable pub calculate_sprint : Option ℕ
  unfolding sprint_size
  calculate_sprint = sprint_size c.sprint number

  unfoldable pub calculate_backup_multiplier : Option ℕ
  unfolding calc_config
  calculate_backup_multiplier = calc_config c.backup_multiplier number

  unfoldable pub calculate_period : Option ℕ
  unfolding calc_config
  calculate_period = calc_config c.period number

  unfoldable pub is_jaipur : Bool
  is_jaipur = is_forked c.jaipur_block number

  unfoldable pub is_delhi : Bool
  is_delhi = is_forked c.delhi_block number
