-- ===== src/TxPool/Sender.antt =====
-- `onSenderStateChange` of txpool/pool.go: the marks of one sender's transactions. Which sub-pool holds
-- a transaction is its field `currentSubPool`; the order of the heaps, which `Updated` mends, is not
-- read by this function.
use erigon_lib.Base.{
  ℕ, ◌+◌, ◌-◌, ◌*◌, ◌%◌, ◌^◌, Bool, true, false, ◌&&◌, List, [], ◌∷◌, ltb, leb, ◌==◌, if◌then◌else◌,
}

-- The six bits of a `SubPoolMarker`, the highest one first.
pub record SubPoolMarker : Type 0 where
  pub enough_fee_cap_protocol : Bool
  pub no_nonce_gaps : Bool
  pub enough_balance : Bool
  pub not_too_much_gas : Bool
  pub enough_fee_cap_block : Bool
  pub is_local : Bool

-- The marker 0.
abbrev pub no_bits : SubPoolMarker
no_bits = record {
  enough_fee_cap_protocol = false;
  no_nonce_gaps = false;
  enough_balance = false;
  not_too_much_gas = false;
  enough_fee_cap_block = false;
  is_local = false;
}

-- `no_sub_pool` is 0, of a transaction that was removed.
pub data SubPoolType : Type 0 where
  no_sub_pool : SubPoolType
  pending_sub_pool : SubPoolType
  base_fee_sub_pool : SubPoolType
  queued_sub_pool : SubPoolType

-- `metaTx` with the fields of its `TxSlot` that are read here.
pub record MetaTx : Type 0 where
  pub nonce : ℕ
  pub gas : ℕ
  pub fee_cap : ℕ
  pub tip : ℕ
  pub value : ℕ
  pub min_fee_cap : ℕ
  pub min_tip : ℕ
  pub nonce_distance : ℕ
  pub cumulative_balance_distance : ℕ
  pub sub_pool : SubPoolMarker
  pub current_sub_pool : SubPoolType
  pub timestamp : ℕ

-- The arguments that stay the same in the loop.
pub record SenderState : Type 0 where
  pub sender_nonce : ℕ
  pub sender_balance : ℕ
  pub protocol_base_fee : ℕ
  pub block_gas_limit : ℕ

-- The variables of the loop: `noGapsNonce`, `cumulativeRequiredBalance`, `minFeeCap`, `minTip`.
pub record Totals : Type 0 where
  pub no_gaps_nonce : ℕ
  pub required : ℕ
  pub cap : ℕ
  pub least_tip : ℕ

abbrev pub start : SenderState → Totals
start env = record {
  no_gaps_nonce = env.sender_nonce;
  required = 0;
  cap = 2 ^ 256 - 1;
  least_tip = 2 ^ 64 - 1;
}

-- `needBalance`, in 256 bits.
unfoldable pub need_balance : MetaTx → ℕ
need_balance mt = ((mt.gas * mt.fee_cap) % 2 ^ 256 + mt.value) % 2 ^ 256

-- `minFeeCap`, `minTip` and `cumulativeRequiredBalance` with the transaction.
abbrev pub cap_with : Totals → MetaTx → ℕ
cap_with s mt = if ltb mt.fee_cap s.cap then mt.fee_cap else s.cap

abbrev pub tip_with : Totals → MetaTx → ℕ
tip_with s mt =
    if ltb mt.tip (2 ^ 64)
    then (if leb s.least_tip mt.tip then s.least_tip else mt.tip)
    else s.least_tip

abbrev pub required_with : Totals → MetaTx → ℕ
required_with s mt = (s.required + need_balance mt) % 2 ^ 256

-- `pending.Remove(mt)` and its like.
abbrev pub remove : MetaTx → MetaTx
remove mt = record mt { current_sub_pool = no_sub_pool }

module _ (env : SenderState) where
  unfoldable pub balance_distance : ℕ → ℕ
  balance_distance required =
      if leb required env.sender_balance
      then 2 ^ 64 - 1
      else if ltb required (2 ^ 64) && ltb env.sender_balance (2 ^ 64)
      then required - env.sender_balance
      else 2 ^ 64 - 1

  -- The bits of a transaction that meets the protocol's fee.
  unfoldable pub bits : Totals → MetaTx → SubPoolMarker
  bits s mt = record mt.sub_pool {
    enough_fee_cap_protocol = true;
    no_nonce_gaps = s.no_gaps_nonce == mt.nonce;
    enough_balance = leb (required_with s mt) env.sender_balance;
    not_too_much_gas = ltb mt.gas env.block_gas_limit;
  }

  -- A round of the loop: the transaction, and then the variables.
  unfoldable pub mark : Totals → MetaTx → MetaTx
  unfolding bits balance_distance
  mark s mt =
      let mt1 = record mt {
        min_fee_cap = cap_with s mt;
        min_tip = tip_with s mt;
        nonce_distance = if ltb env.sender_nonce mt.nonce then mt.nonce - env.sender_nonce else 0;
      } in
      if leb env.protocol_base_fee (cap_with s mt)
      then record mt1 {
        sub_pool = bits s mt;
        cumulative_balance_distance = balance_distance (required_with s mt);
      }
      else record mt1 { sub_pool = no_bits }

  unfoldable pub tally : Totals → MetaTx → Totals
  tally s mt =
      let s1 = record s { cap = cap_with s mt; least_tip = tip_with s mt } in
      if leb env.protocol_base_fee (cap_with s mt)
      then record s1 {
        no_gaps_nonce =
            if s.no_gaps_nonce == mt.nonce then (s.no_gaps_nonce + 1) % 2 ^ 64 else s.no_gaps_nonce;
        required = required_with s mt;
      }
      else s1

  -- The transactions that stay, and `toDel`.
  unfoldable pub sender_loop : Totals → List MetaTx → List MetaTx × List MetaTx
  sender_loop s [] = ([], [])
  sender_loop s (mt ∷ mts) =
      let low = sender_loop s mts in
      let high = sender_loop (tally s mt) mts in
      if ltb mt.nonce env.sender_nonce
      then (low.0, remove mt ∷ low.1)
      else (mark s mt ∷ high.0, high.1)

  -- The transactions of the sender in the order of their nonces. Those of the second list are then
  -- discarded with `NonceTooLow`.
  unfoldable pub on_sender_state_change : List MetaTx → List MetaTx × List MetaTx
  on_sender_state_change mts = sender_loop (start env) mts
