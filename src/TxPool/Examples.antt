-- ===== src/TxPool/Examples.antt =====
-- Runs of the rules of txpool/pool.go on a few transactions.
use erigon_lib.Base.{
  ℕ, ◌≡◌, refl, arith, ◌≤◌, true, false, Option, some, List, [], ◌∷◌, length, map,
}
use erigon_lib.TxPool.Promote.{SubPool, Pools, promote}
use erigon_lib.TxPool.Promote.Placed.{Held, Placed, weighed}
use erigon_lib.TxPool.Promote.Picks.{Pending, BaseFee, Queued}
use erigon_lib.TxPool.Promote.Select.{select, select-Picks, worse-IsPoolOrder, better-IsPoolOrder}
use erigon_lib.TxPool.Promote.Laws.{promote-Placed}
use erigon_lib.TxPool.Gas.{calc_intrinsic_gas, fits64, exact_gas, calc_intrinsic_gas-fits64}
use erigon_lib.TxPool.Sender.{
  MetaTx, SenderState, SubPoolType, no_bits, pending_sub_pool, base_fee_sub_pool, queued_sub_pool,
  need_balance, remove, on_sender_state_change,
}
use erigon_lib.TxPool.SenderLaws.{AllMarked, from_nonce, below_nonce, on_sender_state_change-Marked}
use erigon_lib.TxPool.Queue.{better, worse, marker_at, effective_tip, better_in}
use erigon_lib.TxPool.Ranks.{better_trans}

calc_intrinsic_gas-fits64_example :
    calc_intrinsic_gas 10 4 (some (2 ∷ [])) true true true true
    ≡ fits64 (exact_gas 10 4 (some (2 ∷ [])) true true true true)
calc_intrinsic_gas-fits64_example =
    calc_intrinsic_gas-fits64 10 4 (some (2 ∷ [])) true true true true (omega arith) (omega arith)

-- A transaction of the pending sub-pool with a nonce and a time.
abbrev tx : ℕ → ℕ → MetaTx
tx nonce time = record {
  nonce = nonce;
  gas = 21000;
  fee_cap = 10;
  tip = 2;
  value = 5;
  min_fee_cap = 10;
  min_tip = 2;
  nonce_distance = 0;
  cumulative_balance_distance = 0;
  sub_pool = no_bits;
  current_sub_pool = pending_sub_pool;
  timestamp = time;
}

abbrev queued : ℕ → ℕ → MetaTx
queued nonce time = record (tx nonce time) { current_sub_pool = queued_sub_pool }

abbrev env : SenderState
env = record {
  sender_nonce = 5;
  sender_balance = 300000;
  protocol_base_fee = 7;
  block_gas_limit = 30000000;
}

-- One below the sender's nonce, the next one, and one behind a gap.
abbrev three : List MetaTx
three = tx 4 1 ∷ tx 5 2 ∷ tx 7 3 ∷ []

on_sender_state_change-Marked_example :
    AllMarked env [] (from_nonce env three) (on_sender_state_change env three).0
    × ((on_sender_state_change env three).1 ≡ map remove (below_nonce env three))
unfolding need_balance
on_sender_state_change-Marked_example =
    on_sender_state_change-Marked env three
      (omega arith, omega arith, (omega arith, omega arith, (omega arith, omega arith, tt)))
      (omega arith)

better_trans_example : (better (tx 5 1) (tx 5 3) 7 ≡ true) × (better (tx 5 3) (tx 5 1) 7 ≡ false)
unfolding better marker_at effective_tip better_in
better_trans_example =
    better_trans 7 (tx 5 1) (tx 5 2) (tx 5 3)
      (omega arith, omega arith, omega arith, omega arith, omega arith)
      (omega arith, omega arith, omega arith, omega arith, omega arith)
      (omega arith, omega arith, omega arith, omega arith, omega arith) refl refl refl refl

-- A transaction with all bits of the base-fee sub-pool, one with the protocol's bit, and one with none.
abbrev fit : SubPoolType → MetaTx
fit t = record (tx 5 1) {
  current_sub_pool = t;
  sub_pool = record no_bits {
    enough_fee_cap_protocol = true;
    no_nonce_gaps = true;
    enough_balance = true;
    not_too_much_gas = true;
  };
}

abbrev gapped : MetaTx
gapped = record (tx 7 2) { sub_pool = record no_bits { enough_fee_cap_protocol = true } }

abbrev unfit : MetaTx
unfit = record (tx 8 3) { current_sub_pool = queued_sub_pool }

abbrev pool_of : SubPoolType → ℕ → List MetaTx → SubPool
pool_of t limit txs = record {
  txs = txs;
  limit = limit;
  sub_pool_type = t;
  adding = false;
  added = [];
}

abbrev pools : Pools
pools = record {
  pending = pool_of pending_sub_pool 1 (gapped ∷ fit pending_sub_pool ∷ []);
  base_fee = pool_of base_fee_sub_pool 4 (fit base_fee_sub_pool ∷ []);
  queued = pool_of queued_sub_pool 4 (unfit ∷ []);
  discarded = [];
}

abbrev everything : List MetaTx
everything = gapped ∷ fit pending_sub_pool ∷ fit base_fee_sub_pool ∷ unfit ∷ []

pools-Placed :
    Placed everything
      (1, 4, 4)
      (Held pending_sub_pool)
      (Held base_fee_sub_pool)
      (Held queued_sub_pool)
      []
      pools
pools-Placed = record {
  in_pending = (
    (refl, (omega arith, omega arith, omega arith, omega arith, omega arith), refl),
    ((refl, (omega arith, omega arith, omega arith, omega arith, omega arith), refl), tt),
  );
  in_base_fee =
      ((refl, (omega arith, omega arith, omega arith, omega arith, omega arith), refl), tt);
  in_queued = ((refl, (omega arith, omega arith, omega arith, omega arith, omega arith), refl), tt);
  pending_type = refl;
  base_fee_type = refl;
  queued_type = refl;
  pending_limit = refl;
  base_fee_limit = refl;
  queued_limit = refl;
  count = refl;
  kept = λ f. omega arith;
}

abbrev worst_of : List MetaTx → Option (MetaTx × List MetaTx)
worst_of = select (λ x y. worse x y 7)

abbrev best_of : List MetaTx → Option (MetaTx × List MetaTx)
best_of = select (λ x y. better x y 7)

promote-Placed_example :
    (s' : Pools) × (promote worst_of best_of 7 5 pools ≡ some s')
    × Placed everything (1, 4, 4) (Pending 7) (BaseFee 7) Queued [] s'
    × (length s'.pending.txs ≤ 1)
    × (length s'.base_fee.txs ≤ 4)
    × (length s'.queued.txs ≤ 4)
    × ((f : MetaTx → ℕ) → weighed f s' ≡ weighed f pools)
promote-Placed_example =
    promote-Placed worst_of best_of 7 (select-Picks (λ x y. worse x y 7) (worse-IsPoolOrder 7))
      (select-Picks (λ x y. better x y 7) (better-IsPoolOrder 7)) everything (1, 4, 4) 5 pools
      (omega arith) pools-Placed
