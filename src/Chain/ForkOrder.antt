-- ===== src/Chain/ForkOrder.antt =====
-- What `CheckConfigForkOrder` of chain/chain_config.go checks.
use erigon_lib.Base.{
  ℕ, ◌≤◌, ◌≡◌, refl, arith, Bool, true, false, ◌||◌, not, Option, none, some, List, [], ◌∷◌, All,
  Bool-cases, Option-cases, inl, inr,
}
use erigon_lib.Chain.Config.{Config}
use erigon_lib.Chain.Forks.{
  ForkPoint, OrderError, order_pair, is_set, next_last, order_loop, is_sokol,
  check_config_fork_order, fork_points,
}

-- Where the second block is set, the first one is set too, to a block that is no later.
abbrev pub Leads : Option ℕ → Option ℕ → Type 0
Leads a none = Unit
Leads none (some y) = ⊥
Leads (some x) (some y) = x ≤ y

-- A fork that counts, and the forks behind it. One that may be skipped and is not set leads nothing.
abbrev pub counts : ForkPoint → Bool
counts fork = not fork.can_skip || is_set fork.block

abbrev pub LeadsAll : ForkPoint → List ForkPoint → Type 0
LeadsAll fork forks = All (λ (later : ForkPoint). Leads fork.block later.block) forks

abbrev pub IfCounts : Bool → Type 0 → Type 0
IfCounts true P = P
IfCounts false P = Unit

abbrev pub InOrder : List ForkPoint → Type 0
InOrder [] = Unit
InOrder (fork ∷ forks) = IfCounts (counts fork) (LeadsAll fork forks) × InOrder forks

pair_lem :
    (a b : Option ℕ) (last fork : ForkPoint)
    → last.block ≡ a
    → fork.block ≡ b
    → order_pair (some last) fork ≡ none
    → Leads a b
unfolding order_pair
pair_lem a none last fork p q h = tt
pair_lem none (some y) last fork p q h = ground (arith, h)
pair_lem (some x) (some y) last fork p q h = ground (arith, h)

-- A round of the loop that finds nothing.
round :
    (last : Option ForkPoint) (fork : ForkPoint) (forks : List ForkPoint)
    → order_loop last (fork ∷ forks) ≡ none
    → (order_pair last fork ≡ none) × (order_loop (next_last last fork) forks ≡ none)
unfolding order_loop
round last fork forks h = elim (Option-cases (order_pair last fork)) [
  | inl n ↦ (n, rw (n, order_loop) at h)
  | inr (e, n) ↦ absurd (bad e (rw (n, order_loop) at h))
]
  where
    bad : (e : OrderError) → some e ≡ none → ⊥
    bad e q = cc

next_last-counts :
    (last : Option ForkPoint) (fork : ForkPoint)
    → counts fork ≡ true
    → next_last last fork ≡ some fork
unfolding next_last
next_last-counts last fork h = rw (h)

next_last_skipped :
    (last : Option ForkPoint) (fork : ForkPoint) → counts fork ≡ false → next_last last fork ≡ last
unfolding next_last
next_last_skipped last fork h = rw (h)

-- What leads a fork that is set leads what that leads; one that is not set leads nothing.
through :
    (a b : Option ℕ) (forks : List ForkPoint)
    → Leads a b
    → All (λ (later : ForkPoint). Leads b later.block) forks
    → All (λ (later : ForkPoint). Leads a later.block) forks
through a b [] h all = tt
through a b (fork ∷ forks) h all = (one a b fork.block h all.0, through a b forks h all.1)
  where
    one : (a b c : Option ℕ) → Leads a b → Leads b c → Leads a c
    one a b none h k = tt
    one a none (some z) h k = absurd k
    one none (some y) (some z) h k = h
    one (some x) (some y) (some z) h k = omega arith

loop_leads :
    (last : ForkPoint) (forks : List ForkPoint)
    → order_loop (some last) forks ≡ none
    → LeadsAll last forks
loop_leads last [] h = tt
loop_leads last (fork ∷ forks) h =
    let (pair, rest) = round (some last) fork forks h in
    let lead = pair_lem last.block fork.block last fork refl refl pair in
    elim (Bool-cases (counts fork)) [
      | inl yes_ ↦ (
        lead,
        through last.block fork.block forks lead
            (loop_leads fork forks (rw (next_last-counts (some last) fork yes_) at rest)),
      )
      | inr no_ ↦
          (lead, loop_leads last forks (rw (next_last_skipped (some last) fork no_) at rest))
    ]

loop-InOrder :
    (last : Option ForkPoint) (forks : List ForkPoint)
    → order_loop last forks ≡ none
    → InOrder forks
loop-InOrder last [] h = tt
loop-InOrder last (fork ∷ forks) h =
    let (pair, rest) = round last fork forks h in
    (counted rest, loop-InOrder (next_last last fork) forks rest)
  where
    counted :
        order_loop (next_last last fork) forks ≡ none → IfCounts (counts fork) (LeadsAll fork forks)
    counted rest = elim (Bool-cases (counts fork)) [
      | inl yes_ ↦ rw yes_ (loop_leads fork forks (rw (next_last-counts last fork yes_) at rest))
      | inr no_ ↦ rw no_ tt
    ]

-- Where `CheckConfigForkOrder` finds nothing, and the chain is not the one of id 77 that it does not
-- check, each fork that is set or may not be skipped leads every fork behind it: a later fork is set
-- only if that one is, and to no earlier block.
pub check_config_fork_order-InOrder :
    (c : Config)
    → is_sokol c.chain_id ≡ false
    → check_config_fork_order c ≡ none
    → InOrder (fork_points c)
unfolding check_config_fork_order
check_config_fork_order-InOrder c other h = loop-InOrder none (fork_points c) (rw (other) at h)
