-- ===== src/Chain/Agree.antt =====
-- On what two configurations agree between which `checkCompatible` of chain/chain_config.go finds
-- nothing.
use erigon_lib.Base.{ℕ, ◌≤◌, ◌≡◌, refl, arith, true, false, Option, none, some, List, [], ◌∷◌, All}
use erigon_lib.Chain.Config.{
  Config, Guard, first_error, guards, is_forked, num_equal, incompatible, check_compatible_at,
}

first_error-none : (gs : List Guard) → first_error gs ≡ none → All (λ g. g.0 ≡ false) gs
first_error-none [] q = tt
first_error-none ((true, x) ∷ gs) q = cc
first_error-none ((false, x) ∷ gs) q = (refl, first_error-none gs q)

same_forked :
    (a b : Option ℕ) (head n : ℕ)
    → n ≤ head
    → incompatible a b head ≡ false
    → is_forked a n ≡ is_forked b n
unfolding incompatible is_forked num_equal
same_forked none none head n le h = refl
same_forked none (some y) head n le h = ground arith
same_forked (some x) none head n le h = ground arith
same_forked (some x) (some y) head n le h = ground arith

module _ (c new : Config) where
  -- The forks that the guards compare, but Petersburg, which has an exception.
  abbrev pub compared : List (Option ℕ × Option ℕ)
  compared =
      (c.homestead_block, new.homestead_block)
      ∷ (c.dao_fork_block, new.dao_fork_block)
      ∷ (c.tangerine_whistle_block, new.tangerine_whistle_block)
      ∷ (c.spurious_dragon_block, new.spurious_dragon_block)
      ∷ (c.byzantium_block, new.byzantium_block)
      ∷ (c.constantinople_block, new.constantinople_block)
      ∷ (c.istanbul_block, new.istanbul_block)
      ∷ (c.muir_glacier_block, new.muir_glacier_block)
      ∷ (c.berlin_block, new.berlin_block)
      ∷ (c.london_block, new.london_block)
      ∷ (c.arrow_glacier_block, new.arrow_glacier_block)
      ∷ (c.gray_glacier_block, new.gray_glacier_block)
      ∷ (c.merge_netsplit_block, new.merge_netsplit_block)
      ∷ (c.ramanujan_block, new.ramanujan_block)
      ∷ (c.niels_block, new.niels_block)
      ∷ (c.mirror_sync_block, new.mirror_sync_block)
      ∷ (c.bruno_block, new.bruno_block)
      ∷ (c.euler_block, new.euler_block)
      ∷ (c.gibbs_block, new.gibbs_block)
      ∷ (c.nano_block, new.nano_block)
      ∷ (c.moran_block, new.moran_block)
      ∷ []

  -- Where `checkCompatible` finds nothing at a head, the two configurations agree at all blocks up
  -- to that head on whether each of the 21 forks by block from Homestead to Moran that it compares
  -- with no exception is active. Petersburg, Posdao, the fee collector's transition and the forks
  -- by time are not among these.
  pub check_compatible_at-same :
      (head n : ℕ)
      → check_compatible_at c new head ≡ none
      → n ≤ head
      → All (λ p. is_forked p.0 n ≡ is_forked p.1 n) compared
  unfolding check_compatible_at guards
  check_compatible_at-same head n q le =
      let h = first_error-none (guards c new head) q in
      (
        same_forked c.homestead_block new.homestead_block head n le h.0,
        (
          same_forked c.dao_fork_block new.dao_fork_block head n le h.1.0,
          (
            same_forked c.tangerine_whistle_block new.tangerine_whistle_block head n le h.1.1.1.0,
            (
              same_forked c.spurious_dragon_block new.spurious_dragon_block head n le h.1.1.1.1.0,
              (
                same_forked c.byzantium_block new.byzantium_block head n le h.1.1.1.1.1.1.0,
                (
                  same_forked c.constantinople_block new.constantinople_block head n le
                      h.1.1.1.1.1.1.1.0,
                  (
                    same_forked c.istanbul_block new.istanbul_block head n le h.1.1.1.1.1.1.1.1.1.0,
                    (
                      same_forked c.muir_glacier_block new.muir_glacier_block head n le
                          h.1.1.1.1.1.1.1.1.1.1.0,
                      (
                        same_forked c.berlin_block new.berlin_block head n le
                            h.1.1.1.1.1.1.1.1.1.1.1.0,
                        (
                          same_forked c.london_block new.london_block head n le
                              h.1.1.1.1.1.1.1.1.1.1.1.1.0,
                          (
                            same_forked c.arrow_glacier_block new.arrow_glacier_block head n le
                                h.1.1.1.1.1.1.1.1.1.1.1.1.1.0,
                            (
                              same_forked c.gray_glacier_block new.gray_glacier_block head n le
                                  h.1.1.1.1.1.1.1.1.1.1.1.1.1.1.0,
                              (
                                same_forked c.merge_netsplit_block new.merge_netsplit_block head n
                                    le h.1.1.1.1.1.1.1.1.1.1.1.1.1.1.1.0,
                                (
                                  same_forked c.ramanujan_block new.ramanujan_block head n le
                                      h.1.1.1.1.1.1.1.1.1.1.1.1.1.1.1.1.0,
                                  (
                                    same_forked c.niels_block new.niels_block head n le
                                        h.1.1.1.1.1.1.1.1.1.1.1.1.1.1.1.1.1.0,
                                    (
                                      same_forked c.mirror_sync_block new.mirror_sync_block head n
                                          le h.1.1.1.1.1.1.1.1.1.1.1.1.1.1.1.1.1.1.0,
                                      (
                                        same_forked c.bruno_block new.bruno_block head n le
                                            h.1.1.1.1.1.1.1.1.1.1.1.1.1.1.1.1.1.1.1.0,
                                        (
                                          same_forked c.euler_block new.euler_block head n le
                                              h.1.1.1.1.1.1.1.1.1.1.1.1.1.1.1.1.1.1.1.1.0,
                                          (
                                            same_forked c.gibbs_block new.gibbs_block head n le
                                                h.1.1.1.1.1.1.1.1.1.1.1.1.1.1.1.1.1.1.1.1.1.0,
                                            (
                                              same_forked c.nano_block new.nano_block head n le
                                                  h.1.1.1.1.1.1.1.1.1.1.1.1.1.1.1.1.1.1.1.1.1.1.0,
                                              (
                                                same_forked c.moran_block new.moran_block head n le
                                                    h.1.1.1.1.1.1.1.1.1.1.1.1.1.1.1.1.1.1.1.1.1.1.1.0,
                                                tt,
                                              ),
                                            ),
                                          ),
                                        ),
                                      ),
                                    ),
                                  ),
                                ),
                              ),
                            ),
                          ),
                        ),
                      ),
                    ),
                  ),
                ),
              ),
            ),
          ),
        ),
      )
