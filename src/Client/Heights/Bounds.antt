-- ===== src/Client/Heights/Bounds.antt =====
-- What `getStartingHeight` returns, in each of the cases that its callers meet.
use Prim.Native.Nat.{max}
use terra_worker.Prelude.{ℕ, ◌+◌, ◌-◌, ◌≤◌, ◌<◌, ◌≡◌, ◌≢◌, ◌⊎◌, arith, two64}
use terra_worker.Client.Heights.{get_starting_height}

-- For a last height not above the chain's, and a chain that has the allowed number of heights
-- unless something was fetched before, the result is the later of the last height and the chain's
-- height less the allowed number of heights (which is 0 where the chain is shorter than that).
pub get_starting_height-eq-max :
    (last limit chain : ℕ)
    → chain < two64
    → limit < two64
    → last ≤ chain
    → (limit ≤ chain) ⊎ (last ≢ 0)
    → get_starting_height last limit chain ≡ max last (chain - limit)
unfolding get_starting_height
get_starting_height-eq-max last limit chain hc hl hs h = ground arith

-- When nothing was fetched before and the chain is shorter than the allowed number of heights, the
-- subtraction wraps around: the result is not 0 but 2^64 less what is missing, above the chain.
pub get_starting_height_wraps :
    (limit chain : ℕ)
    → limit < two64
    → chain < limit
    → (get_starting_height 0 limit chain ≡ two64 - (limit - chain))
      × (chain < get_starting_height 0 limit chain)
unfolding get_starting_height
get_starting_height_wraps limit chain hl h = ground arith

-- When the last height is above the chain's (a chain that was reset), by less than 2^64 less the
-- allowed number of heights, the result is the chain's height less that number, or 0.
get_starting_height_reset :
    (last limit chain : ℕ)
    → last < two64
    → chain < last
    → limit + (last - chain) < two64
    → get_starting_height last limit chain ≡ chain - limit
unfolding get_starting_height
get_starting_height_reset last limit chain hl hc h = ground arith
