-- ===== src/Client/Heights/Examples.antt =====
-- `getStartingHeight` at a few inputs, and its theorems applied.
use terra_worker.Prelude.{◌-◌, ◌<◌, ◌≡◌, refl, inl, arith, two64}
use terra_worker.Client.Heights.{get_starting_height}
use terra_worker.Client.Heights.Bounds.{get_starting_height-eq-max, get_starting_height_wraps}

first_fetch : get_starting_height 0 10000 4500000 ≡ 4490000
unfolding get_starting_height
first_fetch = refl

short_chain : get_starting_height 0 10000 200 ≡ 18446744073709541816
unfolding get_starting_height
short_chain = refl

get_starting_height-eq-max_example : get_starting_height 4499000 10000 4500000 ≡ 4499000
get_starting_height-eq-max_example =
    get_starting_height-eq-max 4499000 10000 4500000 (omega arith) (omega arith) (omega arith)
      (inl (omega arith))

get_starting_height_wraps_example :
    (get_starting_height 0 10000 200 ≡ two64 - (10000 - 200))
    × (200 < get_starting_height 0 10000 200)
get_starting_height_wraps_example = get_starting_height_wraps 10000 200 (omega arith) (omega arith)
