-- ===== src/Client/Heights.antt =====
-- `getStartingHeight` of client/client.go: the height from which the latest data is fetched.
pub mod Bounds
mod Examples
use terra_worker.Prelude.{ℕ, ltb, ◌==◌, sub64, if◌then◌else◌}

-- Both subtractions are on uint64, so they wrap around.
unfoldable pub get_starting_height : ℕ → ℕ → ℕ → ℕ
unfolding sub64
get_starting_height last_height maximum_heights_to_get block_height_from_chain =
    let last_x = sub64 block_height_from_chain maximum_heights_to_get in
    let rest =
      if ltb maximum_heights_to_get (sub64 block_height_from_chain last_height)
      then (if ltb block_height_from_chain maximum_heights_to_get
          then 0
          else sub64 block_height_from_chain maximum_heights_to_get)
      else last_height in
    if last_height == 0 then (if ltb 0 last_x then last_x else rest) else rest
