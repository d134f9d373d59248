-- ===== src/Api/Search/Lost.antt =====
-- What is lost when a search fails.
use terra_worker.Prelude.{◌≡◌, refl, List, [], ◌∷◌, ◌++◌}
use terra_worker.Go.Outcome.{GoError, Outcome, ok, err, panic, ◌>>=◌}
use terra_worker.Api.Search.{
  ToGet, SearchNode, search_tx_singular_height, or_nothing, singular_height_worker,
}

bind_ok {ℓ} : {A : Type ℓ} (o : Outcome A) → (o >>= λ a. ok a) ≡ o
bind_ok (ok a) = refl
bind_ok (err e) = refl
bind_ok panic = refl

module _ (node : SearchNode) where
  -- A page whose search fails leaves no trace: SingularHeightWorker gives what it gives without
  -- that page.
  singular_height_worker_drops :
      (gets : List ToGet) (current : ToGet) (later : List ToGet) (e : GoError)
      → search_tx_singular_height node current ≡ err e
      → singular_height_worker node (gets ++ current ∷ later)
        ≡ singular_height_worker node (gets ++ later)
  unfolding singular_height_worker or_nothing
  singular_height_worker_drops [] current later e h =
      rw h (bind_ok (singular_height_worker node later))
  singular_height_worker_drops (g ∷ gets) current later e h =
      rw (singular_height_worker_drops gets current later e h) refl
