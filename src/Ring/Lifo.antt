-- ===== src/Ring/Lifo.antt =====
-- What the ring buffer of fixes is for: the last four values pushed, newest first.
use docker_applications.Common.{List, ◌∷◌, take}
use docker_applications.Ring.{size}

module _ {ℓ} {A : Type ℓ} where
  unfoldable pub push : List A → A → List A
  push xs x = take size (x ∷ xs)
