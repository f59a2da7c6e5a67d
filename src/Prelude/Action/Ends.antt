-- ===== src/Prelude/Action/Ends.antt =====
-- Calls that end in a value, with what holds afterwards: the rules for a sequence and a loop.
use mathlib.Core.Path.{◌≡◌, refl}
use mathlib.Core.List.{List, [], ◌∷◌}
use laps.Prelude.Lists.{All}
use laps.Prelude.Outcome.{done}
use laps.Prelude.Action.{Action, ◌>>=◌, each}

module _ {W : Type 0} where
  abbrev pub Ends : {A : Type 0} → (W → Type 0) → Action W A → W → Type 0
  Ends {A = A} I m w = (a : A) × (w' : W) × (m w ≡ (done a, w')) × I w'

  pub Ends->>= :
      {A B : Type 0} (I J : W → Type 0) (m : Action W A) (f : A → Action W B) (w : W)
      → Ends I m w
      → ((a : A) (w : W) → I w → Ends J (f a) w)
      → Ends J (m >>= f) w
  Ends->>= I J m f w (a, w', e, i) next = let (b, w'', e', j) = next a w' i in (b, w'', rw e e', j)

  -- A loop whose every step keeps `I`, on elements of which `P` holds.
  pub each-Ends :
      {A : Type 0} (P : A → Type 0) (I : W → Type 0) (f : A → Action W (Unit {0})) (xs : List A)
      (w : W)
      → ((a : A) (w : W) → P a → I w → Ends I (f a) w)
      → All P xs
      → I w
      → Ends I (each f xs) w
  unfolding each
  each-Ends P I f [] w step ps i = (tt, w, refl, i)
  each-Ends P I f (x ∷ xs) w step ps i =
      Ends->>= I I (f x) (λ _. each f xs) w (step x w ps.0 i)
        (λ a w' i'. each-Ends P I f xs w' step ps.1 i')
