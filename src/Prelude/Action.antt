-- ===== src/Prelude/Action.antt =====
-- Calls that change state: what the call ends in, and the state after it. What was written before
-- an exception stays written.
use mathlib.Core.Path.{◌≡◌, refl}
use mathlib.Core.Bool.{Bool, true, false}
use mathlib.Core.List.{List, [], ◌∷◌}
use laps.Prelude.Outcome.{Outcome, done, thrown, fault, stuck}
pub mod Ends

abbrev pub Action : Type 0 → Type 0 → Type 0
Action W A = W → Outcome A × W

abbrev pub pure : {W A : Type 0} → A → Action W A
pure a w = (done a, w)

abbrev pub after : {W A B : Type 0} → (A → Action W B) → Outcome A × W → Outcome B × W
after f (done a, w) = f a w
after f (thrown e, w) = (thrown e, w)
after f (fault, w) = (fault, w)
after f (stuck, w) = (stuck, w)

infixl 5 ◌>>=◌ ◌>>◌
abbrev pub ◌>>=◌ : {W A B : Type 0} → Action W A → (A → Action W B) → Action W B
◌>>=◌ m f w = after f (m w)

abbrev pub ◌>>◌ : {W A B : Type 0} → Action W A → Action W B → Action W B
m >> k = m >>= λ _. k

abbrev pub gets : {W A : Type 0} → (W → A) → Action W A
gets f w = (done (f w), w)

abbrev pub modify : {W : Type 0} → (W → W) → Action W (Unit {0})
modify f w = (done tt, f w)

-- The outcome of code that changes nothing.
abbrev pub outcome : {W A : Type 0} → Outcome A → Action W A
outcome o w = (o, w)

abbrev pub unless : {W : Type 0} → Bool → Action W (Unit {0}) → Action W (Unit {0})
unless true m w = (done tt, w)
unless false m w = m w

abbrev pub when : {W : Type 0} → Bool → Action W (Unit {0}) → Action W (Unit {0})
when true m w = m w
when false m w = (done tt, w)

-- A loop over the elements of a list.
unfoldable pub each : {W A : Type 0} → (A → Action W (Unit {0})) → List A → Action W (Unit {0})
each f [] w = (done tt, w)
each f (a ∷ rest) w = (f a >> each f rest) w

-- `try { m } catch (const std::exception&) { handler }`.
abbrev pub caught :
    {W : Type 0} → Action W (Unit {0}) → Outcome (Unit {0}) × W → Outcome (Unit {0}) × W
caught handler (thrown e, w) = handler w
caught handler (r, w) = (r, w)

abbrev pub try_catch :
    {W : Type 0} → Action W (Unit {0}) → Action W (Unit {0}) → Action W (Unit {0})
try_catch m handler w = caught handler (m w)

-- Two continuations that do the same.
pub after_same :
    {W A B : Type 0} (f g : A → Action W B)
    → ((a : A) (w : W) → f a w ≡ g a w)
    → (r : Outcome A × W) → after f r ≡ after g r
after_same f g same (done a, w) = same a w
after_same f g same (thrown e, w) = refl
after_same f g same (fault, w) = refl
after_same f g same (stuck, w) = refl
