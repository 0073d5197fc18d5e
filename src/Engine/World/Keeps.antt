-- ===== src/Engine/World/Keeps.antt =====
-- Invariants of actions, with one rule for each way to build an action.
use queue.Prelude.{
  ◌≡◌, refl, ◌+◌, Bool, true, false, Option, none, some, Result, ok, err, if◌then◌else◌,
}
use queue.Engine.World.{World, Action, pure, gets, ◌>>=◌, ◌>>◌, on_option, on_result, tick}

-- An action that starts where P holds ends where P holds.
pub record Keeps {A : Type 0} (P : World → Type 0) (action : Action A) : Type 0 where
  pub at : (before : World) → P before → P (action before).1

module _ {P : World → Type 0} {A B : Type 0} where
  pub Keeps-then :
      (first : Action A) (rest : Action B) → Keeps P first → Keeps P rest → Keeps P (first >> rest)
  unfolding ◌>>◌
  Keeps-then first rest kept_first kept_rest = record {
    at = λ w holds. kept_rest.at (first w).1 (kept_first.at w holds);
  }

  pub Keeps-bind :
      (first : Action A) (rest : A → Action B)
      → Keeps P first
      → ((answer : A) → Keeps P (rest answer))
      → Keeps P (first >>= rest)
  unfolding ◌>>=◌
  Keeps-bind first rest kept_first kept_rest = record {
    at = λ w holds.
        let (answer, left) = first w in (kept_rest answer).at left (kept_first.at w holds);
  }

module _ {P : World → Type 0} {A : Type 0} where
  -- The branches of a test, each with what the test has shown.
  pub Keeps-if :
      (test : Bool) (pass miss : Action A) (kept_pass : test ≡ true → Keeps P pass)
      (kept_miss : test ≡ false → Keeps P miss)
      → Keeps P (if test then pass else miss)
  Keeps-if false pass miss kept_pass kept_miss = kept_miss refl
  Keeps-if true pass miss kept_pass kept_miss = kept_pass refl

  -- Actions that leave the world as it is.
  pub Keeps-gets : (read : World → A) → Keeps P (gets read)
  unfolding gets
  Keeps-gets read = record { at = λ _ holds. holds }

  pub Keeps-pure : (answer : A) → Keeps P (pure answer)
  unfolding pure
  Keeps-pure answer = record { at = λ _ holds. holds }

module _ {P : World → Type 0} {A B : Type 0} where
  pub Keeps-on_option :
      (o : Option A) (m : Action B) (f : A → Action B)
      → (o ≡ none → Keeps P m)
      → ((a : A) → o ≡ some a → Keeps P (f a))
      → Keeps P (on_option o m f)
  unfolding on_option
  Keeps-on_option none m f km kf = km refl
  Keeps-on_option (some a) m f km kf = kf a refl

  pub Keeps-on_result :
      {E : Type 0} (r : Result E A) (m : E → Action B) (f : A → Action B)
      → ((e : E) → r ≡ err e → Keeps P (m e))
      → ((a : A) → r ≡ ok a → Keeps P (f a))
      → Keeps P (on_result r m f)
  unfolding on_result
  Keeps-on_result (err e) m f km kf = km e refl
  Keeps-on_result (ok a) m f km kf = kf a refl

-- An invariant of actions that does not look at the readings.
pub record Steady (P : World → Type 0) : Type 0 where
  pub ticked : (w : World) → P w → P (record w { readings = w.readings + 1 })

pub Keeps-tick : {P : World → Type 0} → Steady P → Keeps P tick
unfolding tick
Keeps-tick steady = record { at = steady.ticked }

pub ruleset keeps_rules = (
  Keeps-pure, Keeps-gets, Keeps-if, Keeps-bind, Keeps-then, Keeps-on_option, Keeps-on_result,
  Keeps-tick,
)
