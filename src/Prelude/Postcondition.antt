-- ===== src/Prelude/Postcondition.antt =====
-- A condition on the value with which a call ends, if it ends with one, and rules that follow the
-- code of the call.
use mathlib.Core.Path.{◌≡◌, refl}
use mathlib.Core.Bool.{Bool, true, false}
use remote_backup_m.Prelude.Tests.{if◌then◌else◌}
use remote_backup_m.Prelude.Effects.{Outcome, ok, err, Failure, ◌>>=◌}

pub record Post {A : Type 0} (Q : A → Type 0) (r : Outcome A) : Type 0 where
  pub get : (a : A) → r ≡ ok a → Q a

ok-injective : {A : Type 0} (Q : A → Type 0) (a b : A) → Q a → ok a ≡ ok b → Q b
ok-injective Q a b q e = rw (← path) q
  where
    path : a ≡ b
    path = cc

module _ {A : Type 0} {Q : A → Type 0} where
  pub Post-ok : {a : A} → Q a → Post Q (ok a)
  Post-ok {a} q = record { get = λ b e. ok-injective Q a b q e }

  pub Post-err : {e : Failure} → Post Q (err e)
  Post-err = record { get = λ b p. cc }

  pub Post-if :
      (b : Bool) {x y : Outcome A}
      → (b ≡ true → Post Q x)
      → (b ≡ false → Post Q y)
      → Post Q (if b then x else y)
  Post-if true h k = h refl
  Post-if false h k = k refl

  pub Post-bind :
      {B : Type 0} (m : Outcome B) {f : B → Outcome A}
      → ((b : B) → m ≡ ok b → Post Q (f b))
      → Post Q (m >>= f)
  Post-bind (ok b) h = h b refl
  Post-bind (err e) h = Post-err

  -- The same, where a condition on the first call's value is known.
  pub Post-bind-on :
      {B : Type 0} {R : B → Type 0} {m : Outcome B} {f : B → Outcome A}
      → Post R m
      → ((b : B) → R b → Post Q (f b))
      → Post Q (m >>= f)
  Post-bind-on {m} p h = Post-bind m λ b e. h b (p.get b e)
