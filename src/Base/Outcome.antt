-- ===== src/Base/Outcome.antt =====
-- The outcome of a piece of kernel code that changes a state `S`, and its monad.
use mathlib.Core.Path.{◌≡◌, refl}

-- `panic` is a call of panic(); `blocked` is a code that waits for another CPU or process: a spin
-- on a held lock, or a sleep; `out_of_fuel` is a loop that has used up its rounds.
pub data Run (S A : Type 0) : Type 0 where
  ok : A → S → Run S A
  panic : Run S A
  blocked : S → Run S A
  out_of_fuel : Run S A

abbrev pub Cmd : Type 0 → Type 0 → Type 0
Cmd S A = S → Run S A

module _ {S : Type 0} where
  abbrev pub pure : {A : Type 0} → A → Cmd S A
  pure = ok

  -- The state, and a field of it.
  abbrev pub gets : {A : Type 0} → (S → A) → Cmd S A
  gets f s = ok (f s) s

  abbrev pub modify : (S → S) → Cmd S (Unit {0})
  modify f s = ok tt (f s)

  abbrev pub panicking : {A : Type 0} → Cmd S A
  panicking s = panic

  abbrev pub and_then : {A B : Type 0} → Run S A → (A → Cmd S B) → Run S B
  and_then (ok a s) k = k a s
  and_then panic k = panic
  and_then (blocked s) k = blocked s
  and_then out_of_fuel k = out_of_fuel

  infixl 5 ◌>>=◌ ◌>>◌
  abbrev pub ◌>>=◌ : {A B : Type 0} → Cmd S A → (A → Cmd S B) → Cmd S B
  ◌>>=◌ m k s = and_then (m s) k

  abbrev pub ◌>>◌ : {A B : Type 0} → Cmd S A → Cmd S B → Cmd S B
  ◌>>◌ m n s = and_then (m s) (λ _. n)

-- A command on a part of the state.
module _ {S T : Type 0} where
  abbrev pub put_back : {A : Type 0} → (S → T → S) → S → Run T A → Run S A
  put_back put s (ok a t) = ok a (put s t)
  put_back put s panic = panic
  put_back put s (blocked t) = blocked (put s t)
  put_back put s out_of_fuel = out_of_fuel

  abbrev pub zoom : {A : Type 0} → (S → T) → (S → T → S) → Cmd T A → Cmd S A
  zoom get put m s = put_back put s (m (get s))

-- What holds of the result and the final state of a run that returns.
abbrev pub Returns : {S A : Type 0} → Run S A → (A → S → Type 0) → Type 0
Returns (ok a s) P = P a s
Returns panic P = ⊥
Returns (blocked s) P = ⊥
Returns out_of_fuel P = ⊥

-- The rule of sequence for `Returns`.
pub Returns_bind :
    {S A B : Type 0} {P : A → S → Type 0} (Q : B → S → Type 0) (r : Run S A) (k : A → Cmd S B)
    → Returns r P
    → ((a : A) (s : S) → P a s → Returns (k a s) Q)
    → Returns (and_then r k) Q
Returns_bind Q (ok a s) k h next = next a s h
Returns_bind Q panic k h next = absurd h
Returns_bind Q (blocked s) k h next = absurd h
Returns_bind Q out_of_fuel k h next = absurd h

pub Returns_mono :
    {S A : Type 0} {P : A → S → Type 0} (Q : A → S → Type 0) (r : Run S A)
    → Returns r P
    → ((a : A) (s : S) → P a s → Q a s)
    → Returns r Q
Returns_mono Q (ok a s) h weaken = weaken a s h
Returns_mono Q panic h weaken = absurd h
Returns_mono Q (blocked s) h weaken = absurd h
Returns_mono Q out_of_fuel h weaken = absurd h

-- What a run that is known to return makes true.
pub Returns_ok :
    {S A : Type 0} (P : A → S → Type 0) (r : Run S A) (a : A) (s : S)
    → r ≡ ok a s
    → Returns r P
    → P a s
Returns_ok P r a s e h = rw e at h

pub Returns_run :
    {S A : Type 0} {P : A → S → Type 0} (r : Run S A)
    → Returns r P
    → (a : A) × (s : S) × (r ≡ ok a s) × P a s
Returns_run (ok a s) h = (a, s, refl, h)
Returns_run panic h = absurd h
Returns_run (blocked s) h = absurd h
Returns_run out_of_fuel h = absurd h
