-- ===== src/Base/Actions.antt =====
-- Code that may end the process. A failed glog `CHECK` aborts with its message; a step that C++
-- leaves undefined (reading through an end iterator) is an outcome of its own.
use native.Mathlib.Omega.{arith}
use mathlib.Core.Path.{◌≡◌, refl}
use mathlib.Core.Bool.{Bool, true, false}
use mathlib.Core.Option.{Option, none, some}
use ctap2_test_tool.Base.ByteStrings.{Bytes}

pub data Outcome (A : Type 0) : Type 0 where
  done : A → Outcome A
  check_failed : Bytes → Outcome A
  undefined : Outcome A

-- A procedure over a state; the state comes back after an abort too.
abbrev pub Action : Type 0 → Type 0 → Type 0
Action S A = S → Outcome A × S

module _ {S A : Type 0} where
  abbrev pub pure : A → Action S A
  pure a s = (done a, s)

  abbrev pub abort : Bytes → Action S A
  abort message s = (check_failed message, s)

  abbrev pub gets : (S → A) → Action S A
  gets f s = (done (f s), s)

infixl 5 ◌>>=◌ ◌>>◌
abbrev pub ◌>>=◌ : {S A B : Type 0} → Action S A → (A → Action S B) → Action S B
◌>>=◌ m f s =
    let (r, s') = m s in
    elim r [
      | done a ↦ f a s'
      | check_failed message ↦ (check_failed message, s')
      | undefined ↦ (undefined, s')
    ]

abbrev pub ◌>>◌ : {S A B : Type 0} → Action S A → Action S B → Action S B
m >> k = m >>= λ _. k

abbrev pub modify : {S : Type 0} → (S → S) → Action S (Unit {0})
modify f s = (done tt, f s)

-- glog's `CHECK(condition) << message`.
abbrev pub check : {S : Type 0} → Bool → Bytes → Action S (Unit {0})
check true message s = (done tt, s)
check false message s = (check_failed message, s)

-- A `CHECK` that a map lookup succeeded, and the value it found.
abbrev pub check_some : {S A : Type 0} → Option A → Bytes → Action S A
check_some none message s = (check_failed message, s)
check_some (some a) message s = (done a, s)

-- Dereferencing an iterator that may be the end iterator, with no check.
abbrev pub deref : {S A : Type 0} → Option A → Action S A
deref none s = (undefined, s)
deref (some a) s = (done a, s)

bind_cong_step :
    {S A B : Type 0} (r : Outcome A) (t : S) (f g : A → Action S B) (s : S)
    → ((a : A) (s' : S) → f a s' ≡ g a s')
    → ((λ (_ : S). (r, t)) >>= f) s ≡ ((λ (_ : S). (r, t)) >>= g) s
bind_cong_step (done a) t f g s h = h a t
bind_cong_step (check_failed message) t f g s h = refl
bind_cong_step undefined t f g s h = refl

-- Procedures that go on in the same way are the same.
pub bind_cong :
    {S A B : Type 0} (m : Action S A) (f g : A → Action S B) (s : S)
    → ((a : A) (s' : S) → f a s' ≡ g a s')
    → (m >>= f) s ≡ (m >>= g) s
bind_cong m f g s h = bind_cong_step (m s).0 (m s).1 f g s h

bind_done_step :
    {S A B : Type 0} (r : Outcome A) (t : S) (f : A → Action S B) (s s' : S) (b : B)
    → ((λ (_ : S). (r, t)) >>= f) s ≡ (done b, s')
    → (a : A) × (r ≡ done a) × (f a t ≡ (done b, s'))
bind_done_step (done a) t f s s' b e = (a, refl, e)
bind_done_step (check_failed message) t f s s' b e = ground (arith, e)
bind_done_step undefined t f s s' b e = ground (arith, e)

-- A procedure that is done went through its first step.
pub bind_done :
    {S A B : Type 0} (m : Action S A) (f : A → Action S B) (s s' : S) (b : B)
    → (m >>= f) s ≡ (done b, s')
    → (a : A) × ((m s).0 ≡ done a) × (f a (m s).1 ≡ (done b, s'))
bind_done m f s s' b e = bind_done_step (m s).0 (m s).1 f s s' b e
