-- ===== src/ParameterCheck/Counters.antt =====
-- Signature counters: the flags of `CounterChecker` against the history of its calls.
use ctap2_test_tool.Base.{
  Action, Bool, Bytes, List, Option, [], arith, bytes_eq, done, false, if◌then◌else◌, lookup,
  lookup-insert, ltb, none, pure, some, true, ℕ, ◌%◌, ◌&&◌, ◌+◌, ◌==◌, ◌>>◌, ◌^◌, ◌∷◌, ◌≡◌,
}
use ctap2_test_tool.ParameterCheck.{CounterChecker, check_counter, register_counter}

pub data CounterCall : Type 0 where
  registers checks : Bytes → ℕ → CounterCall

unfoldable pub counter_call : CounterCall → Action CounterChecker (Unit {0})
counter_call (registers id v) = register_counter id v
counter_call (checks id v) = check_counter id v

unfoldable pub counter_calls : List CounterCall → Action CounterChecker (Unit {0})
counter_calls [] = pure tt
counter_calls (c ∷ cs) = do counter_call c; counter_calls cs

-- The value that the newest call for an id gave; the history is newest first.
unfoldable pub previous : Bytes → List CounterCall → Option ℕ
previous id [] = none
previous id (registers j v ∷ h) = if bytes_eq j id then some v else previous id h
previous id (checks j v ∷ h) = if bytes_eq j id then some v else previous id h

-- A test of every call against the calls before it.
unfoldable pub every :
    (List CounterCall → CounterCall → Bool) → List CounterCall → List CounterCall → Bool
every p h [] = true
every p h (c ∷ cs) = p h c && every p (c ∷ h) cs

unfoldable pub is_zero : List CounterCall → CounterCall → Bool
is_zero h (registers id v) = v == 0
is_zero h (checks id v) = v == 0

-- The value of a check is above the last one of its id.
unfoldable pub is_increasing : List CounterCall → CounterCall → Bool
is_increasing h (registers id v) = true
is_increasing h (checks id v) = elim (previous id h) [ none ↦ false | some w ↦ ltb w v ]

-- The value of a check is the last one of its id plus one, as uint32_t.
unfoldable pub is_successor : List CounterCall → CounterCall → Bool
is_successor h (registers id v) = true
is_successor h (checks id v) = elim (previous id h) [
  | none ↦ false
  | some w ↦ v == (w + 1) % 2 ^ 32
]

-- The counter table holds the newest value of every id.
abbrev pub Tracks : CounterChecker → List CounterCall → Type 0
Tracks c h = (id : Bytes) → lookup id c.counter_map ≡ previous id h

-- What one accepted call does to the flags.
abbrev Records : CounterChecker → List CounterCall → CounterCall → CounterChecker → Type 0
Records c h x d =
    Tracks d (x ∷ h)
    × (d.could_be_zero ≡ (c.could_be_zero && is_zero h x))
    × (d.could_be_global ≡ (c.could_be_global && is_increasing h x))
    × (d.could_be_individual ≡ (c.could_be_individual && is_successor h x))

register_counter-Records :
    (id : Bytes) (v : ℕ) (h : List CounterCall) (c : CounterChecker)
    → Tracks c h
    → (register_counter id v c).0 ≡ done tt
    → Records c h (registers id v) (register_counter id v c).1
unfolding register_counter previous is_zero is_increasing is_successor
register_counter-Records id v h c t e = (
  λ j. ground (arith, t j, lookup-insert id j v c.counter_map),
  ground arith,
  ground arith,
  ground arith,
)

check_counter-Records :
    (id : Bytes) (v : ℕ) (h : List CounterCall) (c : CounterChecker)
    → Tracks c h
    → (check_counter id v c).0 ≡ done tt
    → Records c h (checks id v) (check_counter id v c).1
unfolding check_counter previous is_zero is_increasing is_successor
check_counter-Records id v h c t e = (
  λ j. ground (arith, t j, t id, lookup-insert id j v c.counter_map),
  ground (arith, t id),
  ground (arith, t id),
  ground (arith, t id),
)

counter_call-Records :
    (x : CounterCall) (h : List CounterCall) (c : CounterChecker)
    → Tracks c h
    → (counter_call x c).0 ≡ done tt
    → Records c h x (counter_call x c).1
unfolding counter_call
counter_call-Records (registers id v) h c t e = register_counter-Records id v h c t e
counter_call-Records (checks id v) h c t e = check_counter-Records id v h c t e

-- The flags of the checker after the calls, by what holds of the calls.
abbrev pub Summarises :
    CounterChecker → List CounterCall → List CounterCall → CounterChecker → Type 0
Summarises c h cs d =
    (d.could_be_zero ≡ (c.could_be_zero && every is_zero h cs))
    × (d.could_be_global ≡ (c.could_be_global && every is_increasing h cs))
    × (d.could_be_individual ≡ (c.could_be_individual && every is_successor h cs))

counter_calls-cons :
    (x : CounterCall) (cs : List CounterCall) (c : CounterChecker)
    → (counter_calls (x ∷ cs) c).0 ≡ done tt
    → ((counter_call x c).0 ≡ done tt)
      × (counter_calls (x ∷ cs) c ≡ counter_calls cs (counter_call x c).1)
unfolding counter_calls
counter_calls-cons x cs c e = (ground arith, ground arith)

pub counter_calls-Summarises :
    (cs h : List CounterCall) (c : CounterChecker)
    → Tracks c h
    → (counter_calls cs c).0 ≡ done tt
    → Summarises c h cs (counter_calls cs c).1
unfolding every
counter_calls-Summarises [] h c t e =
    unfold counter_calls in (ground arith, ground arith, ground arith)
counter_calls-Summarises (x ∷ cs) h c t e =
    let (first, rest) = counter_calls-cons x cs c e in
    let r = counter_call-Records x h c t first in
    let s = counter_calls-Summarises cs (x ∷ h) (counter_call x c).1 r.0 (rw rest at e) in
    rw rest
      (ground (arith, r.1, r.2, r.3), ground (arith, r.1, r.2, r.3), ground (arith, r.1, r.2, r.3))
