-- ===== src/Tracker/Observations.antt =====
-- Which observations end up with which test.
use ctap2_test_tool.Base.{
  Bool-cases, Bytes, List, Option, [], append-nil, append_assoc, arith, bytes_eq_iff, false,
  if◌then◌else◌, inl, inr, member, push_new, refl, sym, true, ◌++◌, ◌||◌, ◌∙◌, ◌∷◌, ◌≡◌,
}
use ctap2_test_tool.Tracker.{
  DeviceTracker, TestResult, add_observation, log_test, new_device_tracker,
}

-- The calls of a run that touch the list of observations, in order.
pub data TrackerCall : Type 0 where
  observes : Bytes → TrackerCall
  logs : Bytes → Bytes → Option Bytes → List Bytes → TrackerCall

unfoldable pub tracker_call : TrackerCall → DeviceTracker → DeviceTracker
tracker_call (observes o) t = add_observation o t
tracker_call (logs id description message tags) t = log_test id description message tags t

unfoldable pub tracker_calls : List TrackerCall → DeviceTracker → DeviceTracker
tracker_calls [] t = t
tracker_calls (c ∷ cs) t = tracker_calls cs (tracker_call c t)

-- The observations of a block of calls without the repeated ones, in order of appearance.
unfoldable pub distinct : List Bytes → List Bytes → List Bytes
distinct seen [] = []
distinct seen (o ∷ os) = elim (member o seen) [
  | true ↦ distinct seen os
  | false ↦ o ∷ distinct (o ∷ seen) os
]

-- The calls cut into one block for each `LogTest`: what was observed since the one before.
unfoldable pub logged : List Bytes → List TrackerCall → List TestResult
logged pending [] = []
logged pending (observes o ∷ cs) = logged (pending ++ o ∷ []) cs
logged pending (logs id description message tags ∷ cs) =
    record {
      test_id = id;
      test_description = description;
      error_message = message;
      observations = distinct [] pending;
      tags = tags;
    }
    ∷ logged [] cs

member-distinct :
    (x : Bytes) (seen os : List Bytes)
    → (member x seen || member x (distinct seen os)) ≡ (member x seen || member x os)
unfolding distinct member
member-distinct x seen [] = refl
member-distinct x seen (o ∷ os) = elim (Bool-cases (member o seen)) [
  | inl e ↦ rw (e, distinct) (ground (arith, member-distinct x seen os, bytes_eq_iff o x))
  | inr e ↦ rw (e, distinct) (ground (arith, member-distinct x (o ∷ seen) os, bytes_eq_iff o x))
]

distinct-snoc :
    (x : Bytes) (seen os : List Bytes)
    → distinct seen (os ++ x ∷ [])
      ≡ (if member x seen || member x os then distinct seen os else distinct seen os ++ x ∷ [])
unfolding distinct member
distinct-snoc x seen [] = ground arith
distinct-snoc x seen (o ∷ os) = elim (Bool-cases (member o seen)) [
  | inl e ↦ rw (e, distinct) (ground (arith, distinct-snoc x seen os, bytes_eq_iff o x))
  | inr e ↦ rw (e, distinct) (ground (arith, distinct-snoc x (o ∷ seen) os, bytes_eq_iff o x))
]

push_new-distinct :
    (x : Bytes) (os : List Bytes) → push_new x (distinct [] os) ≡ distinct [] (os ++ x ∷ [])
unfolding push_new
push_new-distinct x os = ground (arith, distinct-snoc x [] os, member-distinct x [] os)

tracker_calls-logged :
    (cs : List TrackerCall) (pending : List Bytes) (t : DeviceTracker)
    → t.observations ≡ distinct [] pending
    → (tracker_calls cs t).tests ≡ t.tests ++ logged pending cs
unfolding tracker_calls logged tracker_call add_observation log_test
tracker_calls-logged [] pending t e = sym (append-nil t.tests)
tracker_calls-logged (observes o ∷ cs) pending t e =
    tracker_calls-logged cs (pending ++ o ∷ []) (tracker_call (observes o) t)
      (rw e (push_new-distinct o pending))
tracker_calls-logged (logs id description message tags ∷ cs) pending t e =
    tracker_calls-logged cs [] (tracker_call (logs id description message tags) t)
      (unfold distinct in refl)
    ∙ rw (append_assoc, e) refl

-- After any sequence of observations and logged tests from a new tracker, every test carries
-- exactly what was observed since the test before it, each observation once and in order of
-- first appearance.
pub tests_own_observations :
    (cs : List TrackerCall) → (tracker_calls cs new_device_tracker).tests ≡ logged [] cs
tests_own_observations cs = tracker_calls-logged cs [] new_device_tracker (unfold distinct in refl)
