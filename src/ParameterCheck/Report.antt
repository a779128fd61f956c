-- ===== src/ParameterCheck/Report.antt =====
-- What `CounterChecker::ReportFindings` says at the end of a run.
use ctap2_test_tool.Base.{
  Bool, Bool-cases, Bytes, List, Option-cases, [], arith, codes, done, inl, inr, lookup, ltb, not,
  refl, some, true, ℕ, ◌&&◌, ◌<◌, ◌==◌, ◌^◌, ◌∷◌, ◌≡◌,
}
use ctap2_test_tool.ParameterCheck.{CounterChecker, new_counter_checker, report_findings}
use ctap2_test_tool.ParameterCheck.Counters.{
  CounterCall, checks, counter_calls, counter_calls-Summarises, every, is_increasing, is_successor,
  is_zero, previous, registers,
}

-- A run of accepted calls.
abbrev pub IsRun : List CounterCall → Type 0
IsRun cs = (counter_calls cs new_counter_checker).0 ≡ done tt

abbrev pub after_run : List CounterCall → CounterChecker
after_run cs = (counter_calls cs new_counter_checker).1

-- After any run of accepted calls from a new checker, the three flags say exactly whether every
-- value was zero, whether every checked value was above the last one of its id, and whether every
-- checked value was the 32-bit successor of the last one of its id.
pub counter_flags_of_history :
    (cs : List CounterCall)
    → IsRun cs
    → ((after_run cs).could_be_zero ≡ every is_zero [] cs)
      × ((after_run cs).could_be_global ≡ every is_increasing [] cs)
      × ((after_run cs).could_be_individual ≡ every is_successor [] cs)
counter_flags_of_history cs e =
    let s =
      counter_calls-Summarises cs [] new_counter_checker (λ id. unfold lookup previous in refl) e in
    (ground (arith, s.0), ground (arith, s.1), ground (arith, s.2))

-- The values fit uint32_t, the type of the source's parameters.
unfoldable pub are_words : List CounterCall → Bool
are_words [] = true
are_words (registers id v ∷ cs) = ltb v (2 ^ 32) && are_words cs
are_words (checks id v ∷ cs) = ltb v (2 ^ 32) && are_words cs

-- No check has the value zero, so no counter has wrapped around.
unfoldable pub is_positive : List CounterCall → CounterCall → Bool
is_positive h (registers id v) = true
is_positive h (checks id v) = not (v == 0)

previous_word :
    (id : Bytes) (h : List CounterCall) (w : ℕ)
    → are_words h ≡ true
    → previous id h ≡ some w
    → w < 2 ^ 32
unfolding previous are_words
previous_word id [] w a e = ground arith
previous_word id (registers j v ∷ h) w a e = ground (arith, previous_word id h w)
previous_word id (checks j v ∷ h) w a e = ground (arith, previous_word id h w)

successor_increases :
    (h : List CounterCall) (x : CounterCall)
    → are_words h ≡ true
    → is_successor h x ≡ true
    → is_positive h x ≡ true
    → is_increasing h x ≡ true
unfolding is_successor is_positive is_increasing
successor_increases h (registers id v) a s p = refl
successor_increases h (checks id v) a s p = elim (Option-cases (previous id h)) [
  | inl e ↦ ground arith
  | inr (w, e) ↦ ground (arith, previous_word id h w a e)
]

every_mono :
    (h cs : List CounterCall)
    → are_words h ≡ true
    → are_words cs ≡ true
    → every is_successor h cs ≡ true
    → every is_positive h cs ≡ true
    → every is_increasing h cs ≡ true
unfolding every are_words
every_mono h [] a b s p = refl
every_mono h (registers id v ∷ cs) a b s p =
    ground (arith, successor_increases h (registers id v), every_mono (registers id v ∷ h) cs)
every_mono h (checks id v ∷ cs) a b s p =
    ground (arith, successor_increases h (checks id v), every_mono (checks id v ∷ h) cs)

-- If a run of 32-bit calls in which no checked value is zero is reported as incremented by 1, then
-- every checked value was above the last one of its id.
pub report_increments_are_increasing :
    (cs : List CounterCall)
    → IsRun cs
    → are_words cs ≡ true
    → every is_positive [] cs ≡ true
    → report_findings (after_run cs) ≡ codes "All counters were strictly incremented by 1."
    → every is_increasing [] cs ≡ true
unfolding report_findings
report_increments_are_increasing cs r w p e =
    let f = counter_flags_of_history cs r in
    elim (Bool-cases (every is_successor [] cs)) [
      | inl s ↦ every_mono [] cs (unfold are_words in refl) w s p
      | inr n ↦ ground (arith, f.0, f.1, f.2)
    ]
