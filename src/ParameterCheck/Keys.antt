-- ===== src/ParameterCheck/Keys.antt =====
-- Reuse of key material: what `KeyChecker::CheckKey` accepts over a whole run.
use ctap2_test_tool.Base.{
  Action, Bytes, List, [], arith, check_failed, codes, done, false, inl, inr, member, pure, refl,
  set_insert, true, ◌>>◌, ◌↔◌, ◌∷◌, ◌≡◌, ◌⊎◌,
}
use ctap2_test_tool.ParameterCheck.{KeyChecker, check_key}

-- The calls of `CheckKey` that a run makes, in order.
unfoldable pub check_keys : List Bytes → Action KeyChecker (Unit {0})
check_keys [] = pure tt
check_keys (k ∷ ks) = do check_key k; check_keys ks

-- No key occurs twice, and none is one of the keys already seen.
abbrev pub AreFresh : List Bytes → List Bytes → Type 0
AreFresh seen [] = Unit {0}
AreFresh seen (k ∷ ks) = (member k seen ≡ false) × AreFresh (set_insert k seen) ks

check_keys-fresh :
    (ks : List Bytes) (c : KeyChecker) → AreFresh c.key_set ks → (check_keys ks c).0 ≡ done tt
unfolding check_keys check_key
check_keys-fresh [] c h = refl
check_keys-fresh (k ∷ ks) c h =
    ground (arith, check_keys-fresh ks (record c { key_set = set_insert k c.key_set }))

check_keys-done :
    (ks : List Bytes) (c : KeyChecker) → (check_keys ks c).0 ≡ done tt → AreFresh c.key_set ks
unfolding check_keys check_key
check_keys-done [] c h = tt
check_keys-done (k ∷ ks) c h =
    ground (arith, check_keys-done ks (record c { key_set = set_insert k c.key_set }))

check_keys_cases :
    (ks : List Bytes) (c : KeyChecker)
    → ((check_keys ks c).0 ≡ done tt)
      ⊎ ((check_keys ks c).0 ≡ check_failed (codes "key is either a duplicate or too common"))
unfolding check_keys check_key
check_keys_cases [] c = inl refl
check_keys_cases (k ∷ ks) c =
    ground (arith, check_keys_cases ks (record c { key_set = set_insert k c.key_set }))

-- A run of key checks completes exactly when no key repeats an earlier one or one that was known
-- from the start; otherwise it aborts with the message of the check.
pub check_keys_iff :
    (ks : List Bytes) (c : KeyChecker)
    → (((check_keys ks c).0 ≡ done tt) ↔ AreFresh c.key_set ks)
      × (¬ AreFresh c.key_set ks
          → (check_keys ks c).0 ≡ check_failed (codes "key is either a duplicate or too common"))
check_keys_iff ks c = (
  (check_keys-done ks c, check_keys-fresh ks c),
  λ repeats. elim (check_keys_cases ks c) [
    | inl e ↦ absurd (repeats (check_keys-done ks c e))
    | inr e ↦ e
  ],
)

-- A key that was checked once aborts the run when it comes again, whatever was checked between.
check_key_known :
    (k : Bytes) (c : KeyChecker)
    → member k c.key_set ≡ true
    → check_key k c ≡ (check_failed (codes "key is either a duplicate or too common"), c)
unfolding check_key
check_key_known k c h = ground arith
