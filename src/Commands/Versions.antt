-- ===== src/Commands/Versions.antt =====
-- Which versions of a GetInfo response are accepted, src/fido2_commands.cc.
use ctap2_test_tool.Base.{
  Action, Bool, Bytes, List, Option, Option-cases, Outcome, [], ap, arith, check, check_failed,
  codes, done, false, inl, inr, is_some, member, member-set_insert, none, pure, refl, set_insert,
  some, sym, true, undefined, ◌>>=◌, ◌||◌, ◌↔◌, ◌∙◌, ◌∷◌, ◌≡◌,
}
use ctap2_test_tool.Cbor.{Cbor}
use ctap2_test_tool.Commands.Members.{check_versions, distinct_strings, member_entry}
use ctap2_test_tool.Constants.Keys.{InfoMember}
use ctap2_test_tool.ParameterCheck.Keys.{AreFresh}

abbrev pub is_done : {A : Type 0} → Outcome A → Bool
is_done (done a) = true
is_done (check_failed message) = false
is_done undefined = false

abbrev text_of : Option Bytes → Bytes
text_of none = []
text_of (some s) = s

module _ (cbor : Cbor) where
  open cbor use {Value, MapValue, as_string, as_array}

  -- Every element is a string.
  abbrev pub AreStrings : List Value → Type 0
  AreStrings [] = Unit {0}
  AreStrings (v ∷ vs) = (is_some (as_string v) ≡ true) × AreStrings vs

  abbrev pub texts : List Value → List Bytes
  texts [] = []
  texts (v ∷ vs) = text_of (as_string v) ∷ texts vs

  distinct_strings-done :
      {S : Type 0} (not_string duplicate : Bytes) (vs : List Value) (seen : List Bytes) (s : S)
      → is_done (distinct_strings cbor not_string duplicate vs seen s).0 ≡ true
      → AreStrings vs × AreFresh seen (texts vs)
  unfolding distinct_strings
  distinct_strings-done not_string duplicate [] seen s e = (tt, tt)
  distinct_strings-done not_string duplicate (v ∷ vs) seen s e = ground (
    arith,
    distinct_strings-done not_string duplicate vs (set_insert (text_of (as_string v)) seen) s,
  )

  distinct_strings-fresh :
      {S : Type 0} (not_string duplicate : Bytes) (vs : List Value) (seen : List Bytes) (s : S)
      → AreStrings vs
      → AreFresh seen (texts vs)
      → is_done (distinct_strings cbor not_string duplicate vs seen s).0 ≡ true
  unfolding distinct_strings
  distinct_strings-fresh not_string duplicate [] seen s e f = refl
  distinct_strings-fresh not_string duplicate (v ∷ vs) seen s e f = ground (
    arith,
    distinct_strings-fresh not_string duplicate vs (set_insert (text_of (as_string v)) seen) s,
  )

  -- The set that the loop returns has the strings of the array.
  distinct_strings-member :
      {S : Type 0} (not_string duplicate name : Bytes) (vs : List Value) (seen set : List Bytes)
      (s : S)
      → (distinct_strings cbor not_string duplicate vs seen s).0 ≡ done set
      → member name set ≡ (member name (texts vs) || member name seen)
  unfolding distinct_strings member
  distinct_strings-member not_string duplicate name [] seen set s e = ground (arith, e)
  distinct_strings-member not_string duplicate name (v ∷ vs) seen set s e =
      let seen' = set_insert (text_of (as_string v)) seen in
      ground (
        arith,
        e,
        distinct_strings-member not_string duplicate name vs seen' set s,
        member-set_insert (text_of (as_string v)) name seen,
      )

  -- What the member with the versions must be.
  abbrev pub HasVersions : MapValue → Type 0
  HasVersions m =
      (value : Value) × (versions : List Value) × (member_entry cbor InfoMember.versions m
        ≡ some value)
      × (as_array value ≡ some versions)
      × AreStrings versions
      × AreFresh [] (texts versions)
      × (member (codes "FIDO_2_0") (texts versions) ≡ true)

  abbrev accept_set : {S : Type 0} → List Value → List Bytes → Action S (List Value)
  accept_set versions set =
      check (member (codes "FIDO_2_0") set) (codes "versions does not contain \"FIDO_2_0\"")
      >>= λ _. pure versions

  abbrev string_set : {S : Type 0} → List Value → Action S (List Bytes)
  string_set versions =
      distinct_strings cbor (codes "versions elements are not strings")
        (codes "duplicate version in info") versions []

  check_versions_found :
      {S : Type 0} (m : MapValue) (s : S) (value : Value) (versions : List Value)
      → member_entry cbor InfoMember.versions m ≡ some value
      → as_array value ≡ some versions
      → check_versions cbor m s ≡ (string_set versions >>= accept_set versions) s
  unfolding check_versions
  check_versions_found m s value versions e a = rw (e, a, check_versions) refl

  accept_set-done :
      {S : Type 0} (versions : List Value) (r : Outcome (List Bytes)) (t s : S)
      → is_done (((λ (_ : S). (r, t)) >>= accept_set versions) s).0 ≡ true
      → (set : List Bytes) × (r ≡ done set) × (member (codes "FIDO_2_0") set ≡ true)
  accept_set-done versions (done set) t s e = (set, refl, ground (arith, e))
  accept_set-done versions (check_failed message) t s e = ground (arith, e)
  accept_set-done versions undefined t s e = ground (arith, e)

  accept_set-true :
      {S : Type 0} (versions : List Value) (r : Outcome (List Bytes)) (t s : S)
      → is_done r ≡ true
      → ((set : List Bytes) → r ≡ done set → member (codes "FIDO_2_0") set ≡ true)
      → is_done (((λ (_ : S). (r, t)) >>= accept_set versions) s).0 ≡ true
  accept_set-true versions (done set) t s d h = rw (h set refl) refl
  accept_set-true versions (check_failed message) t s d h = ground (arith, d)
  accept_set-true versions undefined t s d h = ground (arith, d)

  string_set-member :
      {S : Type 0} (versions : List Value) (set : List Bytes) (s : S)
      → (string_set versions s).0 ≡ done set
      → member (codes "FIDO_2_0") set ≡ member (codes "FIDO_2_0") (texts versions)
  string_set-member versions set s e =
      let m =
        distinct_strings-member (codes "versions elements are not strings")
          (codes "duplicate version in info") (codes "FIDO_2_0") versions [] set s e in
      let none_seen : member (codes "FIDO_2_0") [] ≡ false = unfold member in refl in
      ground (arith, m, none_seen)

  found-HasVersions :
      {S : Type 0} (m : MapValue) (s : S) (value : Value) (versions : List Value)
      → member_entry cbor InfoMember.versions m ≡ some value
      → as_array value ≡ some versions
      → is_done (check_versions cbor m s).0 ≡ true
      → HasVersions m
  found-HasVersions {S} m s value versions e a h =
      let h' : is_done ((string_set versions >>= accept_set versions) s).0 ≡ true =
        ap (λ (p : Outcome (List Value) × S). is_done p.0)
          (sym (check_versions_found m s value versions e a))
        ∙ h in
      let (set, d, has) =
        accept_set-done versions (string_set versions s).0 (string_set versions s).1 s h' in
      let (strings, fresh) = distinct_strings-done _ _ versions [] s (ap is_done d) in
      (value, versions, e, a, strings, fresh, sym (string_set-member versions set s d) ∙ has)

  check_versions-HasVersions :
      {S : Type 0} (m : MapValue) (s : S)
      → is_done (check_versions cbor m s).0 ≡ true
      → HasVersions m
  unfolding check_versions
  check_versions-HasVersions m s h = elim (Option-cases (member_entry cbor InfoMember.versions m)) [
    | inl e ↦ absurd (ground (arith, h, e))
    | inr (value, e) ↦ elim (Option-cases (as_array value)) [
      | inl a ↦ absurd (ground (arith, h, e, a))
      | inr (versions, a) ↦ found-HasVersions m s value versions e a h
    ]
  ]

  HasVersions-check_versions :
      {S : Type 0} (m : MapValue) (s : S)
      → HasVersions m
      → is_done (check_versions cbor m s).0 ≡ true
  HasVersions-check_versions {S} m s (value, versions, e, a, strings, fresh, has) =
      ap (λ (p : Outcome (List Value) × S). is_done p.0)
        (check_versions_found m s value versions e a)
      ∙ accept_set-true versions (string_set versions s).0 (string_set versions s).1 s
          (distinct_strings-fresh _ _ versions [] s strings fresh)
          (λ set d. string_set-member versions set s d ∙ has)

  -- The versions of a GetInfo response are accepted exactly when they are there, are an array of
  -- strings none of which repeats an earlier one, and "FIDO_2_0" is among them.
  pub check_versions_iff :
      {S : Type 0} (m : MapValue) (s : S)
      → (is_done (check_versions cbor m s).0 ≡ true) ↔ HasVersions m
  check_versions_iff m s = (check_versions-HasVersions m s, HasVersions-check_versions m s)
