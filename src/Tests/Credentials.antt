-- ===== src/Tests/Credentials.antt =====
-- The identifier of a credential in the authenticator data, src/tests/test_helpers.cc.
use ctap2_test_tool.Base.{
  Bool-cases, Bytes, [], ap, arith, done, drop, drop-append, get_elem?, inl, inr, leb, length,
  length-append, refl, some, suc, sym, take, take-append, true, undefined, zero, ℕ, ◌*◌, ◌++◌, ◌+◌,
  ◌<◌, ◌∙◌, ◌∷◌, ◌≡◌, ◌≢◌, ◌≤◌,
}
use ctap2_test_tool.Cbor.{Cbor}
use ctap2_test_tool.Commands.{has_flag}
use ctap2_test_tool.Monitors.{Session}
use ctap2_test_tool.Tests.Helpers.{credential_id_of, length_offset}
use ctap2_test_tool.Tests.Steps.{passed}

in_range : (xs : Bytes) (i : ℕ) → i < length xs → (y : ℕ) × (get_elem? xs i ≡ some y)
in_range [] i l = absurd (omega arith)
in_range (x ∷ xs) zero l = (x, refl)
in_range (x ∷ xs) (suc i) l = in_range xs i (omega (arith, l))

get_elem?-prefix : (xs ys : Bytes) (i : ℕ) → i < length xs → get_elem? (xs ++ ys) i ≡ get_elem? xs i
get_elem?-prefix [] ys i l = absurd (omega arith)
get_elem?-prefix (x ∷ xs) ys zero l = refl
get_elem?-prefix (x ∷ xs) ys (suc i) l = get_elem?-prefix xs ys i (omega (arith, l))

module _ (cbor : Cbor) where
  -- The three bytes that are read without a check of their own are always there.
  pub credential_id_of-defined :
      (auth_data : Bytes) (s : Session cbor) → (credential_id_of cbor auth_data s).0 ≢ undefined
  unfolding credential_id_of
  credential_id_of-defined auth_data s =
      elim (Bool-cases (leb (length_offset + 2) (length auth_data))) [
        | inr y ↦ λ e. ground (arith, y, e)
        | inl y ↦
            let long : 55 ≤ length auth_data = ground (arith, y) in
            let (flags, f) = in_range auth_data 32 (omega (arith, long)) in
            let (high, h) = in_range auth_data 53 (omega (arith, long)) in
            let (low, l) = in_range auth_data 54 (omega (arith, long)) in
            λ e. ground (arith, y, f, h, l, e)
      ]

  -- The identifier is read back from authenticator data that carry it: 55 bytes with the flag for
  -- attested data, whose last two give the length of the identifier with the higher byte first, then
  -- the identifier, then anything.
  pub credential_id_of-encoded :
      (header id rest : Bytes) (flags high low : ℕ) (s : Session cbor)
      → length header ≡ 55
      → get_elem? header 32 ≡ some flags
      → has_flag flags 0x40 ≡ true
      → get_elem? header 53 ≡ some high
      → get_elem? header 54 ≡ some low
      → 256 * high + low ≡ length id
      → credential_id_of cbor (header ++ (id ++ rest)) s ≡ (done (passed id), s)
  unfolding credential_id_of
  credential_id_of-encoded header id rest flags high low s n f b h l e =
      let auth = header ++ (id ++ rest) in
      let size : length auth ≡ 55 + (length id + length rest) =
        length-append header (id ++ rest)
        ∙ (ap (λ (k : ℕ). length header + k) (length-append id rest)
            ∙ ap (λ (k : ℕ). k + (length id + length rest)) n) in
      let f' : get_elem? auth 32 ≡ some flags =
        get_elem?-prefix header (id ++ rest) 32 (omega (arith, n)) ∙ f in
      let h' : get_elem? auth 53 ≡ some high =
        get_elem?-prefix header (id ++ rest) 53 (omega (arith, n)) ∙ h in
      let l' : get_elem? auth 54 ≡ some low =
        get_elem?-prefix header (id ++ rest) 54 (omega (arith, n)) ∙ l in
      let fits : leb 55 (length auth) ≡ true = ground (arith, size) in
      let fits' : leb (55 + (256 * high + low)) (length auth) ≡ true = ground (arith, size, e) in
      let found : take (256 * high + low) (drop 55 auth) ≡ id =
        ap (take (256 * high + low)) (drop-append 55 header (id ++ rest) n)
        ∙ take-append (256 * high + low) id rest (sym e) in
      ground (arith, fits, f', b, h', l', fits', found)
