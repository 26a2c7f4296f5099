-- ===== src/Adapter/Fixed.antt =====
-- What the fixture of a manifest and a proof's record is made of.
use Prim.Native.String.{String}
use coins_gsr_v.Base.{
  or_panic-ok, ◌≡◌, some, List, [], ◌∷◌, ok, ok_injective, >>=-eq-ok, or_panic, ◌>>=◌,
}
use coins_gsr_v.Bytes.{Bytes}
use coins_gsr_v.Json.{Json}
use coins_gsr_v.Adapter.{Fixture, Verifier, bytes_of, all_bytes, point, fixture_of}

module _ (verifier : Verifier) (json : Json) where
  -- A JSON string of the hexadecimal digits of these bytes.
  abbrev pub IsHex : json.Value → Bytes → Type 0
  IsHex value bytes =
      (text : String) × (json.as_str value ≡ some text) × (verifier.hex_bytes text ≡ ok bytes)

  abbrev AreHex : List json.Value → List Bytes → Type 0
  AreHex [] [] = Unit
  AreHex [] (bytes ∷ rest) = ⊥
  AreHex (value ∷ values) [] = ⊥
  AreHex (value ∷ values) (bytes ∷ rest) = IsHex value bytes × AreHex values rest

  -- A JSON array of such strings, which stand for a stack.
  abbrev IsStack : json.Value → List Bytes → Type 0
  IsStack value stack =
      (values : List json.Value) × (json.as_array value ≡ some values) × AreHex values stack

  -- The point that BitVMX reads from the stack under a name.
  abbrev pub HoldsG1 : json.Value → String → verifier.G1Affine → Type 0
  HoldsG1 value name p =
      (stack : List Bytes) × IsStack (json.index value name) stack
      × (verifier.g1_from_stack stack ≡ ok p)

  abbrev pub HoldsG2 : json.Value → String → verifier.G2Affine → Type 0
  HoldsG2 value name p =
      (stack : List Bytes) × IsStack (json.index value name) stack
      × (verifier.g2_from_stack stack ≡ ok p)

  -- The key is the manifest's folded key, the proof the record's.
  pub record IsFixture (manifest proof_data : json.Value)
      (fixture : Fixture verifier.G1Affine verifier.G2Affine) : Type 0 where
    pub ic0 : HoldsG1 (json.index manifest "folded_key") "ic0" fixture.ic0
    pub ic1 : HoldsG1 (json.index manifest "folded_key") "ic1" fixture.ic1
    pub ic2 : HoldsG1 (json.index manifest "folded_key") "ic2" fixture.ic2
    pub alpha : HoldsG1 (json.index manifest "folded_key") "alpha" fixture.alpha
    pub beta : HoldsG2 (json.index manifest "folded_key") "beta" fixture.beta
    pub gamma : HoldsG2 (json.index manifest "folded_key") "gamma" fixture.gamma
    pub delta : HoldsG2 (json.index manifest "folded_key") "delta" fixture.delta
    pub proof_a : HoldsG1 (json.index proof_data "folded_arkworks") "proof_a" fixture.proof_a
    pub proof_b : HoldsG2 (json.index proof_data "folded_arkworks") "proof_b" fixture.proof_b
    pub proof_c : HoldsG1 (json.index proof_data "folded_arkworks") "proof_c" fixture.proof_c

  pub bytes_of-IsHex :
      (value : json.Value) {bytes : Bytes}
      → bytes_of verifier json value ≡ ok bytes
      → IsHex value bytes
  bytes_of-IsHex value h =
      let (text, is_text, decoded) =
        >>=-eq-ok (or_panic (json.as_str value)) verifier.hex_bytes h in
      (text, or_panic-ok _ is_text, decoded)

  all_bytes-AreHex :
      (values : List json.Value) (stack : List Bytes)
      → all_bytes verifier json values ≡ ok stack
      → AreHex values stack
  all_bytes-AreHex [] [] h = tt
  all_bytes-AreHex [] (bytes ∷ rest) h = cc
  all_bytes-AreHex (value ∷ values) stack h =
      let (first, is_first, h1) = >>=-eq-ok (bytes_of verifier json value) _ h in
      let (rest, is_rest, h2) = >>=-eq-ok (all_bytes verifier json values) _ h1 in
      rw (← ok_injective h2) (bytes_of-IsHex value is_first, all_bytes-AreHex values rest is_rest)

  point-IsStack :
      (value : json.Value) {stack : List Bytes}
      → point verifier json value ≡ ok stack
      → IsStack value stack
  point-IsStack value {stack} h =
      let (values, is_values, h1) = >>=-eq-ok (or_panic (json.as_array value)) _ h in
      (values, or_panic-ok _ is_values, all_bytes-AreHex values stack h1)

  -- A point that is read is the one under its name.
  held_g1 :
      (value : json.Value) (name : String) {p : verifier.G1Affine}
      → point verifier json (json.index value name) >>= verifier.g1_from_stack ≡ ok p
      → HoldsG1 value name p
  held_g1 value name h =
      let (stack, is_stack, read) =
        >>=-eq-ok (point verifier json (json.index value name)) verifier.g1_from_stack h in
      (stack, point-IsStack _ is_stack, read)

  held_g2 :
      (value : json.Value) (name : String) {p : verifier.G2Affine}
      → point verifier json (json.index value name) >>= verifier.g2_from_stack ≡ ok p
      → HoldsG2 value name p
  held_g2 value name h =
      let (stack, is_stack, read) =
        >>=-eq-ok (point verifier json (json.index value name)) verifier.g2_from_stack h in
      (stack, point-IsStack _ is_stack, read)

  pub fixture_of-IsFixture :
      (manifest proof_data : json.Value) {fixture : Fixture verifier.G1Affine verifier.G2Affine}
      → fixture_of verifier json manifest proof_data ≡ ok fixture
      → IsFixture manifest proof_data fixture
  unfolding fixture_of
  fixture_of-IsFixture manifest proof_data h =
      let key = json.index manifest "folded_key" in
      let folded = json.index proof_data "folded_arkworks" in
      let (ic0, is_ic0, h0) = >>=-eq-ok (_ >>= verifier.g1_from_stack) _ h in
      let (ic1, is_ic1, h1) = >>=-eq-ok (_ >>= verifier.g1_from_stack) _ h0 in
      let (ic2, is_ic2, h2) = >>=-eq-ok (_ >>= verifier.g1_from_stack) _ h1 in
      let (alpha, is_alpha, h3) = >>=-eq-ok (_ >>= verifier.g1_from_stack) _ h2 in
      let (beta, is_beta, h4) = >>=-eq-ok (_ >>= verifier.g2_from_stack) _ h3 in
      let (gamma, is_gamma, h5) = >>=-eq-ok (_ >>= verifier.g2_from_stack) _ h4 in
      let (delta, is_delta, h6) = >>=-eq-ok (_ >>= verifier.g2_from_stack) _ h5 in
      let (proof_a, is_a, h7) = >>=-eq-ok (_ >>= verifier.g1_from_stack) _ h6 in
      let (proof_b, is_b, h8) = >>=-eq-ok (_ >>= verifier.g2_from_stack) _ h7 in
      let (proof_c, is_c, h9) = >>=-eq-ok (_ >>= verifier.g1_from_stack) _ h8 in
      rw (← ok_injective h9) (record {
        ic0 = held_g1 key "ic0" is_ic0;
        ic1 = held_g1 key "ic1" is_ic1;
        ic2 = held_g1 key "ic2" is_ic2;
        alpha = held_g1 key "alpha" is_alpha;
        beta = held_g2 key "beta" is_beta;
        gamma = held_g2 key "gamma" is_gamma;
        delta = held_g2 key "delta" is_delta;
        proof_a = held_g1 folded "proof_a" is_a;
        proof_b = held_g2 folded "proof_b" is_b;
        proof_c = held_g1 folded "proof_c" is_c;
      })
