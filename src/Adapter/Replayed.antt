-- ===== src/Adapter/Replayed.antt =====
-- What the assertions of the test have seen when they pass.
use Prim.Native.String.{String}
use coins_gsr_v.Base.{
  assert, assert-ok, ℕ, ◌+◌, ◌%◌, ◌≤◌, ◌≡◌, refl, sym, ap, ◌∙◌, true, leb, ◌==◌, ==_iff, leb_iff,
  some, List, [], ◌∷◌, map, length, ok, ok_injective, >>=-eq-ok, or_panic, or_panic-ok, arith,
}
use coins_gsr_v.Bytes.{Bytes}
use coins_gsr_v.Bytes.Endian.{from_le_bytes, from_be_bytes}
use coins_gsr_v.Json.{Json, lookup}
use coins_gsr_v.Adapter.Fixed.{IsHex, bytes_of-IsHex}
use coins_gsr_v.Adapter.{
  Fixture, Artifact, Evaluation, Verifier, max_varops_budget, mask_first, checked_sub, checked_add,
  bytes_of, inputs_of, estimated_weight, script_value, replayed,
}

module _ (verifier : Verifier) (json : Json) where
  -- The first input is the hash of the public values, less the top three bits of its first byte; the
  -- second is the record's.
  pub record IsHashed (proof_data : json.Value) (input0 input1 : ℕ) : Type 0 where
    pub values : Bytes
    pub public_values : IsHex verifier json (json.index proof_data "public_values") values
    pub first : ℕ
    pub rest : Bytes
    pub hash : verifier.sha256 values ≡ first ∷ rest
    pub input0_is : input0 ≡ from_be_bytes (first % 32 ∷ rest)
    pub bytes1 : Bytes
    pub is_bytes1 :
        IsHex verifier json (json.index (json.index proof_data "folded_arkworks") "input1") bytes1
    pub input1_is : input1 ≡ from_le_bytes bytes1

  masked :
      (hash : Bytes) {digest : Bytes}
      → mask_first hash ≡ ok digest
      → (first : ℕ) × (rest : Bytes) × (hash ≡ first ∷ rest) × (digest ≡ first % 32 ∷ rest)
  masked [] h = cc
  masked (b ∷ bs) h = (b, bs, refl, sym (ok_injective h))

  pub inputs_of-IsHashed :
      (proof_data : json.Value) (input0 input1 : ℕ)
      → inputs_of verifier json proof_data ≡ ok (input0, input1)
      → IsHashed proof_data input0 input1
  unfolding inputs_of
  inputs_of-IsHashed proof_data input0 input1 h =
      let folded = json.index proof_data "folded_arkworks" in
      let (bytes0, _, h1) = >>=-eq-ok (bytes_of verifier json (json.index folded "input0")) _ h in
      let (bytes1, is_bytes1, h2) =
        >>=-eq-ok (bytes_of verifier json (json.index folded "input1")) _ h1 in
      let (values, is_values, h3) =
        >>=-eq-ok (bytes_of verifier json (json.index proof_data "public_values")) _ h2 in
      let (digest, is_digest, h4) = >>=-eq-ok (mask_first (verifier.sha256 values)) _ h3 in
      let (_, same, h5) = >>=-eq-ok (assert (from_le_bytes bytes0 == from_be_bytes digest)) _ h4 in
      let (first, rest, hash, digest_is) = masked (verifier.sha256 values) is_digest in
      let pair_is = ok_injective h5 in
      record {
        values = values;
        public_values = bytes_of-IsHex verifier json _ is_values;
        first = first;
        rest = rest;
        hash = hash;
        input0_is =
            sym (ap (λ p. p.0) pair_is)
            ∙ (==_iff _ _).0 (assert-ok _ same)
            ∙ ap from_be_bytes digest_is;
        bytes1 = bytes1;
        is_bytes1 = bytes_of-IsHex verifier json _ is_bytes1;
        input1_is = sym (ap (λ p. p.1) pair_is);
      }

  -- The value tells of a script for a proof that was accepted; with the script in place of the one
  -- that the estimate is of, the weight fits a block; and its evaluation succeeded with an empty stack.
  -- The script, its stack, its weight and the public values stand in the value under their names.
  pub record IsReplayed (proof_data : json.Value)
      (fixture : Fixture verifier.G1Affine verifier.G2Affine) (input0 input1 : ℕ)
      (value : json.Value) : Type 0 where
    pub report : verifier.Report
    pub replay : verifier.replay fixture input0 input1 ≡ ok report
    pub accepted : verifier.accepted report ≡ true
    pub artifact : Artifact
    pub is_artifact : verifier.monolithic_artifact report fixture input0 input1 ≡ ok artifact
    pub script : Bytes
    pub compiled : verifier.compile_macros artifact.script ≡ ok script
    pub weight : ℕ
    pub replaces_script :
        weight + artifact.script_bytes ≡ artifact.estimated_tx_weight + length script
    pub weight_fits : weight ≤ 4_000_000
    pub result : Evaluation
    pub evaluated : verifier.eval_gsr script artifact.witness_stack max_varops_budget ≡ ok result
    pub success : result.success ≡ true
    pub stack_empty : length result.stack_after ≡ 0
    pub remaining : ℕ
    pub is_remaining : result.varops_budget_remaining ≡ some remaining
    pub varops : ℕ
    pub spends : varops + remaining ≡ 40_000_000_000
    pub fields : List (String × json.Value)
    pub value_is : value ≡ json.object fields
    pub tells_script : lookup "script" fields ≡ some (json.string (verifier.bytes_hex script))
    pub tells_stack :
        lookup "stack" fields
        ≡ some (
            json.array (map (λ item. json.string (verifier.bytes_hex item)) artifact.witness_stack))
    pub tells_weight : lookup "estimated_weight" fields ≡ some (json.number weight)
    pub tells_varops : lookup "measured_varops" fields ≡ some (json.number varops)
    pub tells_values : lookup "public_values" fields ≡ some (json.index proof_data "public_values")

  checked_sub-ok : (a b c : ℕ) → checked_sub a b ≡ ok c → c + b ≡ a
  checked_sub-ok a b c h = ground (arith, leb_iff b a)

  checked_add-ok : (a b c : ℕ) → checked_add a b ≡ ok c → c ≡ a + b
  checked_add-ok a b c h = ground arith

  estimated_weight-fits :
      (artifact : Artifact) (script : Bytes) (weight : ℕ)
      → estimated_weight verifier json artifact script ≡ ok weight
      → (weight + artifact.script_bytes ≡ artifact.estimated_tx_weight + length script)
        × (weight ≤ 4_000_000)
  unfolding estimated_weight
  estimated_weight-fits artifact script weight h =
      let (rest, is_rest, h1) =
        >>=-eq-ok (checked_sub artifact.estimated_tx_weight artifact.script_bytes) _ h in
      let (sum, is_sum, h2) = >>=-eq-ok (checked_add rest (length script)) _ h1 in
      let (_, fits, h3) = >>=-eq-ok (assert (leb sum 4_000_000)) _ h2 in
      let less = checked_sub-ok _ _ rest is_rest in
      let more = checked_add-ok rest (length script) sum is_sum in
      let small = (leb_iff sum 4_000_000).0 (assert-ok _ fits) in
      rw (← ok_injective h3) (omega arith, small)

  pub replayed-IsReplayed :
      (proof_data : json.Value) (fixture : Fixture verifier.G1Affine verifier.G2Affine)
      (input0 input1 : ℕ) (value : json.Value)
      → replayed verifier json proof_data fixture input0 input1 ≡ ok value
      → IsReplayed proof_data fixture input0 input1 value
  unfolding replayed script_value
  replayed-IsReplayed proof_data fixture input0 input1 value h =
      let (report, replay, h1) = >>=-eq-ok (verifier.replay fixture input0 input1) _ h in
      let (_, accepted, h2) = >>=-eq-ok (assert (verifier.accepted report)) _ h1 in
      let (artifact, is_artifact, h3) =
        >>=-eq-ok (verifier.monolithic_artifact report fixture input0 input1) _ h2 in
      let (script, compiled, h4) = >>=-eq-ok (verifier.compile_macros artifact.script) _ h3 in
      let (weight, is_weight, h5) =
        >>=-eq-ok (estimated_weight verifier json artifact script) _ h4 in
      let (result, evaluated, h6) =
        >>=-eq-ok (verifier.eval_gsr script artifact.witness_stack max_varops_budget) _ h5 in
      let (_, success, h7) = >>=-eq-ok (assert result.success) _ h6 in
      let (_, stack_empty, h8) = >>=-eq-ok (assert (length result.stack_after == 0)) _ h7 in
      let (remaining, is_remaining, h9) =
        >>=-eq-ok (or_panic result.varops_budget_remaining) _ h8 in
      let (varops, is_varops, h10) = >>=-eq-ok (checked_sub max_varops_budget remaining) _ h9 in
      let (replaces_script, weight_fits) = estimated_weight-fits artifact script weight is_weight in
      record {
        report = report;
        replay = replay;
        accepted = assert-ok _ accepted;
        artifact = artifact;
        is_artifact = is_artifact;
        script = script;
        compiled = compiled;
        weight = weight;
        replaces_script = replaces_script;
        weight_fits = weight_fits;
        result = result;
        evaluated = evaluated;
        success = assert-ok _ success;
        stack_empty = (==_iff _ _).0 (assert-ok _ stack_empty);
        remaining = remaining;
        is_remaining = or_panic-ok _ is_remaining;
        varops = varops;
        spends = checked_sub-ok max_varops_budget remaining varops is_varops;
        fields = _;
        value_is = sym (ok_injective h10);
        tells_script = refl;
        tells_stack = refl;
        tells_weight = refl;
        tells_varops = refl;
        tells_values = refl;
      }
