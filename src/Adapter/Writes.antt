-- ===== src/Adapter/Writes.antt =====
-- What the test writes in every run.
use Prim.Native.String.{String}
use coins_gsr_v.Base.{
  assert, assert-ok, or_panic-ok, ◌≡◌, refl, ap, inl, inr, Bool, true, false, not, some, [], ok,
  or_panic, expect, expect-ok,
}
use coins_gsr_v.Json.{Json}
use coins_gsr_v.Process.{Sp1Client, path, Query, env_var, exists, read, write}
use coins_gsr_v.Process.Holds.{
  History, Asked, Extends, here, later, Extends-trans, Asked-Extends, Holds, Holds-bind, Holds-done,
  Holds-last,
}
use coins_gsr_v.Process.Run.{World, run, AllAsked, run-Holds}
use coins_gsr_v.Adapter.{Verifier, check_manifest, fixture_of, inputs_of, replayed}
use coins_gsr_v.Adapter.Fixed.{fixture_of-IsFixture}
use coins_gsr_v.Adapter.Agreed.{check_manifest-IsOfManifest}
use coins_gsr_v.Adapter.Replayed.{inputs_of-IsHashed, replayed-IsReplayed}
use coins_gsr_v.Adapter.Run.{variable, value_in, write_script, load_values, script_test}
use coins_gsr_v.Adapter.Script.{WasSet, WasValue, Permits, Wrote}

module _ (verifier : Verifier) (json : Json) (client : Sp1Client) where
  abbrev Permits' : History client → Query client → Type 0
  Permits' = Permits verifier json client

  abbrev Wrote' : History client → Unit {0} → Type 0
  Wrote' = Wrote verifier json client

  not-true : (b : Bool) → not b ≡ true → b ≡ false
  not-true true h = cc
  not-true false h = refl

  variable-WasSet :
      (past : History client) (name : String)
      → Holds Permits'
          (λ now value. WasSet verifier json client name value now)
          past
          (variable verifier json client name)
  variable-WasSet past name = (
    tt,
    λ value.
        Holds-last Permits' (λ now value'. WasSet verifier json client name value' now) _
          (or_panic value)
          λ text is_text. inl (ap (λ o. (env_var name, o)) (or_panic-ok value is_text)),
  )

  value_in-WasValue :
      (past : History client) (name : String)
      → Holds Permits'
          (λ now value. WasValue verifier json client name value now)
          past
          (value_in verifier json client name)
  value_in-WasValue past name = (
    tt,
    λ answer.
        Holds-done Permits' (λ now value. WasValue verifier json client name value now) _
          (expect answer) _
          λ text is_text.
            Holds-last Permits' (λ now value. WasValue verifier json client name value now) _
              (expect (json.from_slice text))
              λ value is_value. record {
                text = text;
                was_read = inl (ap (λ r. (read (path name), r)) (expect-ok answer is_text));
                parsed = expect-ok (json.from_slice text) is_value;
              },
  )

  WasValue-Extends :
      {name : String} {value : json.Value} {past now : History client}
      → Extends past now
      → WasValue verifier json client name value past
      → WasValue verifier json client name value now
  WasValue-Extends {name} ext v = record {
    text = v.text;
    was_read = Asked-Extends (read (path name), ok v.text) ext v.was_read;
    parsed = v.parsed;
  }

  module _ (proof_path manifest_path output : String) where
    -- What was asked before the two values are looked at.
    record Loaded (proof_data manifest : json.Value) (past : History client) : Type 0 where
      was_proof_path : WasSet verifier json client "COINS_GSR_PROOF" proof_path past
      was_manifest_path : WasSet verifier json client "COINS_GSR_DEPLOYMENT" manifest_path past
      was_output : WasSet verifier json client "COINS_GSR_SCRIPT_OUTPUT" output past
      was_absent : Asked (exists (path output), false) past
      was_proof_data : WasValue verifier json client proof_path proof_data past
      was_manifest : WasValue verifier json client manifest_path manifest past

    write_script-Holds :
        (past : History client) (proof_data manifest : json.Value)
        → Loaded proof_data manifest past
        → Holds Permits' Wrote' past (write_script verifier json client output proof_data manifest)
    unfolding write_script
    write_script-Holds past proof_data manifest l =
        Holds-done Permits' Wrote' past (check_manifest verifier json manifest proof_data) _
          λ _ checked.
            Holds-done Permits' Wrote' past (fixture_of verifier json manifest proof_data) _
              λ fixture is_fixture.
                Holds-done Permits' Wrote' past (inputs_of verifier json proof_data) _
                  λ (input0, input1) is_inputs.
                    Holds-done Permits' Wrote' past
                      (replayed verifier json proof_data fixture input0 input1) _
                      λ value is_value.
                        Holds-done Permits' Wrote' past (expect (json.to_vec_pretty value)) _
                          λ content is_content. (
                            (
                              output,
                              refl,
                              l.was_output,
                              l.was_absent,
                              record {
                                proof_path = proof_path;
                                was_proof_path = l.was_proof_path;
                                proof_data = proof_data;
                                was_proof_data = l.was_proof_data;
                                manifest_path = manifest_path;
                                was_manifest_path = l.was_manifest_path;
                                manifest = manifest;
                                was_manifest = l.was_manifest;
                                agrees =
                                    check_manifest-IsOfManifest verifier json manifest proof_data
                                      checked;
                                fixture = fixture;
                                is_fixture =
                                    fixture_of-IsFixture verifier json manifest proof_data
                                      is_fixture;
                                input0 = input0;
                                input1 = input1;
                                hashed =
                                    inputs_of-IsHashed verifier json proof_data input0 input1
                                      is_inputs;
                                value = value;
                                replays =
                                    replayed-IsReplayed verifier json proof_data fixture input0
                                      input1 value is_value;
                                content = expect-ok (json.to_vec_pretty value) is_content;
                              },
                            ),
                            λ answer. Holds-last Permits' Wrote' _ (expect answer) λ _ is_written. (
                              output,
                              inr l.was_output,
                              (
                                content,
                                inl (
                                    ap (λ r. (write (path output) content, r))
                                      (expect-ok answer is_written)),
                              ),
                            ),
                          )

    load_values-Holds :
        (past : History client)
        → WasSet verifier json client "COINS_GSR_PROOF" proof_path past
        → WasSet verifier json client "COINS_GSR_DEPLOYMENT" manifest_path past
        → WasSet verifier json client "COINS_GSR_SCRIPT_OUTPUT" output past
        → Holds Permits' Wrote' past
            (load_values verifier json client proof_path manifest_path output)
    unfolding load_values
    load_values-Holds past proof_set manifest_set output_set = (
      tt,
      λ found. Holds-done Permits' Wrote' _ (assert (not found)) _ λ _ fresh.
          Holds-bind Permits' (λ now v. WasValue verifier json client proof_path v now) Wrote' _
            (value_in verifier json client proof_path) _ (value_in-WasValue _ proof_path)
            λ middle proof_data ext proof_value.
              Holds-bind Permits' (λ now v. WasValue verifier json client manifest_path v now)
                Wrote' middle (value_in verifier json client manifest_path) _
                (value_in-WasValue middle manifest_path)
                λ now manifest ext' manifest_value.
                  let since = Extends-trans ext ext' in
                  let after = Extends-trans (later (exists (path output), found) here) since in
                  write_script-Holds now proof_data manifest (record {
                    was_proof_path =
                        Asked-Extends (env_var "COINS_GSR_PROOF", some proof_path) after proof_set;
                    was_manifest_path =
                        Asked-Extends (env_var "COINS_GSR_DEPLOYMENT", some manifest_path) after
                          manifest_set;
                    was_output =
                        Asked-Extends (env_var "COINS_GSR_SCRIPT_OUTPUT", some output) after
                          output_set;
                    was_absent =
                        Asked-Extends (exists (path output), false) since
                          (inl (
                            ap (λ b. (exists (path output), b))
                              (not-true found (assert-ok _ fresh))));
                    was_proof_data = WasValue-Extends ext' proof_value;
                    was_manifest = manifest_value;
                  }),
    )

  script_test-Holds : Holds Permits' Wrote' [] (script_test verifier json client)
  unfolding script_test
  script_test-Holds =
      Holds-bind Permits' (λ now v. WasSet verifier json client "COINS_GSR_PROOF" v now) Wrote' []
        (variable verifier json client "COINS_GSR_PROOF") _ (variable-WasSet [] "COINS_GSR_PROOF")
        λ first proof_path _ proof_set.
          Holds-bind Permits' (λ now v. WasSet verifier json client "COINS_GSR_DEPLOYMENT" v now)
            Wrote' first (variable verifier json client "COINS_GSR_DEPLOYMENT") _
            (variable-WasSet first "COINS_GSR_DEPLOYMENT")
            λ second manifest_path ext manifest_set.
              Holds-bind Permits'
                (λ now v. WasSet verifier json client "COINS_GSR_SCRIPT_OUTPUT" v now) Wrote' second
                (variable verifier json client "COINS_GSR_SCRIPT_OUTPUT")
                (λ output. load_values verifier json client proof_path manifest_path output)
                (variable-WasSet second "COINS_GSR_SCRIPT_OUTPUT")
                λ third output ext' output_set.
                  load_values-Holds proof_path manifest_path output third
                    (Asked-Extends (env_var "COINS_GSR_PROOF", some proof_path)
                      (Extends-trans ext ext') proof_set)
                    (Asked-Extends (env_var "COINS_GSR_DEPLOYMENT", some manifest_path) ext'
                      manifest_set)
                    output_set

  -- In every run of the test, nothing is written but the output file, and that only after it was seen
  -- not to exist, with a script for the proof in the host's record that was read: the manifest that
  -- was read is of the same program and folded key; the proof of the record was accepted for that key
  -- with the masked hash of the public values as its first input; the weight with the script fits a
  -- block, and the script was evaluated with success. The file tells of that script, its stack and
  -- weight. A run that ends well has written it.
  pub script_test_writes :
      (world : World client)
      → AllAsked Permits' (run world [] (script_test verifier json client)).0
        × ((u : Unit {0})
            → (run world [] (script_test verifier json client)).1 ≡ ok u
            → Wrote' (run world [] (script_test verifier json client)).0 u)
  script_test_writes world =
      run-Holds Permits' Wrote' world [] (script_test verifier json client) tt script_test-Holds
