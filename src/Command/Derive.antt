-- ===== src/Command/Derive.antt =====
-- What `derive` writes, and when.
use Prim.Native.String.{String}
use coins_gsr_v.Base.{◌≡◌, refl, ap, inl, inr, false, [], ok, reject_if, not_rejected}
use coins_gsr_v.Bytes.{Bytes}
use coins_gsr_v.Bridge.{validate_proof_input}
use coins_gsr_v.Host.{ScenarioBundle, scenario}
use coins_gsr_v.Host.Scenarios.{scenario-revalidates}
use coins_gsr_v.Process.{path, Query, exists, read, write, create_dir, prove, save}
use coins_gsr_v.Process.Holds.{History, Asked, Holds, Holds-done, Holds-last}
use coins_gsr_v.Process.Run.{World, run, AllAsked, run-Holds}
use coins_gsr_v.Evidence.{Environment}
use coins_gsr_v.Command.{derive, to_option}

module _ (env : Environment) (request_name output_name : String) where
  open env use {coins, build, client, json}

  -- Bytes of a bundle that holds the request that was read, and an input that the protocol accepts
  -- with the statement in the bundle.
  pub record IsBundle (past : History client) (bytes : Bytes) : Type 0 where
    pub bundle : ScenarioBundle json
    pub text : Bytes
    pub was_read : Asked (read (path request_name), ok text) past
    pub request : json.from_slice text ≡ ok bundle.request
    pub encoded : env.bundle_to_vec_pretty bundle ≡ ok bytes
    pub valid : validate_proof_input coins build bundle.proof_input ≡ ok bundle.transition.statement

  -- The one file that may be written is the output, when it was seen not to exist.
  abbrev pub Permits : History client → Query client → Type 0
  Permits past (write p bytes) =
      (p ≡ path output_name) × Asked (exists (path output_name), false) past × IsBundle past bytes
  Permits past (create_dir p) = ⊥
  Permits past (save proof p) = ⊥
  Permits past (prove key input) = ⊥
  Permits past _ = Unit

  abbrev pub Wrote : History client → Unit {0} → Type 0
  Wrote past _ = (bytes : Bytes) × Asked (write (path output_name) bytes, ok tt) past

  pub derive-Holds : Holds Permits Wrote [] (derive env request_name output_name)
  unfolding derive
  derive-Holds = (
    tt,
    λ found. Holds-done Permits Wrote _ (reject_if found _) _ λ _ fresh. (
      tt,
      λ answer. Holds-done Permits Wrote _ answer _ λ text is_text.
          Holds-done Permits Wrote _ (json.from_slice text) _ λ request is_request.
            Holds-done Permits Wrote _ (env.scenario_from_value request) _ λ value _.
              Holds-done Permits Wrote _ (scenario env.signer coins build _ json value) _
                λ bundle made.
                  Holds-done Permits Wrote _
                    (env.bundle_to_vec_pretty (record bundle { request = request })) _
                    λ content is_content. (
                      (
                        refl,
                        inr (
                            inl (
                              ap (λ b. (exists (path output_name), b))
                                (not_rejected found _ fresh))),
                        record {
                          bundle = record bundle { request = request };
                          text = text;
                          was_read = inl (ap (λ r. (read (path request_name), r)) is_text);
                          request = is_request;
                          encoded = is_content;
                          valid =
                              scenario-revalidates env.signer coins build
                                (λ digits. to_option (env.hex_decode digits)) json value made;
                        },
                      ),
                      λ written.
                          Holds-last Permits Wrote _ written λ _ e.
                            (content, inl (ap (λ r. (write (path output_name) content, r)) e)),
                    ),
    ),
  )

  -- In every run of `derive`, nothing is written but the output file, and that only after it was seen
  -- not to exist, with a bundle that holds the request that was read, and an input that the protocol
  -- accepts with the bundle's statement. A run that ends well has written it.
  pub derive_writes :
      (world : World client)
      → AllAsked Permits (run world [] (derive env request_name output_name)).0
        × ((u : Unit {0})
            → (run world [] (derive env request_name output_name)).1 ≡ ok u
            → Wrote (run world [] (derive env request_name output_name)).0 u)
  derive_writes world =
      run-Holds Permits Wrote world [] (derive env request_name output_name) tt derive-Holds
