-- ===== src/Command/Session/Steps.antt =====
-- The parts of a session behind the guest's run: the proof is obtained, and its record written.
use text.Mathlib.Text.{◌==◌ as str_eq}
use coins_gsr_v.Base.{
  ◌≡◌, refl, ap, inl, inr, Bool, true, false, ◌||◌, Bool-cases, Option, none, some, ◌∷◌, reject_if,
  not_rejected, arith,
}
use coins_gsr_v.Bytes.{Bytes}
use coins_gsr_v.Protocol.{ProofInput}
use coins_gsr_v.Process.{FilePath, path, join, Query, exists, write, prove, load}
use coins_gsr_v.Process.Holds.{History, here, later, Holds, Holds-bind, Holds-done, Holds-last}
use coins_gsr_v.Evidence.{Environment, sha256_hex, check_evidence, verified_json, verified_fields}
use coins_gsr_v.Evidence.Checks.{check_evidence-IsVerified_iff}
use coins_gsr_v.Command.{older_seconds, obtain_proof, recorded_seconds, record_proof}
use coins_gsr_v.Command.Release.{IsReleased, IsReleased-Extends}
use coins_gsr_v.Command.Session.{
  Arguments, IsExecuted, IsExecuted-Extends, IsKeyed, WasAbsent, WasObtained, WasObtained-Extends,
  verified_json-exported, verified_json-fields, Permits, Wrote,
}

or-second : (a b c : Bool) → (a || b || c) ≡ true → a ≡ false → c ≡ false → b ≡ true
or-second a true c h k l = refl
or-second a false c h k l = ground arith

module _ (env : Environment) (args : Arguments) where
  open env use {coins, build, sp1, ark, client}
  open args use {command, input_name, elf_name, directory_name}

  abbrev directory : FilePath
  directory = path directory_name

  abbrev Permits' : History client → Query client → Type 0
  Permits' = Permits env args

  abbrev Wrote' : History client → Unit {0} → Type 0
  Wrote' = Wrote env args

  abbrev IsExecuted' : History client → ProofInput → Bytes → Bytes → Type 0
  IsExecuted' = IsExecuted env args

  recorded_seconds-Holds :
      (past : History client) (seconds : Option client.Seconds)
      → Holds Permits' (λ _ _. Unit) past (recorded_seconds env seconds directory)
  unfolding recorded_seconds
  recorded_seconds-Holds past (some seconds) = tt
  recorded_seconds-Holds past none =
      (tt, λ older. Holds-last Permits' (λ _ _. Unit) _ (older_seconds env older) λ _ _. tt)

  module _
      (known : (str_eq command "execute" || str_eq command "prove" || str_eq command "verify")
        ≡ true) where
    module _ (input : ProofInput) (expected elf key : Bytes) (proving_key : client.ProvingKey)
        (keyed : IsKeyed env args elf proving_key key)
        (not_execute : str_eq command "execute" ≡ false) where
      pub Obtained : History client → client.Sp1Proof × Option client.Seconds → Type 0
      Obtained now (proof, seconds) = WasObtained env args now proving_key input proof

      pub obtain_proof-Holds :
          (past : History client)
          → IsExecuted' past input expected elf
          → (str_eq command "prove" ≡ true → IsReleased env past)
          → Holds Permits' Obtained past (obtain_proof env command proving_key input directory)
      unfolding obtain_proof Obtained
      obtain_proof-Holds past x released = elim (Bool-cases (str_eq command "verify")) [
        | inl verifying ↦
            rw (verifying, obtain_proof)
              (
                tt,
                λ answer. Holds-done Permits' Obtained _ answer _ λ proof is_loaded.
                    inl (inl (ap (λ r. (load (join directory "proof.bin"), r)) is_loaded)),
              )
        | inr making ↦
            let proving = or-second _ _ _ known not_execute making in
            rw (making, obtain_proof)
              (
                tt,
                λ found. Holds-done Permits' Obtained _ (reject_if found _) _ λ _ fresh.
                    let absent : WasAbsent env args ((exists directory, found) ∷ past) =
                      inl (ap (λ b. (exists directory, b)) (not_rejected found _ fresh)) in
                    (
                      (
                        proving,
                        IsReleased-Extends env (later _ here) (released proving),
                        absent,
                        (expected, elf, key, IsExecuted-Extends env args (later _ here) x, keyed),
                      ),
                      λ answer. Holds-done Permits' Obtained _ answer _ λ pair is_made.
                          let made = ap (λ r. (prove proving_key input, r)) is_made in
                          (
                            (refl, proving, inr absent),
                            λ dir. Holds-done Permits' Obtained _ dir _ λ _ _. (
                              (refl, proving, (proving_key, input, pair.1, inr (inl made))),
                              λ saved.
                                  Holds-done Permits' Obtained _ saved _
                                    λ _ _. inr (pair.1, inr (inr (inl made))),
                            ),
                          ),
                    ),
              )
      ]

      pub record_proof-Holds :
          (past : History client) (x : IsExecuted' past input expected elf)
          (pair : client.Sp1Proof × Option client.Seconds)
          → Obtained past pair
          → Holds Permits' Wrote' past (
              record_proof env input expected
                (sha256_hex env elf)
                x.instructions
                proving_key
                key
                directory
                pair)
      unfolding record_proof Obtained IsExecuted-Extends
      record_proof-Holds past x (proof, seconds) obtained =
          Holds-done Permits' Wrote' past (check_evidence env proof proving_key key expected) _
            λ u evident.
              Holds-bind Permits' (λ _ _. Unit) Wrote' past (recorded_seconds env seconds directory)
                _ (recorded_seconds-Holds past seconds)
                λ now recorded ext _.
                  Holds-done Permits' Wrote' now
                    (verified_json env input (sha256_hex env elf) key expected proof x.instructions
                      recorded)
                    _
                    λ content is_content.
                      let (e, is_e) =
                        verified_json-exported env args input (sha256_hex env elf) key expected
                          proof x.instructions recorded content is_content in
                      (
                        (
                          refl,
                          not_execute,
                          record {
                            input = input;
                            expected = expected;
                            elf = elf;
                            proving_key = proving_key;
                            key = key;
                            proof = proof;
                            executed = IsExecuted-Extends env args ext x;
                            keyed = keyed;
                            obtained =
                                WasObtained-Extends env args proving_key input proof ext obtained;
                            verified =
                                (check_evidence-IsVerified_iff env proof proving_key key expected).0
                                  evident;
                            exported = (e, is_e);
                            seconds = recorded;
                            content = is_content;
                            fields =
                                verified_fields env input (sha256_hex env elf) key expected proof
                                  x.instructions recorded e;
                            is_object =
                                verified_json-fields env args input (sha256_hex env elf) key
                                  expected content proof x.instructions recorded e is_e is_content;
                            tells_elf = refl;
                            tells_program = refl;
                            tells_statement = refl;
                          },
                        ),
                        λ written. Holds-done Permits' Wrote' _ written _ λ _ is_written. (
                          tt,
                          λ _. inr (
                            content,
                            inr (
                                inl (
                                  ap (λ r. (write (join directory "verified.json") content, r))
                                    is_written)),
                          ),
                        ),
                      )
