-- ===== src/Command/Prepare.antt =====
-- What `prepare` writes, and when.
use Prim.Native.String.{String}
use coins_gsr_v.Base.{◌≡◌, refl, ap, inl, inr, false, [], ok, reject_if, not_rejected}
use coins_gsr_v.Bytes.{Bytes}
use coins_gsr_v.Process.{path, join, Query, exists, read, write, create_dir, prove, save}
use coins_gsr_v.Process.Holds.{History, Asked, Holds, Holds-done, Holds-last}
use coins_gsr_v.Process.Run.{World, run, AllAsked, run-Holds}
use coins_gsr_v.Evidence.{Environment, sha256_hex, program_key, deployment_json}
use coins_gsr_v.Command.{prepare}

module _ (env : Environment) (elf_name directory_name : String) where
  open env use {client}

  -- Bytes of a deployment of the program that was read.
  pub record IsDeployment (past : History client) (bytes : Bytes) : Type 0 where
    pub elf : Bytes
    pub was_read : Asked (read (path elf_name), ok elf) past
    pub proving_key : client.ProvingKey
    pub is_set_up : client.setup elf ≡ ok proving_key
    pub key : Bytes
    pub is_key : program_key env proving_key ≡ ok key
    pub encoded : deployment_json env (sha256_hex env elf) key ≡ ok bytes

  -- The directory was seen not to exist.
  abbrev pub WasAbsent : History client → Type 0
  WasAbsent past = Asked (exists (path directory_name), false) past

  abbrev pub Permits : History client → Query client → Type 0
  Permits past (create_dir p) = (p ≡ path directory_name) × WasAbsent past
  Permits past (write p bytes) =
      (p ≡ join (path directory_name) "deployment.json")
      × Asked (create_dir (path directory_name), ok tt) past
      × IsDeployment past bytes
  Permits past (save proof p) = ⊥
  Permits past (prove key input) = ⊥
  Permits past _ = Unit

  abbrev pub Wrote : History client → Unit {0} → Type 0
  Wrote past _ =
      (bytes : Bytes) × Asked (write (join (path directory_name) "deployment.json") bytes, ok tt)
        past

  pub prepare-Holds : Holds Permits Wrote [] (prepare env elf_name directory_name)
  unfolding prepare
  prepare-Holds = (
    tt,
    λ answer. Holds-done Permits Wrote _ answer _ λ elf is_elf. (
      tt,
      λ found. Holds-done Permits Wrote _ (reject_if found _) _ λ _ fresh.
          Holds-done Permits Wrote _ (client.setup elf) _ λ proving_key set_up.
            Holds-done Permits Wrote _ (program_key env proving_key) _ λ key is_key. (
              (
                refl,
                inl (ap (λ b. (exists (path directory_name), b)) (not_rejected found _ fresh)),
              ),
              λ made. Holds-done Permits Wrote _ made _ λ u is_made.
                  Holds-done Permits Wrote _ (deployment_json env (sha256_hex env elf) key) _
                    λ content is_content. (
                      (
                        refl,
                        inl (ap (λ r. (create_dir (path directory_name), r)) is_made),
                        record {
                          elf = elf;
                          was_read = inr (inr (inl (ap (λ r. (read (path elf_name), r)) is_elf)));
                          proving_key = proving_key;
                          is_set_up = set_up;
                          key = key;
                          is_key = is_key;
                          encoded = is_content;
                        },
                      ),
                      λ written. Holds-last Permits Wrote _ written λ _ e. (
                        content,
                        inl (
                            ap
                              (λ r.
                                (write (join (path directory_name) "deployment.json") content, r))
                              e),
                      ),
                    ),
            ),
    ),
  )

  -- In every run of `prepare`, nothing is made or written but the artifact directory, after it was
  -- seen not to exist, and then in it `deployment.json`, with the folded key of the program that was
  -- read. A run that ends well has written it.
  pub prepare_writes :
      (world : World client)
      → AllAsked Permits (run world [] (prepare env elf_name directory_name)).0
        × ((u : Unit {0})
            → (run world [] (prepare env elf_name directory_name)).1 ≡ ok u
            → Wrote (run world [] (prepare env elf_name directory_name)).0 u)
  prepare_writes world =
      run-Holds Permits Wrote world [] (prepare env elf_name directory_name) tt prepare-Holds
