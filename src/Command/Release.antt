-- ===== src/Command/Release.antt =====
-- What `check_release_artifacts` has seen when it ends well.
use Prim.Native.String.{String}
use text.Mathlib.Text.{◌==◌ as str_eq}
use text.Mathlib.TextEquality.{eq_iff}
use coins_gsr_v.Base.{
  ◌≡◌, refl, ap, ◌∙◌, Bool, inl, inr, true, false, not, Option, none, some, List, [], ◌∷◌, Result,
  ok, err, panic, reject_if, not_rejected, passed,
}
use coins_gsr_v.Bytes.{bytes_eq}
use coins_gsr_v.Bytes.Order.{bytes_eq_iff}
use coins_gsr_v.Process.{FilePath, join, Query, env_var, artifacts_dir, is_file, read, Program}
use coins_gsr_v.Process.Holds.{
  History, Asked, Extends, later, here, Asked-Extends, Holds, Holds-bind, Holds-done, Holds-last,
  Holds-weaken,
}
use coins_gsr_v.Evidence.{Environment}
use coins_gsr_v.Command.{when_file, check_files, is_unpinned, check_release_artifacts}

module _ (env : Environment) where
  open env use {client, sp1}

  -- Each file was seen in the directory.
  abbrev pub Present : FilePath → List String → History client → Type 0
  Present directory [] past = Unit
  Present directory (name ∷ names) past =
      Asked (is_file (join directory name), ok true) past × Present directory names past

  abbrev artifacts : List String
  artifacts = "groth16_circuit.bin" ∷ "groth16_pk.bin" ∷ "groth16_vk.bin" ∷ []

  -- No mode is set, or that of the release.
  abbrev pub Pins : Option String → Type 0
  Pins none = Unit
  Pins (some mode) = mode ≡ "release"

  not-false : (b : Bool) → not b ≡ false → b ≡ true
  not-false true h = refl
  not-false false h = cc

  is_unpinned-Pins : (mode : Option String) → is_unpinned env mode ≡ false → Pins mode
  is_unpinned-Pins none h = tt
  is_unpinned-Pins (some mode) h = (eq_iff mode "release").0 (not-false (str_eq mode "release") h)

  -- The circuits are those of the release: no other mode is set, the artifacts are files, and the
  -- installed verification key is that of `sp1_verifier`.
  pub record IsReleased (past : History client) : Type 0 where
    pub mode : Option String
    pub was_mode : Asked (env_var "SP1_CIRCUIT_MODE", mode) past
    pub pinned : Pins mode
    pub directory : FilePath
    pub was_directory : Asked (artifacts_dir, ok directory) past
    pub present : Present directory artifacts past
    pub installed : Asked (read (join directory "groth16_vk.bin"), ok sp1.groth16_vk_bytes) past

  Present-Extends :
      {past now : History client} (directory : FilePath) (names : List String)
      → Extends past now
      → Present directory names past
      → Present directory names now
  Present-Extends directory [] ext h = tt
  Present-Extends directory (name ∷ names) ext h = (
    Asked-Extends (is_file (join directory name), ok true) ext h.0,
    Present-Extends directory names ext h.1,
  )

  pub IsReleased-Extends :
      {past now : History client} → Extends past now → IsReleased past → IsReleased now
  IsReleased-Extends ext r = record {
    mode = r.mode;
    was_mode = Asked-Extends (env_var "SP1_CIRCUIT_MODE", r.mode) ext r.was_mode;
    pinned = r.pinned;
    directory = r.directory;
    was_directory = Asked-Extends (artifacts_dir, ok r.directory) ext r.was_directory;
    present = Present-Extends r.directory artifacts ext r.present;
    installed =
        Asked-Extends (read (join r.directory "groth16_vk.bin"), ok sp1.groth16_vk_bytes) ext
          r.installed;
  }

  module _ (P : History client → Query client → Type 0)
      (env_var_free : (past : History client) (name : String) → P past (env_var name))
      (artifacts_dir_free : (past : History client) → P past artifacts_dir)
      (is_file_free : (past : History client) (p : FilePath) → P past (is_file p))
      (read_free : (past : History client) (p : FilePath) → P past (read p)) where
    found-Holds :
        (Q : History client → Unit {0} → Type 0) (past : History client) (p : FilePath)
        (rest : Program client (Unit {0})) (found : Result String Bool)
        → ((now : History client) → Asked (is_file p, ok true) now → Holds P Q now rest)
        → Holds P Q ((is_file p, found) ∷ past) (when_file env p rest found)
    found-Holds Q past p rest (ok true) k = k _ (inl refl)
    found-Holds Q past p rest (ok false) k = tt
    found-Holds Q past p rest (err e) k = tt
    found-Holds Q past p rest panic k = tt

    check_files-Present :
        (directory : FilePath) (names : List String) (past : History client)
        → Holds P (λ now _. Present directory names now) past (check_files env directory names)
    unfolding check_files
    check_files-Present directory [] past = tt
    check_files-Present directory (name ∷ names) past = (
      is_file_free past (join directory name),
      λ found.
          found-Holds (λ now _. Present directory (name ∷ names) now) past (join directory name)
            (check_files env directory names) found
            λ now seen.
              Holds-weaken P (λ h _. Present directory names h)
                (λ h _. Present directory (name ∷ names) h) now (check_files env directory names)
                (check_files-Present directory names now)
                λ h _ ext rest.
                  (Asked-Extends (is_file (join directory name), ok true) ext seen, rest),
    )

    pub check_release_artifacts-IsReleased :
        (past : History client)
        → Holds P (λ now _. IsReleased now) past (check_release_artifacts env)
    unfolding check_release_artifacts
    check_release_artifacts-IsReleased past = (
      env_var_free past "SP1_CIRCUIT_MODE",
      λ mode.
          Holds-done P (λ now _. IsReleased now) _ (reject_if (is_unpinned env mode) _) _
            λ _ pinned. (
              artifacts_dir_free _,
              λ answer.
                  Holds-done P (λ now _. IsReleased now) _ answer _
                    λ directory is_directory.
                      Holds-bind P (λ now _. Present directory artifacts now)
                        (λ now _. IsReleased now) _ (check_files env directory artifacts) _
                        (check_files-Present directory artifacts _)
                        λ now _ ext present. (
                          read_free now (join directory "groth16_vk.bin"),
                          λ content.
                              Holds-done P (λ now _. IsReleased now) _ content _
                                λ installed is_installed.
                                  Holds-last P (λ now _. IsReleased now) _
                                    (reject_if (not (bytes_eq installed sp1.groth16_vk_bytes)) _)
                                    λ _ same. record {
                                      mode = mode;
                                      was_mode = inr (
                                          Asked-Extends (env_var "SP1_CIRCUIT_MODE", mode) ext
                                            (inr (inl refl)));
                                      pinned = is_unpinned-Pins mode (not_rejected _ _ pinned);
                                      directory = directory;
                                      was_directory = inr (
                                          Asked-Extends (artifacts_dir, ok directory) ext
                                            (inl (ap (λ r. (artifacts_dir, r)) is_directory)));
                                      present =
                                          Present-Extends directory artifacts (later _ here)
                                            present;
                                      installed = inl (
                                          ap (λ r. (read (join directory "groth16_vk.bin"), r))
                                            (is_installed
                                              ∙ ap (λ b. ok b)
                                                  ((bytes_eq_iff installed sp1.groth16_vk_bytes).0
                                                    (passed _ _ same))));
                                    },
                        ),
            ),
    )
