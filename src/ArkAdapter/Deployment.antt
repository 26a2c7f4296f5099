-- ===== src/ArkAdapter/Deployment.antt =====
-- For which program keys `deployment_key` has a folded key.
use coins_gsr_v.Base.{
  ◌≡◌, ◌≢◌, refl, true, false, not, List, [], ◌∷◌, ◌==◌, ==_iff, length, nth, ok, err, some,
  >>=-eq-ok, reject_if, not_rejected, passed, Bool-cases, inl, inr, arith,
}
use coins_gsr_v.Bytes.{Bytes, bytes_eq}
use coins_gsr_v.Bytes.Order.{bytes_eq_iff, bytes_eq_refl}
use coins_gsr_v.Wrapper.{Sp1Verifier}
use coins_gsr_v.ArkAdapter.{Ark, VerifyingKey, FoldedKey, fold, folded_key, deployment_key}

-- Six points have a third and a sixth.
six_points :
    {A : Type 0} (xs : List A)
    → length xs ≡ 6
    → (x : A) × (y : A) × (nth xs 2 ≡ some x) × (nth xs 5 ≡ some y)
six_points (a ∷ b ∷ c ∷ d ∷ e ∷ f ∷ []) h = (c, f, refl, refl)
six_points [] h = absurd (omega arith)
six_points (a ∷ []) h = absurd (omega arith)
six_points (a ∷ b ∷ []) h = absurd (omega arith)
six_points (a ∷ b ∷ c ∷ []) h = absurd (omega arith)
six_points (a ∷ b ∷ c ∷ d ∷ []) h = absurd (omega arith)
six_points (a ∷ b ∷ c ∷ d ∷ e ∷ []) h = absurd (omega arith)
six_points (a ∷ b ∷ c ∷ d ∷ e ∷ f ∷ g ∷ rest) h = absurd (omega arith)

module _ (ark : Ark) (sp1 : Sp1Verifier) where
  -- The wrapper's key loads and has six points for its inputs.
  pub record HasSixPoints : Type 0 where
    pub vk : VerifyingKey ark.G1Affine ark.G2Affine
    pub loaded : ark.load_verifying_key sp1.groth16_vk_bytes ≡ ok vk
    pub six : length vk.gamma_abc_g1 ≡ 6

  -- A program key that is the encoding of its scalar, and folds to a finite point.
  pub record IsFoldable (loads : HasSixPoints) (program : Bytes) : Type 0 where
    pub canonical : ark.fr_to_bytes_be (ark.fr_from_be_bytes_mod_order program) ≡ program
    pub ic0 : ark.G1Affine
    pub folded :
        fold ark loads.vk.gamma_abc_g1
          (ark.fr_from_be_bytes_mod_order program)
          (ark.fr_from_be_bytes_mod_order sp1.vk_root_bytes)
        ≡ ok ic0
    pub finite : ark.g1_is_zero ic0 ≡ false

  -- A program key that is not the encoding of its scalar has an error.
  pub deployment_key-noncanonical :
      (loads : HasSixPoints) (program : Bytes)
      → ark.fr_to_bytes_be (ark.fr_from_be_bytes_mod_order program) ≢ program
      → deployment_key ark sp1 program ≡ err "noncanonical program-key scalar"
  unfolding deployment_key
  deployment_key-noncanonical loads program other =
      let encoding = ark.fr_to_bytes_be (ark.fr_from_be_bytes_mod_order program) in
      let six : (length loads.vk.gamma_abc_g1 == 6) ≡ true = (==_iff _ _).1 loads.six in
      elim (Bool-cases (bytes_eq encoding program)) [
        | inl same ↦ absurd (other ((bytes_eq_iff encoding program).0 same))
        | inr new ↦ rw (loads.loaded, six, new)
      ]

  pub deployment_key-IsFoldable :
      (loads : HasSixPoints) (program : Bytes)
      → IsFoldable loads program
      → (key : FoldedKey) × (deployment_key ark sp1 program ≡ ok key)
  unfolding deployment_key
  deployment_key-IsFoldable loads program f =
      let six : (length loads.vk.gamma_abc_g1 == 6) ≡ true = (==_iff _ _).1 loads.six in
      let (input2, input5, is_input2, is_input5) = six_points loads.vk.gamma_abc_g1 loads.six in
      (
        folded_key ark loads.vk f.ic0 input2 input5,
        rw (
          loads.loaded,
          six,
          f.canonical,
          bytes_eq_refl program,
          f.folded,
          f.finite,
          is_input2,
          is_input5,
        ),
      )

  pub deployment_key-folds :
      (program : Bytes) {key : FoldedKey}
      → deployment_key ark sp1 program ≡ ok key
      → (loads : HasSixPoints) × IsFoldable loads program
  unfolding deployment_key
  deployment_key-folds program h =
      let (vk, loaded, h1) = >>=-eq-ok (ark.load_verifying_key sp1.groth16_vk_bytes) _ h in
      let (_, six, h2) = >>=-eq-ok (reject_if (not (length vk.gamma_abc_g1 == 6)) _) _ h1 in
      let encoding = ark.fr_to_bytes_be (ark.fr_from_be_bytes_mod_order program) in
      let (_, canonical, h3) = >>=-eq-ok (reject_if (not (bytes_eq encoding program)) _) _ h2 in
      let (ic0, folded, h4) = >>=-eq-ok (fold ark vk.gamma_abc_g1 _ _) _ h3 in
      let (_, finite, h5) = >>=-eq-ok (reject_if (ark.g1_is_zero ic0) _) _ h4 in
      (
        record { vk = vk; loaded = loaded; six = (==_iff _ _).0 (passed _ _ six) },
        record {
          canonical = (bytes_eq_iff encoding program).0 (passed _ _ canonical);
          ic0 = ic0;
          folded = folded;
          finite = not_rejected _ _ finite;
        },
      )
