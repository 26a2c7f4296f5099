-- ===== src/ArkAdapter/Agreement.antt =====
-- An exported proof's key is the key of the deployment.
use Prim.Native.String.{String}
use coins_gsr_v.Base.{
  nth, ok_injective, not_rejected, ℕ, ◌<◌, ◌≡◌, refl, sym, ap, ap₂, ◌∙◌, true, false, not, ◌||◌,
  Bool, List, [], ◌∷◌, map, ◌==◌, length, All, ok, >>=-eq-ok, or_panic, reject_if,
}
use coins_gsr_v.Bytes.{Bytes, IsByte, IsArray}
use coins_gsr_v.Bytes.Endian.{from_be_bytes}
use coins_gsr_v.Bytes.Order.{bytes_eq_refl}
use coins_gsr_v.Crates.{Coins}
use coins_gsr_v.Wrapper.{Sp1Verifier, decode}
use coins_gsr_v.Wrapper.Envelope.{fr_modulus, decode-ok}
use coins_gsr_v.ArkAdapter.{
  Ark, VerifyingKey, Proof, export_folded, Export, field, fold, folded_key, is_invalid,
  deployment_key, export,
}

or-first : (a b c : Bool) → (not a || b || c) ≡ false → a ≡ true
or-first true b c h = refl
or-first false true c h = cc
or-first false false true h = cc
or-first false false false h = cc

-- What the adapter relies on in Arkworks: a canonical encoding of a scalar is read back.
abbrev pub IsFaithful : Ark → Type 0
IsFaithful ark =
    (bs : Bytes)
    → IsArray 32 bs
    → from_be_bytes bs < fr_modulus
    → ark.fr_to_bytes_be (ark.fr_from_be_bytes_mod_order bs) ≡ bs

module _ (ark : Ark) (sp1 : Sp1Verifier) (coins : Coins) (faithful : IsFaithful ark) where
  deployment_key-ok :
      (program : Bytes) (vk : VerifyingKey ark.G1Affine ark.G2Affine) (ic0 ic1 ic2 : ark.G1Affine)
      → ark.load_verifying_key sp1.groth16_vk_bytes ≡ ok vk
      → (length vk.gamma_abc_g1 == 6) ≡ true
      → ark.fr_to_bytes_be (ark.fr_from_be_bytes_mod_order program) ≡ program
      → fold ark vk.gamma_abc_g1
          (ark.fr_from_be_bytes_mod_order program)
          (ark.fr_from_be_bytes_mod_order sp1.vk_root_bytes)
        ≡ ok ic0
      → ark.g1_is_zero ic0 ≡ false
      → or_panic {E = String} (nth vk.gamma_abc_g1 2) ≡ ok ic1
      → or_panic {E = String} (nth vk.gamma_abc_g1 5) ≡ ok ic2
      → deployment_key ark sp1 program ≡ ok (folded_key ark vk ic0 ic1 ic2)
  unfolding deployment_key
  deployment_key-ok program vk ic0 ic1 ic2 loaded six canonical folded finite is_ic1 is_ic2 =
      rw (loaded, six, canonical, bytes_eq_refl program, folded, finite, is_ic1, is_ic2)

  -- What `scalars[i]` is, when the inputs are known.
  same_scalar :
      {xs ys : List Bytes} {r : ark.Fr} (i : ℕ)
      → xs ≡ ys
      → or_panic {E = String} (nth (map ark.fr_from_be_bytes_mod_order xs) i) ≡ ok r
      → or_panic {E = String} (nth (map ark.fr_from_be_bytes_mod_order ys) i) ≡ ok r
  same_scalar i e h =
      sym (ap (λ zs. or_panic {E = String} (nth (map ark.fr_from_be_bytes_mod_order zs) i)) e) ∙ h

  -- What an export's key was folded from.
  record Folding (vk : VerifyingKey ark.G1Affine ark.G2Affine) (scalars : List ark.Fr) (e : Export)
      : Type 0 where
    ic0 : ark.G1Affine
    ic1 : ark.G1Affine
    ic2 : ark.G1Affine
    scalar0 : ark.Fr
    scalar1 : ark.Fr
    scalar3 : ark.Fr
    is0 : or_panic {E = String} (nth scalars 0) ≡ ok scalar0
    is1 : or_panic {E = String} (nth scalars 1) ≡ ok scalar1
    is3 : or_panic {E = String} (nth scalars 3) ≡ ok scalar3
    folded : fold ark vk.gamma_abc_g1 scalar0 scalar3 ≡ ok ic0
    is_ic1 : or_panic {E = String} (nth vk.gamma_abc_g1 2) ≡ ok ic1
    is_ic2 : or_panic {E = String} (nth vk.gamma_abc_g1 5) ≡ ok ic2
    finite : ark.g1_is_zero ic0 ≡ false
    key_is : folded_key ark vk ic0 ic1 ic2 ≡ e.key
    encoding_is : e.encoding ≡ "canonical-unsigned-little-endian-hex"
    input0_is : field ark ark.fr_to_bytes_le scalar1 ≡ e.input0
    scalar4 : ark.Fr
    input1_is : field ark ark.fr_to_bytes_le scalar4 ≡ e.input1

  export_folded-Folding :
      (vk : VerifyingKey ark.G1Affine ark.G2Affine) (p : Proof ark.G1Affine ark.G2Affine)
      (scalars : List ark.Fr) {e : Export}
      → export_folded ark sp1 vk p scalars ≡ ok e
      → Folding vk scalars e
  unfolding export_folded
  export_folded-Folding vk p scalars {e} h =
      let (scalar0, is0, h7) = >>=-eq-ok (or_panic (nth scalars 0)) _ h in
      let (scalar3, is3, h8) = >>=-eq-ok (or_panic (nth scalars 3)) _ h7 in
      let (ic0, folded, h9) = >>=-eq-ok (fold ark vk.gamma_abc_g1 scalar0 scalar3) _ h8 in
      let (ic1, is_ic1, h10) = >>=-eq-ok (or_panic (nth vk.gamma_abc_g1 2)) _ h9 in
      let (ic2, is_ic2, h11) = >>=-eq-ok (or_panic (nth vk.gamma_abc_g1 5)) _ h10 in
      let (_, finite, h12) = >>=-eq-ok (reject_if (ark.g1_is_zero ic0) _) _ h11 in
      let (scalar1, is1, h13) = >>=-eq-ok (or_panic (nth scalars 1)) _ h12 in
      let (scalar4, _, h14) = >>=-eq-ok (or_panic (nth scalars 4)) _ h13 in
      let (again, _, h15) = >>=-eq-ok (ark.verify_proof _ p (scalar1 ∷ scalar4 ∷ [])) _ h14 in
      let (_, _, h16) = >>=-eq-ok (reject_if (not again) _) _ h15 in
      record {
        ic0 = ic0;
        ic1 = ic1;
        ic2 = ic2;
        scalar0 = scalar0;
        scalar1 = scalar1;
        scalar3 = scalar3;
        is0 = is0;
        is1 = is1;
        is3 = is3;
        folded = folded;
        is_ic1 = is_ic1;
        is_ic2 = is_ic2;
        finite = not_rejected _ _ finite;
        key_is = ap (λ (x : Export). x.key) (ok_injective h16);
        encoding_is = sym (ap (λ (x : Export). x.encoding) (ok_injective h16));
        input0_is = ap (λ (x : Export). x.input0) (ok_injective h16);
        scalar4 = scalar4;
        input1_is = ap (λ (x : Export). x.input1) (ok_injective h16);
      }

  -- If a proof of bytes is exported for a program key of 32 bytes, and Arkworks reads canonical
  -- scalars back, then the deployment of that program has a folded key, and the key exported with the
  -- proof is that key.
  pub export-deployment_key :
      (proof values program : Bytes) {e : Export}
      → All IsByte proof
      → IsArray 32 program
      → export ark sp1 coins proof values program ≡ ok e
      → deployment_key ark sp1 program ≡ ok e.key
  unfolding export
  export-deployment_key proof values program {e} hp hk h =
      let (w, opened, h1) = >>=-eq-ok (decode coins sp1 proof values program) _ h in
      let (vk, loaded, h2) = >>=-eq-ok (ark.load_verifying_key sp1.groth16_vk_bytes) _ h1 in
      let (p, _, h3) = >>=-eq-ok (ark.load_proof w.raw_proof) _ h2 in
      let (_, fine, h4) = >>=-eq-ok (reject_if (is_invalid ark sp1 vk p) _) _ h3 in
      let scalars = map ark.fr_from_be_bytes_mod_order w.inputs_be in
      let (valid, _, h5) = >>=-eq-ok (ark.verify_proof vk p scalars) _ h4 in
      let (_, _, h6) = >>=-eq-ok (reject_if (not valid) _) _ h5 in
      let f = export_folded-Folding vk p scalars h6 in
      let (nonce, _, _, inputs, (program_scalar, _)) =
        decode-ok coins sp1 proof values program hp hk opened in
      let six : (length vk.gamma_abc_g1 == 6) ≡ true = or-first _ _ _ (not_rejected _ _ fine) in
      let canonical = faithful program hk program_scalar.canonical in
      let key_is : deployment_key ark sp1 program ≡ ok (folded_key ark vk f.ic0 f.ic1 f.ic2) =
        deployment_key-ok program vk f.ic0 f.ic1 f.ic2 loaded six canonical
          (ap₂ (fold ark vk.gamma_abc_g1) (ok_injective (same_scalar 0 inputs f.is0))
              (ok_injective (same_scalar 3 inputs f.is3))
            ∙ f.folded)
          f.finite f.is_ic1 f.is_ic2 in
      key_is ∙ ap (λ k. ok k) f.key_is

  -- What an export says of its inputs: they are scalars, and the first that of the values' hash.
  pub record IsOfValues (values : Bytes) (e : Export) : Type 0 where
    pub encoding : e.encoding ≡ "canonical-unsigned-little-endian-hex"
    pub input0 :
        e.input0
        ≡ field ark ark.fr_to_bytes_le
            (ark.fr_from_be_bytes_mod_order (sp1.hash_public_inputs values))
    pub scalar4 : ark.Fr
    pub input1 : e.input1 ≡ field ark ark.fr_to_bytes_le scalar4
    pub array : IsArray 32 (sp1.hash_public_inputs values)
    pub canonical : from_be_bytes (sp1.hash_public_inputs values) < fr_modulus

  pub export-IsOfValues :
      (proof values program : Bytes) {e : Export}
      → All IsByte proof
      → IsArray 32 program
      → export ark sp1 coins proof values program ≡ ok e
      → IsOfValues values e
  unfolding export
  export-IsOfValues proof values program {e} hp hk h =
      let (w, opened, h1) = >>=-eq-ok (decode coins sp1 proof values program) _ h in
      let (vk, _, h2) = >>=-eq-ok (ark.load_verifying_key sp1.groth16_vk_bytes) _ h1 in
      let (p, _, h3) = >>=-eq-ok (ark.load_proof w.raw_proof) _ h2 in
      let (_, _, h4) = >>=-eq-ok (reject_if (is_invalid ark sp1 vk p) _) _ h3 in
      let scalars = map ark.fr_from_be_bytes_mod_order w.inputs_be in
      let (valid, _, h5) = >>=-eq-ok (ark.verify_proof vk p scalars) _ h4 in
      let (_, _, h6) = >>=-eq-ok (reject_if (not valid) _) _ h5 in
      let f = export_folded-Folding vk p scalars h6 in
      let (nonce, _, _, inputs, (_, (hash_scalar, _))) =
        decode-ok coins sp1 proof values program hp hk opened in
      record {
        encoding = f.encoding_is;
        input0 =
            sym f.input0_is
            ∙ ap (λ x. field ark ark.fr_to_bytes_le x)
                (sym (ok_injective (same_scalar 1 inputs f.is1)));
        scalar4 = f.scalar4;
        input1 = sym f.input1_is;
        array = hash_scalar.array;
        canonical = hash_scalar.canonical;
      }
