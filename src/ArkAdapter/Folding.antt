-- ===== src/ArkAdapter/Folding.antt =====
-- What the folded key of a deployment is for: with two public inputs it stands for the wrapper's key
-- with its five.
use coins_gsr_v.Base.{
  ◌≡◌, refl, sym, ap, ◌∙◌, not, List, [], ◌∷◌, ◌==◌, ==_iff, length, replicate, nth, ok,
  ok_injective, >>=-eq-ok, or_panic, or_panic-ok, reject_if, passed, not_rejected, false, some,
  arith,
}
use coins_gsr_v.Bytes.{Bytes, bytes_eq}
use coins_gsr_v.Bytes.Order.{bytes_eq_iff}
use coins_gsr_v.Wrapper.{Sp1Verifier}
use coins_gsr_v.ArkAdapter.{Ark, VerifyingKey, FoldedKey, g1, g2, fold, deployment_key}

-- The points of G1 are a commutative group, a product with the zero scalar adds nothing, and the
-- conversions keep the group element.
pub record IsGroup (ark : Ark) : Type 0 where
  pub value : ark.G1Affine → ark.G1Projective
  pub add_affine :
      (p : ark.G1Affine) (q : ark.G1Projective) → ark.g1_add_affine p q ≡ ark.g1_add (value p) q
  pub value-into : (q : ark.G1Projective) → value (ark.g1_into q) ≡ q
  pub assoc :
      (p q r : ark.G1Projective) → ark.g1_add (ark.g1_add p q) r ≡ ark.g1_add p (ark.g1_add q r)
  pub comm : (p q : ark.G1Projective) → ark.g1_add p q ≡ ark.g1_add q p
  pub mul_zero :
      (q : ark.G1Projective) (p : ark.G1Affine)
      → ark.g1_add q (ark.g1_mul p (ark.fr_from_be_bytes_mod_order (replicate 32 0))) ≡ q

module _ (ark : Ark) (sp1 : Sp1Verifier) (group : IsGroup ark) where
  -- Groth16 checks a proof against the first point plus each input times its point.
  abbrev added : ark.G1Projective → List ark.G1Affine → List ark.Fr → ark.G1Projective
  added sum [] scalars = sum
  added sum (p ∷ points) [] = sum
  added sum (p ∷ points) (s ∷ scalars) = added (ark.g1_add sum (ark.g1_mul p s)) points scalars

  abbrev pub combined : ark.G1Affine → List ark.G1Affine → List ark.Fr → ark.G1Projective
  combined first points scalars = added (group.value first) points scalars

  -- The points behind a folded key of a program, which is the encoding of its scalar.
  pub record IsFolded (program : Bytes) (key : FoldedKey) : Type 0 where
    pub vk : VerifyingKey ark.G1Affine ark.G2Affine
    pub loaded : ark.load_verifying_key sp1.groth16_vk_bytes ≡ ok vk
    pub i0 : ark.G1Affine
    pub i1 : ark.G1Affine
    pub i2 : ark.G1Affine
    pub i3 : ark.G1Affine
    pub i4 : ark.G1Affine
    pub i5 : ark.G1Affine
    pub points : vk.gamma_abc_g1 ≡ i0 ∷ i1 ∷ i2 ∷ i3 ∷ i4 ∷ i5 ∷ []
    pub canonical : ark.fr_to_bytes_be (ark.fr_from_be_bytes_mod_order program) ≡ program
    pub ic0 : ark.G1Affine
    pub finite : ark.g1_is_zero ic0 ≡ false
    pub tells_ic0 : key.ic0 ≡ g1 ark ic0
    pub tells_ic1 : key.ic1 ≡ g1 ark i2
    pub tells_ic2 : key.ic2 ≡ g1 ark i5
    pub tells_alpha : key.alpha ≡ g1 ark vk.alpha_g1
    pub tells_beta : key.beta ≡ g2 ark vk.beta_g2
    pub tells_gamma : key.gamma ≡ g2 ark vk.gamma_g2
    pub tells_delta : key.delta ≡ g2 ark vk.delta_g2
    pub combines :
        (values nonce : ark.Fr)
        → combined ic0 (i2 ∷ i5 ∷ []) (values ∷ nonce ∷ [])
          ≡ combined i0 (i1 ∷ i2 ∷ i3 ∷ i4 ∷ i5 ∷ []) (
              ark.fr_from_be_bytes_mod_order program
              ∷ values
              ∷ ark.fr_from_be_bytes_mod_order (replicate 32 0)
              ∷ ark.fr_from_be_bytes_mod_order sp1.vk_root_bytes
              ∷ nonce
              ∷ [])

  six_points :
      {A : Type 0} (xs : List A)
      → length xs ≡ 6
      → (a b c d e f : A) × (xs ≡ a ∷ b ∷ c ∷ d ∷ e ∷ f ∷ [])
  six_points (a ∷ b ∷ c ∷ d ∷ e ∷ f ∷ []) h = (a, b, c, d, e, f, refl)
  six_points [] h = absurd (omega arith)
  six_points (a ∷ []) h = absurd (omega arith)
  six_points (a ∷ b ∷ []) h = absurd (omega arith)
  six_points (a ∷ b ∷ c ∷ []) h = absurd (omega arith)
  six_points (a ∷ b ∷ c ∷ d ∷ []) h = absurd (omega arith)
  six_points (a ∷ b ∷ c ∷ d ∷ e ∷ []) h = absurd (omega arith)
  six_points (a ∷ b ∷ c ∷ d ∷ e ∷ f ∷ g ∷ rest) h = absurd (omega arith)

  -- A term that is added last may be added before the one before it.
  swapped :
      (p q r : ark.G1Projective) → ark.g1_add (ark.g1_add p q) r ≡ ark.g1_add (ark.g1_add p r) q
  swapped p q r = group.assoc p q r ∙ ap (ark.g1_add p) (group.comm q r) ∙ sym (group.assoc p r q)

  fold-combines :
      (i0 i1 i2 i3 i4 i5 ic0 : ark.G1Affine) (scalar root : ark.Fr)
      → fold ark (i0 ∷ i1 ∷ i2 ∷ i3 ∷ i4 ∷ i5 ∷ []) scalar root ≡ ok ic0
      → (values nonce : ark.Fr)
      → combined ic0 (i2 ∷ i5 ∷ []) (values ∷ nonce ∷ [])
        ≡ combined i0
            (i1 ∷ i2 ∷ i3 ∷ i4 ∷ i5 ∷ [])
            (scalar ∷ values ∷ ark.fr_from_be_bytes_mod_order (replicate 32 0) ∷ root ∷ nonce ∷ [])
  unfolding fold
  fold-combines i0 i1 i2 i3 i4 i5 ic0 scalar root h values nonce =
      let first = ark.g1_add (group.value i0) (ark.g1_mul i1 scalar) in
      let fixed : group.value ic0 ≡ ark.g1_add first (ark.g1_mul i4 root) =
        ap group.value (sym (ok_injective h))
        ∙ group.value-into _
        ∙ ap (λ p. ark.g1_add p (ark.g1_mul i4 root))
            (group.add_affine i0 (ark.g1_mul i1 scalar)) in
      let moved : ark.g1_add (group.value ic0) (ark.g1_mul i2 values)
          ≡ ark.g1_add (ark.g1_add first (ark.g1_mul i2 values)) (ark.g1_mul i4 root) =
        ap (λ p. ark.g1_add p (ark.g1_mul i2 values)) fixed
        ∙ swapped first (ark.g1_mul i4 root) (ark.g1_mul i2 values) in
      let padded = sym (group.mul_zero (ark.g1_add first (ark.g1_mul i2 values)) i3) in
      ap (λ p. ark.g1_add p (ark.g1_mul i5 nonce))
        (moved ∙ ap (λ p. ark.g1_add p (ark.g1_mul i4 root)) padded)

  -- A program with a folded key is the encoding of its scalar. The folded key tells of the wrapper's
  -- key with six points, and of a finite point in place of the first, the second, the fourth and the
  -- fifth of them: for every hash of public values and every
  -- nonce, the folded key with these two inputs gives Groth16 the same sum as the wrapper's key with
  -- the program key, the hash, the zero exit code, the root of the recursion keys and the nonce. The
  -- points of Arkworks are a commutative group.
  pub deployment_key-IsFolded :
      (program : Bytes) {key : FoldedKey}
      → deployment_key ark sp1 program ≡ ok key
      → IsFolded program key
  unfolding deployment_key
  deployment_key-IsFolded program {key} h =
      let (vk, loaded, h1) = >>=-eq-ok (ark.load_verifying_key sp1.groth16_vk_bytes) _ h in
      let (_, six, h2) = >>=-eq-ok (reject_if (not (length vk.gamma_abc_g1 == 6)) _) _ h1 in
      let encoding = ark.fr_to_bytes_be (ark.fr_from_be_bytes_mod_order program) in
      let (_, same, h3) = >>=-eq-ok (reject_if (not (bytes_eq encoding program)) _) _ h2 in
      let (ic0, folded, h4) = >>=-eq-ok (fold ark vk.gamma_abc_g1 _ _) _ h3 in
      let (_, not_zero, h5) = >>=-eq-ok (reject_if (ark.g1_is_zero ic0) _) _ h4 in
      let (input2, is2, h6) = >>=-eq-ok (or_panic (nth vk.gamma_abc_g1 2)) _ h5 in
      let (input5, is5, h7) = >>=-eq-ok (or_panic (nth vk.gamma_abc_g1 5)) _ h6 in
      let (i0, i1, i2, i3, i4, i5, points) =
        six_points vk.gamma_abc_g1 ((==_iff _ _).0 (passed _ _ six)) in
      let third : nth vk.gamma_abc_g1 2 ≡ some i2 = ap (λ xs. nth xs 2) points in
      let sixth : nth vk.gamma_abc_g1 5 ≡ some i5 = ap (λ xs. nth xs 5) points in
      let key_is = sym (ok_injective h7) in
      let same2 : input2 ≡ i2 = cc (or_panic-ok _ is2, third) in
      let same5 : input5 ≡ i5 = cc (or_panic-ok _ is5, sixth) in
      record {
        vk = vk;
        loaded = loaded;
        i0 = i0;
        i1 = i1;
        i2 = i2;
        i3 = i3;
        i4 = i4;
        i5 = i5;
        points = points;
        canonical = (bytes_eq_iff encoding program).0 (passed _ _ same);
        ic0 = ic0;
        finite = not_rejected _ _ not_zero;
        tells_ic0 = ap (λ k. k.ic0) key_is;
        tells_ic1 = ap (λ k. k.ic1) key_is ∙ ap (g1 ark) same2;
        tells_ic2 = ap (λ k. k.ic2) key_is ∙ ap (g1 ark) same5;
        tells_alpha = ap (λ k. k.alpha) key_is;
        tells_beta = ap (λ k. k.beta) key_is;
        tells_gamma = ap (λ k. k.gamma) key_is;
        tells_delta = ap (λ k. k.delta) key_is;
        combines = fold-combines i0 i1 i2 i3 i4 i5 ic0 _ _ (
            ap
              (λ xs.
                fold ark xs (ark.fr_from_be_bytes_mod_order program)
                  (ark.fr_from_be_bytes_mod_order sp1.vk_root_bytes))
              (sym points)
            ∙ folded);
      }
