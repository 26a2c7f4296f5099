-- ===== src/Evidence/Checks.antt =====
-- What `check_evidence` tests of a proof and of its corrupted copies.
use Prim.Native.String.{String}
use coins_gsr_v.Base.{
  is_ok, or_panic-ok, ◌≡◌, ◌↔◌, refl, Bool, true, false, not, Option, some, none, Result, ok, err,
  panic, >>=-eq-ok, ok_or, or_panic, reject_if, ok_injective, not_rejected, passed,
}
use coins_gsr_v.Bytes.{Bytes, bytes_eq}
use coins_gsr_v.Bytes.Flip.{flip_at, flip_last}
use coins_gsr_v.Bytes.Flip.Alike.{
  IsFlipped, IsLastFlipped, flip_at-IsFlipped, IsFlipped-flip_at, flip_last-IsLastFlipped,
  IsLastFlipped-flip_last,
}
use coins_gsr_v.Bytes.Order.{bytes_eq_iff, bytes_eq_refl}
use coins_gsr_v.Wrapper.{verify}
use coins_gsr_v.Evidence.{
  Environment, check_proof, check_wrong_values, check_corrupted, check_wrong_key, check_evidence,
}

abbrev pub Refuses : {E A : Type 0} → Result E A → Type 0
Refuses (ok a) = ⊥
Refuses (err e) = Unit
Refuses panic = ⊥

Refuses-is_ok :
    {A : Type 0} (r : Result String A) (b : Bool) (e : String)
    → is_ok r ≡ ok b
    → reject_if b e ≡ ok tt
    → Refuses r
Refuses-is_ok (ok a) b e h k = cc (ok_injective h, not_rejected b e k)
Refuses-is_ok (err x) b e h k = tt
Refuses-is_ok panic b e h k = cc

is_ok-Refuses : {A : Type 0} (r : Result String A) → Refuses r → is_ok r ≡ ok false
is_ok-Refuses (ok a) h = absurd h
is_ok-Refuses (err x) h = refl
is_ok-Refuses panic h = absurd h

ok_or-ok : {A : Type 0} (o : Option A) (e : String) {a : A} → ok_or o e ≡ ok a → o ≡ some a
ok_or-ok none e h = cc
ok_or-ok (some b) e h = cc

module _ (env : Environment) where
  open env use {coins, sp1, client}

  module _ (proof : client.Sp1Proof) (proving_key : client.ProvingKey) (key expected : Bytes) where
    -- The proof is a Groth16 proof of the statement for the program, to SP1 and to the wrapper's
    -- check; and copies with another statement, another last byte or another key are refused.
    pub record IsVerified : Type 0 where
      pub groth16 : client.is_groth16 proof ≡ true
      pub verified : client.verify proof proving_key ≡ ok tt
      pub values : client.public_values proof ≡ expected
      pub wrapped : verify coins sp1 (client.proof_bytes proof) expected key ≡ ok tt
      pub wrong_values : Bytes
      pub is_wrong_values : IsFlipped 0 expected wrong_values
      pub wrong_values_refused :
          Refuses (client.verify (client.with_public_values proof wrong_values) proving_key)
      pub wrong_values_unwrapped :
          Refuses (verify coins sp1 (client.proof_bytes proof) wrong_values key)
      pub corrupted : Bytes
      pub is_corrupted : IsLastFlipped (client.proof_bytes proof) corrupted
      pub corrupted_refused : Refuses (verify coins sp1 corrupted expected key)
      pub wrong_key : Bytes
      pub is_wrong_key : IsFlipped 31 key wrong_key
      pub wrong_key_refused :
          Refuses (verify coins sp1 (client.proof_bytes proof) expected wrong_key)

    IsProof : Type 0
    IsProof =
        (client.is_groth16 proof ≡ true)
        × (client.verify proof proving_key ≡ ok tt)
        × (client.public_values proof ≡ expected)
        × (verify coins sp1 (client.proof_bytes proof) expected key ≡ ok tt)

    check_proof-ok : check_proof env proof proving_key key expected ≡ ok tt → IsProof
    unfolding check_proof IsProof
    check_proof-ok h =
        let (_, groth16, h1) = >>=-eq-ok (reject_if (not (client.is_groth16 proof)) _) _ h in
        let (_, verified, h2) = >>=-eq-ok (client.verify proof proving_key) _ h1 in
        let (_, values, wrapped) =
          >>=-eq-ok (reject_if (not (bytes_eq (client.public_values proof) expected)) _) _ h2 in
        (passed _ _ groth16, verified, (bytes_eq_iff _ _).0 (passed _ _ values), wrapped)

    check_wrong_values-ok :
        check_wrong_values env proof proving_key key expected ≡ ok tt
        → (wrong : Bytes) × (flip_at 0 expected ≡ some wrong)
          × Refuses (client.verify (client.with_public_values proof wrong) proving_key)
          × Refuses (verify coins sp1 (client.proof_bytes proof) wrong key)
    unfolding check_wrong_values
    check_wrong_values-ok h =
        let (wrong, is_wrong, h1) = >>=-eq-ok (or_panic (flip_at 0 expected)) _ h in
        let altered = client.verify (client.with_public_values proof wrong) proving_key in
        let (a, is_a, h2) = >>=-eq-ok (is_ok altered) _ h1 in
        let (_, not_a, h3) = >>=-eq-ok (reject_if a _) _ h2 in
        let opened = verify coins sp1 (client.proof_bytes proof) wrong key in
        let (b, is_b, not_b) = >>=-eq-ok (is_ok opened) _ h3 in
        (
          wrong,
          or_panic-ok _ is_wrong,
          Refuses-is_ok altered a _ is_a not_a,
          Refuses-is_ok opened b _ is_b not_b,
        )

    check_corrupted-ok :
        check_corrupted env proof proving_key key expected ≡ ok tt
        → (corrupted : Bytes) × (flip_last (client.proof_bytes proof) ≡ some corrupted)
          × Refuses (verify coins sp1 corrupted expected key)
    unfolding check_corrupted
    check_corrupted-ok h =
        let (corrupted, is_corrupted, h1) =
          >>=-eq-ok (ok_or (flip_last (client.proof_bytes proof)) _) _ h in
        let opened = verify coins sp1 corrupted expected key in
        let (b, is_b, not_b) = >>=-eq-ok (is_ok opened) _ h1 in
        (corrupted, ok_or-ok _ _ is_corrupted, Refuses-is_ok opened b _ is_b not_b)

    check_wrong_key-ok :
        check_wrong_key env proof proving_key key expected ≡ ok tt
        → (wrong_key : Bytes) × (flip_at 31 key ≡ some wrong_key)
          × Refuses (verify coins sp1 (client.proof_bytes proof) expected wrong_key)
    unfolding check_wrong_key
    check_wrong_key-ok h =
        let (wrong_key, is_wrong_key, h1) = >>=-eq-ok (or_panic (flip_at 31 key)) _ h in
        let opened = verify coins sp1 (client.proof_bytes proof) expected wrong_key in
        let (b, is_b, not_b) = >>=-eq-ok (is_ok opened) _ h1 in
        (wrong_key, or_panic-ok _ is_wrong_key, Refuses-is_ok opened b _ is_b not_b)

    check_evidence-ok : check_evidence env proof proving_key key expected ≡ ok tt → IsVerified
    unfolding check_evidence IsProof
    check_evidence-ok h =
        let (_, e0, h0) = >>=-eq-ok (check_proof env proof proving_key key expected) _ h in
        let (_, e1, h1) = >>=-eq-ok (check_wrong_values env proof proving_key key expected) _ h0 in
        let (_, e2, e3) = >>=-eq-ok (check_corrupted env proof proving_key key expected) _ h1 in
        let (groth16, verified, values, wrapped) = check_proof-ok e0 in
        let (wrong, is_wrong, altered, unwrapped) = check_wrong_values-ok e1 in
        let (corrupted, is_corrupted, refused) = check_corrupted-ok e2 in
        let (wrong_key, is_wrong_key, key_refused) = check_wrong_key-ok e3 in
        record {
          groth16 = groth16;
          verified = verified;
          values = values;
          wrapped = wrapped;
          wrong_values = wrong;
          is_wrong_values = flip_at-IsFlipped 0 expected is_wrong;
          wrong_values_refused = altered;
          wrong_values_unwrapped = unwrapped;
          corrupted = corrupted;
          is_corrupted = flip_last-IsLastFlipped (client.proof_bytes proof) is_corrupted;
          corrupted_refused = refused;
          wrong_key = wrong_key;
          is_wrong_key = flip_at-IsFlipped 31 key is_wrong_key;
          wrong_key_refused = key_refused;
        }

    check_evidence-IsVerified :
        IsVerified → check_evidence env proof proving_key key expected ≡ ok tt
    unfolding check_evidence check_proof check_wrong_values check_corrupted check_wrong_key
    check_evidence-IsVerified v = rw (
      v.groth16,
      v.verified,
      v.values,
      bytes_eq_refl expected,
      v.wrapped,
      IsFlipped-flip_at 0 expected v.wrong_values v.is_wrong_values,
      is_ok-Refuses _ v.wrong_values_refused,
      is_ok-Refuses _ v.wrong_values_unwrapped,
      IsLastFlipped-flip_last (client.proof_bytes proof) v.corrupted v.is_corrupted,
      is_ok-Refuses _ v.corrupted_refused,
      IsFlipped-flip_at 31 key v.wrong_key v.is_wrong_key,
      is_ok-Refuses _ v.wrong_key_refused,
    )

    pub check_evidence-IsVerified_iff :
        (check_evidence env proof proving_key key expected ≡ ok tt) ↔ IsVerified
    check_evidence-IsVerified_iff = (λ h. check_evidence-ok h, λ v. check_evidence-IsVerified v)
