-- ===== src/Bytes/Framing.antt =====
-- Buffers built from parts: where the parts' lengths are known, the buffer determines the parts.
use coins_gsr_v.Base.{
  ℕ, ◌+◌, All-append, ◌≡◌, refl, List, [], ◌∷◌, ◌++◌, length, append_cancel, length-append, arith,
}
use coins_gsr_v.Bytes.{Bytes, IsByte, IsArray, extend_all}

-- Two lists of parts have pairwise equal lengths.
abbrev pub SameShape : List Bytes → List Bytes → Type 0
SameShape [] [] = Unit {0}
SameShape [] (q ∷ qs) = ⊥
SameShape (p ∷ ps) [] = ⊥
SameShape (p ∷ ps) (q ∷ qs) = (length p ≡ length q) × SameShape ps qs

pub extend_all-injective :
    (ps qs : List Bytes) → SameShape ps qs → extend_all ps ≡ extend_all qs → ps ≡ qs
extend_all-injective [] [] s e = refl
extend_all-injective [] (q ∷ qs) s e = absurd s
extend_all-injective (p ∷ ps) [] s e = absurd s
extend_all-injective (p ∷ ps) (q ∷ qs) s e =
    let (h, t) = append_cancel p q s.0 e in cc (h, extend_all-injective ps qs s.1 t)

length-extend_all :
    (ps qs : List Bytes) → SameShape ps qs → length (extend_all ps) ≡ length (extend_all qs)
length-extend_all [] [] s = refl
length-extend_all [] (q ∷ qs) s = absurd s
length-extend_all (p ∷ ps) [] s = absurd s
length-extend_all (p ∷ ps) (q ∷ qs) s = omega (
  arith,
  s.0,
  length-append p (extend_all ps),
  length-append q (extend_all qs),
  length-extend_all ps qs s.1,
)

-- The same where the parts are followed by a rest of any length.
pub extend_all_cancel :
    (ps qs : List Bytes) {xs ys : Bytes}
    → SameShape ps qs
    → extend_all ps ++ xs ≡ extend_all qs ++ ys
    → (ps ≡ qs) × (xs ≡ ys)
extend_all_cancel ps qs {xs} {ys} s e =
    let (h, t) =
      append_cancel (extend_all ps) (extend_all qs) {us = xs} {vs = ys} (length-extend_all ps qs s)
        e in
    (extend_all-injective ps qs s h, t)

-- Parts with these widths.
abbrev pub HasWidths : List ℕ → List Bytes → Type 0
HasWidths [] [] = Unit
HasWidths (n ∷ ns) (p ∷ ps) = IsArray n p × HasWidths ns ps
HasWidths _ _ = ⊥

abbrev pub sum : List ℕ → ℕ
sum [] = 0
sum (n ∷ ns) = n + sum ns

pub append-IsArray :
    {m n : ℕ} (xs ys : Bytes) → IsArray m xs → IsArray n ys → IsArray (m + n) (xs ++ ys)
append-IsArray xs ys hx hy =
    (omega (arith, length-append xs ys, hx.0, hy.0), All-append IsByte xs ys hx.1 hy.1)

pub extend_all-IsArray :
    (ns : List ℕ) (ps : List Bytes) → HasWidths ns ps → IsArray (sum ns) (extend_all ps)
extend_all-IsArray [] [] h = (refl, tt)
extend_all-IsArray [] (p ∷ ps) h = absurd h
extend_all-IsArray (n ∷ ns) [] h = absurd h
extend_all-IsArray (n ∷ ns) (p ∷ ps) h =
    append-IsArray p (extend_all ps) h.0 (extend_all-IsArray ns ps h.1)
