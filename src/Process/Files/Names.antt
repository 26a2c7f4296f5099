-- ===== src/Process/Files/Names.antt =====
-- What is found under a name after the latest entries, and what is read there.
use Prim.Native.String.{String}
use text.Mathlib.Text.{◌==◌ as str_eq}
use text.Mathlib.TextEquality.{eq_iff}
use coins_gsr_v.Base.{
  ◌≡◌, ◌≢◌, refl, sym, ap, ◌∙◌, true, false, Bool-cases, inl, inr, Option, none, some, ◌∷◌, ok,
}
use coins_gsr_v.Bytes.{Bytes}
use coins_gsr_v.Process.{display, FilePath}
use coins_gsr_v.Process.Files.{
  Entry, folder, content, Store, find, read_entry, is_there, read_at, exists_at,
}

pub unequal_names : (s t : String) → str_eq s t ≡ false → s ≢ t
unequal_names s t h e = cc ((eq_iff s t).1 e)

pub find-here :
    (name : String) (entry : Entry) (store : Store) → find name ((name, entry) ∷ store) ≡ some entry
unfolding find
find-here name entry store = rw ((eq_iff name name).1 refl)

-- An entry of another name is passed over.
pub find-there :
    (name other : String) (entry : Entry) (store : Store)
    → name ≢ other
    → find name ((other, entry) ∷ store) ≡ find name store
unfolding find
find-there name other entry store new = elim (Bool-cases (str_eq name other)) [
  | inl same ↦ absurd (new ((eq_iff name other).0 same))
  | inr differ ↦ rw differ
]

-- What is written over a file with the same bytes changes nothing.
pub find-again :
    (name other : String) (entry : Entry) (store : Store)
    → find other store ≡ some entry
    → find name ((other, entry) ∷ store) ≡ find name store
unfolding find
find-again name other entry store stored = elim (Bool-cases (str_eq name other)) [
  | inl same ↦ rw same (sym (ap (λ n. find n store) ((eq_iff name other).0 same) ∙ stored))
  | inr differ ↦ rw differ
]

pub read_at-here :
    (p : FilePath) (bytes : Bytes) (store : Store)
    → read_at ((display p, content bytes) ∷ store) p ≡ ok bytes
unfolding read_at
read_at-here p bytes store = ap read_entry (find-here (display p) (content bytes) store)

pub read_at-there :
    (p : FilePath) (other : String) (entry : Entry) (store : Store)
    → display p ≢ other
    → read_at ((other, entry) ∷ store) p ≡ read_at store p
unfolding read_at
read_at-there p other entry store new = ap read_entry (find-there (display p) other entry store new)

-- What can be read is there.
read_entry-is_there :
    (entry : Option Entry) {bytes : Bytes} → read_entry entry ≡ ok bytes → is_there entry ≡ true
read_entry-is_there none h = cc
read_entry-is_there (some folder) h = cc
read_entry-is_there (some (content bytes)) h = refl

-- A name that is free is not one that can be read.
pub free-ne-read :
    (p q : FilePath) (store : Store) {bytes : Bytes}
    → exists_at store q ≡ false
    → read_at store p ≡ ok bytes
    → display p ≢ display q
unfolding exists_at read_at
free-ne-read p q store free readable same =
    let there = read_entry-is_there (find (display p) store) readable in
    let there' : is_there (find (display q) store) ≡ true =
      ap (λ name. is_there (find name store)) (sym same) ∙ there in
    cc
