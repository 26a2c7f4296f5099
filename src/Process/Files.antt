-- ===== src/Process/Files.antt =====
-- A machine with stored files: what is written is what is read later, by the same run or by another.
pub mod Names
use Prim.Native.String.{String}
use text.Mathlib.Text.{◌==◌ as str_eq}
use text.Mathlib.TextEquality.{eq_iff}
use coins_gsr_v.Base.{
  ◌≡◌, ◌≢◌, refl, sym, ap, ◌∙◌, ap₂, Bool, true, false, ◌||◌, Bool-cases, inl, inr, Option, none,
  some, List, [], ◌∷◌, if◌then◌else◌, Result, ok, err, panic,
}
use coins_gsr_v.Bytes.{Bytes}
use coins_gsr_v.Protocol.{ProofInput}
use coins_gsr_v.Process.Holds.{History}
use coins_gsr_v.Process.Run.{World, run}
use coins_gsr_v.Process.{
  display, Sp1Client, FilePath, Query, Answer, Program, done, ask, ◌>>=◌, env_var, artifacts_dir,
  is_file, exists, read, create_dir, write, prove, save, load, print,
}

pub data Entry : Type 0 where
  folder : Entry
  content : Bytes → Entry

-- The entries by their names, the latest first.
abbrev pub Store : Type 0
Store = List (String × Entry)

unfoldable pub find : String → Store → Option Entry
find name [] = none
find name ((other, entry) ∷ store) =
    let rest = find name store in if str_eq name other then some entry else rest

-- What surrounds the stored files.
pub record Machine (client : Sp1Client) : Type 0 where
  pub variable : String → Option String
  pub artifacts : Result String FilePath
  -- what cannot be written or made, such as for want of a parent directory
  pub refuses : FilePath → Bool
  pub prover : client.ProvingKey → ProofInput → Result String (client.Sp1Proof × client.Seconds)
  -- the bytes of `save`, and what `load` makes of bytes
  pub encoded : client.Sp1Proof → Bytes
  pub decoded : Bytes → Result String client.Sp1Proof

abbrev pub read_entry : Option Entry → Result String Bytes
read_entry none = err "not found"
read_entry (some folder) = err "is a directory"
read_entry (some (content bytes)) = ok bytes

abbrev pub is_there : Option Entry → Bool
is_there none = false
is_there (some entry) = true

abbrev pub is_file_entry : Option Entry → Result String Bool
is_file_entry none = err "not found"
is_file_entry (some folder) = ok false
is_file_entry (some (content bytes)) = ok true

unfoldable pub read_at : Store → FilePath → Result String Bytes
read_at store p = read_entry (find (display p) store)

unfoldable pub exists_at : Store → FilePath → Bool
exists_at store p = is_there (find (display p) store)

unfoldable pub is_file_at : Store → FilePath → Result String Bool
is_file_at store p = is_file_entry (find (display p) store)

module _ {client : Sp1Client} (machine : Machine client) where
  -- A directory is made where nothing is, and a file is written over what is there.
  unfoldable pub made_at : Store → FilePath → Result String (Unit {0})
  made_at store p =
      if machine.refuses p || exists_at store p then err "cannot make directory" else ok tt

  unfoldable pub written_at : FilePath → Result String (Unit {0})
  written_at p = if machine.refuses p then err "cannot write" else ok tt

  unfoldable pub load_at : Store → FilePath → Result String client.Sp1Proof
  load_at store p = elim (read_at store p) [
    | ok bytes ↦ machine.decoded bytes
    | err e ↦ err e
    | panic ↦ panic
  ]

  abbrev pub answer : Store → (q : Query client) → Answer q
  answer store (env_var name) = machine.variable name
  answer store artifacts_dir = machine.artifacts
  answer store (is_file p) = is_file_at store p
  answer store (exists p) = exists_at store p
  answer store (read p) = read_at store p
  answer store (create_dir p) = made_at store p
  answer store (write p bytes) = written_at p
  answer store (prove proving_key input) = machine.prover proving_key input
  answer store (save proof p) = written_at p
  answer store (load p) = load_at store p
  answer store (print line) = tt

  abbrev pub when_done : Result String (Unit {0}) → Store → Store → Store
  when_done (ok u) new old = new
  when_done (err e) new old = old
  when_done panic new old = old

  -- What a question leaves stored.
  abbrev pub update : (q : Query client) → Answer q → Store → Store
  update (create_dir p) made store = when_done made ((display p, folder) ∷ store) store
  update (write p bytes) written store =
      when_done written ((display p, content bytes) ∷ store) store
  update (save proof p) saved store =
      when_done saved ((display p, content (machine.encoded proof)) ∷ store) store
  update _ a store = store

  -- A program from the files that are stored.
  abbrev pub exec : {A : Type 0} → Store → Program client A → Store × Result String A
  exec store (done r) = (store, r)
  exec store (ask q answered) = let a = answer store q in exec (update q a store) (answered a)

  -- The machine as an environment: what is stored is what the events left.
  abbrev pub replay : Store → History client → Store
  replay store [] = store
  replay store ((q, a) ∷ past) = update q a (replay store past)

  abbrev pub stored_world : Store → World client
  stored_world store past q = answer (replay store past) q

  -- An execution is the run in that environment.
  pub run-exec :
      {A : Type 0} (store : Store) (past : History client) (m : Program client A)
      → exec (replay store past) m
        ≡ (replay store (run (stored_world store) past m).0, (run (stored_world store) past m).1)
  run-exec store past (done r) = refl
  run-exec store past (ask q answered) =
      let a = answer (replay store past) q in run-exec store ((q, a) ∷ past) (answered a)

  module _ {A B : Type 0} where
    -- A sequence that ended well did so in both of its parts.
    pub exec-bind :
        (store : Store) (m : Program client A) (rest : A → Program client B) {end : Store} {b : B}
        → exec store (m >>= rest) ≡ (end, ok b)
        → (middle : Store) × (a : A) × (exec store m ≡ (middle, ok a))
          × (exec middle (rest a) ≡ (end, ok b))
    exec-bind store (done (ok a)) rest h = (store, a, refl, h)
    exec-bind store (done (err e)) rest h = cc
    exec-bind store (done panic) rest h = cc
    exec-bind store (ask q answered) rest h =
        let a = answer store q in exec-bind (update q a store) (answered a) rest h

    -- A sequence goes on from where its first part ended well.
    pub exec-after :
        (store : Store) (m : Program client A) (rest : A → Program client B) {middle : Store}
        {a : A}
        → exec store m ≡ (middle, ok a)
        → exec store (m >>= rest) ≡ exec middle (rest a)
    exec-after store (done (ok x)) rest h = ap₂ (λ s y. exec s (rest y)) (cc) (cc)
    exec-after store (done (err e)) rest h = cc
    exec-after store (done panic) rest h = cc
    exec-after store (ask q answered) rest h =
        let a = answer store q in exec-after (update q a store) (answered a) rest h

    -- A computation that succeeds, and what follows.
    pub exec-value :
        (store : Store) (r : Result String A) (rest : A → Program client B) {a : A}
        → r ≡ ok a
        → exec store (done r >>= rest) ≡ exec store (rest a)
    exec-value store r rest h = ap (λ x. exec store (done x >>= rest)) h

    -- A computation between two questions.
    pub exec-done :
        (store : Store) (r : Result String A) (rest : A → Program client B) {end : Store} {b : B}
        → exec store (done r >>= rest) ≡ (end, ok b)
        → (a : A) × (r ≡ ok a) × (exec store (rest a) ≡ (end, ok b))
    exec-done store (ok a) rest h = (a, refl, h)
    exec-done store (err e) rest h = cc
    exec-done store panic rest h = cc
