-- ===== src/Process/Holds.antt =====
-- A logic of programs: what holds of each query when it is asked, and of the value in the end,
-- whatever the answers are.
use Prim.Native.String.{String}
use coins_gsr_v.Base.{
  ◌≡◌, ◌⊎◌, inr, refl, List, [], ◌∷◌, Bool, true, false, if◌then◌else◌, ok, err, panic, Result,
}
use coins_gsr_v.Process.{Sp1Client, Query, Answer, Program, done, ask, ◌>>=◌}

-- A query with its answer; the latest event stands first.
abbrev pub Event : Sp1Client → Type 0
Event client = (q : Query client) × Answer q

abbrev pub History : Sp1Client → Type 0
History client = List (Event client)

-- The event has happened.
abbrev pub Asked : {client : Sp1Client} → Event client → History client → Type 0
Asked e [] = ⊥
Asked e (x ∷ past) = (x ≡ e) ⊎ Asked e past

-- The second history goes on from the first.
pub data Extends {client : Sp1Client} (past : History client) : History client → Type 0 where
  here : Extends past past
  later : {now : History client} → (e : Event client) → Extends past now → Extends past (e ∷ now)

pub Asked-Extends :
    {client : Sp1Client} (e : Event client) {past now : History client}
    → Extends past now
    → Asked e past
    → Asked e now
Asked-Extends e here h = h
Asked-Extends e (later x ext) h = inr (Asked-Extends e ext h)

pub Extends-trans :
    {client : Sp1Client} {past now then' : History client}
    → Extends past now
    → Extends now then'
    → Extends past then'
Extends-trans p here = p
Extends-trans p (later e q) = later e (Extends-trans p q)

-- `P` holds of each query and the events before it, and `Q` of the value and all events.
abbrev pub Holds :
    {client : Sp1Client} {A : Type 0}
    → (History client → Query client → Type 0)
    → (History client → A → Type 0)
    → History client
    → Program client A
    → Type 0
Holds P Q past (done (ok a)) = Q past a
Holds P Q past (done (err e)) = Unit
Holds P Q past (done panic) = Unit
Holds P Q past (ask q answered) =
    P past q × ((a : Answer q) → Holds P Q ((q, a) ∷ past) (answered a))

module _ {client : Sp1Client} {A B : Type 0} (P : History client → Query client → Type 0)
    (Q : History client → A → Type 0) (R : History client → B → Type 0) where
  Holds-after :
      (start past : History client) (m : Program client A) (rest : A → Program client B)
      → Extends start past
      → Holds P Q past m
      → ((now : History client) (a : A) → Extends start now → Q now a → Holds P R now (rest a))
      → Holds P R past (m >>= rest)
  Holds-after start past (done (ok a)) rest ext h k = k past a ext h
  Holds-after start past (done (err e)) rest ext h k = tt
  Holds-after start past (done panic) rest ext h k = tt
  Holds-after start past (ask q answered) rest ext h k =
      (h.0, λ a. Holds-after start ((q, a) ∷ past) (answered a) rest (later (q, a) ext) (h.1 a) k)

  -- The rule for a sequence.
  pub Holds-bind :
      (past : History client) (m : Program client A) (rest : A → Program client B)
      → Holds P Q past m
      → ((now : History client) (a : A) → Extends past now → Q now a → Holds P R now (rest a))
      → Holds P R past (m >>= rest)
  Holds-bind past m rest h k = Holds-after past past m rest here h k

module _ {client : Sp1Client} {A B : Type 0} (P : History client → Query client → Type 0)
    (R : History client → B → Type 0) where
  -- The rule for a computation between two questions.
  pub Holds-done :
      (past : History client) (r : Result String A) (rest : A → Program client B)
      → ((a : A) → r ≡ ok a → Holds P R past (rest a))
      → Holds P R past (done r >>= rest)
  Holds-done past (ok a) rest k = k a refl
  Holds-done past (err e) rest k = tt
  Holds-done past panic rest k = tt

module _ {client : Sp1Client} {A : Type 0} (P : History client → Query client → Type 0)
    (Q : History client → A → Type 0) where
  -- The rule for the last result.
  pub Holds-last :
      (past : History client) (r : Result String A)
      → ((a : A) → r ≡ ok a → Q past a)
      → Holds P Q past (done r)
  Holds-last past (ok a) k = k a refl
  Holds-last past (err e) k = tt
  Holds-last past panic k = tt

module _ {client : Sp1Client} {A : Type 0} (P : History client → Query client → Type 0)
    (Q : History client → A → Type 0) where
  -- The rule for a test.
  pub Holds-if :
      (past : History client) (b : Bool) (m n : Program client A)
      → (b ≡ true → Holds P Q past m)
      → (b ≡ false → Holds P Q past n)
      → Holds P Q past (if b then m else n)
  Holds-if past true m n h k = h refl
  Holds-if past false m n h k = k refl

module _ {client : Sp1Client} {A : Type 0} (P : History client → Query client → Type 0)
    (Q R : History client → A → Type 0) where
  Holds-weaken_after :
      (start past : History client) (m : Program client A)
      → Extends start past
      → Holds P Q past m
      → ((now : History client) (a : A) → Extends start now → Q now a → R now a)
      → Holds P R past m
  Holds-weaken_after start past (done (ok a)) ext h k = k past a ext h
  Holds-weaken_after start past (done (err e)) ext h k = tt
  Holds-weaken_after start past (done panic) ext h k = tt
  Holds-weaken_after start past (ask q answered) ext h k =
      (h.0, λ a. Holds-weaken_after start ((q, a) ∷ past) (answered a) (later (q, a) ext) (h.1 a) k)

  -- The rule of consequence.
  pub Holds-weaken :
      (past : History client) (m : Program client A)
      → Holds P Q past m
      → ((now : History client) (a : A) → Extends past now → Q now a → R now a)
      → Holds P R past m
  Holds-weaken past m h k = Holds-weaken_after past past m here h k

module _ {client : Sp1Client} {A : Type 0} (P P' : History client → Query client → Type 0)
    (Q : History client → A → Type 0)
    (permits : (past : History client) (q : Query client) → P past q → P' past q) where
  -- The rule of consequence for the queries.
  pub Holds-permits :
      (past : History client) (m : Program client A) → Holds P Q past m → Holds P' Q past m
  Holds-permits past (done (ok a)) h = h
  Holds-permits past (done (err e)) h = tt
  Holds-permits past (done panic) h = tt
  Holds-permits past (ask q answered) h =
      (permits past q h.0, λ a. Holds-permits ((q, a) ∷ past) (answered a) (h.1 a))
