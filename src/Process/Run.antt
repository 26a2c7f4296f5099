-- ===== src/Process/Run.antt =====
-- A program in an environment, which may answer by all that has happened before.
use Prim.Native.String.{String}
use coins_gsr_v.Base.{◌≡◌, [], ◌∷◌, ok, err, panic, Result, ok_injective}
use coins_gsr_v.Process.{Sp1Client, Query, Answer, Program, done, ask}
use coins_gsr_v.Process.Holds.{History, Holds}

abbrev pub World : Sp1Client → Type 0
World client = History client → (q : Query client) → Answer q

-- All events of a run, and its result.
abbrev pub run :
    {client : Sp1Client} {A : Type 0}
    → World client
    → History client
    → Program client A
    → History client × Result String A
run world past (done r) = (past, r)
run world past (ask q answered) = let a = world past q in run world ((q, a) ∷ past) (answered a)

-- `P` holds of each query in a history, at the time when it was asked.
abbrev pub AllAsked :
    {client : Sp1Client} → (History client → Query client → Type 0) → History client → Type 0
AllAsked P [] = Unit
AllAsked P ((q, a) ∷ past) = P past q × AllAsked P past

module _ {client : Sp1Client} {A : Type 0} (P : History client → Query client → Type 0)
    (Q : History client → A → Type 0) (world : World client) where
  -- What the logic says of a program holds of its runs.
  pub run-Holds :
      (past : History client) (m : Program client A)
      → AllAsked P past
      → Holds P Q past m
      → AllAsked P (run world past m).0
        × ((a : A) → (run world past m).1 ≡ ok a → Q (run world past m).0 a)
  run-Holds past (done (ok a)) all h = (all, λ b e. rw (← ok_injective e) h)
  run-Holds past (done (err x)) all h = (all, λ b e. cc)
  run-Holds past (done panic) all h = (all, λ b e. cc)
  run-Holds past (ask q answered) all h =
      let a = world past q in run-Holds ((q, a) ∷ past) (answered a) (h.0, all) (h.1 a)
