-- ===== src/Command/Safety.antt =====
-- The host as a whole, whatever its arguments are.
use Prim.Native.String.{String}
use text.Mathlib.Text.{◌==◌ as str_eq}
use coins_gsr_v.Base.{◌≡◌, ◌⊎◌, inl, inr, true, ◌||◌, List, [], ◌∷◌, ok}
use coins_gsr_v.Process.{Query}
use coins_gsr_v.Process.Holds.{History, Holds, Holds-if, Holds-weaken, Holds-permits}
use coins_gsr_v.Process.Run.{World, run, AllAsked, run-Holds}
use coins_gsr_v.Evidence.{Environment}
use coins_gsr_v.Command.{
  derive_usage, prepare_usage, derive, prepare, session, with_two, with_three, dispatch,
}
use coins_gsr_v.Command.Derive
use coins_gsr_v.Command.Derive.{derive-Holds}
use coins_gsr_v.Command.Prepare
use coins_gsr_v.Command.Prepare.{prepare-Holds}
use coins_gsr_v.Command.Session
use coins_gsr_v.Command.Session.{Arguments}
use coins_gsr_v.Command.Session.Writes.{session-Holds}

module _ (env : Environment) where
  open env use {client}

  abbrev IsSession : String → Type 0
  IsSession command =
      (str_eq command "execute" || str_eq command "prove" || str_eq command "verify") ≡ true

  abbrev arguments_of : String → String → String → String → Arguments
  arguments_of command a b c = record {
    command = command;
    input_name = a;
    elf_name = b;
    directory_name = c;
  }

  -- What the host may ask for, by its arguments.
  abbrev pub Permits : List String → History client → Query client → Type 0
  Permits (command ∷ a ∷ b ∷ []) past q =
      ((str_eq command "derive" ≡ true) × Derive.Permits env a b past q)
      ⊎ ((str_eq command "prepare" ≡ true) × Prepare.Permits env a b past q)
  Permits (command ∷ a ∷ b ∷ c ∷ []) past q =
      IsSession command × Session.Permits env (arguments_of command a b c) past q
  Permits _ past q = ⊥

  -- What it has written when it ends well.
  abbrev pub Wrote : List String → History client → Unit {0} → Type 0
  Wrote (command ∷ a ∷ b ∷ []) past u =
      ((str_eq command "derive" ≡ true) × Derive.Wrote env a b past u)
      ⊎ ((str_eq command "prepare" ≡ true) × Prepare.Wrote env a b past u)
  Wrote (command ∷ a ∷ b ∷ c ∷ []) past u =
      IsSession command × Session.Wrote env (arguments_of command a b c) past u
  Wrote _ past u = ⊥

  route-Holds :
      (P : History client → Query client → Type 0) (Q : History client → Unit {0} → Type 0)
      (command : String) (arguments : List String)
      → (str_eq command "derive" ≡ true
          → Holds P Q [] (with_two env derive_usage (derive env) arguments))
      → (str_eq command "prepare" ≡ true
          → Holds P Q [] (with_two env prepare_usage (prepare env) arguments))
      → (IsSession command → Holds P Q [] (with_three env (session env command) arguments))
      → Holds P Q [] (dispatch env (command ∷ arguments))
  unfolding dispatch
  route-Holds P Q command arguments derives prepares runs =
      Holds-if P Q [] (str_eq command "derive") _ _ derives λ _.
        Holds-if P Q [] (str_eq command "prepare") _ _ prepares
          λ _. Holds-if P Q [] _ _ _ runs λ _. tt

  dispatch-Holds :
      (arguments : List String)
      → Holds (Permits arguments) (Wrote arguments) [] (dispatch env arguments)
  unfolding dispatch
  dispatch-Holds [] = tt
  dispatch-Holds (command ∷ []) = route-Holds _ _ command [] (λ _. tt) (λ _. tt) λ _. tt
  dispatch-Holds (command ∷ a ∷ []) = route-Holds _ _ command (a ∷ []) (λ _. tt) (λ _. tt) λ _. tt
  dispatch-Holds (command ∷ a ∷ b ∷ []) =
      let permits = Permits (command ∷ a ∷ b ∷ []) in
      let wrote = Wrote (command ∷ a ∷ b ∷ []) in
      route-Holds permits wrote command (a ∷ b ∷ [])
        (λ derives.
          Holds-permits (Derive.Permits env a b) permits wrote (λ _ _ h. inl (derives, h)) [] _
            (Holds-weaken _ (Derive.Wrote env a b) wrote [] _ (derive-Holds env a b)
              λ _ _ _ h. inl (derives, h)))
        (λ prepares.
          Holds-permits (Prepare.Permits env a b) permits wrote (λ _ _ h. inr (prepares, h)) [] _
            (Holds-weaken _ (Prepare.Wrote env a b) wrote [] _ (prepare-Holds env a b)
              λ _ _ _ h. inr (prepares, h)))
        λ _. tt
  dispatch-Holds (command ∷ a ∷ b ∷ c ∷ []) =
      let permits = Permits (command ∷ a ∷ b ∷ c ∷ []) in
      let wrote = Wrote (command ∷ a ∷ b ∷ c ∷ []) in
      let arguments = arguments_of command a b c in
      route-Holds permits wrote command (a ∷ b ∷ c ∷ []) (λ _. tt) (λ _. tt)
        λ known.
          Holds-permits (Session.Permits env arguments) permits wrote (λ _ _ h. (known, h)) [] _
            (Holds-weaken _ (Session.Wrote env arguments) wrote [] _
              (session-Holds env arguments known) λ _ _ _ h. (known, h))
  dispatch-Holds (command ∷ a ∷ b ∷ c ∷ d ∷ more) =
      route-Holds _ _ command (a ∷ b ∷ c ∷ d ∷ more) (λ _. tt) (λ _. tt) λ _. tt

  -- In every run of the host, whatever its arguments and the system's answers, every question to the
  -- system is one that a command with its number of arguments may ask at that time. With other
  -- arguments nothing is asked and no run ends well. A run that ends well has written its command's
  -- file, unless the command is `execute`.
  pub dispatch_writes :
      (arguments : List String) (world : World client)
      → AllAsked (Permits arguments) (run world [] (dispatch env arguments)).0
        × ((u : Unit {0})
            → (run world [] (dispatch env arguments)).1 ≡ ok u
            → Wrote arguments (run world [] (dispatch env arguments)).0 u)
  dispatch_writes arguments world =
      run-Holds (Permits arguments) (Wrote arguments) world [] (dispatch env arguments) tt
        (dispatch-Holds arguments)
