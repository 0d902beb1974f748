-- ===== src/Client.antt =====
-- The Kubernetes client of controller-runtime, which is not code of the repository: a parameter.
-- A call takes the state of the API server and returns what the server answers and its new state.
pub mod Lawful
pub mod Rules
use osrm_operator.Base.{
  List, Option, none, some, Bool, true, false, Error, not_found, conflict, server_error, bad_json,
  bad_generation, printed, wrapped, Result, ok, err, panic,
}
use osrm_operator.Text.{Text}
use osrm_operator.Kube.{Kind, Item}

pub record Client : Type 1 where
  pub World : Type 0
  -- `Get` by namespace and name.
  pub get : (k : Kind) → Text → Text → World → Result (Item k) × World
  -- `List` by namespace and the value of the label app.kubernetes.io/name.
  pub list : (k : Kind) → Text → Text → World → Result (List (Item k)) × World
  -- `Delete` by namespace and name, with background propagation.
  pub delete : Kind → Text → Text → World → Result (Unit {0}) × World

-- `errors.IsNotFound` and `errors.IsConflict`, which look through `%w`.
abbrev pub is_not_found : Error → Bool
is_not_found not_found = true
is_not_found conflict = false
is_not_found server_error = false
is_not_found bad_json = false
is_not_found (bad_generation s) = false
is_not_found (printed message) = false
is_not_found (wrapped message e) = is_not_found e

abbrev pub is_conflict : Error → Bool
is_conflict not_found = false
is_conflict conflict = true
is_conflict server_error = false
is_conflict bad_json = false
is_conflict (bad_generation s) = false
is_conflict (printed message) = false
is_conflict (wrapped message e) = is_conflict e

abbrev pub Action : Type 0 → Type 0 → Type 0
Action W A = W → Result A × W

-- `fmt.Errorf(message + ": %w", err)` on an error.
abbrev pub wrap_result : {A : Type 0} → Text → Result A → Result A
wrap_result message (ok a) = ok a
wrap_result message (err e) = err (wrapped message e)
wrap_result message panic = panic

-- What a `Get` found: an object that is not found is no error.
abbrev pub found : {A : Type 0} → Result A → Result (Option A)
found (ok a) = ok (some a)
found (err e) = elim (is_not_found e) [ true ↦ ok none | false ↦ err e ]
found panic = panic

-- `err != nil && !errors.IsNotFound(err)` of a `Delete`, with the error then returned.
abbrev pub gone : Text → Result (Unit {0}) → Result (Unit {0})
gone message (ok u) = ok u
gone message (err e) = elim (is_not_found e) [ true ↦ ok tt | false ↦ err (wrapped message e) ]
gone message panic = panic

abbrev pub answer : {W A B : Type 0} → (Result A → Result B) → Action W A → Action W B
answer f m w = let (r, w') = m w in (f r, w')

infixl 5 ◌>>=◌ ◌>>◌
abbrev pub ◌>>=◌ : {W A B : Type 0} → Action W A → (A → Action W B) → Action W B
◌>>=◌ m f w =
    let (r, w') = m w in elim r [ ok a ↦ f a w' | err e ↦ (err e, w') | panic ↦ (panic, w') ]

abbrev pub ◌>>◌ : {W B : Type 0} → Action W (Unit {0}) → Action W B → Action W B
m >> k = m >>= λ _. k

abbrev pub lift : {W A : Type 0} → Result A → Action W A
lift r w = (r, w)
