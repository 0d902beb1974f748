-- ===== src/Base/Outcome.antt =====
-- The outcome of a call of Go code: a value, an error value, or a run-time panic (a nil pointer
-- dereferenced, an index out of range).
use mathlib.Core.List.{List}
use mathlib.Core.Option.{Option, none, some}
use Prim.Native.Nat.{ℕ}

-- The errors that the code tells apart are those of the API server, by status reason; what
-- `fmt.Errorf` makes keeps its message prefix and the error that it wraps, or none where it only prints
-- the error.
pub data Error : Type 0 where
  not_found conflict server_error bad_json : Error
  bad_generation printed : List ℕ → Error
  wrapped : List ℕ → Error → Error

pub data Result {ℓ} (A : Type ℓ) : Type ℓ where
  ok : A → Result A
  err : Error → Result A
  panic : Result A

module _ {ℓ κ} {A : Type ℓ} {B : Type κ} where
  abbrev pub bind : Result A → (A → Result B) → Result B
  bind (ok a) f = f a
  bind (err e) f = err e
  bind panic f = panic

  -- `f` of what a pointer points to; a nil pointer panics.
  abbrev pub deref : Option A → (A → Result B) → Result B
  deref none f = panic
  deref (some a) f = f a
