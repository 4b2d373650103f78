-- ===== src/Device/Methods.antt =====
-- iotdevice/mux.go, methodMux: the table of direct methods and their dispatch. The JSON codec is
-- that of encoding/json, taken as an argument; a nil map is `none`.
pub mod Laws
use iothub.Base.{
  ℕ, Bool, [], Option, none, some, Str, Dict, lookup, insert, delete, Outcome, ok, fail, panic,
  Error, method_registered, method_not_registered,
}

pub record Json (Object : Type 0) : Type 0 where
  pub unmarshal : Str → Outcome (Option Object)
  pub marshal : Object → Outcome Str
  pub empty : Object
  -- fmt.Sprintf(`{"error":%q}`, err.Error())
  pub quote_error : Error → Str

-- DirectMethodHandler
abbrev pub Handler : Type 0 → Type 0
Handler Object = Option Object → Outcome (Option Object)

pub record MethodMux (Object : Type 0) : Type 0 where
  pub table : Option (Dict (Handler Object))

module _ {Object : Type 0} where
  abbrev pub entries : MethodMux Object → Dict (Handler Object)
  entries m = elim m.table [ none ↦ [] | some t ↦ t ]

  add : Dict (Handler Object) → Str → Handler Object → MethodMux Object × Outcome (Unit {0})
  add t method f = elim (lookup method t) [
    | none ↦ (record { table = some (insert method f t) }, ok tt)
    | some g ↦ (record { table = some t }, fail method_registered)
  ]

  -- `handle` makes the map first, and panics on a nil handler.
  unfoldable pub handle :
      Str → Option (Handler Object) → MethodMux Object → MethodMux Object × Outcome (Unit {0})
  unfolding add
  handle method none m = (m, panic)
  handle method (some f) m = add (entries m) method f

  unfoldable pub remove : Str → MethodMux Object → MethodMux Object
  remove method m = elim m.table [ none ↦ m | some t ↦ record { table = some (delete method t) } ]

  module _ (json : Json Object) where
    open json use {unmarshal, marshal, empty, quote_error}

    -- jsonErr
    unfoldable pub json_err : Error → Outcome (ℕ × Str)
    json_err e = ok (500, quote_error e)

    pub or_empty : Option Object → Object
    or_empty none = empty
    or_empty (some v) = v

    pub reply : Outcome Str → Outcome (ℕ × Str)
    unfolding json_err
    reply (ok b) = ok (200, b)
    reply (fail e) = json_err e
    reply panic = panic

    pub answer : Outcome (Option Object) → Outcome (ℕ × Str)
    unfolding reply or_empty
    answer (ok v) = reply (marshal (or_empty v))
    answer (fail e) = json_err e
    answer panic = panic

    pub invoke : Handler Object → Outcome (Option Object) → Outcome (ℕ × Str)
    unfolding answer
    invoke f (ok v) = answer (f v)
    invoke f (fail e) = json_err e
    invoke f panic = panic

    -- Dispatch: the status and the body, or an error.
    unfoldable pub dispatch : Str → Str → MethodMux Object → Outcome (ℕ × Str)
    unfolding invoke
    dispatch method b m = elim (lookup method (entries m)) [
      | none ↦ fail method_not_registered
      | some f ↦ invoke f (unmarshal b)
    ]
