-- ===== src/Device/Methods/Laws.antt =====
-- The table behaves as a map from names to handlers, and how a dispatch ends.
use iothub.Base.{
  ap, sym, Error, ℕ, ◌≡◌, refl, ◌≢◌, ◌↔◌, ◌⊎◌, inl, inr, Option, none, some, Str, str_eq,
  str_eq_iff, str_eq_refl, lookup, lookup-insert, lookup-delete, Outcome, ok, fail, panic,
  method_not_registered, arith, if◌then◌else◌, Option-cases, ◌∙◌, Dict,
}
use iothub.Device.Methods.{
  Json, Handler, MethodMux, entries, handle, remove, reply, answer, invoke, or_empty, dispatch,
}

module _ {Object : Type 0} where
  -- After a registration the method's name has the handler that it had, or the new one if it had
  -- none, and every other name has what it had.
  pub lookup-handle :
      (method name : Str) (f : Handler Object) (m : MethodMux Object)
      → lookup name (entries (handle method (some f) m).0) ≡ (
          if str_eq method name
          then elim (lookup method (entries m)) [ none ↦ some f | some g ↦ some g ]
          else lookup name (entries m))
  unfolding handle
  lookup-handle method name f m = elim (Option-cases (lookup method (entries m))) [
    | inl free ↦ ground (arith, lookup-insert method name f (entries m), str_eq_iff method name)
    | inr (g, taken) ↦ ground (arith, str_eq_iff method name)
  ]

  pub handle-result :
      (method : Str) (f : Handler Object) (m : MethodMux Object)
      → ((handle method (some f) m).1 ≡ ok tt) ↔ (lookup method (entries m) ≡ none)
  unfolding handle
  handle-result method f m = ground arith

  lookup_removed :
      (method name : Str) (o : Option (Dict (Handler Object)))
      → lookup name (entries (remove method (record { table = o })))
        ≡ (if str_eq method name then none else lookup name (entries (record { table = o })))
  unfolding remove lookup
  lookup_removed method name none = ground arith
  lookup_removed method name (some t) = lookup-delete method name t

  -- After a removal the method's name has no handler, and every other name has what it had.
  pub lookup-remove :
      (method name : Str) (m : MethodMux Object)
      → lookup name (entries (remove method m))
        ≡ (if str_eq method name then none else lookup name (entries m))
  lookup-remove method name m = lookup_removed method name m.table

  -- Removing a method frees its name for a new handler, and keeps every other name.
  pub handle-remove :
      (method : Str) (f : Handler Object) (m : MethodMux Object)
      → ((handle method (some f) (remove method m)).1 ≡ ok tt)
        × (lookup method (entries (handle method (some f) (remove method m)).0) ≡ some f)
        × ((name : Str)
            → method ≢ name
            → lookup name (entries (handle method (some f) (remove method m)).0)
              ≡ lookup name (entries m))
  handle-remove method f m =
      let free : lookup method (entries (remove method m)) ≡ none =
        lookup-remove method method m ∙ rw str_eq_refl refl in
      (
        (handle-result method f (remove method m)).1 free,
        lookup-handle method method f (remove method m) ∙ rw (str_eq_refl, free) refl,
        (λ name ne.
            lookup-handle method name f (remove method m)
            ∙ ground (arith, str_eq_iff method name, lookup-remove method name m)),
      )

  -- What a handler's call answers: an error of the codec or the handler has status 500 and is quoted;
  -- otherwise the status is 200, and the body is what the handler returned, or the empty object.
  pub data Answers (json : Json Object) (f : Handler Object) (b : Str) : ℕ × Str → Type 0 where
    unreadable :
        (e : Error) → json.unmarshal b ≡ fail e → Answers json f b (500, json.quote_error e)
    refused :
        (v : Option Object) (e : Error)
        → json.unmarshal b ≡ ok v
        → f v ≡ fail e
        → Answers json f b (500, json.quote_error e)
    unwritable :
        (v : Option Object) (u : Option Object) (e : Error)
        → json.unmarshal b ≡ ok v
        → f v ≡ ok u
        → json.marshal (elim u [ none ↦ json.empty | some o ↦ o ]) ≡ fail e
        → Answers json f b (500, json.quote_error e)
    answered :
        (v : Option Object) (u : Option Object) (body : Str)
        → json.unmarshal b ≡ ok v
        → f v ≡ ok u
        → json.marshal (elim u [ none ↦ json.empty | some o ↦ o ]) ≡ ok body
        → Answers json f b (200, body)

  module _ (json : Json Object) where
    or_empty_of : (u : Option Object) → or_empty json u ≡ elim u [ none ↦ json.empty | some o ↦ o ]
    unfolding or_empty
    or_empty_of none = refl
    or_empty_of (some o) = refl

    reply-Answers :
        (f : Handler Object) (b : Str) (v u : Option Object) (r : Outcome Str)
        → json.unmarshal b ≡ ok v
        → f v ≡ ok u
        → json.marshal (or_empty json u) ≡ r
        → r ≢ panic
        → (a : ℕ × Str) × (reply json r ≡ ok a) × Answers json f b a
    unfolding reply
    reply-Answers f b v u (ok body) e g m calm =
        ((200, body), refl, answered v u body e g (ap json.marshal (sym (or_empty_of u)) ∙ m))
    reply-Answers f b v u (fail x) e g m calm = (
      (500, json.quote_error x),
      refl,
      unwritable v u x e g (ap json.marshal (sym (or_empty_of u)) ∙ m),
    )
    reply-Answers f b v u panic e g m calm = absurd (calm refl)

    answer-Answers :
        (f : Handler Object) (b : Str) (v : Option Object) (r : Outcome (Option Object))
        → ((o : Object) → json.marshal o ≢ panic)
        → json.unmarshal b ≡ ok v
        → f v ≡ r
        → r ≢ panic
        → (a : ℕ × Str) × (answer json r ≡ ok a) × Answers json f b a
    unfolding answer
    answer-Answers f b v (ok u) k e g calm =
        reply-Answers f b v u (json.marshal (or_empty json u)) e g refl (k _)
    answer-Answers f b v (fail x) k e g calm = ((500, json.quote_error x), refl, refused v x e g)
    answer-Answers f b v panic k e g calm = absurd (calm refl)

    invoke-Answers :
        (f : Handler Object) (b : Str) (r : Outcome (Option Object))
        → ((o : Object) → json.marshal o ≢ panic)
        → ((v : Option Object) → f v ≢ panic)
        → json.unmarshal b ≡ r
        → r ≢ panic
        → (a : ℕ × Str) × (invoke json f r ≡ ok a) × Answers json f b a
    unfolding invoke
    invoke-Answers f b (ok v) k h e calm = answer-Answers f b v (f v) k e refl (h v)
    invoke-Answers f b (fail x) k h e calm = ((500, json.quote_error x), refl, unreadable x e)
    invoke-Answers f b panic k h e calm = absurd (calm refl)

    dispatch_step :
        (method b : Str) (m : MethodMux Object) (o : Option (Handler Object))
        → lookup method (entries m) ≡ o
        → dispatch json method b m
          ≡ elim o [ none ↦ fail method_not_registered | some f ↦ invoke json f (json.unmarshal b) ]
    unfolding dispatch
    dispatch_step method b m o e = rw (dispatch, e)

    -- With a codec and handlers that do not panic, Dispatch returns an error where the method is not
    -- registered. Where it is, it returns a status and a body: 500 and the quoted error, if the payload
    -- cannot be decoded, the handler fails on what it says, or the result cannot be encoded; and 200 and
    -- the encoded result of the handler otherwise, a nil one as the empty object.
    pub dispatch_outcomes :
        (method b : Str) (m : MethodMux Object)
        → json.unmarshal b ≢ panic
        → ((v : Object) → json.marshal v ≢ panic)
        → ((f : Handler Object) (v : Option Object)
            → lookup method (entries m) ≡ some f
            → f v ≢ panic)
        → ((lookup method (entries m) ≡ none)
            × (dispatch json method b m ≡ fail method_not_registered))
          ⊎ ((f : Handler Object) × (a : ℕ × Str) × (lookup method (entries m) ≡ some f)
              × (dispatch json method b m ≡ ok a)
              × Answers json f b a)
    dispatch_outcomes method b m u k h = elim (Option-cases (lookup method (entries m))) [
      | inl free ↦ inl (free, dispatch_step method b m none free)
      | inr (f, taken) ↦
          let (a, ended, said) =
            invoke-Answers f b (json.unmarshal b) k (λ v. h f v taken) refl u in
          inr (f, a, taken, dispatch_step method b m (some f) taken ∙ ended, said)
    ]
