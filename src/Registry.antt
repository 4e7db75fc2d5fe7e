-- ===== src/Registry.antt =====
-- src/registry.rs: handlers by job name, and the ways to register one. A handler is told by its result
-- when it ends; what it does outside the tables of the library is no part of the model. The map is an
-- association list with one entry to a name.
use pgspawn.Prelude.{
  ◌≡◌, refl, Option, none, some, String, text_eq, eq_iff, if◌then◌else◌, List, [], ◌∷◌, Result, ok,
  err, ◌>>=◌, map_err, arith,
}
use pgspawn.Job.{Job}

-- The error of a handler, by its message.
abbrev pub HandlerError : Type 0
HandlerError = String

abbrev pub JobHandler : Type 0 → Type 0
JobHandler Value = Job Value → Result (Unit {0}) HandlerError

abbrev pub Handlers : Type 0 → Type 0
Handlers Value = List (String × JobHandler Value)

module _ {Value : Type 0} where
  abbrev pub names : Handlers Value → List String
  names [] = []
  names ((n, h) ∷ hs) = n ∷ names hs

  unfoldable pub get : Handlers Value → (name : String) → Option (JobHandler Value)
  get [] name = none
  get ((n, h) ∷ hs) name = let found = get hs name in if text_eq n name then some h else found

  -- `HashMap::insert`
  pub insert : String → JobHandler Value → Handlers Value → Handlers Value
  insert name handler [] = (name, handler) ∷ []
  insert name handler ((n, h) ∷ hs) =
      let rest = insert name handler hs in
      if text_eq n name then (n, handler) ∷ hs else (n, h) ∷ rest

module _ {ν} {Value : Type 0} {E : Type ν} where
  -- `to_string` is the error type's Display.
  unfoldable pub register :
      (to_string : E → String) (name : String) (handler : Job Value → Result (Unit {0}) E)
      → Handlers Value
      → Handlers Value
  unfolding insert
  register to_string name handler = insert name (λ job. map_err to_string (handler job))

module _ {κ ν} {Value : Type 0} {P : Type κ} {E : Type ν} where
  -- The handler of `register_typed`; `payload_as` is `Job::payload_as` at the payload's type, with the
  -- message of its error.
  abbrev pub typed_handler :
      (payload_as : Job Value → Result P String) (to_string : E → String)
      (handler : Job Value → P → Result (Unit {0}) E)
      → JobHandler Value
  typed_handler payload_as to_string handler job = do
    payload ← payload_as job
    map_err to_string (handler job payload)

  unfoldable pub register_typed :
      (payload_as : Job Value → Result P String) (to_string : E → String) (name : String)
      (handler : Job Value → P → Result (Unit {0}) E)
      → Handlers Value
      → Handlers Value
  unfolding insert
  register_typed payload_as to_string name handler =
      insert name (typed_handler payload_as to_string handler)

module _ {ι ν} {Value : Type 0} {S : Type ι} {E : Type ν} where
  -- A clone of the state is the state.
  unfoldable pub register_with :
      (to_string : E → String) (name : String) (state : S)
      (handler : Job Value → S → Result (Unit {0}) E)
      → Handlers Value
      → Handlers Value
  unfolding register
  register_with to_string name state handler = register to_string name (λ job. handler job state)

module _ {κ ι ν} {Value : Type 0} {P : Type κ} {S : Type ι} {E : Type ν} where
  unfoldable pub register_typed_with :
      (payload_as : Job Value → Result P String) (to_string : E → String) (name : String)
      (state : S) (handler : Job Value → P → S → Result (Unit {0}) E)
      → Handlers Value
      → Handlers Value
  unfolding register_typed
  register_typed_with payload_as to_string name state handler =
      register_typed payload_as to_string name (λ job payload. handler job payload state)

-- `Infallible` has no value to display.
abbrev pub never : ⊥ → String
never e = absurd e

module _ {Value : Type 0} where
  unfoldable pub register_infallible :
      (name : String) (handler : Job Value → Unit {0}) → Handlers Value → Handlers Value
  unfolding register
  register_infallible name handler = register never name (λ job. ok (handler job))

  unfoldable pub register_infallible_with {ι} :
      {S : Type ι} (name : String) (state : S) (handler : Job Value → S → Unit {0})
      → Handlers Value
      → Handlers Value
  unfolding register_infallible
  register_infallible_with name state handler = register_infallible name (λ job. handler job state)

  unfoldable pub register_typed_infallible {κ} :
      {P : Type κ} (payload_as : Job Value → Result P String) (name : String)
      (handler : Job Value → P → Unit {0})
      → Handlers Value
      → Handlers Value
  unfolding register_typed
  register_typed_infallible payload_as name handler =
      register_typed payload_as never name (λ job payload. ok (handler job payload))

  unfoldable pub register_typed_infallible_with {κ ι} :
      {P : Type κ} {S : Type ι} (payload_as : Job Value → Result P String) (name : String)
      (state : S) (handler : Job Value → P → S → Unit {0})
      → Handlers Value
      → Handlers Value
  unfolding register_typed_infallible
  register_typed_infallible_with payload_as name state handler =
      register_typed_infallible payload_as name (λ job payload. handler job payload state)

-- What a handler for decoded payloads gives: the decoder's error, or what the function gives at the
-- payload, its error as text.
abbrev pub decoded {κ ν} :
    {P : Type κ} {E : Type ν} (to_string : E → String) (handler : P → Result (Unit {0}) E)
    → Result P String
    → Result (Unit {0}) HandlerError
decoded to_string handler (err message) = err message
decoded to_string handler (ok payload) = elim (handler payload) [
  | ok u ↦ ok u
  | err e ↦ err (to_string e)
]

module _ {Value : Type 0} where
  get-insert_lem :
      (name other : String) (h : JobHandler Value) (hs : Handlers Value)
      → get (insert name h hs) other ≡ (if text_eq name other then some h else get hs other)
  unfolding get insert
  get-insert_lem name other h [] = refl
  get-insert_lem name other h ((n, g) ∷ hs) =
      ground
        (arith, get-insert_lem name other h hs, eq_iff n name, eq_iff n other, eq_iff name other)

  -- A typed registration puts a handler under the name, in place of an earlier one; every other name gets
  -- what it got. On each job, the handler fails with the decoder's message when the payload does not decode;
  -- otherwise it succeeds when the function registered does at the payload, and fails with the text of its
  -- error when it fails.
  pub register_typed-decodes {κ ν} :
      {P : Type κ} {E : Type ν} (payload_as : Job Value → Result P String) (to_string : E → String)
      (name : String) (handler : Job Value → P → Result (Unit {0}) E) (hs : Handlers Value)
      → (h : JobHandler Value) × ((other : String)
          → get (register_typed payload_as to_string name handler hs) other
            ≡ (if text_eq name other then some h else get hs other))
        × ((job : Job Value) → h job ≡ decoded to_string (handler job) (payload_as job))
  unfolding register_typed
  register_typed-decodes payload_as to_string name handler hs = (
    typed_handler payload_as to_string handler,
    (λ other. get-insert_lem name other (typed_handler payload_as to_string handler) hs),
    (λ job. ground arith),
  )
