-- ===== src/Command/Environment.antt =====
-- cmd/main.go: the environments that the operator starts with.
use hiro_adaptive_orchestrat.Base.{
  ℕ, ◌≡◌, refl, ap, ◌∙◌, String, Bool, true, false, not, ◌&&◌, ◌||◌, is_empty, List, [], ◌∷◌, ℤ,
  pos, Result, ok, err, Deps, Bool-cases, inl, inr, arith,
}
use hiro_adaptive_orchestrat.Command.{
  Parsers, Environ, ◌>>=◌, parse_env, parse_duration_env, parse_float_env, parse_int_env,
  parse_quantity_env, read_settings, fill_defaults, texts_of, build_operator, start,
}

pub data Kind : Type 0 where
  duration float integer quantity : Kind

abbrev pub is_ok : {A : Type 0} → Result A → Bool
is_ok (ok a) = true
is_ok (err e) = false

-- Whether a text is a value of the kind.
abbrev pub parses : Parsers → Kind → String → Bool
parses p Kind.duration v = is_ok (p.duration v)
parses p Kind.float v = is_ok (p.float v)
parses p Kind.integer v = is_ok (p.int v)
parses p Kind.quantity v = is_ok (p.quantity v)

-- The variables of the engine, with their kinds.
abbrev pub variables : List (Kind × String)
variables =
    (Kind.integer, "REBALANCE_MAX_RECENT_DECISIONS")
    ∷ (Kind.duration, "REBALANCE_DETECTION_INTERVAL")
    ∷ (Kind.duration, "REBALANCE_DECISION_TIMEOUT")
    ∷ (Kind.float, "REBALANCE_NODE_PRESSURE_THRESHOLD")
    ∷ (Kind.float, "REBALANCE_IMPROVEMENT_THRESHOLD")
    ∷ (Kind.duration, "REBALANCE_DECISION_STORE_TTL")
    ∷ (Kind.duration, "REBALANCE_MOVE_ACTION_TIMEOUT")
    ∷ (Kind.integer, "REBALANCE_MOVE_RATE_LIMIT")
    ∷ (Kind.duration, "REBALANCE_SCALE_ACTION_TIMEOUT")
    ∷ (Kind.integer, "REBALANCE_MIN_REPLICAS")
    ∷ (Kind.integer, "REBALANCE_MAX_REPLICAS")
    ∷ (Kind.duration, "REBALANCE_RESOURCE_ACTION_TIMEOUT")
    ∷ (Kind.quantity, "REBALANCE_MIN_CPU")
    ∷ (Kind.quantity, "REBALANCE_MAX_CPU")
    ∷ (Kind.quantity, "REBALANCE_MIN_MEMORY")
    ∷ (Kind.quantity, "REBALANCE_MAX_MEMORY")
    ∷ (Kind.duration, "REBALANCE_WATCHDOG_STALE_THRESHOLD")
    ∷ []

-- A variable that is not set, or whose value is one of its kind.
abbrev pub is_readable : Parsers → Environ → (Kind × String) → Bool
is_readable p env (kind, name) = is_empty (env name) || parses p kind (env name)

abbrev pub all_readable : Parsers → Environ → List (Kind × String) → Bool
all_readable p env [] = true
all_readable p env (v ∷ vs) = is_readable p env v && all_readable p env vs

is_ok-parse_env :
    {A : Type 0} (kind : String) (nought : A) (parse : String → Result A) (name v : String)
    → is_ok (parse_env kind nought parse name v) ≡ (is_empty v || is_ok (parse v))
is_ok-parse_env kind nought parse name v = ground arith

is_ok-map : {A B : Type 0} (m : Result A) (g : A → B) → is_ok (m >>= λ a. ok (g a)) ≡ is_ok m
is_ok-map (ok a) g = refl
is_ok-map (err e) g = refl

is_ok-bind :
    {A B : Type 0} (m : Result A) (f : A → Result B) (b : Bool)
    → ((a : A) → is_ok (f a) ≡ b)
    → is_ok (m >>= f) ≡ (is_ok m && b)
is_ok-bind (ok a) f b h = h a
is_ok-bind (err e) f b h = refl

module _ {A B : Type 0} (kind : String) (nought : A) (parse : String → Result A) (name : String)
    (v : String) (f : A → Result B) (b : Bool) where
  -- One variable, and those after it.
  step :
      ((a : A) → is_ok (f a) ≡ b)
      → is_ok (parse_env kind nought parse name v >>= f) ≡ ((is_empty v || is_ok (parse v)) && b)
  step h =
      is_ok-bind (parse_env kind nought parse name v) f b h
      ∙ ap (λ (x : Bool). x && b) (is_ok-parse_env kind nought parse name v)

module _ {B : Type 0} (p : Parsers) (env : Environ) where
  step-integer :
      (name : String) (f : ℤ → Result B) (b : Bool)
      → ((a : ℤ) → is_ok (f a) ≡ b)
      → is_ok (parse_int_env p env name >>= f) ≡ (is_readable p env (Kind.integer, name) && b)
  unfolding parse_int_env
  step-integer name f b h = step "integer" (pos 0) p.int name (env name) f b h

  step-duration :
      (name : String) (f : ℤ → Result B) (b : Bool)
      → ((a : ℤ) → is_ok (f a) ≡ b)
      → is_ok (parse_duration_env p env name >>= f) ≡ (is_readable p env (Kind.duration, name) && b)
  unfolding parse_duration_env
  step-duration name f b h = step "duration" (pos 0) p.duration name (env name) f b h

  step-float :
      (name : String) (f : ℤ → Result B) (b : Bool)
      → ((a : ℤ) → is_ok (f a) ≡ b)
      → is_ok (parse_float_env p env name >>= f) ≡ (is_readable p env (Kind.float, name) && b)
  unfolding parse_float_env
  step-float name f b h = step "float" (pos 0) p.float name (env name) f b h

  step-quantity :
      (name : String) (f : ℤ → Result B) (b : Bool)
      → ((a : ℤ) → is_ok (f a) ≡ b)
      → is_ok (parse_quantity_env p env name >>= f) ≡ (is_readable p env (Kind.quantity, name) && b)
  unfolding parse_quantity_env
  step-quantity name f b h = step "resource.Quantity" (pos 0) p.quantity name (env name) f b h

module _ (p : Parsers) (env : Environ) where
  read_settings-readable : is_ok (read_settings p env) ≡ all_readable p env variables
  unfolding read_settings
  read_settings-readable = step-integer p env _ _ _ (λ _. step-duration p env _ _ _ (λ _.
      step-duration p env _ _ _ (λ _. step-float p env _ _ _ (λ _. step-float p env _ _ _ (λ _.
        step-duration p env _ _ _ (λ _. step-duration p env _ _ _ (λ _.
          step-integer p env _ _ _ (λ _. step-duration p env _ _ _ (λ _.
            step-integer p env _ _ _ (λ _. step-integer p env _ _ _ (λ _.
              step-duration p env _ _ _ (λ _. step-quantity p env _ _ _ (λ _.
                step-quantity p env _ _ _ (λ _. step-quantity p env _ _ _ (λ _.
                  step-quantity p env _ _ _
                    (λ _. step-duration p env _ _ _ (λ _. refl)))))))))))))))))

  -- The operator starts exactly if the agent's URL is set and each of the engine's variables is
  -- not set or has a value of its kind; every other environment exits the process.
  pub start-readable :
      (d : Deps) (retries : ℕ)
      → is_ok (start p d retries env)
        ≡ (not (is_empty (env "DECISION_AGENT_URL")) && all_readable p env variables)
  unfolding start
  start-readable d retries = elim (Bool-cases (is_empty (env "DECISION_AGENT_URL"))) [
    | inl h ↦ rw h refl
    | inr h ↦ rw h (
        is_ok-map (read_settings p env)
          (λ settings. build_operator d retries (texts_of env) (fill_defaults settings))
        ∙ read_settings-readable)
  ]
