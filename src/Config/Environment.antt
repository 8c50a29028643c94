-- ===== src/Config/Environment.antt =====
-- When the environment gives a config.
use jack_courier_driver_pglg.Prelude.{
  ◌≡◌, refl, ◌↔◌, ◌⊎◌, inl, inr, Option, none, some, true, false, Bytes, codes, is_empty, ℤ, pos,
  arith, Bool-cases, Option-cases,
}
use jack_courier_driver_pglg.Errors.{ok_of_bind, Result, ok, ◌>>=◌}
use jack_courier_driver_pglg.Strconv.{parse_int}
use jack_courier_driver_pglg.Config.{Config, variable, after_batch, config_from_env}

-- The variable is unset or empty, or its text is a number of its kind.
abbrev pub Readable : (Bytes → Option ℤ) → (Bytes → Bytes) → Bytes → Type 0
Readable parse getenv name =
    (is_empty (getenv name) ≡ true) ⊎ ((n : ℤ) × (parse (getenv name) ≡ some n))

unreadable :
    (parse : Bytes → Option ℤ) (getenv : Bytes → Bytes) (name : Bytes)
    → Readable parse getenv name
    → is_empty (getenv name) ≡ false
    → parse (getenv name) ≡ none
    → ⊥
unreadable parse getenv name (inl unset) present bad = ground arith
unreadable parse getenv name (inr (n, good)) present bad = ground arith

bind_ok {ℓ κ} :
    {A : Type ℓ} {B : Type κ} (r : Result A) (f : A → Result B) (a : A)
    → r ≡ ok a
    → (b : B) × (f a ≡ ok b)
    → (b : B) × ((r >>= f) ≡ ok b)
bind_ok r f a e (b, h) = (b, rw e h)

variable_iff :
    (parse : Bytes → Option ℤ) (getenv : Bytes → Bytes) (name : Bytes)
    → ((n : ℤ) × (variable parse getenv name ≡ ok n)) ↔ Readable parse getenv name
unfolding variable
variable_iff parse getenv name = elim (Bool-cases (is_empty (getenv name))) [
  | inl unset ↦ (λ h. inl unset, λ h. (pos 0, ground arith))
  | inr present ↦ elim (Option-cases (parse (getenv name))) [
    | inl bad ↦
        (λ (n, h). absurd (ground arith), λ h. absurd (unreadable parse getenv name h present bad))
    | inr (n, good) ↦ (λ h. inr (n, good), λ h. (n, ground arith))
  ]
]

-- The environment gives a config exactly when each of the five numeric variables is unset, or holds
-- an integer (the batch size) or a duration (the others).
pub config_from_env_iff :
    (parse_duration : Bytes → Option ℤ) (getenv : Bytes → Bytes)
    → ((c : Config) × (config_from_env parse_duration getenv ≡ ok c)) ↔ (
        Readable parse_int getenv (codes "PGLG_MAX_BATCH_SIZE")
        × Readable parse_duration getenv (codes "PGLG_BATCH_TIMEOUT")
        × Readable parse_duration getenv (codes "PGLG_STANDBY_INTERVAL")
        × Readable parse_duration getenv (codes "PGLG_DLQ_RETENTION")
        × Readable parse_duration getenv (codes "PGLG_DLQ_CLEANUP_INTERVAL"))
unfolding config_from_env after_batch
config_from_env_iff parse_duration getenv = (
  λ (c, h).
      let (n1, e1, h1) = ok_of_bind _ (after_batch parse_duration getenv) c h in
      let (n2, e2, h2) = ok_of_bind _ _ c h1 in
      let (n3, e3, h3) = ok_of_bind _ _ c h2 in
      let (n4, e4, h4) = ok_of_bind _ _ c h3 in
      let (n5, e5, h5) = ok_of_bind _ _ c h4 in
      (
        (variable_iff parse_int getenv _).0 (n1, e1),
        (variable_iff parse_duration getenv _).0 (n2, e2),
        (variable_iff parse_duration getenv _).0 (n3, e3),
        (variable_iff parse_duration getenv _).0 (n4, e4),
        (variable_iff parse_duration getenv _).0 (n5, e5),
      ),
  λ (r1, r2, r3, r4, r5).
      let (n1, e1) = (variable_iff parse_int getenv _).1 r1 in
      let (n2, e2) = (variable_iff parse_duration getenv _).1 r2 in
      let (n3, e3) = (variable_iff parse_duration getenv _).1 r3 in
      let (n4, e4) = (variable_iff parse_duration getenv _).1 r4 in
      let (n5, e5) = (variable_iff parse_duration getenv _).1 r5 in
      bind_ok _ (after_batch parse_duration getenv) n1 e1
        (bind_ok _ _ n2 e2 (bind_ok _ _ n3 e3 (bind_ok _ _ n4 e4 (bind_ok _ _ n5 e5 (_, refl))))),
)
