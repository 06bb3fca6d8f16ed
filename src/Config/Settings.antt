-- ===== src/Config/Settings.antt =====
-- The settings that `Load` of internal/config/config.go reads: which are accepted, and what a run of
-- them comes to.
use notip_data_consumer.Prelude.{
  ◌≡◌, ◌≢◌, ◌↔◌, ◌⊎◌, inl, inr, refl, ap, ◌∙◌, true, false, Option, none, some, List, [], ◌∷◌, ◌++◌,
  if◌then◌else◌, ◌==◌, arith, All, Bool-cases, Option-cases,
}
use notip_data_consumer.Prelude.Bytes.{Bytes, bytes_eq, bytes_eqb_iff}
use notip_data_consumer.Prelude.Int.{ℤ}
use notip_data_consumer.Prelude.Outcome.{Result, ok, err}
use notip_data_consumer.Strconv.{NumError, parse_int64}
use notip_data_consumer.Strconv.Numeral.{IsNumeral, parse_int64_iff}
use notip_data_consumer.Config.{
  Config, ConfigError, not_set, malformed, Loader, Env, require, parse_int, opt_int,
}
use notip_data_consumer.Config.Load.{
  Setting, required, plain, integer, apply_setting, apply_settings,
}

-- The text denotes an `int64`, or is empty.
abbrev pub IsOptionalNumber : Bytes → Type 0
IsOptionalNumber s = (s ≡ []) ⊎ ((z : ℤ) × IsNumeral s z)

unfoldable pub Accepts : Env → Setting → Type 0
Accepts env (required key dst) = env key ≢ []
Accepts env (plain key dst) = Unit {0}
Accepts env (integer key dst) = IsOptionalNumber (env key)

abbrev read_number : Result NumError ℤ → ℤ → ℤ
read_number (ok z) default = z
read_number (err e) default = default

-- The number that the text denotes, or the default.
unfoldable pub number_or : Bytes → ℤ → ℤ
number_or s default = if s == [] then default else read_number (parse_int64 s) default

abbrev num_fault : Bytes → Result NumError ℤ → Option ConfigError
num_fault key (ok z) = none
num_fault key (err e) = some (malformed key e)

-- The error that the setting gives by itself.
unfoldable pub fault : Env → Setting → Option ConfigError
fault env (required key dst) = if env key == [] then some (not_set key) else none
fault env (plain key dst) = none
fault env (integer key dst) = if env key == [] then none else num_fault key (parse_int64 (env key))

-- The configuration with the setting's field set to what the environment says of it.
unfoldable pub assign : Env → Setting → Config → Config
assign env (required key dst) c = dst.set (env key) c
assign env (plain key dst) c = dst.set (env key) c
assign env (integer key dst) c = dst.set (number_or (env key) (dst.get c)) c

unfoldable pub assign_all : Env → List Setting → Config → Config
unfolding assign
assign_all env [] c = c
assign_all env (s ∷ ss) c = assign_all env ss (assign env s c)

-- The three ways in which a number may be given.
data Given (s : Bytes) : Type 0 where
  not_given : (s == []) ≡ true → Given s
  number : (z : ℤ) → (s == []) ≡ false → parse_int64 s ≡ ok z → Given s
  unreadable : (e : NumError) → (s == []) ≡ false → parse_int64 s ≡ err e → Given s

given : (s : Bytes) → Given s
given s = elim (Bool-cases (s == [])) [
  | inl empty ↦ not_given empty
  | inr there ↦ read there (parse_int64 s) refl
]
  where
    read : (s == []) ≡ false → (r : Result NumError ℤ) → parse_int64 s ≡ r → Given s
    read there (ok z) h = number z there h
    read there (err e) h = unreadable e there h

pub fault_iff : (env : Env) (s : Setting) → (fault env s ≡ none) ↔ Accepts env s
unfolding fault Accepts
fault_iff env (required key dst) = ground (arith, bytes_eqb_iff (env key) [])
fault_iff env (plain key dst) = ground arith
fault_iff env (integer key dst) = elim (given (env key)) [
  | not_given e ↦ ground (arith, bytes_eqb_iff (env key) [])
  | number z there r ↦
      (λ h. inr (z, (parse_int64_iff (env key) z).0 r), λ h. ground (arith, there, r))
  | unreadable e there r ↦ (
    λ h. absurd (ground (arith, there, r)),
    λ h. absurd (elim h [
      | inl empty ↦ ground (arith, there, bytes_eqb_iff (env key) [])
      | inr (z, numeral) ↦ ground (arith, r, (parse_int64_iff (env key) z).1 numeral)
    ]),
  )
]

abbrev pub fresh : Config → Loader
fresh c = record { cfg = c; failure = none }

apply_setting_ok :
    (env : Env) (s : Setting) (c : Config)
    → fault env s ≡ none
    → apply_setting env s (fresh c) ≡ fresh (assign env s c)
unfolding fault assign apply_setting require opt_int parse_int number_or
apply_setting_ok env (required key dst) c h = ground arith
apply_setting_ok env (plain key dst) c h = refl
apply_setting_ok env (integer key dst) c h = elim (given (env key)) [
  | not_given there ↦ ground (arith, there, dst.set_get c)
  | number z there r ↦ ground (arith, there, r)
  | unreadable e there r ↦ absurd (ground (arith, there, r))
]

apply_setting-fault :
    (env : Env) (s : Setting) (c : Config) (e : ConfigError)
    → fault env s ≡ some e
    → (apply_setting env s (fresh c)).failure ≡ some e
unfolding fault apply_setting require opt_int parse_int
apply_setting-fault env (required key dst) c e h = ground arith
apply_setting-fault env (plain key dst) c e h = cc
apply_setting-fault env (integer key dst) c e h = elim (given (env key)) [
  | not_given there ↦ absurd (ground (arith, there))
  | number z there r ↦ absurd (ground (arith, there, r))
  | unreadable f there r ↦ ground (arith, there, r)
]

-- After a failure nothing changes it.
apply_setting_failed :
    (env : Env) (s : Setting) (l : Loader) (e : ConfigError)
    → l.failure ≡ some e
    → (apply_setting env s l).failure ≡ some e
unfolding apply_setting require opt_int
apply_setting_failed env (required key dst) l e h = ground (arith, h)
apply_setting_failed env (plain key dst) l e h = h
apply_setting_failed env (integer key dst) l e h = ground (arith, h)

apply_settings_failed :
    (env : Env) (ss : List Setting) (l : Loader) (e : ConfigError)
    → l.failure ≡ some e
    → (apply_settings env ss l).failure ≡ some e
unfolding apply_settings
apply_settings_failed env [] l e h = h
apply_settings_failed env (s ∷ ss) l e h =
    apply_settings_failed env ss (apply_setting env s l) e (apply_setting_failed env s l e h)

-- The settings before are accepted, and this one gives the error.
pub record FirstFault (env : Env) (ss : List Setting) (e : ConfigError) : Type 0 where
  pub before : List Setting
  pub culprit : Setting
  pub after : List Setting
  pub divided : ss ≡ before ++ culprit ∷ after
  pub earlier : All (Accepts env) before
  pub gives : fault env culprit ≡ some e

-- What the settings come to from a loader without a failure.
pub data Run (env : Env) (ss : List Setting) (c : Config) : Type 0 where
  all_read :
      All (Accepts env) ss
      → apply_settings env ss (fresh c) ≡ fresh (assign_all env ss c)
      → Run env ss c
  stopped :
      (e : ConfigError)
      → FirstFault env ss e
      → (apply_settings env ss (fresh c)).failure ≡ some e
      → Run env ss c

one_more :
    (env : Env) (s : Setting) (ss : List Setting) (c : Config)
    → fault env s ≡ none
    → Run env ss (assign env s c)
    → Run env (s ∷ ss) c
unfolding apply_settings assign_all
one_more env s ss c clean (all_read accepted r) =
    all_read ((fault_iff env s).0 clean, accepted)
      (ap (apply_settings env ss) (apply_setting_ok env s c clean) ∙ r)
one_more env s ss c clean (stopped e f r) =
    stopped e
      (record {
        before = s ∷ f.before;
        culprit = f.culprit;
        after = f.after;
        divided = ap (◌∷◌ s) f.divided;
        earlier = ((fault_iff env s).0 clean, f.earlier);
        gives = f.gives;
      })
      (ap (λ l. (apply_settings env ss l).failure) (apply_setting_ok env s c clean) ∙ r)

pub settings-Run : (env : Env) (ss : List Setting) (c : Config) → Run env ss c
unfolding apply_settings assign_all
settings-Run env [] c = all_read tt refl
settings-Run env (s ∷ ss) c = elim (Option-cases (fault env s)) [
  | inl clean ↦ one_more env s ss c clean (settings-Run env ss (assign env s c))
  | inr (e, bad) ↦
      stopped e
        (record { before = []; culprit = s; after = ss; divided = refl; earlier = tt; gives = bad })
        (apply_settings_failed env ss (apply_setting env s (fresh c)) e
          (apply_setting-fault env s c e bad))
]
