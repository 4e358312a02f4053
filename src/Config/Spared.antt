-- ===== src/Config/Spared.antt =====
-- What the overrides from the environment leave alone.
use mathlib.Core.Path.{subst}
use aqap.Prelude.{
  String, true, false, Option, none, some, List, [], ◌∷◌, if◌then◌else◌, Result, ok, ◌==◌, eq_iff,
  All, ◌≡◌, refl, sym, ap, ◌∙◌, ◌≢◌, Bool-cases, Option-cases, inl, inr, bind-eq-ok, ok_injective,
}
use aqap.Value.{Value, obj, Fields, end, get_field, put_field, get_field-put_field}
use aqap.Text.{Python}
use aqap.Config.{or_default, get_path, get}
use aqap.Config.Environment.{
  after_prefix, split, convert, section_at, put_at, set_path, env_override,
}
use aqap.Config.Overrides.{AllPlain, has_underscore, split-plain, set_path-puts}

-- The entry that a section, if it is there, has under a key.
abbrev entry : String → Value → Option Value → Value
entry key default none = default
entry key default (some v) = or_default default (get_path (key ∷ []) v)

get-entry :
    (section key : String) (default : Value) (config : Fields)
    → get (section ∷ key ∷ []) default config ≡ entry key default (get_field section config)
unfolding get get_path
get-entry section key default config = elim (Option-cases (get_field section config)) [
  | inl missing ↦ rw (missing, get_path) refl
  | inr (v, found) ↦ rw (found, get_path) refl
]

entry-put_field :
    (next key : String) (v default : Value) (fs : Fields)
    → (next == key) ≡ false
    → entry key default (some (obj (put_field next v fs))) ≡ entry key default (some (obj fs))
unfolding get_path
entry-put_field next key v default fs other =
    rw (get_field-put_field next key v fs, other, get_path) refl

entry-section_at :
    (section key : String) (default inner : Value) (config : Fields)
    → section_at section (obj config) ≡ ok inner
    → entry key default (some inner) ≡ entry key default (get_field section config)
unfolding section_at get_path get_field
entry-section_at section key default inner config found =
    elim (Option-cases (get_field section config)) [
      | inl missing ↦
          let same : inner ≡ obj end = sym (ok_injective _ _ (rw (missing, section_at) at found)) in
          rw (missing, same, get_path) refl
      | inr (u, there) ↦
          let same : inner ≡ u = sym (ok_injective _ _ (rw (there, section_at) at found)) in
          rw (there, same) refl
    ]

-- what an override of another key leaves of a section
entry-set_path :
    (section key next : String) (parts : List String) (value : Result Value)
    (default inner' : Value) (config : Fields) (inner : Value)
    → section_at section (obj config) ≡ ok inner
    → set_path (next ∷ parts) value inner ≡ ok inner'
    → (next == key) ≡ false
    → entry key default (some inner') ≡ entry key default (get_field section config)
entry-set_path section key next parts value default inner' config inner found set other =
    let (fs, v, e, e') = set_path-puts next parts value inner inner' set in
    ap (λ i. entry key default (some i)) e'
    ∙ entry-put_field next key v default fs other
    ∙ ap (λ i. entry key default (some i)) (sym e)
    ∙ entry-section_at section key default inner config found

-- A key with an underscore is no part.
plain-differs :
    (part key : String)
    → has_underscore key ≡ true
    → has_underscore part ≡ false
    → (part == key) ≡ false
plain-differs part key h k = elim (Bool-cases (part == key)) [
  | inl same ↦
      let e : has_underscore part ≡ has_underscore key =
        ap has_underscore ((eq_iff part key).0 same) in
      cc
  | inr other ↦ other
]

-- the entry after another section, or this one, was put
get-put_field :
    (section key part : String) (v default : Value) (config : Fields)
    → get (section ∷ key ∷ []) default (put_field part v config)
      ≡ entry key default (if part == section then some v else get_field section config)
get-put_field section key part v default config =
    get-entry section key default (put_field part v config)
    ∙ ap (λ o. entry key default o) (get_field-put_field part section v config)

-- An override whose parts have no underscore leaves an entry of a section alone whose key has one,
-- unless it puts a value in the place of the whole section.
get-set_path :
    (section key part : String) (parts : List String) (value : Result Value)
    (default result : Value) (config : Fields)
    → has_underscore key ≡ true
    → AllPlain (part ∷ parts)
    → part ∷ parts ≢ section ∷ []
    → set_path (part ∷ parts) value (obj config) ≡ ok result
    → (config' : Fields) × (result ≡ obj config')
      × (get (section ∷ key ∷ []) default config' ≡ get (section ∷ key ∷ []) default config)
unfolding set_path put_at
get-set_path section key part [] value default result config h plain other set =
    let (v, _, put) = bind-eq-ok value _ set in
    (
      put_field part v config,
      sym (ok_injective _ _ put),
      elim (Bool-cases (part == section)) [
        | inl same ↦ absurd (other (ap (λ p. p ∷ []) ((eq_iff part section).0 same)))
        | inr differs ↦
            get-put_field section key part v default config
            ∙ ap (λ b. entry key default (if b then some v else get_field section config)) differs
            ∙ sym (get-entry section key default config)
      ],
    )
get-set_path section key part (next ∷ parts) value default result config h plain other set =
    let (inner, found, set') = bind-eq-ok (section_at part (obj config)) _ set in
    let (inner', changed, put) = bind-eq-ok (set_path (next ∷ parts) value inner) _ set' in
    (
      put_field part inner' config,
      sym (ok_injective _ _ put),
      get-put_field section key part inner' default config
          ∙ elim (Bool-cases (part == section)) [
            | inl same ↦
                ap (λ b. entry key default (if b then some inner' else get_field section config))
                  same
                ∙ entry-set_path section key next parts value default inner' config inner
                    (subst (λ p. section_at p (obj config) ≡ ok inner)
                      ((eq_iff part section).0 same) found)
                    changed (plain-differs next key h plain.1.0)
            | inr differs ↦
                ap (λ b. entry key default (if b then some inner' else get_field section config))
                  differs
          ]
          ∙ sym (get-entry section key default config),
    )

get-set_parts :
    (section key : String) (parts : List String) (value : Result Value) (default result : Value)
    (config : Fields)
    → has_underscore key ≡ true
    → AllPlain parts
    → parts ≢ section ∷ []
    → set_path parts value (obj config) ≡ ok result
    → (config' : Fields) × (result ≡ obj config')
      × (get (section ∷ key ∷ []) default config' ≡ get (section ∷ key ∷ []) default config)
unfolding set_path
get-set_parts section key [] value default result config h plain other set =
    (config, sym (ok_injective _ _ set), refl)
get-set_parts section key (part ∷ parts) value default result config h plain other set =
    get-set_path section key part parts value default result config h plain other set

-- no variable puts a value in the place of a section
abbrev SparesSection : (String → String) → String → String → List (String × String) → Type 0
SparesSection lower prefix section environ =
    All
      (λ (e : String × String).
        (name : String) → after_prefix prefix e.0 ≡ some name → split (lower name) ≢ section ∷ [])
      environ

-- Whatever the environment holds: an entry of a section that has an underscore in its key, such as
-- transport.redis_url, is after the overrides what it was before, unless a variable puts a value in
-- the place of the whole section.
pub get-env_override :
    (py : Python) (lower : String → String) (prefix section key : String)
    (environ : List (String × String)) (default result : Value) (config : Fields)
    → has_underscore key ≡ true
    → SparesSection lower prefix section environ
    → env_override py lower prefix environ (obj config) ≡ ok result
    → (config' : Fields) × (result ≡ obj config')
      × (get (section ∷ key ∷ []) default config' ≡ get (section ∷ key ∷ []) default config)
unfolding env_override
get-env_override py lower prefix section key [] default result config h spared done =
    (config, sym (ok_injective _ _ done), refl)
get-env_override py lower prefix section key ((k, val) ∷ environ) default result config h
      (spares, spared) done =
    elim (Option-cases (after_prefix prefix k)) [
      | inl foreign ↦
          get-env_override py lower prefix section key environ default result config h spared
            (rw (foreign, env_override) at done)
      | inr (name, ours) ↦
          let (mid, changed, rest) =
            bind-eq-ok (set_path (split (lower name)) (convert py lower val) (obj config)) _
              (rw (ours, env_override) at done) in
          let (config', e, same) =
            get-set_parts section key (split (lower name)) (convert py lower val) default mid config
              h (split-plain (lower name)) (spares name ours) changed in
          let (config'', e', same') =
            get-env_override py lower prefix section key environ default result config' h spared
              (subst (λ v. env_override py lower prefix environ v ≡ ok result) e rest) in
          (config'', e', same' ∙ same)
    ]
