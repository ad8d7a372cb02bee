-- ===== src/Runtime/Setup.antt =====
-- What runtime/llmlet-runtime.js sets up around a module: configureEnv, and the deprecated releaseConn.
use dip_distributed_llm_runt.Prelude.{
  ◌≡◌, refl, ap, arith, ◌∙◌, Bool, true, if◌then◌else◌, List, [], ◌∷◌, Option, none, some, String,
  text_discrete, ite, if_pos, if_neg,
}
use dip_distributed_llm_runt.Prelude.Dict
use dip_distributed_llm_runt.Prelude.Dict.{Dict}

-- The entries of `env`: `none` is undefined or null, any other value is its `String`.
unfoldable pub add_entries : Dict String (Option String) → Dict String String → Dict String String
add_entries [] env = env
add_entries ((key, none) ∷ es) env = add_entries es env
add_entries ((key, some value) ∷ es) env = add_entries es (Dict.set text_discrete key value env)

unfoldable pub configure_env : Dict String (Option String) → Dict String String → Dict String String
configure_env entries env = add_entries entries (Dict.set text_discrete "NO_COLOR" "1" env)

-- The keys of an object are distinct.
abbrev pub IsObject : Dict String (Option String) → Type 0
IsObject [] = Unit
IsObject ((key, value) ∷ es) = (Dict.get text_discrete key es ≡ none) × IsObject es

abbrev pub or_else : Option (Option String) → Option String → Option String
or_else none old = old
or_else (some none) old = old
or_else (some (some value)) old = some value

-- A variable has the value that the caller gives it; with none given, it keeps what it was.
add_entries-get :
    (key : String) (es : Dict String (Option String)) (env : Dict String String)
    → IsObject es
    → Dict.get text_discrete key (add_entries es env)
      ≡ or_else (Dict.get text_discrete key es) (Dict.get text_discrete key env)
unfolding add_entries Dict.get
add_entries-get key [] env h = refl
add_entries-get key ((k, none) ∷ es) env (fresh, h) =
    let rest = add_entries-get key es env h in
    elim (text_discrete k key) [
      | yes p ↦
          let gone : Dict.get text_discrete key es ≡ none = rw p at fresh in
          rw (if_pos _ p, rest, gone) refl
      | no n ↦ rw (if_neg _ n) rest
    ]
add_entries-get key ((k, some value) ∷ es) env (fresh, h) =
    let rest = add_entries-get key es (Dict.set text_discrete k value env) h in
    elim (text_discrete k key) [
      | yes p ↦
          let gone : Dict.get text_discrete key es ≡ none = rw p at fresh in
          ground (arith, rest, gone, p, Dict.get-set text_discrete key k value env)
      | no n ↦
          rw (rest, Dict.get-set text_discrete key k value env, if_neg _ n) (rw (if_neg _ n) refl)
    ]

-- The environment of the module: what the caller gives, NO_COLOR for the rest, and what was there before.
pub configure_env-get :
    (key : String) (entries : Dict String (Option String)) (env : Dict String String)
    → IsObject entries
    → Dict.get text_discrete key (configure_env entries env)
      ≡ or_else
          (Dict.get text_discrete key entries)
          (ite (text_discrete "NO_COLOR" key) (some "1") (Dict.get text_discrete key env))
unfolding configure_env
configure_env-get key entries env h =
    add_entries-get key entries (Dict.set text_discrete "NO_COLOR" "1" env) h
    ∙ ap (or_else (Dict.get text_discrete key entries))
        (Dict.get-set text_discrete key "NO_COLOR" "1" env)

pub data Warning : Type 0 where
  releases_nothing : Warning

-- `releaseConnWarned`, and the warnings so far.
pub record Release : Type 0 where
  pub warned : Bool
  pub warnings : List Warning

unfoldable pub deprecated_release_conn : Release → Release
deprecated_release_conn r =
    if r.warned then r else record { warned = true; warnings = releases_nothing ∷ r.warnings }
