-- ===== src/Runtime/Requirements.antt =====
-- runtime/llmlet-runtime.js: requirePeerManager and requireBrowserRuntime.
use dip_distributed_llm_runt.Prelude.{
  ◌≡◌, refl, ◌↔◌, Bool, true, if◌then◌else◌, List, [], ◌∷◌, Option, none, some, ℕ, All, Bool-cases,
  inl, inr,
}
use dip_distributed_llm_runt.Prelude.Text.{codes}

abbrev pub Text : Type 0
Text = List ℕ

abbrev pub peer_manager_methods : List Text
peer_manager_methods =
    codes "connect"
    ∷ codes "accept"
    ∷ codes "send"
    ∷ codes "recv"
    ∷ codes "close_connection"
    ∷ codes "register_buf"
    ∷ codes "close"
    ∷ []

-- The first method that `pm` lacks, which the error names.
unfoldable pub first_missing : (Text → Bool) → List Text → Option Text
first_missing has [] = none
first_missing has (m ∷ ms) = if has m then first_missing has ms else some m

unfoldable pub require_peer_manager : (Text → Bool) → Option Text
require_peer_manager has = first_missing has peer_manager_methods

pub record Browser : Type 0 where
  pub window : Bool
  pub secure_context : Bool
  pub cross_origin_isolated : Bool
  pub shared_array_buffer : Bool
  pub indexed_db : Bool

pub data Lack : Type 0 where
  no_window insecure not_isolated no_shared_memory no_database : Lack

unfoldable pub require_browser_runtime : Browser → Option Lack
require_browser_runtime b =
    if b.window
    then if b.secure_context
      then if b.cross_origin_isolated
        then if b.shared_array_buffer
          then if b.indexed_db then none else some no_database
          else some no_shared_memory
        else some not_isolated
      else some insecure
    else some no_window

-- requirePeerManager accepts exactly the managers with every method of the list.
pub first_missing_lem :
    (has : Text → Bool) (ms : List Text)
    → (first_missing has ms ≡ none) ↔ All (λ m. has m ≡ true) ms
unfolding first_missing
first_missing_lem has [] = ((λ e. tt), (λ h. refl))
first_missing_lem has (m ∷ ms) = elim (Bool-cases (has m)) [
  | inl e ↦ (
    (λ h. (e, (first_missing_lem has ms).0 (rw e at h))),
    (λ h. rw e ((first_missing_lem has ms).1 h.1)),
  )
  | inr e ↦ ((λ h. absurd (cc (rw e at h))), (λ h. absurd (cc (e, h.0))))
]
