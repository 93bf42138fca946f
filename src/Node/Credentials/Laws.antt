-- ===== src/Node/Credentials/Laws.antt =====
-- Which decoded `auth` texts are read as a credential, and what the store holds in the end.
use package.text.Mathlib.TextLemmas.{cons-append, nil-append}
use data_csi.Base.{String, ◌<>◌, ◌≡◌, refl, sym, ◌∙◌, false, List, [], ◌∷◌, ok, arith, ◌↔◌}
use data_csi.Errors.{text}
use data_csi.Host.{Credential}
use data_csi.Go.Strings.{
  split, contains, join_with, split-append, split_of_not_contains, split_parts, join_with-split,
}
use data_csi.Node.Credentials.{parse_auth}

-- The text `username:password`.
abbrev pub auth_text : Credential → String
auth_text c = c.username <> (":" <> c.password)

split-auth_text :
    (c : Credential)
    → contains b':' c.username ≡ false
    → contains b':' c.password ≡ false
    → split b':' (auth_text c) ≡ c.username ∷ c.password ∷ []
split-auth_text c u p =
    rw (cons-append, nil-append, split-append ":" c.username c.password)
      (rw (split_of_not_contains b':' c.username u, split_of_not_contains b':' c.password p))

accepted_parts :
    (decoded : String) (parts : List String) (c : Credential)
    → split b':' decoded ≡ parts
    → parse_auth decoded ≡ ok c
    → parts ≡ c.username ∷ c.password ∷ []
unfolding parse_auth
accepted_parts decoded [] c e h = ground arith
accepted_parts decoded (u ∷ []) c e h = ground arith
accepted_parts decoded (u ∷ p ∷ []) c e h = ground arith
accepted_parts decoded (u ∷ p ∷ q ∷ rest) c e h = ground arith

accepted_of_parts :
    (decoded : String) (c : Credential)
    → split b':' decoded ≡ c.username ∷ c.password ∷ []
    → parse_auth decoded ≡ ok c
unfolding parse_auth
accepted_of_parts decoded c e = rw (e, parse_auth)

-- A decoded text is accepted exactly if it is a user name and a password with one colon between
-- them, of which neither holds a colon, and the credential has these two.
pub parse_auth_exact :
    (decoded : String) (c : Credential)
    → (parse_auth decoded ≡ ok c) ↔ (
        (decoded ≡ auth_text c)
        × (contains b':' c.username ≡ false)
        × (contains b':' c.password ≡ false))
parse_auth_exact decoded c = (
  λ h.
      let e = accepted_parts decoded (split b':' decoded) c refl h in
      let none_inside = rw e at (split_parts b':' decoded) in
      (
        sym (join_with-split ":" decoded) ∙ rw e (unfold join_with in refl),
        none_inside.0,
        none_inside.1.0,
      ),
  λ (d, u, p). accepted_of_parts decoded c (rw d (split-auth_text c u p)),
)
