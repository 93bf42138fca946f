-- ===== src/Go/Strings.antt =====
-- `strings.Split` and `strings.Join` with a separator of one byte, and how they go with `+`.
use Prim.Native.Char.{Char, code}
use text.Mathlib.TextEquality.{Char-path}
use text.Mathlib.TextLemmas.{nil-append, cons-append}
use data_csi.Base.{
  ℕ, String, ◌<>◌, ◌≡◌, ◌≢◌, refl, ap, ◌∙◌, List, [], ◌∷◌, ◌++◌, Bool, false, ◌||◌, arith, ◌=ℕ◌,
  if◌then◌else◌, Bool-cases, inl, inr, All,
}

-- One more character in front of the first part.
abbrev pub onto_first : Char → List String → List String
onto_first c [] = String.◌∷◌ c "" ∷ []
onto_first c (p ∷ ps) = String.◌∷◌ c p ∷ ps

-- `strings.Split(s, sep)`
unfoldable pub split : ℕ → String → List String
split sep String.[] = "" ∷ []
split sep (String.◌∷◌ c s) =
    let rest = split sep s in if code c =ℕ sep then "" ∷ rest else onto_first c rest

-- `strings.Join(parts, sep)`
unfoldable pub join_with : String → List String → String
join_with sep [] = ""
join_with sep (p ∷ []) = p
join_with sep (p ∷ q ∷ ps) = p <> (sep <> join_with sep (q ∷ ps))

-- `strings.Contains(s, sep)`
unfoldable pub contains : ℕ → String → Bool
contains sep String.[] = false
contains sep (String.◌∷◌ c s) = code c =ℕ sep || contains sep s

split_cons : (sep : ℕ) (s : String) → (p : String) × (ps : List String) × (split sep s ≡ p ∷ ps)
unfolding split
split_cons sep String.[] = ("", [], refl)
split_cons sep (String.◌∷◌ c s) =
    let (p, ps, e) = split_cons sep s in
    elim (Bool-cases (code c =ℕ sep)) [
      | inl h ↦ ("", p ∷ ps, rw (h, e))
      | inr h ↦ (String.◌∷◌ c p, ps, rw (h, e))
    ]

onto_first-append :
    (c : Char) (sep : ℕ) (s : String) (qs : List String)
    → onto_first c (split sep s ++ qs) ≡ onto_first c (split sep s) ++ qs
onto_first-append c sep s qs = let (p, ps, e) = split_cons sep s in rw e

-- The parts of two texts with a separator between them are those of the one, then of the other.
pub split-append :
    (sep : Char) (s t : String)
    → split (code sep) (s <> String.◌∷◌ sep t) ≡ split (code sep) s ++ split (code sep) t
unfolding split
split-append sep String.[] t = rw nil-append (ground arith)
split-append sep (String.◌∷◌ c s) t =
    rw cons-append
      (ground (arith, split-append sep s t, onto_first-append c (code sep) s (split (code sep) t)))

-- A text without the separator is its own only part.
pub split_of_not_contains : (sep : ℕ) (s : String) → contains sep s ≡ false → split sep s ≡ s ∷ []
unfolding split contains
split_of_not_contains sep String.[] h = refl
split_of_not_contains sep (String.◌∷◌ c s) h = ground (arith, split_of_not_contains sep s)

contains_parts :
    (c : Char) (sep : ℕ) (ps : List String)
    → code c =ℕ sep ≡ false
    → All (λ p. contains sep p ≡ false) ps
    → All (λ p. contains sep p ≡ false) (onto_first c ps)
unfolding contains
contains_parts c sep [] e h = (ground arith, tt)
contains_parts c sep (p ∷ ps) e h = (ground arith, h.1)

-- No part holds the separator.
pub split_parts : (sep : ℕ) (s : String) → All (λ p. contains sep p ≡ false) (split sep s)
unfolding split contains
split_parts sep String.[] = (refl, tt)
split_parts sep (String.◌∷◌ c s) = elim (Bool-cases (code c =ℕ sep)) [
  | inl e ↦ rw e (refl, split_parts sep s)
  | inr e ↦ rw e (contains_parts c sep (split sep s) e (split_parts sep s))
]

join_with-onto_first :
    (sep : String) (c : Char) (p : String) (ps : List String)
    → join_with sep (onto_first c (p ∷ ps)) ≡ String.◌∷◌ c (join_with sep (p ∷ ps))
unfolding join_with
join_with-onto_first sep c p [] = refl
join_with-onto_first sep c p (q ∷ ps) = cons-append c p _

join_with-cons :
    (sep p : String) (qs : List String) (q : String) (rest : List String)
    → qs ≡ q ∷ rest
    → join_with sep (p ∷ qs) ≡ p <> (sep <> join_with sep qs)
unfolding join_with
join_with-cons sep p qs q rest e = rw e

-- Joining the parts gives the text back.
pub join_with-split :
    (sep : Char) (s : String) → join_with (String.◌∷◌ sep "") (split (code sep) s) ≡ s
unfolding split join_with
join_with-split sep String.[] = refl
join_with-split sep (String.◌∷◌ c s) =
    let (p, ps, e) = split_cons (code sep) s in
    let ih : join_with (String.◌∷◌ sep "") (split (code sep) s) ≡ s = join_with-split sep s in
    elim (Bool-cases (code c =ℕ code sep)) [
      | inl h ↦ rw h (
          join_with-cons (String.◌∷◌ sep "") "" (split (code sep) s) p ps e
          ∙ rw (ih, nil-append, cons-append, nil-append, Char-path c sep (ground arith)))
      | inr h ↦ rw (h, e) (join_with-onto_first _ c p ps ∙ ap (String.◌∷◌ c) (rw (← e) ih))
    ]

-- Splitting joined parts gives them back where no part holds the separator.
pub split-join_with :
    (sep : Char) (p : String) (ps : List String)
    → All (λ q. contains (code sep) q ≡ false) (p ∷ ps)
    → split (code sep) (join_with (String.◌∷◌ sep "") (p ∷ ps)) ≡ p ∷ ps
unfolding join_with
split-join_with sep p [] h = split_of_not_contains (code sep) p h.0
split-join_with sep p (q ∷ ps) h =
    rw (cons-append, nil-append, split-append sep p, split-join_with sep q ps h.1)
      (rw (split_of_not_contains (code sep) p h.0) refl)

pub split-ne-empty : (sep : ℕ) (s : String) → split sep s ≢ []
split-ne-empty sep s h = let (p, ps, e) = split_cons sep s in cc (h, e)

split_colon : split b':' "user:pass" ≡ "user" ∷ "pass" ∷ []
unfolding split
split_colon = refl

split_path : split b'/' "/a//b" ≡ "" ∷ "a" ∷ "" ∷ "b" ∷ []
unfolding split
split_path = refl
