-- ===== src/Node/Paths/Join.antt =====
-- `filepath.Join` at the arguments that `NewNodeServer` gives it, and at a relative path.
use package.text.Mathlib.TextLemmas.{cons-append, nil-append, cons-ne-nil}
use data_csi.Base.{
  Bool, String, ◌<>◌, ◌≡◌, ◌≢◌, refl, ◌∙◌, List, [], ◌∷◌, arith, ◌==◌, if◌then◌else◌,
  eq-false_of_ne, eq_iff, Bool-cases, inl, inr, false,
}
use data_csi.Go.Strings.{split, contains}
use data_csi.Go.Filepath.{is_abs, elements, walk, render, clean, join}
use data_csi.Go.Filepath.Normal.{IsElement, IsNormal, elements-IsNormal}
use data_csi.Go.Filepath.Laws.{clean_lem, clean-slash, join_two, walk_element}

join_empty : (t : String) → join ("" ∷ t ∷ []) ≡ (if t == "" then "" else clean t)
unfolding join ◌==◌
join_empty t = refl

elements_lem : (s : String) → elements s ≡ walk (is_abs s) [] (split b'/' s)
unfolding elements
elements_lem s = refl

join_in_place :
    (t : String)
    → t ≢ ""
    → is_abs t ≡ false
    → join ("" ∷ t ∷ []) ≡ render (is_abs "") (walk (is_abs "") (elements "") (split b'/' t))
join_in_place t n r =
    join_empty t
    ∙ rw (eq-false_of_ne t "" n, clean_lem t, elements_lem t, r, elements_lem "")
        (unfold is_abs split walk ◌==◌ in refl)

-- A relative path below a directory, of which an empty text names the current one.
pub join_below :
    (s t : String)
    → t ≢ ""
    → is_abs t ≡ false
    → join (s ∷ t ∷ []) ≡ render (is_abs s) (walk (is_abs s) (elements s) (split b'/' t))
join_below s t n r = elim (Bool-cases (s == "")) [
  | inl e ↦ rw ((eq_iff s "").0 e) (join_in_place t n r)
  | inr e ↦ let h : s ≢ "" = λ p. ground (arith, eq_iff s "") in join_two s t h ∙ clean-slash s t h
]

ephemeral-IsElement : IsElement "ephemeral"
unfolding ◌==◌ contains
ephemeral-IsElement = record {
  ne_empty = λ e. cc;
  ne_dot = λ e. cc;
  ne_dots = λ e. cc;
  no_slash = refl;
}

staging-IsElement : IsElement "staging"
unfolding ◌==◌ contains
staging-IsElement = record {
  ne_empty = λ e. cc;
  ne_dot = λ e. cc;
  ne_dots = λ e. cc;
  no_slash = refl;
}

pub cache-IsElement : IsElement "cache"
unfolding ◌==◌ contains
cache-IsElement = record {
  ne_empty = λ e. cc;
  ne_dot = λ e. cc;
  ne_dots = λ e. cc;
  no_slash = refl;
}

-- The elements of the staging directory, the last one first.
abbrev pub staging_elements : String → List String
staging_elements storage_dir = "staging" ∷ "ephemeral" ∷ elements storage_dir

pub staging_elements-IsNormal : (s : String) → IsNormal (is_abs s) (staging_elements s)
staging_elements-IsNormal s =
    inl (staging-IsElement, inl (ephemeral-IsElement, elements-IsNormal s))

join_flat :
    (s : String) → join (s ∷ "ephemeral" ∷ "staging" ∷ []) ≡ join (s ∷ "ephemeral/staging" ∷ [])
unfolding join ◌==◌
join_flat s = refl

pub join_staging :
    (s : String) → join (s ∷ "ephemeral" ∷ "staging" ∷ []) ≡ render (is_abs s) (staging_elements s)
unfolding ◌==◌
join_staging s =
    join_flat s
    ∙ join_below s "ephemeral/staging" (λ e. cc) (unfold is_abs in refl)
    ∙ unfold split walk in refl

pub join_cache : (s : String) → join (s ∷ "cache" ∷ []) ≡ render (is_abs s) ("cache" ∷ elements s)
join_cache s =
    join_below s "cache" cache-IsElement.ne_empty (unfold is_abs in refl)
    ∙ rw (walk_element (is_abs s) (elements s) "cache" cache-IsElement)

pub split-dots : (t : String) → split b'/' ("../../" <> t) ≡ ".." ∷ ".." ∷ split b'/' t
unfolding split
split-dots t =
    rw (cons-append, cons-append, cons-append, cons-append, cons-append, cons-append, nil-append)

pub is_abs-dots : (t : String) → is_abs ("../../" <> t) ≡ false
unfolding is_abs
is_abs-dots t = rw cons-append

pub dots-ne-empty : (t : String) → ("../../" <> t) ≢ ""
dots-ne-empty t e = cons-ne-nil "." ("./../" <> t) (rw cons-append at e)

-- Two steps up from the staging directory lead to the storage directory.
pub walk-dots :
    (rooted : Bool) (s : String) (ps : List String)
    → walk rooted (staging_elements s) (".." ∷ ".." ∷ ps) ≡ walk rooted (elements s) ps
unfolding walk ◌==◌
walk-dots rooted s ps = refl
