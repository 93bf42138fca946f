-- ===== src/Go/Filepath/Normal.antt =====
-- The elements that `filepath.Clean` keeps of a path, and walking on from them.
use text.Mathlib.TextLemmas.{nil-append, cons-append}
use data_csi.Base.{
  String, ◌<>◌, ◌≡◌, ◌≢◌, refl, Bool, true, false, List, [], ◌∷◌, ◌++◌, arith, ◌==◌, eq_iff,
  eq-false_of_ne, inl, inr, ◌⊎◌, ◌||◌, Bool-cases, All,
}
use data_csi.Go.Strings.{split, contains, split-append, split_parts}
use data_csi.Go.Filepath.{is_abs, up, keep, walk, elements}

-- One name, as a directory lists it: no slash in it, and none of the two names that stand for
-- other directories.
pub record IsElement (p : String) : Type 0 where
  pub ne_empty : p ≢ ""
  pub ne_dot : p ≢ "."
  pub ne_dots : p ≢ ".."
  pub no_slash : contains b'/' p ≡ false

-- The elements of a clean path: names, above which `..` stands only at the start of a relative
-- path.
abbrev pub AllDots : List String → Type 0
AllDots [] = Unit
AllDots (p ∷ top) = (p ≡ "..") × AllDots top

abbrev pub IsNormal : Bool → List String → Type 0
IsNormal rooted [] = Unit
IsNormal rooted (p ∷ top) =
    (IsElement p × IsNormal rooted top) ⊎ ((rooted ≡ false) × (p ≡ "..") × AllDots top)

pub walk-append :
    (rooted : Bool) (top ps qs : List String)
    → walk rooted top (ps ++ qs) ≡ walk rooted (walk rooted top ps) qs
unfolding walk
walk-append rooted top [] qs = refl
walk-append rooted top (p ∷ ps) qs = walk-append rooted (keep rooted top p) ps qs

pub keep_element :
    (rooted : Bool) (top : List String) (p : String) → IsElement p → keep rooted top p ≡ p ∷ top
unfolding keep
keep_element rooted top p h =
    rw (
      eq-false_of_ne p "" h.ne_empty,
      eq-false_of_ne p "." h.ne_dot,
      eq-false_of_ne p ".." h.ne_dots,
    )

AllDots-IsNormal : (top : List String) → AllDots top → IsNormal false top
AllDots-IsNormal [] h = tt
AllDots-IsNormal (p ∷ top) h = inr (refl, h.0, h.1)

up-IsNormal :
    (rooted : Bool) (top : List String) → IsNormal rooted top → IsNormal rooted (up rooted top)
unfolding up
up-IsNormal true [] h = tt
up-IsNormal false [] h = inr (refl, refl, tt)
up-IsNormal rooted (p ∷ top) (inl (e, n)) = rw (eq-false_of_ne p ".." e.ne_dots) n
up-IsNormal rooted (p ∷ top) (inr (r, d, n)) = rw ((eq_iff p "..").1 d) (inr (r, refl, (d, n)))

keep-IsNormal :
    (rooted : Bool) (top : List String) (p : String)
    → contains b'/' p ≡ false
    → IsNormal rooted top
    → IsNormal rooted (keep rooted top p)
unfolding keep
keep-IsNormal rooted top p c h = elim (Bool-cases (p == "" || p == ".")) [
  | inl e ↦ rw e h
  | inr e ↦ elim (Bool-cases (p == "..")) [
    | inl d ↦ rw (e, d) (up-IsNormal rooted top h)
    | inr d ↦
        rw (e, d)
          (inl (
            record {
              ne_empty = λ q. ground (arith, eq_iff p "");
              ne_dot = λ q. ground (arith, eq_iff p ".");
              ne_dots = λ q. ground (arith, eq_iff p "..");
              no_slash = c;
            },
            h,
          ))
  ]
]

walk-IsNormal :
    (rooted : Bool) (top ps : List String)
    → All (λ p. contains b'/' p ≡ false) ps
    → IsNormal rooted top
    → IsNormal rooted (walk rooted top ps)
unfolding walk
walk-IsNormal rooted top [] c h = h
walk-IsNormal rooted top (p ∷ ps) c h =
    walk-IsNormal rooted (keep rooted top p) ps c.1 (keep-IsNormal rooted top p c.0 h)

-- What `Clean` keeps is normal.
pub elements-IsNormal : (s : String) → IsNormal (is_abs s) (elements s)
unfolding elements
elements-IsNormal s = walk-IsNormal (is_abs s) [] (split b'/' s) (split_parts b'/' s) tt

slash-append : (s t : String) → s <> ("/" <> t) ≡ s <> String.◌∷◌ "/" t
slash-append s t = rw (cons-append, nil-append)

pub split-slash : (s t : String) → split b'/' (s <> ("/" <> t)) ≡ split b'/' s ++ split b'/' t
split-slash s t = rw slash-append (split-append "/" s t)

pub IsNormal-no_slash :
    (rooted : Bool) (p : String) (top : List String)
    → IsNormal rooted (p ∷ top)
    → contains b'/' p ≡ false
unfolding contains
IsNormal-no_slash rooted p top (inl (e, n)) = e.no_slash
IsNormal-no_slash rooted p top (inr (r, d, n)) = rw d

pub keep-dots : (rooted : Bool) (top : List String) → keep rooted top ".." ≡ up rooted top
unfolding keep ◌==◌
keep-dots rooted top = refl

up-AllDots : (top : List String) → AllDots top → up false top ≡ ".." ∷ top
unfolding up
up-AllDots [] h = refl
up-AllDots (p ∷ top) h = rw ((eq_iff p "..").1 h.0)

pub keep_normal :
    (rooted : Bool) (p : String) (top : List String)
    → IsNormal rooted (p ∷ top)
    → keep rooted top p ≡ p ∷ top
keep_normal rooted p top (inl (e, n)) = keep_element rooted top p e
keep_normal rooted p top (inr (r, d, n)) = rw (r, d, keep-dots) (up-AllDots top n)

pub IsNormal-tail :
    (rooted : Bool) (p : String) (top : List String)
    → IsNormal rooted (p ∷ top)
    → IsNormal rooted top
IsNormal-tail rooted p top (inl (e, n)) = n
IsNormal-tail rooted p top (inr (r, d, n)) = rw r (AllDots-IsNormal top n)
