-- ===== src/Go/Filepath/Laws.antt =====
-- What `filepath.Clean` and `filepath.Join` do with a directory and an element below it.
use text.Mathlib.TextLemmas.{
  nil-append, cons-append, cons-ne-nil, append-ne-nil_of_right_ne-nil, append_assoc,
}
use data_csi.Base.{
  String, ◌<>◌, ◌≡◌, ◌≢◌, refl, sym, ◌∙◌, Bool, true, false, List, [], ◌∷◌, arith, ◌==◌,
  eq-false_of_ne, inl, inr, Bool-cases, eq_refl,
}
use data_csi.Go.Strings.{split, join_with, contains, split_of_not_contains}
use data_csi.Go.Filepath.{is_abs, keep, walk, elements, stack_text, render, clean, join}
use data_csi.Go.Filepath.Normal.{
  IsElement, IsNormal, walk-append, keep_element, elements-IsNormal, split-slash, IsNormal-no_slash,
  keep_normal, IsNormal-tail,
}

-- Reading the text of normal elements gives them back.
walk-stack_text :
    (rooted : Bool) (top : List String)
    → IsNormal rooted top
    → walk rooted [] (split b'/' (stack_text top)) ≡ top
unfolding stack_text
walk-stack_text rooted [] h = unfold walk split in rw (eq_refl "")
walk-stack_text rooted (p ∷ []) h =
    rw (split_of_not_contains b'/' p (IsNormal-no_slash rooted p [] h))
      (unfold walk in keep_normal rooted p [] h)
walk-stack_text rooted (p ∷ q ∷ top) h =
    rw
      (
        split-slash,
        split_of_not_contains b'/' p (IsNormal-no_slash rooted p (q ∷ top) h),
        walk-append,
        walk-stack_text rooted (q ∷ top) (IsNormal-tail rooted p (q ∷ top) h),
      )
      (unfold walk in keep_normal rooted p (q ∷ top) h)

pub is_abs-append : (s t : String) → s ≢ "" → is_abs (s <> t) ≡ is_abs s
unfolding is_abs
is_abs-append String.[] t h = absurd (h refl)
is_abs-append (String.◌∷◌ c s) t h = rw cons-append

pub is_abs_of_no_slash : (s : String) → contains b'/' s ≡ false → is_abs s ≡ false
unfolding is_abs contains
is_abs_of_no_slash String.[] h = refl
is_abs_of_no_slash (String.◌∷◌ c s) h = ground arith

slash-ne : (s : String) → ("/" <> s) ≢ ""
slash-ne s e = cons-ne-nil "/" s (rw (cons-append, nil-append) at e)

stack_text-ne_of_IsNormal :
    (p : String) (top : List String) → IsNormal false (p ∷ top) → stack_text (p ∷ top) ≢ ""
unfolding stack_text
stack_text-ne_of_IsNormal p [] (inl (h, n)) = h.ne_empty
stack_text-ne_of_IsNormal p [] (inr (r, d, n)) = λ e. cons-ne-nil "." "." (sym d ∙ e)
stack_text-ne_of_IsNormal p (q ∷ top) h =
    append-ne-nil_of_right_ne-nil (stack_text (q ∷ top)) (slash-ne p)

is_abs-stack_text :
    (p : String) (top : List String)
    → IsNormal false (p ∷ top)
    → is_abs (stack_text (p ∷ top)) ≡ false
unfolding stack_text
is_abs-stack_text p [] h = is_abs_of_no_slash p (IsNormal-no_slash false p [] h)
is_abs-stack_text p (q ∷ top) h =
    is_abs-append (stack_text (q ∷ top)) ("/" <> p)
      (stack_text-ne_of_IsNormal q top (IsNormal-tail false p (q ∷ top) h))
    ∙ is_abs-stack_text q top (IsNormal-tail false p (q ∷ top) h)

-- The text of normal elements is absolute if they are rooted.
pub is_abs-render :
    (rooted : Bool) (top : List String) → IsNormal rooted top → is_abs (render rooted top) ≡ rooted
unfolding render
is_abs-render true top h =
    is_abs-append "/" (stack_text top) (λ e. cons-ne-nil "/" "" e) ∙ unfold is_abs in refl
is_abs-render false [] h = unfold is_abs in refl
is_abs-render false (p ∷ top) h = is_abs-stack_text p top h

walk-render :
    (rooted : Bool) (top : List String)
    → IsNormal rooted top
    → walk rooted [] (split b'/' (render rooted top)) ≡ top
unfolding render
walk-render true top h =
    rw (cons-append, nil-append) (unfold split walk keep ◌==◌ in walk-stack_text true top h)
walk-render false [] h = unfold split walk keep ◌==◌ in refl
walk-render false (p ∷ top) h = walk-stack_text false (p ∷ top) h

-- Reading the text of normal elements gives them back.
pub elements-render :
    (rooted : Bool) (top : List String) → IsNormal rooted top → elements (render rooted top) ≡ top
elements-render rooted top h =
    unfold elements in rw (is_abs-render rooted top h) (walk-render rooted top h)

pub clean_lem : (s : String) → clean s ≡ render (is_abs s) (elements s)
unfolding clean
clean_lem s = refl

pub elements-clean : (s : String) → elements (clean s) ≡ elements s
elements-clean s = rw (clean_lem s) (elements-render (is_abs s) (elements s) (elements-IsNormal s))

pub is_abs-clean : (s : String) → is_abs (clean s) ≡ is_abs s
is_abs-clean s = rw (clean_lem s) (is_abs-render (is_abs s) (elements s) (elements-IsNormal s))

-- `Clean` changes nothing the second time.
pub clean-clean : (s : String) → clean (clean s) ≡ clean s
clean-clean s = clean_lem (clean s) ∙ rw (is_abs-clean, elements-clean) (sym (clean_lem s))

render-ne-empty : (rooted : Bool) (top : List String) → IsNormal rooted top → render rooted top ≢ ""
unfolding render
render-ne-empty true top h = slash-ne (stack_text top)
render-ne-empty false [] h = λ e. cons-ne-nil "." "" e
render-ne-empty false (p ∷ top) h = stack_text-ne_of_IsNormal p top h

-- `Clean` never gives the empty text.
pub clean-ne-empty : (s : String) → clean s ≢ ""
clean-ne-empty s = rw clean_lem (render-ne-empty (is_abs s) (elements s) (elements-IsNormal s))

-- What `Clean` keeps of a path and one below it: the second is walked on from the first.
pub elements-slash :
    (s t : String)
    → s ≢ ""
    → elements (s <> ("/" <> t)) ≡ walk (is_abs s) (elements s) (split b'/' t)
unfolding elements
elements-slash s t h =
    rw (is_abs-append s ("/" <> t) h, split-slash)
      (walk-append (is_abs s) [] (split b'/' s) (split b'/' t))

-- The same for the path as a text.
pub clean-slash :
    (s t : String)
    → s ≢ ""
    → clean (s <> ("/" <> t)) ≡ render (is_abs s) (walk (is_abs s) (elements s) (split b'/' t))
clean-slash s t h = clean_lem _ ∙ rw (elements-slash s t h, is_abs-append s ("/" <> t) h)

pub join_two : (s t : String) → s ≢ "" → join (s ∷ t ∷ []) ≡ clean (s <> ("/" <> t))
unfolding join
join_two s t h = rw (eq-false_of_ne s "" h)

pub walk_element :
    (rooted : Bool) (top : List String) (p : String)
    → IsElement p
    → walk rooted top (split b'/' p) ≡ p ∷ top
unfolding walk
walk_element rooted top p h =
    rw (split_of_not_contains b'/' p h.no_slash, walk) (keep_element rooted top p h)

-- The text of a path with one element more, below a path that has an element.
pub render_child :
    (rooted : Bool) (p q : String) (top : List String)
    → render rooted (p ∷ q ∷ top) ≡ render rooted (q ∷ top) <> ("/" <> p)
unfolding render
render_child true p q top = sym (append_assoc "/" (stack_text (q ∷ top)) ("/" <> p))
render_child false p q top = refl

-- `Join` gives the empty text only for elements that are all empty.
pub join-ne-empty : (s t : String) → t ≢ "" → join (s ∷ t ∷ []) ≢ ""
unfolding join
join-ne-empty s t h = elim (Bool-cases (s == "")) [
  | inl e ↦ rw (e, eq-false_of_ne t "" h) (clean-ne-empty (join_with "/" (t ∷ [])))
  | inr e ↦ rw e (clean-ne-empty (join_with "/" (s ∷ t ∷ [])))
]
