-- ===== src/Go/Replace.antt =====
-- `strings.Replace` of the first occurrence.
use text.Mathlib.TextLemmas.{nil-append, cons-append, cons-ne-nil}
use text.Mathlib.TextEquality.{Char-path}
use Prim.Native.Char.{Char, code}
use data_csi.Base.{
  String, ◌<>◌, ◌≡◌, ◌≢◌, refl, sym, ap, ◌∙◌, ◌⊎◌, inl, inr, Option, none, some, ◌=ℕ◌,
  if◌then◌else◌, Option-cases, arith,
}

-- What follows a prefix, as `strings.CutPrefix` finds it.
unfoldable pub cut_prefix : String → String → Option String
cut_prefix String.[] s = some s
cut_prefix (String.◌∷◌ p ps) String.[] = none
cut_prefix (String.◌∷◌ p ps) (String.◌∷◌ c s) =
    let rest = cut_prefix ps s in if code c =ℕ code p then rest else none

abbrev pub put_before : String → String → Option String → String
put_before new other none = other
put_before new other (some rest) = new <> rest

-- `strings.Replace(s, old, new, 1)`
unfoldable pub replace_first : String → String → String → String
replace_first old new String.[] = put_before new "" (cut_prefix old "")
replace_first old new (String.◌∷◌ c s) =
    put_before new (String.◌∷◌ c (replace_first old new s)) (cut_prefix old (String.◌∷◌ c s))

cut_prefix-some : (p s rest : String) → cut_prefix p s ≡ some rest → s ≡ p <> rest
unfolding cut_prefix
cut_prefix-some String.[] s rest e = rw nil-append (cc)
cut_prefix-some (String.◌∷◌ p ps) String.[] rest e = cc
cut_prefix-some (String.◌∷◌ p ps) (String.◌∷◌ c s) rest e =
    rw cons-append (ground (arith, cut_prefix-some ps s rest, Char-path c p))

cut_prefix-append : (p rest : String) → cut_prefix p (p <> rest) ≡ some rest
unfolding cut_prefix
cut_prefix-append String.[] rest = rw nil-append refl
cut_prefix-append (String.◌∷◌ p ps) rest =
    rw cons-append (ground (arith, cut_prefix-append ps rest))

cut_prefix-none : (p s : String) → cut_prefix p s ≡ none → (later : String) → s ≢ p <> later
cut_prefix-none p s n later e = ground (arith, cut_prefix-append p later)

-- A text has no part that is another.
abbrev pub Lacks : String → String → Type 0
Lacks old s = (earlier later : String) → s ≢ earlier <> (old <> later)

-- What comes before the first occurrence: none begins in it.
abbrev pub IsFirst : String → String → String → Type 0
IsFirst old before after =
    (earlier rest later : String)
    → rest ≢ ""
    → before ≡ earlier <> rest
    → rest <> (old <> after) ≢ old <> later

Lacks-cons :
    (old s : String) (c : Char)
    → cut_prefix old (String.◌∷◌ c s) ≡ none
    → Lacks old s
    → Lacks old (String.◌∷◌ c s)
Lacks-cons old s c n h String.[] later e =
    cut_prefix-none old _ n later (e ∙ nil-append (old <> later))
Lacks-cons old s c n h (String.◌∷◌ d t) later e =
    let same : String.◌∷◌ c s ≡ String.◌∷◌ d (t <> (old <> later)) = e ∙ cons-append d t _ in
    h t later (cc (same))

IsFirst-cons :
    (old before after : String) (c : Char)
    → cut_prefix old (String.◌∷◌ c (before <> (old <> after))) ≡ none
    → IsFirst old before after
    → IsFirst old (String.◌∷◌ c before) after
IsFirst-cons old before after c n h String.[] rest later r e f =
    let same : String.◌∷◌ c before ≡ rest = e ∙ nil-append rest in
    cut_prefix-none old _ n later
      (sym (cons-append c before (old <> after)) ∙ ap (λ t. t <> (old <> after)) same ∙ f)
IsFirst-cons old before after c n h (String.◌∷◌ d t) rest later r e f =
    let same : String.◌∷◌ c before ≡ String.◌∷◌ d (t <> rest) = e ∙ cons-append d t rest in
    h t rest later r (cc (same)) f

IsFirst-empty : (old after : String) → IsFirst old "" after
IsFirst-empty old after String.[] rest later r e f = r (sym (e ∙ nil-append rest))
IsFirst-empty old after (String.◌∷◌ d t) rest later r e f =
    cons-ne-nil d (t <> rest) (sym (e ∙ cons-append d t rest))

-- What a text becomes: the same, where it lacks the one that is replaced, or with the first
-- occurrence of it replaced.
abbrev pub IsReplaced : String → String → String → String → Type 0
IsReplaced old new s t =
    (Lacks old s × (t ≡ s))
    ⊎ ((before : String) × (after : String) × (s ≡ before <> (old <> after))
        × IsFirst old before after
        × (t ≡ before <> (new <> after)))

new-IsReplaced :
    (old new s rest : String) → cut_prefix old s ≡ some rest → IsReplaced old new s (new <> rest)
new-IsReplaced old new s rest e = inr (
  "",
  rest,
  rw nil-append (cut_prefix-some old s rest e),
  IsFirst-empty old rest,
  sym (nil-append (new <> rest)),
)

IsReplaced-cons :
    (old new s t : String) (c : Char)
    → cut_prefix old (String.◌∷◌ c s) ≡ none
    → IsReplaced old new s t
    → IsReplaced old new (String.◌∷◌ c s) (String.◌∷◌ c t)
IsReplaced-cons old new s t c n (inl (h, e)) =
    inl (Lacks-cons old s c n h, ap (λ x. String.◌∷◌ c x) e)
IsReplaced-cons old new s t c n (inr (before, after, e, first, f)) = inr (
  String.◌∷◌ c before,
  after,
  rw (e, cons-append) refl,
  IsFirst-cons old before after c (rw e at n) first,
  rw (f, cons-append) refl,
)

Lacks-empty : (old : String) → cut_prefix old "" ≡ none → Lacks old ""
Lacks-empty old n String.[] later e = cut_prefix-none old "" n later (e ∙ nil-append (old <> later))
Lacks-empty old n (String.◌∷◌ d t) later e = cons-ne-nil d _ (sym (e ∙ cons-append d t _))

pub replace_first-IsReplaced : (old new s : String) → IsReplaced old new s (replace_first old new s)
unfolding replace_first
replace_first-IsReplaced old new String.[] = elim (Option-cases (cut_prefix old "")) [
  | inr n ↦ rw n (inl (Lacks-empty old n, refl))
  | inl (rest, e) ↦ rw e (new-IsReplaced old new "" rest e)
]
replace_first-IsReplaced old new (String.◌∷◌ c s) =
    elim (Option-cases (cut_prefix old (String.◌∷◌ c s))) [
      | inr n ↦ rw n (IsReplaced-cons old new s _ c n (replace_first-IsReplaced old new s))
      | inl (rest, e) ↦ rw e (new-IsReplaced old new _ rest e)
    ]
