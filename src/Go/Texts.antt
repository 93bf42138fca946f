-- ===== src/Go/Texts.antt =====
-- `strings.ReplaceAll` and `strings.Cut` for one character, and `strings.TrimSpace`.
use Prim.Native.Char.{Char, code}
use text.Mathlib.TextLemmas.{nil-append, cons-append, cons-ne-nil}
use text.Mathlib.TextEquality.{Char-path}
use data_csi.Base.{
  String, ◌<>◌, ◌≡◌, refl, sym, Bool, false, ◌||◌, ◌&&◌, arith, ◌=ℕ◌, ◌==◌, if◌then◌else◌, ltb, not,
  Bool-cases, inl, inr,
}
use data_csi.Go.Strings.{contains}

-- `strings.ReplaceAll(s, old, new)`
unfoldable pub replace_all : Char → Char → String → String
replace_all old new String.[] = ""
replace_all old new (String.◌∷◌ c s) =
    let rest = replace_all old new s in String.◌∷◌ (if code c =ℕ code old then new else c) rest

-- `before, after, _ := strings.Cut(s, sep)`
unfoldable pub cut : Char → String → String × String
cut sep String.[] = ("", "")
cut sep (String.◌∷◌ c s) =
    let rest = cut sep s in if code c =ℕ code sep then ("", s) else (String.◌∷◌ c rest.0, rest.1)

-- `unicode.IsSpace(r)`
unfoldable pub is_space : Char → Bool
is_space c =
    let n = code c in
    (not (ltb n 9) && ltb n 14)
    || (n =ℕ 32)
    || (n =ℕ 0x85)
    || (n =ℕ 0xa0)
    || (n =ℕ 0x1680)
    || (not (ltb n 0x2000) && ltb n 0x200b)
    || (n =ℕ 0x2028)
    || (n =ℕ 0x2029)
    || (n =ℕ 0x202f)
    || (n =ℕ 0x205f)
    || (n =ℕ 0x3000)

unfoldable pub trim_left : String → String
trim_left String.[] = ""
trim_left (String.◌∷◌ c s) = let rest = trim_left s in if is_space c then rest else String.◌∷◌ c s

unfoldable pub trim_right : String → String
trim_right String.[] = ""
trim_right (String.◌∷◌ c s) =
    let rest = trim_right s in if is_space c && rest == "" then "" else String.◌∷◌ c rest

-- `strings.TrimSpace(s)`
unfoldable pub trim_space : String → String
trim_space s = trim_right (trim_left s)

-- Whether a text begins with a space.
abbrev pub spaced : String → Bool
spaced String.[] = false
spaced (String.◌∷◌ c s) = is_space c

pub replace_all-append :
    (old new : Char) (s t : String)
    → replace_all old new (s <> t) ≡ replace_all old new s <> replace_all old new t
unfolding replace_all
replace_all-append old new String.[] t = rw (nil-append, nil-append) refl
replace_all-append old new (String.◌∷◌ c s) t =
    rw (cons-append, cons-append, replace_all-append old new s t) refl

pub replace_all_of_not_contains :
    (old new : Char) (s : String) → contains (code old) s ≡ false → replace_all old new s ≡ s
unfolding replace_all contains
replace_all_of_not_contains old new String.[] h = refl
replace_all_of_not_contains old new (String.◌∷◌ c s) h =
    ground (arith, replace_all_of_not_contains old new s)

-- Two texts without the new character are told apart after the replacement.
pub replace_all-injective :
    (old new : Char) (s t : String)
    → contains (code new) s ≡ false
    → contains (code new) t ≡ false
    → replace_all old new s ≡ replace_all old new t
    → s ≡ t
unfolding replace_all contains
replace_all-injective old new String.[] String.[] h k e = refl
replace_all-injective old new String.[] (String.◌∷◌ d t) h k e = cc (e)
replace_all-injective old new (String.◌∷◌ c s) String.[] h k e = cc (e)
replace_all-injective old new (String.◌∷◌ c s) (String.◌∷◌ d t) h k e =
    ground (arith, replace_all-injective old new s t, Char-path c d)

pub cut-append :
    (sep : Char) (s t : String)
    → contains (code sep) s ≡ false
    → cut sep (s <> String.◌∷◌ sep t) ≡ (s, t)
unfolding cut contains
cut-append sep String.[] t h = rw nil-append (ground arith)
cut-append sep (String.◌∷◌ c s) t h = rw (cons-append) (ground (arith, cut-append sep s t))

trim_right-append-newline : (s : String) → trim_right (s <> "\n") ≡ trim_right s
unfolding trim_right is_space ◌==◌
trim_right-append-newline String.[] = refl
trim_right-append-newline (String.◌∷◌ c s) = rw (cons-append, trim_right-append-newline s) refl

-- What is left of a trimmed text without its first character is trimmed on the right.
trim_right-tail :
    (c : Char) (s : String) → trim_right (String.◌∷◌ c s) ≡ String.◌∷◌ c s → trim_right s ≡ s
unfolding trim_right
trim_right-tail c s h = elim (Bool-cases (is_space c && trim_right s == "")) [
  | inl x ↦ absurd (cons-ne-nil c s (sym (rw x at h)))
  | inr x ↦ let same : String.◌∷◌ c (trim_right s) ≡ String.◌∷◌ c s = rw x at h in cc (same)
]

trim_right-trim_right : (s : String) → trim_right (trim_right s) ≡ trim_right s
unfolding trim_right
trim_right-trim_right String.[] = refl
trim_right-trim_right (String.◌∷◌ c s) =
    let again : trim_right (trim_right s) ≡ trim_right s = trim_right-trim_right s in
    elim (Bool-cases (is_space c && trim_right s == "")) [
      | inl x ↦ rw x refl
      | inr x ↦ rw x (rw (again, x) refl)
    ]

trim_left_of_not_spaced : (s : String) → spaced s ≡ false → trim_left s ≡ s
unfolding trim_left
trim_left_of_not_spaced String.[] h = refl
trim_left_of_not_spaced (String.◌∷◌ c s) h = ground arith

-- A line that holds the rest of a trimmed text, from its second character on, is trimmed to it.
pub trim_space-line :
    (text : String) (c : Char) (s : String)
    → trim_space text ≡ String.◌∷◌ c s
    → spaced s ≡ false
    → trim_space (s <> "\n") ≡ s
unfolding trim_space
trim_space-line text c String.[] h n = unfold trim_left trim_right is_space ◌==◌ in refl
trim_space-line text c (String.◌∷◌ d s) h n =
    let trimmed : trim_right (String.◌∷◌ c (String.◌∷◌ d s)) ≡ String.◌∷◌ c (String.◌∷◌ d s) =
      rw h at (trim_right-trim_right (trim_left text)) in
    let unspaced : trim_left (String.◌∷◌ d s <> "\n") ≡ String.◌∷◌ d s <> "\n" =
      trim_left_of_not_spaced _ (rw cons-append n) in
    rw (unspaced, trim_right-append-newline) (trim_right-tail c (String.◌∷◌ d s) trimmed)
