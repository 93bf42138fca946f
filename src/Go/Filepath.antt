-- ===== src/Go/Filepath.antt =====
-- `filepath.Clean`, `filepath.Join` and `filepath.Dir` on a Unix system. A path is read as its
-- elements: `Clean` walks them with a stack of those that it keeps, the last one first.
pub mod Normal
pub mod Laws
use Prim.Native.Char.{code}
use data_csi.Base.{
  String, ◌<>◌, ◌≡◌, refl, Bool, true, false, ◌||◌, List, [], ◌∷◌, ◌=ℕ◌, ◌==◌, if◌then◌else◌,
}
use data_csi.Go.Strings.{split, join_with}

-- Whether a path begins with a slash.
unfoldable pub is_abs : String → Bool
is_abs String.[] = false
is_abs (String.◌∷◌ c s) = code c =ℕ b'/'

-- `..` takes the last element away. At the root it does nothing, and above the start of a path
-- with no leading slash it is kept.
unfoldable pub up : Bool → List String → List String
up rooted [] = if rooted then [] else ".." ∷ []
up rooted (p ∷ top) = if p == ".." then ".." ∷ p ∷ top else top

-- One element more.
unfoldable pub keep : Bool → List String → String → List String
unfolding up
keep rooted top p =
    if p == "" || p == "." then top else if p == ".." then up rooted top else p ∷ top

unfoldable pub walk : Bool → List String → List String → List String
unfolding keep
walk rooted top [] = top
walk rooted top (p ∷ ps) = walk rooted (keep rooted top p) ps

-- The elements that `Clean` keeps of a path, the last one first.
unfoldable pub elements : String → List String
unfolding walk is_abs
elements s = walk (is_abs s) [] (split b'/' s)

-- The elements with a slash between them, the first one first.
unfoldable pub stack_text : List String → String
stack_text [] = ""
stack_text (p ∷ []) = p
stack_text (p ∷ q ∷ top) = stack_text (q ∷ top) <> ("/" <> p)

unfoldable pub render : Bool → List String → String
unfolding stack_text
render true top = "/" <> stack_text top
render false [] = "."
render false (p ∷ top) = stack_text (p ∷ top)

-- `filepath.Clean(s)`
unfoldable pub clean : String → String
unfolding elements is_abs render
clean s = render (is_abs s) (elements s)

-- `filepath.Join(elem...)`: what stands before the first element that is not empty is dropped.
unfoldable pub join : List String → String
unfolding clean join_with
join [] = ""
join (p ∷ ps) = let rest = join ps in if p == "" then rest else clean (join_with "/" (p ∷ ps))

-- The path up to its last slash, that slash included.
unfoldable pub up_to_slash : List String → String
up_to_slash [] = ""
up_to_slash (p ∷ []) = ""
up_to_slash (p ∷ q ∷ ps) = p <> ("/" <> up_to_slash (q ∷ ps))

-- `filepath.Dir(s)`
unfoldable pub dir : String → String
unfolding clean up_to_slash
dir s = clean (up_to_slash (split b'/' s))

clean_tests :
    (clean "" ≡ ".")
    × (clean "/a/../../b/./c//" ≡ "/b/c")
    × (clean "a/../../b" ≡ "../b")
    × (join ("" ∷ "a" ∷ "" ∷ "b" ∷ []) ≡ "a/b")
    × (join ("" ∷ "" ∷ []) ≡ "")
    × (dir "/tmp/csi/csi.sock" ≡ "/tmp/csi")
    × (dir "csi.sock" ≡ ".")
unfolding clean join dir split ◌==◌
clean_tests = (refl, refl, refl, refl, refl, refl, refl)
