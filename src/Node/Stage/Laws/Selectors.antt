-- ===== src/Node/Stage/Laws/Selectors.antt =====
-- How the selectors of a volume are read from its context.
use data_csi.Base.{String, ◌≡◌, ◌≢◌, ◌↔◌, ◌∙◌, refl, sym, false, List, [], ◌∷◌, some, All, arith}
use data_csi.Base.Dict.{Dict, lookup}
use data_csi.Go.Strings.{
  split, join_with, contains, split_parts, join_with-split, split-join_with, split-ne-empty,
}
use data_csi.Node.Stage.{label_selectors}

parts_of_join :
    (text : String) (parts : List String)
    → parts ≢ []
    → All (λ p. contains b'|' p ≡ false) parts
    → join_with "|" parts ≡ text
    → split b'|' text ≡ parts
parts_of_join text [] n a j = absurd (n refl)
parts_of_join text (p ∷ ps) n a j = rw (← j) (split-join_with "|" p ps a)

-- Where the volume's context has a text of selectors, they are read as one list, which is the only
-- one that is not empty, has no selector with a `|` in it, and gives the text when joined by `|`.
pub label_selectors_exact :
    (context : Dict String) (text : String) (selectors : List String)
    → lookup "selector" context ≡ some text
    → (label_selectors context ≡ selectors) ↔ (
        (selectors ≢ [])
        × All (λ s. contains b'|' s ≡ false) selectors
        × (join_with "|" selectors ≡ text))
unfolding label_selectors
label_selectors_exact context text selectors h =
    let read : label_selectors context ≡ split b'|' text = ground arith in
    (
      λ e.
          let parts : split b'|' text ≡ selectors = sym read ∙ e in
          rw (← parts) (split-ne-empty b'|' text, split_parts b'|' text, join_with-split "|" text),
      λ (n, a, j). read ∙ parts_of_join text selectors n a j,
    )
