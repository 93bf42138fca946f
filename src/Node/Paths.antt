-- ===== src/Node/Paths.antt =====
-- Where the directories of ephemeral volumes lie: `filepath.Join(storageDir, "ephemeral", "staging")`
-- of `NewNodeServer` and `filepath.Join(ns.ephemeralStagingDir, volumeID)` of the handlers.
mod Join
use data_csi.Base.{
  String, ◌<>◌, ◌≡◌, ◌≢◌, refl, sym, ◌∙◌, ap, List, [], ◌∷◌, ok, arith, false, ◌==◌, length, inl,
  ◌↔◌,
}
use data_csi.Go.Strings.{split}
use data_csi.Go.Filepath.{is_abs, elements, walk, keep, up, render, join}
use data_csi.Go.Filepath.Normal.{
  IsElement, IsNormal, elements-IsNormal, walk-append, split-slash, keep-dots,
}
use data_csi.Go.Filepath.Laws.{
  is_abs_of_no_slash, elements-render, is_abs-render, walk_element, render_child,
}
use data_csi.Host.{Host}
use data_csi.Node.Server.{NodeServer, new_node_server}
use data_csi.Node.Publish.{ephemeral_path}
use Join.{
  join_below, staging_elements, staging_elements-IsNormal, join_staging, join_cache,
  cache-IsElement, split-dots, is_abs-dots, dots-ne-empty, walk-dots,
}

module _ {H : Host} (name node_id storage_dir : String) (hosts : List H.Location) (user : String)
    {ns : NodeServer H} (made : new_node_server H name node_id storage_dir hosts user ≡ ok ns) where
  staging_dir_lem : ns.ephemeral_staging_dir ≡ join (storage_dir ∷ "ephemeral" ∷ "staging" ∷ [])
  unfolding new_node_server
  staging_dir_lem = ground arith

  cache_dir_lem : ns.cache_dir ≡ join (storage_dir ∷ "cache" ∷ [])
  unfolding new_node_server
  cache_dir_lem = ground arith

  staging_dir_text :
      ns.ephemeral_staging_dir ≡ render (is_abs storage_dir) (staging_elements storage_dir)
  staging_dir_text = staging_dir_lem ∙ join_staging storage_dir

  -- What a relative path below the staging directory is walked to.
  below_staging :
      (t : String)
      → t ≢ ""
      → is_abs t ≡ false
      → ephemeral_path ns t
        ≡ render
            (is_abs storage_dir)
            (walk (is_abs storage_dir) (staging_elements storage_dir) (split b'/' t))
  unfolding ephemeral_path
  below_staging t n r =
      let normal = staging_elements-IsNormal storage_dir in
      join_below ns.ephemeral_staging_dir t n r
      ∙ rw (staging_dir_text, is_abs-render _ _ normal, elements-render _ _ normal)

  volume_dir_text :
      (id : String)
      → IsElement id
      → ephemeral_path ns id ≡ render (is_abs storage_dir) (id ∷ staging_elements storage_dir)
  volume_dir_text id h =
      below_staging id h.ne_empty (is_abs_of_no_slash id h.no_slash)
      ∙ rw (walk_element (is_abs storage_dir) (staging_elements storage_dir) id h)

  volume_dir_elements :
      (id : String)
      → IsElement id
      → elements (ephemeral_path ns id) ≡ id ∷ staging_elements storage_dir
  volume_dir_elements id h = rw (volume_dir_text id h) (
      elements-render (is_abs storage_dir) (id ∷ staging_elements storage_dir)
        (inl (h, staging_elements-IsNormal storage_dir)))

  -- The directory of a volume whose id is one name lies directly below the staging directory, under
  -- that name.
  pub volume_dir_below_staging :
      (id : String) → IsElement id → ephemeral_path ns id ≡ ns.ephemeral_staging_dir <> ("/" <> id)
  volume_dir_below_staging id h =
      volume_dir_text id h
      ∙ render_child (is_abs storage_dir) id "staging" ("ephemeral" ∷ elements storage_dir)
      ∙ ap (λ t. t <> ("/" <> id)) (sym staging_dir_text)

  -- Two volumes whose ids are one name each share their directory only if they share the id, and
  -- none of them has the directory of the cache.
  pub volume_dirs_apart :
      (id other : String)
      → IsElement id
      → IsElement other
      → ((ephemeral_path ns id ≡ ephemeral_path ns other) ↔ (id ≡ other))
        × (ephemeral_path ns id ≢ ns.cache_dir)
  volume_dirs_apart id other h k = (
    (λ e. cc (volume_dir_elements id h, volume_dir_elements other k, ap elements e), λ e. rw e),
    λ e.
        let same : id ∷ staging_elements storage_dir ≡ "cache" ∷ elements storage_dir =
          sym (volume_dir_elements id h)
          ∙ ap elements (e ∙ cache_dir_lem ∙ join_cache storage_dir)
          ∙ elements-render (is_abs storage_dir) ("cache" ∷ elements storage_dir)
              (inl (cache-IsElement, elements-IsNormal storage_dir)) in
        absurd (omega (arith, ap (length {A = String}) same)),
  )

  -- An id that is `../../` and a relative path, not empty, has the directory that this path has
  -- below the storage directory: nothing keeps it inside of the staging directory.
  pub volume_dir_escapes :
      (t : String)
      → t ≢ ""
      → is_abs t ≡ false
      → ephemeral_path ns ("../../" <> t) ≡ join (storage_dir ∷ t ∷ [])
  volume_dir_escapes t n r =
      below_staging ("../../" <> t) (dots-ne-empty t) (is_abs-dots t)
      ∙ rw (split-dots, walk-dots) (sym (join_below storage_dir t n r))
