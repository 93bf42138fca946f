-- ===== src/Driver/Run.antt =====
-- pkg/data/driver.go: the listener that `Run` opens, and its pruner.
use data_csi.Base.{
  String, ◌<>◌, List, [], ◌∷◌, Option, none, some, ok, err, Exec, lift, map_error, pure, ◌>>=◌,
  ◌>>◌, ◌==◌, if◌then◌else◌,
}
use data_csi.Base.Int.{int64}
use data_csi.Errors.{Error, text, wrap, os_is_not_exist}
use data_csi.Host.{Host, Url}
use data_csi.Go.Filepath.{dir}
use data_csi.Driver.{Driver}

-- A message of the loop's `select`: the ticker's, or that the context is done, with its error.
pub data Signal : Type 0 where
  tick : Signal
  done : Error → Signal

module _ (H : Host) where
  -- The socket of an earlier run goes; that there is none is no error.
  remove_socket : String → Exec H.State Error (Unit {0})
  remove_socket addr s =
      let (r, s') = H.remove addr s in
      elim r [
        | ok _ ↦ (ok tt, s')
        | err e ↦
            if os_is_not_exist e
            then (ok tt, s')
            else (err (wrap ("failed to remove " <> addr) e), s')
      ]

  -- The directory of the socket must be there.
  check_dir : String → Exec H.State Error (Unit {0})
  check_dir listen_dir s = elim (H.stat listen_dir s) [
    | ok _ ↦ (ok tt, s)
    | err e ↦
        if os_is_not_exist e
        then (
          err (
              text (
                "expected Kubelet plugin watcher to create parent dir "
                <> (listen_dir <> " but did not find such a dir"))),
          s,
        )
        else (err (wrap ("failed to stat " <> listen_dir) e), s)
  ]

  -- The `switch` on the scheme.
  unfoldable pub address : Url → Exec H.State Error String
  unfolding remove_socket check_dir
  address u =
      if u.scheme == "unix"
      then (do remove_socket u.path; check_dir (dir u.path); pure u.path)
      else if u.scheme == "tcp"
      then pure u.host
      else lift (err (text (u.scheme <> " endpoint scheme not supported")))

module _ {H : Host} where
  -- `Run` up to the call of `net.Listen`.
  unfoldable pub open_listener : Driver H → Exec H.State Error (Unit {0})
  open_listener d = do
    u ← map_error (wrap "unable to parse address") (lift (H.parse_url d.endpoint))
    addr ← address H u
    map_error (wrap "failed to listen") (H.listen u.scheme addr)

  -- `prune`
  unfoldable pub prune : Driver H → Exec H.State Error (Unit {0})
  unfolding int64
  prune d = map_error (wrap "pruning cache") (H.prune_cache d.ns.cache_dir (int64 d.prune_size))

  -- The pruner's loop over the messages that it gets, with the error that it returns, or none while
  -- it waits for the next message. A prune that fails is only logged.
  unfoldable pub pruner : Driver H → List Signal → H.State → Option Error × H.State
  pruner d [] s = (none, s)
  pruner d (tick ∷ signals) s = pruner d signals (prune d s).1
  pruner d (done e ∷ signals) s = (some e, s)
