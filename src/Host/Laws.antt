-- ===== src/Host/Laws.antt =====
-- What the theorems assume of the machine, where they assume anything: the documented behaviour of
-- the mounter and of the file calls, as far as a number of mounts and a presence can tell it.
use data_csi.Base.{
  String, ℕ, ◌≤◌, ◌+◌, ◌-◌, ◌≡◌, Bool, true, false, ◌&&◌, List, ok, err, is_ok, ◌=ℕ◌, ◌==◌,
  if◌then◌else◌,
}
use data_csi.Errors.{Error, is_not_exist}
use data_csi.Host.{Host, Config, PullOptions}

-- What can be seen of a machine: how many mounts are stacked at a path, and whether it is there.
pub record View (H : Host) : Type 0 where
  pub depth : H.State → String → ℕ
  pub present : H.State → String → Bool

-- That a number that is read off a machine is not raised by staging, nor by making a directory.
pub record Untouched (H : Host) (number : H.State → ℕ) : Type 0 where
  pub mkdir_all : (p : String) (mode : ℕ) (s : H.State) → number (H.mkdir_all p mode s).1 ≤ number s
  pub resolve :
      (c : Config H.types) (ref cache : String) (s : H.State)
      → number (H.resolve_with_telemetry c ref cache s).1 ≤ number s
  pub pull :
      (src : H.Source) (desc : H.Descriptor) (p : String) (o : PullOptions) (s : H.State)
      → number (H.pull src desc p o s).1 ≤ number s
  pub notify :
      (hosts : List H.Location) (user : String) (src : H.Source) (desc : H.Descriptor) (p : String)
      (ev : H.TelemetryEvent) (s : H.State)
      → number (H.notify_telemetry hosts user src desc p ev s).1 ≤ number s

module _ {H : Host} (V : View H) where
  open V use {depth, present}

  -- A mount that succeeds adds one at its target, and one that fails may leave one there (a bind mount
  -- is made and then mounted again with its options); an unmount takes one away, and nothing else that
  -- the driver calls mounts or unmounts. The test reads the number.
  pub record MountLaws : Type 0 where
    pub test_ok :
        (p : String) (s : H.State) (b : Bool)
        → H.is_not_mount_point p s ≡ ok b
        → b ≡ (depth s p =ℕ 0)
    pub test_missing :
        (p : String) (s : H.State) (e : Error)
        → H.is_not_mount_point p s ≡ err e
        → is_not_exist e ≡ true
        → depth s p ≡ 0
    pub depth-mount :
        (source p fs_type : String) (options : List String) (s : H.State) (q : String)
        → let (r, left) = H.mount source p fs_type options s in
          (is_ok r ≡ true → depth left q ≡ (if p == q then depth s q + 1 else depth s q))
          × (depth s q ≤ depth left q)
          × (depth left q ≤ (if p == q then depth s q + 1 else depth s q))
    pub depth-unmount :
        (p : String) (s : H.State) (q : String)
        → depth (H.unmount p s).1 q
          ≡ (if is_ok (H.unmount p s).0 && p == q then depth s q - 1 else depth s q)
    pub depth-mkdir_all :
        (p : String) (mode : ℕ) (s : H.State) (q : String)
        → depth (H.mkdir_all p mode s).1 q ≡ depth s q
    pub depth-remove_all :
        (p : String) (s : H.State) (q : String) → depth (H.remove_all p s).1 q ≡ depth s q
    pub depth-resolve :
        (c : Config H.types) (ref cache : String) (s : H.State) (q : String)
        → depth (H.resolve_with_telemetry c ref cache s).1 q ≡ depth s q
    pub depth-pull :
        (src : H.Source) (desc : H.Descriptor) (p : String) (o : PullOptions) (s : H.State)
        (q : String)
        → depth (H.pull src desc p o s).1 q ≡ depth s q
    pub depth-notify :
        (hosts : List H.Location) (user : String) (src : H.Source) (desc : H.Descriptor)
        (p : String) (ev : H.TelemetryEvent) (s : H.State) (q : String)
        → depth (H.notify_telemetry hosts user src desc p ev s).1 q ≡ depth s q

  -- A removal that succeeds, of a path where nothing is mounted, leaves nothing there; no removal
  -- or unmount makes a path appear; an error that says "not there" is right.
  pub record RemovalLaws : Type 0 where
    pub removed :
        (p : String) (s : H.State)
        → depth s p ≡ 0
        → is_ok (H.remove_all p s).0 ≡ true
        → present (H.remove_all p s).1 p ≡ false
    pub removed_missing :
        (p : String) (s : H.State) (e : Error)
        → (H.remove_all p s).0 ≡ err e
        → is_not_exist e ≡ true
        → present (H.remove_all p s).1 p ≡ false
    pub absent-remove_all :
        (p : String) (s : H.State) (q : String)
        → present s q ≡ false
        → present (H.remove_all p s).1 q ≡ false
    pub stat_missing :
        (p : String) (s : H.State) (e : Error)
        → H.stat p s ≡ err e
        → is_not_exist e ≡ true
        → present s p ≡ false

  -- At a path that is not there the test and `os.Stat` say so, and `os.RemoveAll` does nothing.
  pub record AbsenceLaws : Type 0 where
    pub test_absent :
        (p : String) (s : H.State)
        → present s p ≡ false
        → (e : Error) × (H.is_not_mount_point p s ≡ err e) × (is_not_exist e ≡ true)
    pub stat_absent :
        (p : String) (s : H.State) → present s p ≡ false → (e : Error) × (H.stat p s ≡ err e)
    pub remove_absent :
        (p : String) (s : H.State) → present s p ≡ false → H.remove_all p s ≡ (ok tt, s)

  -- A number that tells what was lost at a path by removals while something was mounted there.
  -- `os.RemoveAll` "removes path and any children it contains", so a removal of one path may reach what
  -- is mounted at another one, which is below it or is a bind mount of it: `reaches` tells where that
  -- may be. Removals that reach what is mounted at the path may raise the number, and nothing else.
  pub record LossLaws (reaches : String → String → Bool) (q : String) (lost : H.State → ℕ)
      : Type 0 where
    pub untouched : Untouched H lost
    pub lost-mount :
        (source p fs_type : String) (options : List String) (s : H.State)
        → lost (H.mount source p fs_type options s).1 ≤ lost s
    pub lost-unmount : (p : String) (s : H.State) → lost (H.unmount p s).1 ≤ lost s
    pub lost-remove_all :
        (p : String) (s : H.State)
        → (reaches p q ≡ true → depth s q ≡ 0)
        → lost (H.remove_all p s).1 ≤ lost s
