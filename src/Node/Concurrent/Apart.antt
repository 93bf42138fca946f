-- ===== src/Node/Concurrent/Apart.antt =====
-- Publications and unpublications at a target that are never in flight together, as kubelet makes
-- them for one volume: nothing is removed while something is mounted there.
use data_csi.Base.{
  Bool, String, ℕ, ◌≤◌, ◌≡◌, refl, true, false, arith, ◌==◌, List, ◌∷◌, ◌++◌, ◌⊎◌, All, All-middle,
  All-replaced, All-dropped, Bool-cases, inl, inr,
}
use data_csi.Base.Act.{step}
use data_csi.Host.{Host}
use data_csi.Host.Laws.{View, MountLaws, LossLaws}
use data_csi.Node.Server.{NodeServer, World}
use data_csi.Node.Lifecycle.{Call, stage, publish, unpublish, unstage, publishes_at}
use data_csi.Node.Concurrent.{Handler, act}
use data_csi.Node.Concurrent.Careful.{unpublishes_at, RemovesElsewhere}
use data_csi.Node.Concurrent.Mounts.{OneAtATime, interleaved_single_mount}
use data_csi.Node.Concurrent.Parts.{Part, Part-step, parts-Moved, Part-arrives}
use data_csi.Node.Concurrent.System.{
  Thread, System, Step, arrive, advance, leave, Reach, start, later,
}

-- The clients publish at the path only while no unpublication of it is in flight, and the other way
-- round, publish at a target one at a time, and ask for no other removal from which it is reached.
abbrev pub Apart :
    {H : Host} → NodeServer H → (String → String → Bool) → String → Call → List (Thread H) → Type 0
Apart ns reaches q c threads =
    RemovesElsewhere ns reaches q c
    × OneAtATime c threads
    × (publishes_at q c ≡ true → All (λ t. unpublishes_at q t.call ≡ false) threads)
    × (unpublishes_at q c ≡ true → All (λ t. publishes_at q t.call ≡ false) threads)

module _ {H : Host} {V : View H} {reaches : String → String → Bool} {q : String}
    {lost : H.State → ℕ} (L : MountLaws V) (K : LossLaws V reaches q lost) (ns : NodeServer H) where
  -- One of the two kinds of call is not in flight.
  abbrev NotBoth : List (Thread H) → Type 0
  NotBoth threads =
      All (λ t. publishes_at q t.call ≡ false) threads
      ⊎ All (λ t. unpublishes_at q t.call ≡ false) threads

  record Inv (w : World H) (s : System H) : Type 0 where
    parts : All (Part L K ns s.world) s.threads
    apart : NotBoth s.threads
    safe : lost s.world.host ≤ lost w.host

  NotBoth-arrives :
      (c : Call) (threads : List (Thread H))
      → Apart ns reaches q c threads
      → NotBoth threads
      → NotBoth (record { call = c; rest = act ns c } ∷ threads)
  NotBoth-arrives (stage req) threads (_, _, _, _) (inl h) = inl (refl, h)
  NotBoth-arrives (stage req) threads (_, _, _, _) (inr h) = inr (refl, h)
  NotBoth-arrives (unstage req) threads (_, _, _, _) (inl h) = inl (refl, h)
  NotBoth-arrives (unstage req) threads (_, _, _, _) (inr h) = inr (refl, h)
  NotBoth-arrives (publish req) threads (_, _, p, _) (inr h) = inr (refl, h)
  NotBoth-arrives (publish req) threads (_, _, p, _) (inl h) =
      elim (Bool-cases (req.target_path == q)) [ inl e ↦ inr (refl, p e) | inr n ↦ inl (n, h) ]
  NotBoth-arrives (unpublish req) threads (_, _, _, u) (inl h) = inl (refl, h)
  NotBoth-arrives (unpublish req) threads (_, _, _, u) (inr h) =
      elim (Bool-cases (req.target_path == q)) [ inl e ↦ inl (refl, u e) | inr n ↦ inr (n, h) ]

  NotBoth-advance :
      (before after : List (Thread H)) (c : Call) (old new : Handler H (Unit {0}))
      → NotBoth (before ++ (record { call = c; rest = old } ∷ after))
      → NotBoth (before ++ (record { call = c; rest = new } ∷ after))
  NotBoth-advance before after c old new (inl h) =
      let P = λ (t : Thread H). publishes_at q t.call ≡ false in
      inl (All-replaced P before after _ _ (All-middle P before after _ h) h)
  NotBoth-advance before after c old new (inr h) =
      let P = λ (t : Thread H). unpublishes_at q t.call ≡ false in
      inr (All-replaced P before after _ _ (All-middle P before after _ h) h)

  NotBoth-leave :
      (before after : List (Thread H)) (t : Thread H)
      → NotBoth (before ++ (t ∷ after))
      → NotBoth (before ++ after)
  NotBoth-leave before after t (inl h) = inl (All-dropped _ before after t h)
  NotBoth-leave before after t (inr h) = inr (All-dropped _ before after t h)

  -- Where a call that publishes at the path makes a step, no unpublication of it is in flight.
  fewer-or-none :
      (before after : List (Thread H)) (t : Thread H) (w v : World H)
      → (V.depth v.host q ≤ V.depth w.host q) ⊎ (publishes_at q t.call ≡ true)
      → NotBoth (before ++ (t ∷ after))
      → (V.depth v.host q ≤ V.depth w.host q)
        ⊎ All (λ t. unpublishes_at q t.call ≡ false) (before ++ (t ∷ after))
  fewer-or-none before after t w v (inl l) apart = inl l
  fewer-or-none before after t w v (inr p) (inr n) = inr n
  fewer-or-none before after t w v (inr p) (inl h) =
      let n = All-middle (λ t. publishes_at q t.call ≡ false) before after t h in absurd (cc (n, p))

  Step-Inv :
      {w : World H} {s t : System H}
      → V.depth s.world.host q ≤ 1
      → Step ns (Apart ns reaches q) s t
      → Inv w s
      → Inv w t
  Step-Inv {s = s} d (arrive c m) inv = record {
    parts = (Part-arrives L K ns c s.world m.0 d, inv.parts);
    apart = NotBoth-arrives c s.threads m inv.apart;
    safe = inv.safe;
  }
  Step-Inv {s = s} d (advance before after c f rest e) inv =
      let old : Thread H = record { call = c; rest = step f rest } in
      let parts : All (Part L K ns s.world) (before ++ (old ∷ after)) = rw (← e) inv.parts in
      let apart : NotBoth (before ++ (old ∷ after)) = rw (← e) inv.apart in
      let moved =
        Part-step L K ns c f rest s.world
          (All-middle (Part L K ns s.world) before after old parts) in
      let fewer = fewer-or-none before after old s.world (f s.world) moved.fewer apart in
      record {
        parts =
            All-replaced (Part L K ns (f s.world)) before after old _ moved.part
              (parts-Moved L K ns (before ++ (old ∷ after)) c s.world (f s.world) fewer parts);
        apart = NotBoth-advance before after c _ _ apart;
        safe = omega (arith, inv.safe, moved.kept);
      }
  Step-Inv {s = s} d (leave before after c r e) inv = record {
    parts = All-dropped (Part L K ns s.world) before after _ (rw e at inv.parts);
    apart = NotBoth-leave before after _ (rw e at inv.apart);
    safe = inv.safe;
  }

  Step-OneAtATime : {s t : System H} → Step ns (Apart ns reaches q) s t → Step ns OneAtATime s t
  Step-OneAtATime (arrive c m) = arrive c m.1
  Step-OneAtATime (advance before after c f rest e) = advance before after c f rest e
  Step-OneAtATime (leave before after c r e) = leave before after c r e

  Reach-OneAtATime :
      {w : World H} {s : System H} → Reach ns (Apart ns reaches q) w s → Reach ns OneAtATime w s
  Reach-OneAtATime start = start
  Reach-OneAtATime (later r st) = later (Reach-OneAtATime r) (Step-OneAtATime st)

  Reach-Inv :
      {w : World H} {s : System H}
      → V.depth w.host q ≤ 1
      → Reach ns (Apart ns reaches q) w s
      → Inv w s
  Reach-Inv d start = record { parts = tt; apart = inl tt; safe = omega arith }
  Reach-Inv d (later r st) =
      Step-Inv (interleaved_single_mount L ns q d (Reach-OneAtATime r)) st (Reach-Inv d r)

  -- However the steps of concurrent calls are interleaved, nothing is lost at a path by a removal
  -- while something is mounted there, if the path has at most one mount at first, publications of it
  -- and unpublications of it are not in flight together, publications at one target do not overlap, and
  -- the only calls that remove a path from which it is reached (one above it, or the staging directory
  -- that is mounted there) are the unpublications of the path itself.
  pub interleaved_removals :
      {w : World H} {s : System H}
      → V.depth w.host q ≤ 1
      → Reach ns (Apart ns reaches q) w s
      → lost s.world.host ≤ lost w.host
  interleaved_removals d r = (Reach-Inv d r).safe
