-- ===== src/Node/Concurrent/Mounts.antt =====
-- With one publication at a target in flight at a time, no interleaving stacks a second mount.
use data_csi.Base.{
  String, ℕ, ◌≤◌, ◌≡◌, true, false, arith, eq_iff, List, [], ◌∷◌, ◌++◌, ◌⊎◌, inl, inr, All,
  Bool-cases,
}
use data_csi.Base.Act.{step}
use data_csi.Base.Measure.{Keeps, Bounded}
use data_csi.Host.{Host}
use data_csi.Host.Laws.{View, MountLaws}
use data_csi.Node.Server.{NodeServer, World}
use data_csi.Node.Lifecycle.{Call, stage, publish, unpublish, unstage, publishes_at}
use data_csi.Node.Concurrent.{Handler, act}
use data_csi.Node.Concurrent.Depth.{mounts_at, Quiet-act, Bounded-publish}
use data_csi.Node.Concurrent.System.{
  Thread, System, Step, arrive, advance, leave, Reach, start, later,
}

-- The clients publish at a target only while no other publication at it is in flight.
abbrev pub OneAtATime : {H : Host} → Call → List (Thread H) → Type 0
OneAtATime (publish req) threads = All (λ t. publishes_at req.target_path t.call ≡ false) threads
OneAtATime _ threads = Unit

module _ {H : Host} (V : View H) (q : String) where
  -- No call in flight publishes at the path, and none adds a mount there.
  abbrev AllQuiet : List (Thread H) → Type 0
  AllQuiet [] = Unit
  AllQuiet (t ∷ ts) = (publishes_at q t.call ≡ false) × Keeps (mounts_at V q) t.rest × AllQuiet ts

  -- One call in flight at most publishes at the path, and it keeps the bound.
  abbrev Guarded : ℕ → List (Thread H) → Type 0
  Guarded b [] = Unit
  Guarded b (t ∷ ts) =
      ((publishes_at q t.call ≡ false) × Keeps (mounts_at V q) t.rest × Guarded b ts)
      ⊎ ((publishes_at q t.call ≡ true) × Bounded (mounts_at V q) b t.rest × AllQuiet ts)

  -- There is a bound of one at most that the number of mounts keeps, and that the calls in flight
  -- rely on.
  record Inv (s : System H) : Type 0 where
    bound : ℕ
    small : bound ≤ 1
    within : V.depth s.world.host q ≤ bound
    guarded : Guarded bound s.threads

module _ {H : Host} (V : View H) (q : String) where
  AllQuiet-advance :
      (before after : List (Thread H)) (c : Call) (f : World H → World H)
      (rest : World H → Handler H (Unit {0})) (w : World H)
      → AllQuiet V q (before ++ (record { call = c; rest = step f rest } ∷ after))
      → (V.depth (f w).host q ≤ V.depth w.host q)
        × AllQuiet V q (before ++ (record { call = c; rest = rest w } ∷ after))
  AllQuiet-advance [] after c f rest w (n, Keeps.stepped _ _ h t, a) = (h w, (n, t w, a))
  AllQuiet-advance (u ∷ us) after c f rest w (n, k, a) =
      let (h, a') = AllQuiet-advance us after c f rest w a in (h, (n, k, a'))

  AllQuiet-leave :
      (before after : List (Thread H)) (t : Thread H)
      → AllQuiet V q (before ++ (t ∷ after))
      → AllQuiet V q (before ++ after)
  AllQuiet-leave [] after t (n, k, a) = a
  AllQuiet-leave (u ∷ us) after t (n, k, a) = (n, k, AllQuiet-leave us after t a)

  Guarded-of-AllQuiet : (b : ℕ) (ts : List (Thread H)) → AllQuiet V q ts → Guarded V q b ts
  Guarded-of-AllQuiet b [] a = tt
  Guarded-of-AllQuiet b (t ∷ ts) (n, k, a) = inl (n, k, Guarded-of-AllQuiet b ts a)

  Guarded-leave :
      (b : ℕ) (before after : List (Thread H)) (t : Thread H)
      → Guarded V q b (before ++ (t ∷ after))
      → Guarded V q b (before ++ after)
  Guarded-leave b [] after t (inl (n, k, g)) = g
  Guarded-leave b [] after t (inr (p, k, a)) = Guarded-of-AllQuiet b after a
  Guarded-leave b (u ∷ us) after t (inl (n, k, g)) = inl (n, k, Guarded-leave b us after t g)
  Guarded-leave b (u ∷ us) after t (inr (p, k, a)) = inr (p, k, AllQuiet-leave us after t a)

  -- A bound that holds after a step, with what the calls in flight rely on.
  record Next (f : World H → World H) (w : World H) (ts : List (Thread H)) : Type 0 where
    bound : ℕ
    small : bound ≤ 1
    within : V.depth (f w).host q ≤ bound
    guarded : Guarded V q bound ts

  Guarded-advance :
      (b : ℕ) (before after : List (Thread H)) (c : Call) (f : World H → World H)
      (rest : World H → Handler H (Unit {0})) (w : World H)
      → b ≤ 1
      → V.depth w.host q ≤ b
      → Guarded V q b (before ++ (record { call = c; rest = step f rest } ∷ after))
      → Next f w (before ++ (record { call = c; rest = rest w } ∷ after))
  Guarded-advance b [] after c f rest w l d (inl (n, Keeps.stepped _ _ h t, g)) = record {
    bound = b;
    small = l;
    within = omega (arith, h w);
    guarded = inl (n, t w, g);
  }
  Guarded-advance b [] after c f rest w l d (inr (p, Bounded.stepped _ _ _ next h t, a)) = record {
    bound = next w;
    small = (h w d).0;
    within = (h w d).1;
    guarded = inr (p, t w d, a);
  }
  Guarded-advance b (u ∷ us) after c f rest w l d (inl (n, k, g)) =
      let r = Guarded-advance b us after c f rest w l d g in
      record {
        bound = r.bound;
        small = r.small;
        within = r.within;
        guarded = inl (n, k, r.guarded);
      }
  Guarded-advance b (u ∷ us) after c f rest w l d (inr (p, k, a)) =
      let (h, a') = AllQuiet-advance us after c f rest w a in
      record { bound = b; small = l; within = omega (arith, h); guarded = inr (p, k, a') }

  -- Where no call in flight publishes at the path, none of them adds a mount.
  AllQuiet-of-Guarded :
      (b : ℕ) (ts : List (Thread H))
      → All (λ t. publishes_at q t.call ≡ false) ts
      → Guarded V q b ts
      → AllQuiet V q ts
  AllQuiet-of-Guarded b [] n g = tt
  AllQuiet-of-Guarded b (t ∷ ts) n (inl (m, k, g)) = (m, k, AllQuiet-of-Guarded b ts n.1 g)
  AllQuiet-of-Guarded b (t ∷ ts) n (inr (p, k, a)) = absurd (ground arith)

module _ {H : Host} {V : View H} (L : MountLaws V) (ns : NodeServer H) (q : String) where
  open_calls :
      (c : Call) (b : ℕ) (ts : List (Thread H))
      → OneAtATime c ts
      → publishes_at q c ≡ true
      → Guarded V q b ts
      → Bounded (mounts_at V q) 1 (act ns c) × AllQuiet V q ts
  open_calls (stage req) b ts m p g = cc
  open_calls (unpublish req) b ts m p g = cc
  open_calls (unstage req) b ts m p g = cc
  open_calls (publish req) b ts m p g =
      let same : req.target_path ≡ q = (eq_iff req.target_path q).0 p in
      (Bounded-publish L q ns req p, AllQuiet-of-Guarded V q b ts (rw same at m) g)

  Step-Inv : {s t : System H} → Step ns OneAtATime s t → Inv V q s → Inv V q t
  Step-Inv {s} (arrive c m) inv = elim (Bool-cases (publishes_at q c)) [
    | inl p ↦
        let (k, a) = open_calls c inv.bound s.threads m p inv.guarded in
        record {
          bound = 1;
          small = omega arith;
          within = omega (arith, inv.small, inv.within);
          guarded = inr (p, k, a);
        }
    | inr n ↦ record {
      bound = inv.bound;
      small = inv.small;
      within = inv.within;
      guarded = inl (n, Quiet-act L q ns c n, inv.guarded);
    }
  ]
  Step-Inv {s} (advance before after c f rest e) inv =
      let r =
        Guarded-advance V q inv.bound before after c f rest s.world inv.small inv.within
          (rw e at inv.guarded) in
      record { bound = r.bound; small = r.small; within = r.within; guarded = r.guarded }
  Step-Inv (leave before after c r e) inv = record {
    bound = inv.bound;
    small = inv.small;
    within = inv.within;
    guarded = Guarded-leave V q inv.bound before after _ (rw e at inv.guarded);
  }

  Reach-Inv :
      {w : World H} {s : System H} → V.depth w.host q ≤ 1 → Reach ns OneAtATime w s → Inv V q s
  Reach-Inv d start = record { bound = 1; small = omega arith; within = d; guarded = tt }
  Reach-Inv d (later r st) = Step-Inv st (Reach-Inv d r)

  -- However the steps of concurrent calls are interleaved, a path with at most one mount at first
  -- has at most one in every state that is reached, if no client publishes at a target while another
  -- publication at that target is in flight.
  pub interleaved_single_mount :
      {w : World H} {s : System H}
      → V.depth w.host q ≤ 1
      → Reach ns OneAtATime w s
      → V.depth s.world.host q ≤ 1
  interleaved_single_mount d r = let inv = Reach-Inv d r in omega (arith, inv.small, inv.within)
