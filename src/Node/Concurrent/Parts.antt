-- ===== src/Node/Concurrent/Parts.antt =====
-- What a call in flight does to the mounts at a path, and to what was lost there.
use data_csi.Base.{
  Bool, String, ℕ, ◌≤◌, ◌≡◌, refl, true, false, arith, ◌==◌, List, ◌⊎◌, All, All-zip, Bool-cases,
  inl, inr,
}
use data_csi.Base.Act.{step}
use data_csi.Base.Measure.{Keeps, Careful}
use data_csi.Host.{Host}
use data_csi.Host.Laws.{View, MountLaws, LossLaws}
use data_csi.Node.Server.{NodeServer, World}
use data_csi.Node.Lifecycle.{Call, stage, publish, unpublish, unstage, publishes_at}
use data_csi.Node.Concurrent.{Handler, act}
use data_csi.Node.Concurrent.Depth.{mounts_at, Quiet-act}
use data_csi.Node.Concurrent.Careful.{unpublishes_at, RemovesElsewhere, lost-act, Careful-unpublish}
use data_csi.Node.Concurrent.System.{Thread}

module _ {H : Host} {V : View H} {reaches : String → String → Bool} {q : String}
    {lost : H.State → ℕ} (L : MountLaws V) (K : LossLaws V reaches q lost) (ns : NodeServer H) where
  -- What a call in flight does at the path: it is none of the two, or it publishes there, or it
  -- unpublishes and relies on a bound of the number of mounts.
  pub data Part (w : World H) (t : Thread H) : Type 0 where
    other :
        unpublishes_at q t.call ≡ false
        → Keeps (mounts_at V q) t.rest
        → Keeps (λ v. lost v.host) t.rest
        → Part w t
    publishing : publishes_at q t.call ≡ true → Keeps (λ v. lost v.host) t.rest → Part w t
    unpublishing :
        (b : ℕ)
        → unpublishes_at q t.call ≡ true
        → V.depth w.host q ≤ b
        → Careful (mounts_at V q) (λ v. lost v.host) b t.rest
        → Part w t

  -- The part of a call is not changed by what does not add a mount.
  Part-fewer :
      (v w : World H) → V.depth w.host q ≤ V.depth v.host q → (t : Thread H) → Part v t → Part w t
  Part-fewer v w l t (other u k h) = other u k h
  Part-fewer v w l t (publishing p h) = publishing p h
  Part-fewer v w l t (unpublishing b u d c) = unpublishing b u (omega (arith, l, d)) c

  Part-any : (v w : World H) (t : Thread H) → unpublishes_at q t.call ≡ false → Part v t → Part w t
  Part-any v w t n (other u k h) = other u k h
  Part-any v w t n (publishing p h) = publishing p h
  Part-any v w t n (unpublishing b u d c) = absurd (cc (n, u))

  -- What a step of a call does.
  pub record Moved (c : Call) (f : World H → World H) (rest : World H → Handler H (Unit {0}))
      (w : World H) : Type 0 where
    pub fewer : (V.depth (f w).host q ≤ V.depth w.host q) ⊎ (publishes_at q c ≡ true)
    pub kept : lost (f w).host ≤ lost w.host
    pub part : Part (f w) (record { call = c; rest = rest w })

  pub Part-step :
      (c : Call) (f : World H → World H) (rest : World H → Handler H (Unit {0})) (w : World H)
      → Part w (record { call = c; rest = step f rest })
      → Moved c f rest w
  Part-step c f rest w (other u (Keeps.stepped _ _ k t) (Keeps.stepped _ _ h g)) = record {
    fewer = inl (k w);
    kept = h w;
    part = other u (t w) (g w);
  }
  Part-step c f rest w (publishing p (Keeps.stepped _ _ h g)) = record {
    fewer = inr p;
    kept = h w;
    part = publishing p (g w);
  }
  Part-step c f rest w (unpublishing b u d (Careful.stepped _ _ _ next k h t)) =
      let (m, l) = h w d in
      record { fewer = inl (k w); kept = l; part = unpublishing (next w) u m (t w d) }

  -- The parts of all calls after a step of one of them.
  pub parts-Moved :
      (threads : List (Thread H)) (c : Call) (w v : World H)
      → (V.depth v.host q ≤ V.depth w.host q) ⊎ All (λ t. unpublishes_at q t.call ≡ false) threads
      → All (Part w) threads
      → All (Part v) threads
  parts-Moved threads c w v (inl l) parts =
      All-zip (Part w) (Part w) (Part v) (λ t a b. Part-fewer w v l t a) threads parts parts
  parts-Moved threads c w v (inr n) parts =
      All-zip (λ t. unpublishes_at q t.call ≡ false) (Part w) (Part v) (Part-any w v) threads n
        parts

  pub Part-arrives :
      (c : Call) (w : World H)
      → RemovesElsewhere ns reaches q c
      → V.depth w.host q ≤ 1
      → Part w (record { call = c; rest = act ns c })
  Part-arrives (stage req) w e d =
      other refl (Quiet-act L q ns (stage req) refl) (lost-act L K ns (stage req) refl e)
  Part-arrives (unstage req) w e d =
      other refl (Quiet-act L q ns (unstage req) refl) (lost-act L K ns (unstage req) refl e)
  Part-arrives (publish req) w e d = elim (Bool-cases (req.target_path == q)) [
    | inl p ↦ publishing p (lost-act L K ns (publish req) refl e)
    | inr n ↦ other refl (Quiet-act L q ns (publish req) n) (lost-act L K ns (publish req) refl e)
  ]
  Part-arrives (unpublish req) w e d = elim (Bool-cases (req.target_path == q)) [
    | inl u ↦ unpublishing 1 u d (Careful-unpublish L K ns req u)
    | inr n ↦ other n (Quiet-act L q ns (unpublish req) refl) (lost-act L K ns (unpublish req) n e)
  ]
