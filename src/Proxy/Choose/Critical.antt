-- ===== src/Proxy/Choose/Critical.antt =====
-- When choose_best_tunnel settles for a Critical tunnel (rathole/src/proxy.rs).
use rathole_with_proxy.Base.{
  ◌≤◌, ◌≡◌, refl, true, Option, none, some, Text, text_eq, HashMap, get, arith,
}
use rathole_with_proxy.Float.{Float, IsIeee}
use rathole_with_proxy.Health.{TunnelHealth, critical}
use rathole_with_proxy.Proxy.Choose.{is_candidate, status_score, score_of, choose_best_tunnel}
use rathole_with_proxy.Proxy.Choose.Order.{AllWellFormed, score_of-compare}
use rathole_with_proxy.Proxy.Choose.Best.{choose_best_tunnel-least}

module _ (f : Float) {S : Type 0} (tunnels : HashMap Text S)
    (health : HashMap Text (TunnelHealth f.Carrier)) (subdomain : Text) where
  -- A Critical tunnel is chosen only where every registered tunnel that fits is Critical too.
  pub choose_best_tunnel-critical :
      IsIeee f
      → AllWellFormed f health
      → (id : Text) (tx : S) (h : TunnelHealth f.Carrier)
      → choose_best_tunnel f tunnels health subdomain ≡ some (id, tx)
      → get id health ≡ some h
      → h.status ≡ critical
      → (j : Text) (other : S) → get j tunnels ≡ some other
      → is_candidate subdomain j ≡ true
      → (k : TunnelHealth f.Carrier) × (get j health ≡ some k) × (k.status ≡ critical)
  choose_best_tunnel-critical ieee ok id tx h e known bad j other r c = worst (get j health) (
      rw known at (
        score_of-compare f health id j
          ((choose_best_tunnel-least f tunnels health subdomain ieee ok id tx e).2 j other r c)))
    where
      worst :
          (o : Option (TunnelHealth f.Carrier))
          → status_score h.status ≤ score_of o
          → (k : TunnelHealth f.Carrier) × (o ≡ some k) × (k.status ≡ critical)
      worst none s = absurd (ground arith)
      worst (some k) s = (k, refl, ground arith)
