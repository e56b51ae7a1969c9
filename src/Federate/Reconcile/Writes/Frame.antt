-- ===== src/Federate/Reconcile/Writes/Frame.antt =====
-- The writes of the functions that copy one object.
use rancid_syncer.Base.{String, ◌≡◌, refl, Bool, Option, none, some, inl, ◌⊎◌}
use rancid_syncer.Base.Outcome.{Outcome, ok, err, panic}
use rancid_syncer.Base.Effect.{Effect, and_then, read, lift, ◌>>=◌}
use rancid_syncer.Base.Runtime.{Runtime}
use rancid_syncer.Kube.{
  ObjectKey, object_key, Service, Secret, Endpoints, ServiceMonitor, Prometheus,
}
use rancid_syncer.Federate.Client.{Client}
use rancid_syncer.Federate.Write.{copy_service_monitor, copy_secret, copy_service, copy_endpoints}

-- A relation between states that holds over every patch of an object in a namespace that `Ns`
-- allows, and over the patches of the ServiceMonitor with the key `own`.
pub record IsFrame (c : Client) (Ns : String → Type 0) (own : ObjectKey)
    (R : c.State → c.State → Type 0) : Type 0 where
  pub same : (s : c.State) → R s s
  pub chain : (s t u : c.State) → R s t → R t u → R s u
  pub monitors :
      (obj : ServiceMonitor) (change : ServiceMonitor → Bool → Outcome ServiceMonitor) (s : c.State)
      → (Ns obj.meta.namespace ⊎ (object_key obj.meta ≡ own))
      → R s (c.patch_service_monitor obj change s).1
  pub services :
      (obj : Service) (change : Service → Bool → Outcome Service) (s : c.State)
      → Ns obj.meta.namespace
      → R s (c.patch_service obj change s).1
  pub endpoints :
      (obj : Endpoints) (change : Endpoints → Bool → Outcome Endpoints) (s : c.State)
      → Ns obj.meta.namespace
      → R s (c.patch_endpoints obj change s).1
  pub secrets :
      (obj : Secret) (change : Secret → Bool → Outcome Secret) (s : c.State)
      → Ns obj.meta.namespace
      → R s (c.patch_secret obj change s).1

-- The relation holds between the states before and after the call.
abbrev pub Keeps : {S A : Type 0} → (S → S → Type 0) → Effect S A → Type 0
Keeps R m = (s : _) → R s (m s).1

module _ {c : Client} {Ns : String → Type 0} {own : ObjectKey} {R : c.State → c.State → Type 0}
    (frame : IsFrame c Ns own R) where
  pub and_then-Keeps :
      {A B : Type 0} (r : Outcome A) (f : A → Effect c.State B)
      → ((a : A) → r ≡ ok a → Keeps R (f a))
      → Keeps R (and_then r f)
  and_then-Keeps (ok a) f k = k a refl
  and_then-Keeps (err e) f k = λ s. frame.same s
  and_then-Keeps (panic m) f k = λ s. frame.same s

  pub bind-Keeps :
      {A B : Type 0} (m : Effect c.State A) (f : A → Effect c.State B)
      → Keeps R m
      → ((a : A) → Keeps R (f a))
      → Keeps R (m >>= f)
  bind-Keeps m f k l s =
      frame.chain s (m s).1 _ (k s) (and_then-Keeps (m s).0 f (λ a e. l a) (m s).1)

abbrev pub IsTarget : (String → Type 0) → Option ServiceMonitor → Type 0
IsTarget Ns none = Unit
IsTarget Ns (some t) = Ns t.meta.namespace

module _ (go : Runtime) {c : Client} {Ns : String → Type 0} {own : ObjectKey}
    {R : c.State → c.State → Type 0} (frame : IsFrame c Ns own R) where
  pub copy_secret-Keeps :
      (src : Secret) (target : Option ServiceMonitor)
      → IsTarget Ns target
      → Keeps R (copy_secret go c src target)
  unfolding copy_secret
  copy_secret-Keeps src none p s = frame.same s
  copy_secret-Keeps src (some t) p s = frame.secrets _ _ s p

  pub copy_service-Keeps :
      (src : Service) (target : Option ServiceMonitor)
      → IsTarget Ns target
      → Keeps R (copy_service go c src target)
  unfolding copy_service
  copy_service-Keeps src none p s = frame.same s
  copy_service-Keeps src (some t) p s = frame.services _ _ s p

  pub copy_endpoints-Keeps :
      (svc : Service) (src : Endpoints) (target : Option ServiceMonitor)
      → IsTarget Ns target
      → Keeps R (copy_endpoints go c svc src target)
  unfolding copy_endpoints
  copy_endpoints-Keeps svc src none p s = frame.same s
  copy_endpoints-Keeps svc src (some t) p s = frame.endpoints _ _ s p

  pub copy_service_monitor-Keeps :
      (prom : Prometheus) (src : ServiceMonitor)
      → Ns prom.meta.namespace
      → Keeps R (copy_service_monitor go c prom src)
  unfolding copy_service_monitor
  copy_service_monitor-Keeps prom src p =
      bind-Keeps frame (lift (c.as_selector prom.service_monitor_namespace_selector)) _ frame.same
        λ sel.
          bind-Keeps frame (read (c.list_namespaces sel)) _ frame.same
            λ items s. frame.monitors _ _ s (inl p)
