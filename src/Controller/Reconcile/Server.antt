-- ===== src/Controller/Reconcile/Server.antt =====
-- What the controller relies on of `controllerutil.CreateOrUpdate` and the API server behind it.
use yet_another_mysql_operat.Prelude.{◌≡◌, ◌≢◌, Option, some}
use yet_another_mysql_operat.Prelude.Result.{ok, Exec}
use yet_another_mysql_operat.Prelude.Text.{Text}
use yet_another_mysql_operat.Controller.Objects.{Secret, ConfigMap, Service}
use yet_another_mysql_operat.Controller.StatefulSet.{StatefulSet}
use yet_another_mysql_operat.Controller.StatefulSet.Template.References.{Stored, ReferencesExist}
use yet_another_mysql_operat.Controller.Stages.{Cluster}

-- What `CreateOrUpdate` with a function `f` has done if it returns no error: `f` was run on some object,
-- the new one or the one that was there, and what it made of it is stored.
abbrev pub Stores : {A W : Type 0} → Option A → (A → Exec W A) → Type 0
Stores {A} {W} found f = (old new : A) × (v : W) × ((f old v).0 ≡ ok new) × (found ≡ some new)

-- The same for a kind of object that is changed on the way into the store.
abbrev pub StoresWith : {A W : Type 0} → (A → A) → Option A → (A → Exec W A) → Type 0
StoresWith {A} {W} change found f =
    (old new : A) × (v : W) × ((f old v).0 ≡ ok new) × (found ≡ some (change new))

-- The objects of a namespace on the API server, by kind and name. A write of an object changes no
-- other, a read none.
pub record Server {Key Quantity W : Type 0} (cluster : Cluster Key Quantity W) : Type 0 where
  pub secret_at : W → Text → Text → Option Secret
  pub config_map_at : W → Text → Text → Option ConfigMap
  pub stateful_set_at : W → Text → Text → Option (StatefulSet Quantity)
  pub secret_stored :
      (o : Secret) (f : Secret → Exec W Secret) (w : W)
      → (cluster.create_or_update_secret o f w).0 ≡ ok tt
      → Stores (secret_at (cluster.create_or_update_secret o f w).1 o.meta.namespace o.meta.name) f
  pub secret_others :
      (o : Secret) (f : Secret → Exec W Secret) (w : W) (namespace name : Text)
      → name ≢ o.meta.name
      → secret_at (cluster.create_or_update_secret o f w).1 namespace name
        ≡ secret_at w namespace name
  pub config_map_stored :
      (o : ConfigMap) (f : ConfigMap → Exec W ConfigMap) (w : W)
      → (cluster.create_or_update_config_map o f w).0 ≡ ok tt
      → Stores
          (config_map_at (cluster.create_or_update_config_map o f w).1 o.meta.namespace o.meta.name)
          f
  pub config_map_secrets :
      (o : ConfigMap) (f : ConfigMap → Exec W ConfigMap) (w : W)
      → secret_at (cluster.create_or_update_config_map o f w).1 ≡ secret_at w
  pub read_secrets :
      (namespace name : Text) (w : W)
      → secret_at (cluster.get_config_map namespace name w).1 ≡ secret_at w
  pub read_config_maps :
      (namespace name : Text) (w : W)
      → config_map_at (cluster.get_config_map namespace name w).1 ≡ config_map_at w
  pub service_secrets :
      (o : Service) (f : Service → Exec W Service) (w : W)
      → secret_at (cluster.create_or_update_service o f w).1 ≡ secret_at w
  pub service_config_maps :
      (o : Service) (f : Service → Exec W Service) (w : W)
      → config_map_at (cluster.create_or_update_service o f w).1 ≡ config_map_at w
  -- The API server fills in defaults where a field is empty. The annotations of the pods stay, and so
  -- does what the containers refer to.
  pub with_defaults : StatefulSet Quantity → StatefulSet Quantity
  pub default_annotations :
      (o : StatefulSet Quantity) → (with_defaults o).template.annotations ≡ o.template.annotations
  pub default_references :
      (stored : Stored) (o : StatefulSet Quantity)
      → ReferencesExist stored o
      → ReferencesExist stored (with_defaults o)
  pub stateful_set_stored :
      (o : StatefulSet Quantity) (f : StatefulSet Quantity → Exec W (StatefulSet Quantity)) (w : W)
      → (cluster.create_or_update_stateful_set o f w).0 ≡ ok tt
      → StoresWith with_defaults
          (stateful_set_at
            (cluster.create_or_update_stateful_set o f w).1
            o.meta.namespace
            o.meta.name)
          f
  pub stateful_set_secrets :
      (o : StatefulSet Quantity) (f : StatefulSet Quantity → Exec W (StatefulSet Quantity)) (w : W)
      → secret_at (cluster.create_or_update_stateful_set o f w).1 ≡ secret_at w
  pub stateful_set_config_maps :
      (o : StatefulSet Quantity) (f : StatefulSet Quantity → Exec W (StatefulSet Quantity)) (w : W)
      → config_map_at (cluster.create_or_update_stateful_set o f w).1 ≡ config_map_at w
