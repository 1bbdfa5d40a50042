-- ===== src/Api/Webhook/Laws.antt =====
-- What the defaulting webhook guarantees of an admitted object.
use yet_another_mysql_operat.Prelude.{◌≡◌, ◌≢◌, refl, arith, [], ap}
use yet_another_mysql_operat.Prelude.Text.{Text}
use yet_another_mysql_operat.Prelude.Decimal.{pos}
use yet_another_mysql_operat.Api.{MySql, MySqlSpec, single_primary}
use yet_another_mysql_operat.Api.Webhook.{
  Object, mysql, other_kind, default, default_spec, default_image, default_storage_size,
}

-- What the controller relies on: no field that the webhook fills is left at its zero value.
pub record IsComplete (s : MySqlSpec) : Type 0 where
  pub image : s.image ≢ []
  pub storage_size : s.storage_size ≢ []
  pub port : s.port ≢ pos 0
  pub replicas : s.replicas ≢ pos 0
  pub mode : s.group_replication.mode ≢ []
  pub group_name : s.group_replication.group_name ≢ []

default_spec-IsComplete :
    (uuid : Text) (s : MySqlSpec) → uuid ≢ [] → IsComplete (default_spec uuid s)
unfolding default_spec default_image default_storage_size single_primary
default_spec-IsComplete uuid s h = ground arith

-- A complete specification is left as it is.
default_spec-fixed : (uuid : Text) (s : MySqlSpec) → IsComplete s → default_spec uuid s ≡ s
unfolding default_spec
default_spec-fixed uuid s c = ground arith

-- An admitted object has every defaulted field set, whatever it was sent with, and the webhook
-- changes neither its name, its namespace nor its status.
pub default-IsComplete :
    (uuid : Text) (m : MySql)
    → uuid ≢ []
    → (m' : MySql) × (default uuid (mysql m) ≡ mysql m')
      × IsComplete m'.spec
      × (m'.name ≡ m.name)
      × (m'.namespace ≡ m.namespace)
      × (m'.status ≡ m.status)
unfolding default
default-IsComplete uuid m h = (
  (record m { spec = default_spec uuid m.spec }),
  refl,
  default_spec-IsComplete uuid m.spec h,
  refl,
  refl,
  refl,
)

-- A second admission changes nothing, even though it draws another uuid, provided that the first
-- uuid is not empty.
pub default_idem :
    (uuid uuid' : Text) (o : Object) → uuid ≢ [] → default uuid' (default uuid o) ≡ default uuid o
unfolding default
default_idem uuid uuid' (mysql m) h =
    ap (λ s. mysql (record m { spec = s }))
      (default_spec-fixed uuid' _ (default_spec-IsComplete uuid m.spec h))
default_idem uuid uuid' other_kind h = refl
