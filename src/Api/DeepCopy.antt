-- ===== src/Api/DeepCopy.antt =====
-- api/v1alpha1/zz_generated.deepcopy.go, over a memory with addresses. `DeepCopyInto` returns what it
-- writes to `*out`, which is no part of `*in`.
pub mod Structs
pub mod Readings
pub mod Copied
pub mod Layout
pub mod Apart
use yet_another_mysql_operat.Prelude.{List, [], ◌∷◌, Option, none, some, suc}
use yet_another_mysql_operat.Prelude.Text.{Text}
use yet_another_mysql_operat.Prelude.Assoc.{Map, put}
use yet_another_mysql_operat.Api.{MysqlConf, GroupReplicationSpec, MySqlStatus}
use yet_another_mysql_operat.Api.DeepCopy.Structs.{
  Address, Spec, Object, ObjectList, Cell, Memory, Action, write,
}

-- `for key, val := range *in { (*out)[key] = val }`
unfoldable pub copy_entries {ℓ} : {V : Type ℓ} → Map V → Map V → Map V
copy_entries [] out = out
copy_entries ((key, val) ∷ entries) out = copy_entries entries (put key val out)

-- `if in == nil { return nil }` before an action.
unfoldable pub unless_nil : {A B C : Type 0} → (A → C → B × C) → Option A → C → Option B × C
unless_nil f none m = (none, m)
unless_nil f (some a) m = let r = f a m in (some r.0, r.1)

-- `if c != nil { return c }; return nil`, as an interface, which is nil or holds a pointer.
abbrev pub as_object : Option Address → Option (Option Address)
as_object none = none
as_object (some c) = some (some c)

-- `out := new(T); in.DeepCopyInto(out); return out`, where a cell is read and written at type `T`.
unfoldable pub new_copy :
    {A C : Type 0} → (C → A) → (A → C → C) → (A → Action C A) → Address → Action C Address
unfolding write
new_copy get set into p m =
    let q = m.next in
    let r = into (get (m.at p)) (record m { next = suc q }) in (q, write q (set r.0 (r.1.at q)) r.1)

-- `*out = *in`, of a struct without references
abbrev pub assign : {A C : Type 0} → A → Action C A
assign a m = (a, m)

abbrev pub conf_into : {C : Type 0} → MysqlConf → Action C MysqlConf
conf_into entries m = (copy_entries entries [], m)

module _ {Meta ListMeta Other : Type 0} where
  -- A new map with the entries of the one at an address.
  unfoldable pub copy_conf : Address → Action (Cell Meta ListMeta Other) Address
  copy_conf = new_copy (λ c. c.conf) (λ a c. record c { conf = a }) conf_into

  unfoldable pub conf_deep_copy :
      Option Address → Action (Cell Meta ListMeta Other) (Option Address)
  conf_deep_copy = unless_nil copy_conf

  unfoldable pub group_replication_deep_copy :
      Option Address → Action (Cell Meta ListMeta Other) (Option Address)
  group_replication_deep_copy =
      unless_nil
        (new_copy (λ c. c.group_replication) (λ a c. record c { group_replication = a }) assign)

  unfoldable pub status_deep_copy :
      Option Address → Action (Cell Meta ListMeta Other) (Option Address)
  status_deep_copy = unless_nil (new_copy (λ c. c.status) (λ a c. record c { status = a }) assign)

  unfoldable pub spec_into : Spec Address → Action (Cell Meta ListMeta Other) (Spec Address)
  spec_into spec m =
      let conf = unless_nil copy_conf spec.mysql_conf m in
      (record spec { mysql_conf = conf.0 }, conf.1)

  unfoldable pub spec_deep_copy :
      Option Address → Action (Cell Meta ListMeta Other) (Option Address)
  spec_deep_copy = unless_nil (new_copy (λ c. c.spec) (λ a c. record c { spec = a }) spec_into)

  -- `DeepCopyInto` of the metadata is the library's.
  module _ (meta_into : Meta → Action (Cell Meta ListMeta Other) Meta)
      (list_meta_into : ListMeta → Action (Cell Meta ListMeta Other) ListMeta) where
    unfoldable pub object_into :
        Object Meta Address → Action (Cell Meta ListMeta Other) (Object Meta Address)
    object_into o m =
        let meta = meta_into o.meta m in
        let spec = spec_into o.spec meta.1 in (record o { meta = meta.0; spec = spec.0 }, spec.1)

    unfoldable pub deep_copy : Option Address → Action (Cell Meta ListMeta Other) (Option Address)
    deep_copy = unless_nil (new_copy (λ c. c.object) (λ a c. record c { object = a }) object_into)

    unfoldable pub deep_copy_object :
        Option Address → Action (Cell Meta ListMeta Other) (Option (Option Address))
    deep_copy_object p m = let c = deep_copy p m in (as_object c.0, c.1)

    -- `for i := range *in { (*in)[i].DeepCopyInto(&(*out)[i]) }`
    unfoldable pub objects_into :
        List (Object Meta Address) → Action (Cell Meta ListMeta Other) (List (Object Meta Address))
    objects_into [] m = ([], m)
    objects_into (o ∷ os) m =
        let first = object_into o m in
        let others = objects_into os first.1 in (first.0 ∷ others.0, others.1)

    -- A new array, of the length of the one at an address.
    unfoldable pub copy_objects : Address → Action (Cell Meta ListMeta Other) Address
    copy_objects = new_copy (λ c. c.objects) (λ a c. record c { objects = a }) objects_into

    unfoldable pub list_into :
        ObjectList ListMeta Address
        → Action (Cell Meta ListMeta Other) (ObjectList ListMeta Address)
    list_into l m =
        let meta = list_meta_into l.meta m in
        let items = unless_nil copy_objects l.items meta.1 in
        (record l { meta = meta.0; items = items.0 }, items.1)

    unfoldable pub list_deep_copy :
        Option Address → Action (Cell Meta ListMeta Other) (Option Address)
    list_deep_copy = unless_nil (new_copy (λ c. c.list) (λ a c. record c { list = a }) list_into)

    unfoldable pub list_deep_copy_object :
        Option Address → Action (Cell Meta ListMeta Other) (Option (Option Address))
    list_deep_copy_object p m = let c = list_deep_copy p m in (as_object c.0, c.1)
